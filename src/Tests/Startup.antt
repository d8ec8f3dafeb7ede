-- ===== src/Tests/Startup.antt =====
-- The start of the server, and the rounds of a background thread, at concrete inputs.
use canchat.Base.{
  false, ◌+◌, ◌%◌, negsuc, Bool-cases, inl, inr, ◌≤ℤ◌, ℤ, pos, ◌+ℤ◌, +ℤ_parts, ℕ, String, none,
  some, true, List, ◌==◌, string_eq, nat_eq, ◌≡◌, ◌⊎◌, refl, arith, length, if◌then◌else◌,
}
use canchat.Base.Exec.{returns, throws}
use canchat.Config.{Printer}
use canchat.Config.Startup.{Process, Sourced, BadPort}
use canchat.App.{Running, run}
use canchat.App.Start.{Ready, run-Ready}
use canchat.Timer.{Clock, Settles, Awake, round_times}
use canchat.Timer.Rounds.{Spaced, round_times-Spaced}

abbrev pub printer : Printer
printer = record {
  show_string = λ s. elim s [ none ↦ "" | some t ↦ t ];
  show_port = λ n. "8443";
  truth = λ b. elim b [ none ↦ true | some c ↦ c ];
  truth_some = λ b. refl;
}

-- The host comes from the environment, the port from the command line.
abbrev pub started_by : Process
started_by = record {
  get_env = λ name. if name == "EXTERNAL_ADDRESS" then some "chat.example" else none;
  named_argument = λ name. if name == "--port" then some "443" else none;
  str_to_uint32 = λ text. if text == "443" then some 443 else none;
  cert_pem_path = "cert/test_key.pem";
  cert_crt_path = "cert/test_cert.crt";
}

run-Ready_example :
    (text : String) × Sourced started_by "EXTERNAL_PORT" "--port" "8443" text
    × (((run printer started_by ≡ throws "Invalid port!") × BadPort started_by text)
        ⊎ ((s : Running) × (port : ℕ) × (run printer started_by ≡ returns s)
            × (started_by.str_to_uint32 text ≡ some port)
            × Ready printer started_by port s))
run-Ready_example = run-Ready printer started_by

-- Before every third sleep that the clock counts, and during all work, it is set back by 100.
abbrev set_back : ℕ → ℤ
set_back k = if k % 3 == 0 then negsuc 99 else pos 0

abbrev adjusted : Clock
adjusted = record { wake = λ k now d. (now +ℤ d) +ℤ set_back k; resume = λ k now. now +ℤ negsuc 99 }

not_set_back : (k : ℕ) → k % 3 == 0 ≡ false → (now d : ℤ) → now +ℤ d ≤ℤ (now +ℤ d) +ℤ set_back k
not_set_back k e now d = rw e (omega (arith, +ℤ_parts (now +ℤ d) (pos 0)))

never_twice : (k : ℕ) → k % 3 == 0 ≡ true → (k + 1) % 3 == 0 ≡ false
never_twice k e = ground arith

adjusted-Settles : Settles adjusted 2
adjusted-Settles = record {
  settled = λ k. elim (Bool-cases (k % 3 == 0)) [
    | inl back ↦ (1, omega arith, not_set_back (k + 1) (never_twice k back))
    | inr on ↦ (0, omega arith, not_set_back (k + 0) (ground arith))
  ];
}

abbrev first : Awake
first = record { sleeps = 0; now = pos 100 }

round_times-Spaced_example :
    (ts : List (ℤ × ℤ)) × (round_times adjusted (pos 5) 2 3 first ≡ some ts)
    × (length ts ≡ 3)
    × Spaced (pos 5) ts
round_times-Spaced_example = round_times-Spaced adjusted 2 adjusted-Settles (pos 5) 3 first
