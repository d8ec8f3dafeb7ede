-- ===== src/Tests/Others.antt =====
-- The theorems about the statistics, the nicknames and the addresses at concrete inputs.
use canchat.Base.{
  ℤ, pos, ◌-ℤ◌, ◌<ℤ◌, ℕ, ◌-◌, ◌*◌, ◌≤◌, String, string_eq, str_append, Option, Bool, none, some, [],
  ◌∷◌, ◌≡◌, ◌≢◌, ◌⊎◌, refl, arith, false, length, last?,
}
use canchat.Config.{Printer, default_config, get_host_string}
use canchat.Config.Redirect.{intercept, intercept_once, scheme}
use canchat.Nickname.{Generator, random, avatars, adjectives, nouns}
use canchat.Nickname.Words.{IsIn, random_words}
use canchat.Statistics.{
  Statistics, StatPoint, default_statistics, new_statistics, new_point, take_sample, reuses_last,
  run_stat_loop,
}
use canchat.Statistics.Sample.{Shows, take_sample-Shows}
use canchat.Statistics.Retention.{IsRetained, run_stat_loop_bounded}

-- Always the largest number.
abbrev greatest : Generator ℕ
greatest = record { uniform = λ lo hi e. (hi, e); in_range = λ lo hi e h. (h, omega arith) }

random_words_example :
    (a j n : String) × ((random greatest 0).0
      ≡ some (str_append a (str_append " " (str_append j (str_append " " n)))))
    × IsIn a avatars
    × IsIn j adjectives
    × IsIn n nouns
    × (j ≢ "Tiny")
    × (n ≢ "Year")
random_words_example = random_words greatest 0

abbrev text_of : Option String → String
text_of none = ""
text_of (some s) = s

abbrev port_text : Option ℕ → String
port_text p = "8443"

abbrev holds : Option Bool → Bool
holds none = false
holds (some b) = b

abbrev printer : Printer
printer = record {
  show_string = text_of;
  show_port = port_text;
  truth = holds;
  truth_some = λ b. refl;
}

intercept_once_example :
    (((some "evil.org" ≡ some (get_host_string printer default_config))
        × (intercept printer default_config (some "evil.org") "/room/a" ≡ none))
      ⊎ ((some "evil.org" ≢ some (get_host_string printer default_config))
          × (intercept printer default_config (some "evil.org") "/room/a"
              ≡ some (record {
                location =
                    str_append
                      (str_append
                        (scheme printer default_config)
                        (get_host_string printer default_config))
                      "/room/a";
              }))))
    × (intercept printer default_config (some (get_host_string printer default_config)) "/room/a"
        ≡ none)
intercept_once_example = intercept_once printer default_config (some "evil.org") "/room/a"

abbrev sampled : Statistics
sampled = record default_statistics { data_points = new_point (pos 10) ∷ [] }

take_sample-Shows_example :
    (t : Statistics) × (p : StatPoint) × (take_sample (pos 20) sampled ≡ some t)
    × (last? t.data_points ≡ some p)
    × Shows sampled.counters p
    × (t.counters ≡ sampled.counters)
    × ((p.timestamp ≡ pos 20) ⊎ (pos 20 -ℤ p.timestamp <ℤ sampled.push_interval))
unfolding new_statistics
take_sample-Shows_example = take_sample-Shows (pos 20) sampled (omega arith)

sampled-IsRetained : IsRetained sampled
unfolding new_statistics new_point ◌-ℤ◌
sampled-IsRetained = record { spaced = tt; spans = omega arith }

abbrev week_later : ℤ
week_later = pos 604_800_000_011

not_reused : reuses_last week_later sampled ≡ false
unfolding reuses_last new_statistics new_point ◌-ℤ◌
not_reused = refl

run_stat_loop_bounded_example :
    (t : Statistics) × (run_stat_loop
        ((sampled.counters, pos 5) ∷ (sampled.counters, pos 2) ∷ [])
        (new_statistics (pos 604_800_000_000) (pos 3_600_000_000))
      ≡ some t)
    × IsRetained t
    × ((length t.data_points - 1) * 3_600_000_000 ≤ 604_800_000_000)
run_stat_loop_bounded_example =
    run_stat_loop_bounded 3_600_000_000 604_800_000_000
      ((sampled.counters, pos 5) ∷ (sampled.counters, pos 2) ∷ [])
