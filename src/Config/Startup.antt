-- ===== src/Config/Startup.antt =====
-- The components `appConfig` and `serverConnectionProvider` of server/src/AppComponent.hpp: the
-- configuration from the environment and the command line, and what the server listens with.
use canchat.Base.{
  Bool-cases, true, refl, ap, ◌⊎◌, ◌<◌, arith, ℕ, ◌%◌, ◌^◌, ◌≤◌, String, Option, none, some, ltb,
  ◌≡◌, inl, inr, Option-cases, if◌then◌else◌,
}
use canchat.Base.Exec.{Outcome, returns, throws, undefined}
use canchat.Config.{ConfigDto, Printer, default_config}

-- What the process is started with. `get_env` is `std::getenv`, `named_argument` is `none` for an
-- argument that is not on the command line, `str_to_uint32` is `none` where oatpp's conversion reports
-- no success; the two paths are given by the build.
pub record Process : Type 0 where
  pub get_env : String → Option String
  pub named_argument : String → Option String
  pub str_to_uint32 : String → Option ℕ
  pub cert_pem_path : String
  pub cert_crt_path : String

-- m_cmdArgs.getNamedArgumentValue(name, default)
abbrev pub argument_or : Process → String → String → String
argument_or p name default = elim (p.named_argument name) [ none ↦ default | some v ↦ v ]

-- A setting is null in the environment, and then taken from the command line.
unfoldable pub setting : Process → String → String → String → String
setting p env name default = elim (p.get_env env) [ none ↦ argument_or p name default | some v ↦ v ]

abbrev pub port_text : Process → String
port_text p = setting p "EXTERNAL_PORT" "--port" "8443"

-- The configuration with the port cut to `v_uint16`.
unfoldable pub config_with : Process → ℕ → ConfigDto
config_with p port = record default_config {
  host = some (setting p "EXTERNAL_ADDRESS" "--host" "localhost");
  port = some (port % 2 ^ 16);
  tls_private_key_path = some (setting p "TLS_FILE_PRIVATE_KEY" "--tls-key" p.cert_pem_path);
  tls_certificate_chain_path = some (setting p "TLS_FILE_CERT_CHAIN" "--tls-chain" p.cert_crt_path);
  statistics_url = some (setting p "URL_STATS_PATH" "--url-stats" "admin/stats.json");
}

unfoldable pub create_config : Process → Outcome ConfigDto
create_config p = elim (p.str_to_uint32 (port_text p)) [
  | none ↦ throws "Invalid port!"
  | some port ↦ if ltb 65535 port then throws "Invalid port!" else returns (config_with p port)
]

-- The address is "0.0.0.0" in both.
pub data ConnectionProvider : Type 0 where
  openssl : String → String → ℕ → ConnectionProvider
  tcp : ℕ → ConnectionProvider

-- A null path or a null port is read through.
abbrev secure : Option String → Option String → ℕ → Outcome ConnectionProvider
secure none key port = undefined
secure (some chain) none port = undefined
secure (some chain) (some key) port = returns (openssl chain key port)

unfoldable pub create_connection_provider : Printer → ConfigDto → Outcome ConnectionProvider
create_connection_provider print config = elim config.port [
  | none ↦ undefined
  | some port ↦
      if print.truth config.use_tls
      then secure config.tls_certificate_chain_path config.tls_private_key_path port
      else returns (tcp port)
]

-- Where a setting comes from: the environment goes before the command line, and that before the
-- default.
pub data Sourced (p : Process) (env name default : String) : String → Type 0 where
  from_env : (v : String) → p.get_env env ≡ some v → Sourced p env name default v
  from_argument :
      (v : String)
      → p.get_env env ≡ none
      → p.named_argument name ≡ some v
      → Sourced p env name default v
  from_default :
      p.get_env env ≡ none → p.named_argument name ≡ none → Sourced p env name default default

setting-Sourced :
    (p : Process) (env name default : String)
    → Sourced p env name default (setting p env name default)
unfolding setting
setting-Sourced p env name default = elim (Option-cases (p.get_env env)) [
  | inr (v, e) ↦ rw (e, setting) (from_env v e)
  | inl e ↦ elim (Option-cases (p.named_argument name)) [
    | inr (v, a) ↦ rw (e, a, setting, argument_or) (from_argument v e a)
    | inl a ↦ rw (e, a, setting, argument_or) (from_default e a)
  ]
]

-- A configuration that the server starts with.
pub record Started (print : Printer) (p : Process) (c : ConfigDto) (port : ℕ) : Type 0 where
  pub host : String
  pub chain : String
  pub key : String
  pub url : String
  pub host_is : c.host ≡ some host
  pub url_is : c.statistics_url ≡ some url
  pub port_is : c.port ≡ some port
  pub in_range : port ≤ 65535
  pub host_from : Sourced p "EXTERNAL_ADDRESS" "--host" "localhost" host
  pub key_from : Sourced p "TLS_FILE_PRIVATE_KEY" "--tls-key" p.cert_pem_path key
  pub chain_from : Sourced p "TLS_FILE_CERT_CHAIN" "--tls-chain" p.cert_crt_path chain
  pub url_from : Sourced p "URL_STATS_PATH" "--url-stats" "admin/stats.json" url
  pub listens : create_connection_provider print c ≡ returns (openssl chain key port)

config_with-Started :
    (print : Printer) (p : Process) (port : ℕ)
    → port ≤ 65535
    → Started print p (config_with p port) port
unfolding config_with create_connection_provider
config_with-Started print p port h =
    let e : port % 2 ^ 16 ≡ port = omega arith in
    record {
      host = setting p "EXTERNAL_ADDRESS" "--host" "localhost";
      chain = setting p "TLS_FILE_CERT_CHAIN" "--tls-chain" p.cert_crt_path;
      key = setting p "TLS_FILE_PRIVATE_KEY" "--tls-key" p.cert_pem_path;
      url = setting p "URL_STATS_PATH" "--url-stats" "admin/stats.json";
      host_is = refl;
      url_is = refl;
      port_is = ap some e;
      in_range = h;
      host_from = setting-Sourced p "EXTERNAL_ADDRESS" "--host" "localhost";
      key_from = setting-Sourced p "TLS_FILE_PRIVATE_KEY" "--tls-key" p.cert_pem_path;
      chain_from = setting-Sourced p "TLS_FILE_CERT_CHAIN" "--tls-chain" p.cert_crt_path;
      url_from = setting-Sourced p "URL_STATS_PATH" "--url-stats" "admin/stats.json";
      listens = rw (print.truth_some true, e);
    }

-- Why there is no configuration.
pub data BadPort (p : Process) (text : String) : Type 0 where
  not_a_number : p.str_to_uint32 text ≡ none → BadPort p text
  too_large : (n : ℕ) → p.str_to_uint32 text ≡ some n → 65535 < n → BadPort p text

-- Either the text of the port is no number up to 65535, and the server does not start; or it starts
-- with exactly this port, with every other setting from the environment, else from the command line,
-- else the default, and listens with TLS under the chain and the key of these settings.
pub create_config-Started :
    (print : Printer) (p : Process)
    → (text : String) × Sourced p "EXTERNAL_PORT" "--port" "8443" text
      × (((create_config p ≡ throws "Invalid port!") × BadPort p text)
          ⊎ ((c : ConfigDto) × (port : ℕ) × (create_config p ≡ returns c)
              × (p.str_to_uint32 text ≡ some port)
              × Started print p c port))
unfolding create_config
create_config-Started print p = (
  port_text p,
  setting-Sourced p "EXTERNAL_PORT" "--port" "8443",
  elim (Option-cases (p.str_to_uint32 (port_text p))) [
    | inl e ↦ inl (rw (e, create_config), not_a_number e)
    | inr (n, e) ↦ elim (Bool-cases (ltb 65535 n)) [
      | inl l ↦ inl (rw (e, l, create_config), too_large n e (ground arith))
      | inr l ↦ inr (
        config_with p n,
        n,
        rw (e, l, create_config),
        e,
        config_with-Started print p n (ground arith),
      )
    ]
  ],
)
