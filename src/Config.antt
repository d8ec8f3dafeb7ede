-- ===== src/Config.antt =====
-- server/src/dto/Config.hpp. The limits are fields of `ConfigDto`; a field may be null.
pub mod Redirect
pub mod Startup
use canchat.Base.{
  ℕ, nat_eq, String, str_append, Option, none, some, Bool, true, false, not, ◌==◌, ◌≡◌,
  if◌then◌else◌,
}

pub record ConfigDto : Type 0 where
  pub statistics_url : Option String
  pub host : Option String
  pub port : Option ℕ
  pub use_tls : Option Bool
  pub tls_private_key_path : Option String
  pub tls_certificate_chain_path : Option String
  pub max_message_size_bytes : Option ℕ
  pub max_room_history_messages : Option ℕ

-- ConfigDto::createShared(), with the defaults of its fields
abbrev pub default_config : ConfigDto
default_config = record {
  statistics_url = none;
  host = none;
  port = none;
  use_tls = some true;
  tls_private_key_path = none;
  tls_certificate_chain_path = none;
  max_message_size_bytes = some 8192;
  max_room_history_messages = some 100;
}

-- How oatpp prints a field to a stream, null included, and when a Boolean field passes a test.
pub record Printer : Type 0 where
  pub show_string : Option String → String
  pub show_port : Option ℕ → String
  pub truth : Option Bool → Bool
  pub truth_some : (b : Bool) → truth (some b) ≡ b

module _ (print : Printer) where
  -- The port that a client takes where the address names none.
  abbrev def_port : ConfigDto → ℕ
  def_port c = if print.truth c.use_tls then 443 else 80

  -- `!port || defPort != port`
  abbrev pub names_port : ConfigDto → Bool
  names_port c = elim c.port [ none ↦ true | some n ↦ not (def_port c == n) ]

  abbrev port_part : ConfigDto → String
  port_part c = if names_port c then str_append ":" (print.show_port c.port) else ""

  unfoldable pub get_host_string : ConfigDto → String
  get_host_string c = str_append (print.show_string c.host) (port_part c)

  unfoldable pub get_canonical_base_url : ConfigDto → String
  get_canonical_base_url c =
      str_append (if print.truth c.use_tls then "https://" else "http://")
        (str_append (print.show_string c.host) (port_part c))

  unfoldable pub get_websocket_base_url : ConfigDto → String
  get_websocket_base_url c =
      str_append (if print.truth c.use_tls then "wss://" else "ws://")
        (str_append (print.show_string c.host) (str_append ":" (print.show_port c.port)))

  unfoldable pub get_stats_url : ConfigDto → String
  get_stats_url c =
      str_append (get_canonical_base_url c) (str_append "/" (print.show_string c.statistics_url))
