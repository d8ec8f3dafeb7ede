-- ===== src/App.antt =====
-- server/src/AppComponent.hpp and server/src/App.cpp: the components that the server is made of, and
-- what `run` starts. Executor, router, connection handlers and threads are oatpp's and the standard
-- library's: what is kept of them is what the source gives them.
pub mod Start
use canchat.Base.{
  str_append, if◌then◌else◌, ℤ, pos, Bool, false, String, Option, none, some, List, [], ◌∷◌, ◌++◌,
}
use canchat.Base.Heap
use canchat.Base.Exec.{Outcome, returns, throws, undefined}
use canchat.Config.{ConfigDto, Printer, get_canonical_base_url, get_stats_url}
use canchat.Config.Startup.{Process, ConnectionProvider, create_config, create_connection_provider}
use canchat.Statistics.{Statistics, default_statistics}
use canchat.World.{World, Lobby}
use canchat.Lobby.{new_lobby}

infixl 5 ◌>>=◌
abbrev ◌>>=◌ : {A B : Type 0} → Outcome A → (A → Outcome B) → Outcome B
returns a >>= f = f a
throws e >>= f = throws e
undefined >>= f = undefined

-- The endpoints of the four controllers.
pub data Endpoint : Type 0 where
  ws : Endpoint
  root : Endpoint
  chat_html : Endpoint
  chat_js : Endpoint
  get_file : Endpoint
  stats : Endpoint

-- A path pattern for the method GET. oatpp's router tries the patterns in their order.
pub record Route : Type 0 where
  pub path : String
  pub endpoint : Endpoint

-- The interceptors of the HTTP connection handler.
pub data Interceptor : Type 0 where
  redirect_interceptor : Interceptor

-- AppComponent
pub record Components : Type 0 where
  pub app_config : ConfigDto
  pub connection_provider : ConnectionProvider
  pub router : List Route
  pub interceptors : List Interceptor
  pub include_null_fields : Bool
  pub statistics : Statistics
  pub lobby : Lobby

-- The components are made in the order of their declarations.
unfoldable pub create_components : Printer → Process → Outcome Components
create_components print p = do
  config ← create_config p
  provider ← create_connection_provider print config
  returns (record {
    app_config = config;
    connection_provider = provider;
    router = [];
    interceptors = redirect_interceptor ∷ [];
    include_null_fields = false;
    statistics = default_statistics;
    lobby = new_lobby;
  })

abbrev pub rooms_controller : List Route
rooms_controller = record { path = "api/ws/room/{roomId}/"; endpoint = ws } ∷ []

abbrev pub static_controller : List Route
static_controller =
    record { path = "/"; endpoint = root }
    ∷ record { path = "room/{roomId}"; endpoint = chat_html }
    ∷ record { path = "room/{roomId}/chat.js"; endpoint = chat_js }
    ∷ []

abbrev pub file_controller : List Route
file_controller = record { path = "room/{roomId}/file/{fileId}"; endpoint = get_file } ∷ []

-- The path is a setting; a null one is read through.
unfoldable pub statistics_controller : ConfigDto → Outcome (List Route)
statistics_controller config = elim config.statistics_url [
  | none ↦ undefined
  | some url ↦ returns (record { path = url; endpoint = stats } ∷ [])
]

-- router->addController
abbrev pub add_controller : List Route → Components → Components
add_controller routes c = record c { router = c.router ++ routes }

-- The threads of the server, with the intervals of the loops in microseconds.
pub data Background : Type 0 where
  server_thread : Background
  ping_thread : ℤ → Background
  stat_thread : ℤ → Background

-- What is logged at the start.
unfoldable pub start_messages : Printer → ConfigDto → List String
start_messages print config =
    str_append "clients are expected to connect at " (
      str_append (if print.truth config.use_tls then "https://" else "http://") (
        str_append (print.show_string config.host)
          (str_append ":" (str_append (print.show_port config.port) "/"))))
    ∷ str_append "canonical base URL=" (get_canonical_base_url print config)
    ∷ str_append "statistics URL=" (get_stats_url print config)
    ∷ []

pub record Running : Type 0 where
  pub components : Components
  pub logged : List String
  pub threads : List Background

-- run
unfoldable pub run : Printer → Process → Outcome Running
run print p = do
  made ← create_components print p
  statistics_routes ← statistics_controller made.app_config
  returns (record {
    components = add_controller statistics_routes (
        add_controller file_controller
          (add_controller static_controller (add_controller rooms_controller made)));
    logged = start_messages print made.app_config;
    threads = server_thread ∷ ping_thread (pos 30_000_000) ∷ stat_thread (pos 1_000_000) ∷ [];
  })

-- The state in which the first event finds the server.
abbrev pub first_world : Components → World
first_world c = record {
  config = c.app_config;
  statistics = c.statistics;
  room_heap = Heap.empty;
  peer_heap = Heap.empty;
  file_heap = Heap.empty;
  subscriber_heap = Heap.empty;
  lobby = c.lobby;
  sent = [];
}
