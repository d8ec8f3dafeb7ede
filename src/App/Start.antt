-- ===== src/App/Start.antt =====
-- From the start of the server (server/src/App.cpp): what it is configured with, and what it does with
-- the events that come.
use canchat.Base.{
  ap, ◌==◌, nat_eq, if◌then◌else◌, true, str_append, none, arith, false, ◌⊎◌, inl, inr, ℕ, pos,
  String, some, List, [], ◌∷◌, ◌++◌, ◌≡◌, refl, subst,
}
use canchat.Base.Exec.{returns, throws}
use canchat.Config.{ConfigDto, Printer, get_canonical_base_url, get_stats_url}
use canchat.Config.Redirect.{intercept}
use canchat.Config.Startup.{
  Process, openssl, Sourced, Started, BadPort, create_config, config_with, create_config-Started,
}
use canchat.Statistics.{default_statistics}
use canchat.World.{World}
use canchat.Peer.Handlers.{Library}
use canchat.Lobby.{new_lobby}
use canchat.Service.Refines.{Refines}
use canchat.Service.{Call, View, run_view, handle_calls}
use canchat.Service.Runs.{IsEmpty, nobody, nobody-Refines, Answer, handle_calls-Refines, answer_lem}
use canchat.App.{
  start_messages, Components, Running, ws, root, chat_html, chat_js, get_file, stats,
  redirect_interceptor, create_components, statistics_controller, rooms_controller,
  static_controller, file_controller, server_thread, ping_thread, stat_thread, run, first_world,
}

-- The address of the site, whose port is named unless it is that of HTTPS.
abbrev pub address : Printer → String → ℕ → String
address print host port = str_append "https://" (
    str_append (print.show_string (some host))
      (if port == 443 then "" else str_append ":" (print.show_port (some port))))

-- A server that has been started on a port.
pub record Ready (print : Printer) (p : Process) (port : ℕ) (s : Running) : Type 0 where
  pub started : Started print p s.components.app_config port
  pub listens : s.components.connection_provider ≡ openssl started.chain started.key port
  pub routes :
      s.components.router
      ≡ record { path = "api/ws/room/{roomId}/"; endpoint = ws }
        ∷ record { path = "/"; endpoint = root }
        ∷ record { path = "room/{roomId}"; endpoint = chat_html }
        ∷ record { path = "room/{roomId}/chat.js"; endpoint = chat_js }
        ∷ record { path = "room/{roomId}/file/{fileId}"; endpoint = get_file }
        ∷ record { path = started.url; endpoint = stats }
        ∷ []
  pub redirects : s.components.interceptors ≡ redirect_interceptor ∷ []
  pub canonical :
      (path : String)
      → intercept print s.components.app_config none path
        ≡ some (record { location = str_append (address print started.host port) path })
  pub logged :
      s.logged
      ≡ str_append "clients are expected to connect at " (
          str_append "https://" (
            str_append
              (print.show_string (some started.host))
              (str_append ":" (str_append (print.show_port (some port)) "/"))))
        ∷ str_append "canonical base URL=" (address print started.host port)
        ∷ str_append "statistics URL=" (
            str_append
              (address print started.host port)
              (str_append "/" (print.show_string (some started.url))))
        ∷ []
  pub message_limit : s.components.app_config.max_message_size_bytes ≡ some 8192
  pub history_limit : s.components.app_config.max_room_history_messages ≡ some 100
  pub threads :
      s.threads ≡ server_thread ∷ ping_thread (pos 30_000_000) ∷ stat_thread (pos 1_000_000) ∷ []
  pub empty : IsEmpty (first_world s.components)
  pub first_number : s.components.lobby.peer_id_counter ≡ pos 1
  pub nothing_counted : s.components.statistics ≡ default_statistics

-- The limits are the defaults, and so is TLS.
limits :
    (p : Process) (c : ConfigDto)
    → create_config p ≡ returns c
    → (c.max_message_size_bytes ≡ some 8192)
      × (c.max_room_history_messages ≡ some 100)
      × (c.use_tls ≡ some true)
unfolding create_config config_with
limits p c e = ground (arith, e)

address_lem :
    (print : Printer) (c : ConfigDto) (host : String) (port : ℕ)
    → c.use_tls ≡ some true
    → c.host ≡ some host
    → c.port ≡ some port
    → get_canonical_base_url print c ≡ address print host port
unfolding get_canonical_base_url
address_lem print c host port tls host_is port_is =
    rw (tls, host_is, port_is) (ground (arith, print.truth_some true))

module _ (print : Printer) (p : Process) (port : ℕ) (c : ConfigDto)
    (made : create_config p ≡ returns c) (k : Started print p c port) where
  abbrev components : Components
  components = record {
    app_config = c;
    connection_provider = openssl k.chain k.key port;
    router =
        ((rooms_controller ++ static_controller) ++ file_controller)
        ++ record { path = k.url; endpoint = stats } ∷ [];
    interceptors = redirect_interceptor ∷ [];
    include_null_fields = false;
    statistics = default_statistics;
    lobby = new_lobby;
  }

  abbrev running : Running
  running = record {
    components = components;
    logged = start_messages print c;
    threads = server_thread ∷ ping_thread (pos 30_000_000) ∷ stat_thread (pos 1_000_000) ∷ [];
  }

  run_lem : run print p ≡ returns running
  unfolding run create_components statistics_controller
  run_lem = rw (made, k.listens, k.url_is) refl

  site : get_canonical_base_url print c ≡ address print k.host port
  site = address_lem print c k.host port (limits p c made).2 k.host_is k.port_is

  running-Ready : Ready print p port running
  unfolding intercept start_messages get_stats_url
  running-Ready = record {
    started = k;
    listens = refl;
    routes = refl;
    redirects = refl;
    canonical = λ path. ap (λ u. some (record { location = str_append u path })) site;
    logged =
        rw (site, (limits p c made).2, print.truth_some true, k.host_is, k.port_is, k.url_is) refl;
    message_limit = (limits p c made).0;
    history_limit = (limits p c made).1;
    threads = refl;
    empty = record {
      no_rooms = refl;
      fresh_rooms = λ q past. refl;
      fresh_peers = λ q past. refl;
      fresh_files = λ q past. refl;
    };
    first_number = refl;
    nothing_counted = refl;
  }

-- The server either does not start, and says so, because the text of the port is no number up to
-- 65535; or it runs on this port, with every other setting from the environment, else from the
-- command line, else the default. It then listens with TLS under the chain and the key of the
-- settings, has the routes of the four controllers with that of the statistics at the address of the
-- settings, redirects requests without a host to the canonical address, that is https with the host
-- and, unless it is 443, the port, logs where clients connect, the canonical address and that of the
-- statistics, takes messages of at most 8192 bytes and remembers 100 of them, pings every 30 seconds
-- and samples every second, and has no room, no peer and no file.
pub run-Ready :
    (print : Printer) (p : Process)
    → (text : String) × Sourced p "EXTERNAL_PORT" "--port" "8443" text
      × (((run print p ≡ throws "Invalid port!") × BadPort p text)
          ⊎ ((s : Running) × (port : ℕ) × (run print p ≡ returns s)
              × (p.str_to_uint32 text ≡ some port)
              × Ready print p port s))
unfolding run create_components
run-Ready print p =
    let (text, sourced, outcome) = create_config-Started print p in
    (
      text,
      sourced,
      elim outcome [
        | inl (bad, why) ↦ inl (rw bad refl, why)
        | inr (c, port, made, is_port, k) ↦ inr (
          running print p port c made k,
          port,
          run_lem print p port c made k,
          is_port,
          running-Ready print p port c made k,
        )
      ],
    )

-- What a started server is, by what `run` returned.
run-IsEmpty :
    (print : Printer) (p : Process) (s : Running)
    → run print p ≡ returns s
    → IsEmpty (first_world s.components)
      × ((first_world s.components).lobby.peer_id_counter ≡ pos 1)
run-IsEmpty print p s e =
    let (text, sourced, outcome) = run-Ready print p in
    elim outcome [
      | inl (bad, why) ↦ absurd (ground (arith, bad, e))
      | inr (s', port, ran, is_port, k) ↦
          let same : s' ≡ s = ground (arith, ran, e) in
          subst
            (λ x.
              IsEmpty (first_world x.components)
              × ((first_world x.components).lobby.peer_id_counter ≡ pos 1))
            same (k.empty, k.first_number)
    ]

-- A server that `run` has started, and any calls after it that the view of the rooms allows from the
-- beginning, where there is no room and the first number is 1: no handler throws or reads through a
-- null pointer, and the lobby then has under each name the room of the view, with somebody in it and
-- the last messages said there since it was opened, and `nullptr` where the view has no room.
pub run-Answer :
    (print : Printer) (p : Process) (s : Running) (lib : Library) (calls : List Call) (v : View)
    → run print p ≡ returns s
    → run_view calls (nobody (pos 1)) ≡ some v
    → (w' : World) × ((handle_calls lib calls (first_world s.components) ≡ (returns tt, w'))
        × ((name : String) → Answer name (v.channels name) w'))
run-Answer print p s lib calls v e allowed =
    let (empty, first) = run-IsEmpty print p s e in
    let w = first_world s.components in
    let (w', (ran, fine)) =
      handle_calls-Refines lib calls (nobody (pos 1)) v w
        (subst (λ n. Refines (nobody n) w) first (nobody-Refines w empty)) allowed in
    (w', (ran, λ name. answer_lem name (v.channels name) v.next_id w' (fine.rooms name)))
