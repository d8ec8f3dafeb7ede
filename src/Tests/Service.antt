-- ===== src/Tests/Service.antt =====
-- A server from its start: two peers talk in a room and leave it, and a third peer opens it again.

use canchat.Base.{
  false, ◌++◌, ℤ, pos, String, string_eq, int_eq, ℕ, Option, none, some, List, [], ◌∷◌, ◌≡◌, refl,
}
use canchat.Base.Map.{get, insert, erase}
use canchat.Base.Exec.{returns}
use canchat.Dto.{null_history}
use canchat.World.{World}
use canchat.Tests.Requests.{texts}
use canchat.Service.{
  requests, Offer, shares, shown, has_shared, pings, answers, View, Call, joins, says, leaves, step,
  run_view, handle_calls, has_joined, has_said,
}
use canchat.Service.Refines.{Refines}
use canchat.Service.Runs.{IsEmpty, nobody, Answer, handle_calls-Refines, nobody-Refines}
use canchat.Tests.{ticks, start, hello}
use canchat.Tests.Peers.{lib}
use canchat.Tests.Startup.{printer, started_by}
use canchat.Statistics.{default_statistics}
use canchat.Lobby.{new_lobby}
use canchat.Config.{ConfigDto, default_config, get_canonical_base_url, get_stats_url}
use canchat.Config.Startup.{
  openssl, create_config, config_with, setting, create_connection_provider,
}
use canchat.App.{
  start_messages, Running, run, first_world, rooms_controller, static_controller, file_controller,
  stats, redirect_interceptor, server_thread, ping_thread, stat_thread, create_components,
  statistics_controller,
}
use canchat.App.Start.{run-Answer}

start-IsEmpty : IsEmpty start
start-IsEmpty = record {
  no_rooms = refl;
  fresh_rooms = λ p past. refl;
  fresh_peers = λ p past. refl;
  fresh_files = λ p past. refl;
}

abbrev photo : Offer
photo = record { client_file_id = pos 7; file_name = "a.jpg"; file_size = pos 300 }

abbrev song : Offer
song = record { client_file_id = pos 8; file_name = "b.ogg"; file_size = pos 40 }

abbrev morning : List Call
morning =
    joins 70 "den" "Fox"
    ∷ joins 71 "den" "Owl"
    ∷ pings
    ∷ answers "den" (pos 1)
    ∷ pings
    ∷ says "den" (pos 1) (ticks (pos 500) (pos 501)) hello null_history
    ∷ shares "den" (pos 2) (ticks (pos 690) (pos 700)) (photo ∷ song ∷ [])
    ∷ leaves "den" (pos 1)
    ∷ []

abbrev day : List Call
day =
    joins 70 "den" "Fox"
    ∷ joins 71 "den" "Owl"
    ∷ leaves "den" (pos 1)
    ∷ leaves "den" (pos 2)
    ∷ joins 72 "den" "Elk"
    ∷ shares "den" (pos 3) (ticks (pos 790) (pos 800)) (photo ∷ [])
    ∷ requests texts "den" "1"
    ∷ requests texts "attic" "1"
    ∷ says "den" (pos 3) (ticks (pos 900) (pos 901)) hello null_history
    ∷ []

abbrev view_of : Option View → View
view_of none = nobody (pos 0)
view_of (some v) = v

abbrev noon : View
noon = view_of (run_view morning (nobody (pos 1)))

abbrev night : View
night = view_of (run_view day (nobody (pos 1)))

-- Nothing that was said before the room was opened again is remembered.
night_den :
    night.channels "den"
    ≡ some (record {
      members = (pos 3, "Elk") ∷ [];
      next_file = pos 2;
      log =
          has_joined (pos 3) "Elk"
          ∷ has_shared (pos 3) "Elk" (pos 800) (shown (pos 1) (photo ∷ []))
          ∷ has_said (pos 3) "Elk" (pos 900) hello null_history
          ∷ [];
    })
unfolding run_view step insert erase get canchat.Base.suc_int canchat.Base.◌+ℤ◌
night_den = refl

morning_allowed : run_view morning (nobody (pos 1)) ≡ some noon
unfolding run_view step insert erase get canchat.Base.suc_int canchat.Base.◌+ℤ◌
morning_allowed = refl

handle_calls-Refines_example :
    (w' : World) × ((handle_calls lib morning start ≡ (returns tt, w')) × Refines noon w')
handle_calls-Refines_example =
    handle_calls-Refines lib morning (nobody (pos 1)) noon start
      (nobody-Refines start start-IsEmpty) morning_allowed

day_allowed : run_view day (nobody (pos 1)) ≡ some night
unfolding run_view step insert erase get canchat.Base.suc_int canchat.Base.◌+ℤ◌
day_allowed = refl

abbrev settings : ConfigDto
settings = record default_config {
  host = some "chat.example";
  port = some 443;
  tls_private_key_path = some "cert/test_key.pem";
  tls_certificate_chain_path = some "cert/test_cert.crt";
  statistics_url = some "admin/stats.json";
}

abbrev server : Running
server = record {
  components = record {
    app_config = settings;
    connection_provider = openssl "cert/test_cert.crt" "cert/test_key.pem" 443;
    router =
        ((rooms_controller ++ static_controller) ++ file_controller)
        ++ record { path = "admin/stats.json"; endpoint = stats } ∷ [];
    interceptors = redirect_interceptor ∷ [];
    include_null_fields = false;
    statistics = default_statistics;
    lobby = new_lobby;
  };
  logged =
      "clients are expected to connect at https://chat.example:8443/"
      ∷ "canonical base URL=https://chat.example"
      ∷ "statistics URL=https://chat.example/admin/stats.json" ∷ [];
  threads = server_thread ∷ ping_thread (pos 30_000_000) ∷ stat_thread (pos 1_000_000) ∷ [];
}

server_runs : run printer started_by ≡ returns server
unfolding run create_components create_config config_with setting create_connection_provider
    statistics_controller start_messages get_canonical_base_url get_stats_url
server_runs = refl

run-Answer_example :
    (w' : World) × ((handle_calls lib day (first_world server.components) ≡ (returns tt, w'))
      × ((name : String) → Answer name (night.channels name) w'))
run-Answer_example = run-Answer printer started_by server lib day night server_runs day_allowed
