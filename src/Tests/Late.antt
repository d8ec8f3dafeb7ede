-- ===== src/Tests/Late.antt =====
-- The host leaves while its file is requested, and a message of a peer that was dropped.
use canchat.Base.{pos, some, none, [], ◌∷◌, ◌≡◌, refl, arith, int_eq, ℕ}
use canchat.Base.Heap
use canchat.Base.Exec.{returns, undefined, ◌>>=◌}
use canchat.Dto.{MessageDto, message_dto, empty_envelope, null_history, code_info}
use canchat.World.{World, Peer}
use canchat.Peer.{
  send_error, error_message, run_starter, on_api_error, send_ping_async, invalidate_socket, ping,
}
use canchat.Peer.Handlers.{handle_message, dispatch}
use canchat.Peer.Dropped.{refused_after_ping}
use canchat.Room.{ping_peer}
use canchat.Room.Pinging.{Pingable}
use canchat.Lobby.{on_before_destroy}
use canchat.FileEndpoint.{streaming, content_disposition}
use canchat.FileEndpoint.Late.{late_file, Stalled, late_file-Stalled}
use canchat.Tests.Requests.{texts, notes_there}
use canchat.Tests.Leaving.{fox_connected}
use canchat.Tests.Peers.{lib}
use canchat.Tests.{den, owl, fox, notes}

late_file-Stalled_example :
    (s : ℕ) × (w' : World) × (late_file texts 0 (pos 1) (on_before_destroy 0) den
      ≡ (returns (streaming (content_disposition texts (some "notes.txt")) s), w'))
    × Stalled s 0 (pos 1) w'
late_file-Stalled_example =
    late_file-Stalled texts 0 0 0 (pos 1) den [] fox_connected notes notes_there refl refl refl refl
      (omega arith)

-- The owl has not answered the last ping.
abbrev sleepy_owl : Peer
sleepy_owl = record owl { ping_pong_counter = pos 1 }

abbrev sleepy_den : World
sleepy_den = record den { peer_heap = Heap.alloc sleepy_owl (Heap.alloc fox Heap.empty) }

abbrev sleepy : Pingable sleepy_den.peer_heap 1
sleepy = record { peer = sleepy_owl; peer_at = refl; counter_left = omega arith }

abbrev info : MessageDto
info = message_dto (record empty_envelope { message_code = some code_info }) null_history

info_refused : handle_message lib 1 (pos 9) info (ping_peer 1 sleepy_den).1 ≡ (
  returns (send_error none (error_message "Invalid client message code.")),
  (ping_peer 1 sleepy_den).1,
)
unfolding handle_message dispatch on_api_error ping_peer send_ping_async invalidate_socket ping
    canchat.Base.suc_int canchat.Base.◌+ℤ◌
info_refused = refl

refused_after_ping_example :
    (handle_message lib 1 (pos 9) info >>= run_starter) (ping_peer 1 sleepy_den).1
    ≡ (undefined, (ping_peer 1 sleepy_den).1)
refused_after_ping_example =
    refused_after_ping lib 1 (pos 9) info sleepy_den (ping_peer 1 sleepy_den).1 none
      (error_message "Invalid client message code.") sleepy refl info_refused
