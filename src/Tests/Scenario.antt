-- ===== src/Tests/Scenario.antt =====
-- Runs of the server on small inputs.
use canchat.Base.{suc_int, ◌+ℤ◌, some, [], ◌∷◌, ◌≡◌, refl, length}
use canchat.Base.Map.{get, insert, erase}
use canchat.Base.Exec.{◌>>=◌}
use canchat.World.{World}
use canchat.Peer
use canchat.Room
use canchat.Lobby.{
  on_after_create, on_before_destroy, get_or_create_room, obtain_new_peer_id, delete_room,
}
use canchat.Tests.{start}

-- With the methods of peers and rooms open.
two_peers : World
unfolding get insert suc_int ◌+ℤ◌ on_after_create get_or_create_room obtain_new_peer_id
    Room.make_room Room.welcome_peer Room.add_history_message Room.push_history Room.history_limit
    Room.trim Room.send_to_all Room.add_peer Room.onboard_peer Room.get_history Room.new_room
    Peer.send_message_async Peer.new_peer
two_peers =
    ((on_after_create 70 (some "den") (some "Fox") >>= λ _.
    on_after_create 71 (some "den") (some "Owl"))
      start).1

two_peers_sent : length two_peers.sent ≡ 3
unfolding two_peers
two_peers_sent = refl

two_peers_rooms : two_peers.lobby.rooms ≡ ("den", 0) ∷ []
unfolding two_peers
two_peers_rooms = refl

empty_again : (on_before_destroy 1 (on_before_destroy 0 two_peers).1).1.lobby.rooms ≡ []
unfolding two_peers erase on_before_destroy delete_room Room.remove_peer_by_id Room.goodbye_peer
    Room.is_empty Peer.invalidate_socket
empty_again = refl
