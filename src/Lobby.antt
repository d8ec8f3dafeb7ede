-- ===== src/Lobby.antt =====
-- server/src/rooms/Lobby.cpp: the rooms by name, and the life of a connection.
pub mod Connecting
pub mod Disconnecting
pub mod Overlap
pub mod Rounds
use canchat.Base.{
  ℤ, pos, suc_int, int64_max, suc_uint64, String, string_eq, ℕ, Option, none, some, [],
  if◌then◌else◌,
}
use canchat.Base.Map.{get, insert, erase, values}
use canchat.Base.Heap
use canchat.Base.Exec.{pure, deref, modify, gets, for_each, ◌>>=◌, ◌>>◌}
use canchat.World.{World, Action, Lobby, load_peer, load_room, count_event}
use canchat.Peer.{new_peer, invalidate_socket}
use canchat.Room.{
  make_room, add_peer, welcome_peer, onboard_peer, goodbye_peer, remove_peer_by_id, ping_all_peers,
  is_empty,
}

abbrev pub new_lobby : Lobby
new_lobby = record { peer_id_counter = pos 1; rooms = [] }

abbrev store_lobby : Lobby → World → World
store_lobby l w = record w { lobby = l }

unfoldable pub obtain_new_peer_id : Action ℤ
obtain_new_peer_id = do
  lobby ← gets (λ w. w.lobby)
  modify (store_lobby (record lobby { peer_id_counter = suc_int int64_max lobby.peer_id_counter }))
  pure lobby.peer_id_counter

unfoldable pub get_or_create_room : String → Action ℕ
get_or_create_room name = do
  lobby ← gets (λ w. w.lobby)
  elim (get name lobby.rooms) [
    | some r ↦ pure r
    | none ↦ do
      r ← make_room name
      modify (store_lobby (record lobby { rooms = insert name r lobby.rooms }))
      pure r
  ]

unfoldable pub get_room : String → Action (Option ℕ)
get_room name = do lobby ← gets (λ w. w.lobby); pure (get name lobby.rooms)

unfoldable pub delete_room : String → Action Unit
delete_room name = do
  lobby ← gets (λ w. w.lobby)
  modify (store_lobby (record lobby { rooms = erase name lobby.rooms }))

-- One round of `runPingLoop`, after the sleep.
unfoldable pub ping_round : Action Unit
ping_round = do lobby ← gets (λ w. w.lobby); for_each ping_all_peers (values lobby.rooms)

-- The parameters `roomName` and `nickname`; one that is missing is read through the map's end.
unfoldable pub on_after_create : ℕ → Option String → Option String → Action ℕ
on_after_create socket room_param nickname_param = do
  modify (count_event (λ c. record c { event_peer_connected = suc_uint64 c.event_peer_connected }))
  room_name ← deref room_param
  nickname ← deref nickname_param
  r ← get_or_create_room room_name
  id ← obtain_new_peer_id
  p ← gets (λ w. w.peer_heap.next)
  modify (λ w. record w { peer_heap = Heap.alloc (new_peer socket r nickname id) w.peer_heap })
  welcome_peer r p
  add_peer r p
  onboard_peer r p
  pure p

-- `p` is the peer that listens to the socket.
unfoldable pub on_before_destroy : ℕ → Action Unit
on_before_destroy p = do
  modify (
      count_event
        (λ c. record c { event_peer_disconnected = suc_uint64 c.event_peer_disconnected }))
  peer ← load_peer p
  remove_peer_by_id peer.room peer.peer_id
  goodbye_peer peer.room p
  invalidate_socket p
  empty ← is_empty peer.room
  if empty then (do room ← load_room peer.room; delete_room room.room_name) else pure tt
