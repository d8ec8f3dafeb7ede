-- ===== src/Room.antt =====
-- server/src/rooms/Room.cpp: the peers, the files and the history of a room.
-- A method is one step: its mutexes are held from its first access to the end.
pub mod Backlog
pub mod Joining
pub mod Sharing
pub mod Pinging
pub mod Broadcast
pub mod Leaving
use canchat.Base.{
  ℤ, zero, suc, pos, int_eq, suc_int, int64_max, suc_uint64, String, ℕ, Bool, true, false, Option,
  none, some, List, [], ◌∷◌, ◌++◌, ltb, length, if◌then◌else◌, str_append,
}
use canchat.Base.Map.{get, insert, erase, values}
use canchat.Base.Heap
use canchat.Base.Exec.{pure, throw, modify, gets, for_each, for_each_collect, ◌>>=◌, ◌>>◌}
use canchat.Dto.{
  MessageDto, PeerDto, History, empty_envelope, message_dto, null_history, history_of, code_info,
  code_peer_joined, code_peer_left,
}
use canchat.Config.{ConfigDto}
use canchat.World.{Action, Peer, Room, load_peer, load_room, store_room, load_file, count_event}
use canchat.Peer.{send_message_async, send_ping_async, invalidate_socket, add_file}
use canchat.File.{new_file, clear_subscribers}

-- The constructor on an address that is free, and its event.
unfoldable pub new_room : String → Room
new_room name = record {
  room_name = name;
  file_id_counter = pos 1;
  file_by_id = [];
  peer_by_id = [];
  history = [];
}

unfoldable pub make_room : String → Action ℕ
make_room name = do
  r ← gets (λ w. w.room_heap.next)
  modify (λ w. record w { room_heap = Heap.alloc (new_room name) w.room_heap })
  modify (count_event (λ c. record c { event_room_created = suc_uint64 c.event_room_created }))
  pure r

-- The event of the destructor, which nothing here calls: objects are never freed.
unfoldable pub destroy_room : Action Unit
destroy_room =
    modify (count_event (λ c. record c { event_room_deleted = suc_uint64 c.event_room_deleted }))

unfoldable pub add_peer : ℕ → ℕ → Action Unit
add_peer r p = do
  peer ← load_peer p
  room ← load_room r
  modify (store_room r (record room { peer_by_id = insert peer.peer_id p room.peer_by_id }))

-- while(m_history.size() > max) m_history.pop_front()
unfoldable pub trim : ℕ → List MessageDto → List MessageDto
trim max [] = []
trim max (m ∷ ms) = let rest = trim max ms in if ltb max (length (m ∷ ms)) then rest else m ∷ ms

-- Whether the configuration keeps a history, and of how many messages.
unfoldable pub history_limit : ConfigDto → Option ℕ
history_limit c = elim c.max_room_history_messages [
  | none ↦ none
  | some n ↦ elim n [ zero ↦ none | suc k ↦ some (suc k) ]
]

unfoldable pub push_history : Option ℕ → MessageDto → List MessageDto → List MessageDto
push_history none m ms = ms
push_history (some max) m ms = trim max (ms ++ m ∷ [])

unfoldable pub add_history_message : ℕ → MessageDto → Action Unit
add_history_message r m = do
  room ← load_room r
  config ← gets (λ w. w.config)
  modify
      (store_room r (record room { history = push_history (history_limit config) m room.history }))

abbrev pub history_field : Option ℕ → List MessageDto → History
history_field none ms = null_history
history_field (some max) ms = history_of ms

unfoldable pub get_history : ℕ → Action History
get_history r = do
  room ← load_room r
  config ← gets (λ w. w.config)
  pure (history_field (history_limit config) room.history)

-- Room::sendMessageAsync
unfoldable pub send_to_all : ℕ → MessageDto → Action Unit
send_to_all r m = do
  room ← load_room r
  for_each (λ p. send_message_async p m) (values room.peer_by_id)

unfoldable pub joined_message : Peer → MessageDto
joined_message peer =
    message_dto
      (record empty_envelope {
        message_code = some code_peer_joined;
        peer_id = some peer.peer_id;
        peer_name = some peer.nickname;
        message_text = some (str_append peer.nickname " - joined room");
      })
      null_history

unfoldable pub welcome_peer : ℕ → ℕ → Action Unit
welcome_peer r p = do
  peer ← load_peer p
  add_history_message r (joined_message peer)
  send_to_all r (joined_message peer)

abbrev pub peer_dto : Peer → Option PeerDto
peer_dto peer = some (record { peer_id = some peer.peer_id; peer_name = some peer.nickname })

unfoldable pub info_message : Peer → List (Option PeerDto) → History → MessageDto
info_message peer peers history =
    message_dto
      (record empty_envelope {
        message_code = some code_info;
        peer_id = some peer.peer_id;
        peer_name = some peer.nickname;
        peers = some peers;
      })
      history

unfoldable pub onboard_peer : ℕ → ℕ → Action Unit
onboard_peer r p = do
  peer ← load_peer p
  room ← load_room r
  peers ←
      for_each_collect (λ q. load_peer q >>= λ other. pure (peer_dto other))
        (values room.peer_by_id)
  history ← get_history r
  send_message_async p (info_message peer peers history)

unfoldable pub left_message : Peer → MessageDto
left_message peer =
    message_dto
      (record empty_envelope {
        message_code = some code_peer_left;
        peer_id = some peer.peer_id;
        message_text = some (str_append peer.nickname " - left room");
      })
      null_history

unfoldable pub goodbye_peer : ℕ → ℕ → Action Unit
goodbye_peer r p = do
  peer ← load_peer p
  add_history_message r (left_message peer)
  send_to_all r (left_message peer)

unfoldable pub get_peer_by_id : ℕ → ℤ → Action (Option ℕ)
get_peer_by_id r id = do room ← load_room r; pure (get id room.peer_by_id)

unfoldable pub get_file_by_id : ℕ → ℤ → Action (Option ℕ)
get_file_by_id r id = do room ← load_room r; pure (get id room.file_by_id)

-- The body of the loop over a leaving peer's files.
unfoldable pub remove_file : ℕ → ℕ → Action Unit
remove_file r f = do
  clear_subscribers f
  file ← load_file f
  room ← load_room r
  modify (store_room r (record room { file_by_id = erase file.server_file_id room.file_by_id }))

unfoldable pub remove_peer_by_id : ℕ → ℤ → Action Unit
remove_peer_by_id r id = do
  room ← load_room r
  elim (get id room.peer_by_id) [
    | none ↦ pure tt
    | some p ↦ do
      peer ← load_peer p
      for_each (remove_file r) peer.files
      room' ← load_room r
      modify (store_room r (record room' { peer_by_id = erase id room'.peer_by_id }))
  ]

-- The part of `shareFile` where the host is there.
unfoldable pub share_hosted : ℕ → ℕ → ℤ → Option String → ℤ → Action ℕ
share_hosted r host client_file_id file_name file_size = do
  room ← load_room r
  let id = room.file_id_counter
  f ← gets (λ w. w.file_heap.next)
  modify (λ w. record w {
    file_heap = Heap.alloc (new_file host client_file_id id file_name file_size) w.file_heap;
  })
  add_file host f
  modify (
      store_room r (record room {
        file_id_counter = suc_int int64_max id;
        file_by_id = insert id f room.file_by_id;
      }))
  modify
      (count_event (λ c. record c { event_peer_share_file = suc_uint64 c.event_peer_share_file }))
  pure f

unfoldable pub share_file : ℕ → ℤ → ℤ → Option String → ℤ → Action ℕ
share_file r host_id client_file_id file_name file_size = do
  found ← get_peer_by_id r host_id
  elim found [
    | none ↦ throw "File host not found."
    | some host ↦ share_hosted r host client_file_id file_name file_size
  ]

-- The body of the loop of `pingAllPeers`.
unfoldable pub ping_peer : ℕ → Action Unit
ping_peer p = do
  sent ← send_ping_async p
  if sent then pure tt else do
    invalidate_socket p
    modify (
        count_event
          (λ c. record c { event_peer_zombie_dropped = suc_uint64 c.event_peer_zombie_dropped }))

unfoldable pub ping_all_peers : ℕ → Action Unit
ping_all_peers r = do room ← load_room r; for_each ping_peer (values room.peer_by_id)

abbrev pub no_entries {ℓ} : {A : Type ℓ} → List A → Bool
no_entries [] = true
no_entries (x ∷ xs) = false

unfoldable pub is_empty : ℕ → Action Bool
is_empty r = do room ← load_room r; pure (no_entries room.peer_by_id)
