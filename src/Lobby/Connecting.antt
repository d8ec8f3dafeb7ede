-- ===== src/Lobby/Connecting.antt =====
-- `onAfterCreate_NonBlocking` of server/src/rooms/Lobby.cpp: a new connection.
use canchat.Base.{
  pos, str_append, ◌≢◌, ◌+◌, arith, sym, none, int_eq, string_eq, suc_int, int64_max, suc_uint64,
  String, ℕ, some, List, [], ◌∷◌, ◌++◌, ◌≡◌, refl, ap, ◌∙◌, All, Bool-cases, nat_same, inl, inr,
}
use canchat.Base.Heap
use canchat.Base.Heap.{Heap}
use canchat.Base.Map.{insert, values}
use canchat.Base.Exec.{returns, pure, continue, three-then, ◌>>◌}
use canchat.Dto.{MessageDto, message_dto, empty_envelope, null_history, code_info, code_peer_joined}
use canchat.World.{World, Peer, Room, text_frame, count_event}
use canchat.Peer.{new_peer}
use canchat.Room.{
  welcome_peer, add_peer, onboard_peer, joined_message, info_message, history_field, history_limit,
}
use canchat.Room.Backlog.{backlog, shown, history_field-shown}
use canchat.Room.Broadcast.{IsPeer, broadcast}
use canchat.Room.Joining.{Open, roster, join_room, joined_world, room_joined, announced}
use canchat.Room.{make_room, new_room}
use canchat.Room.Backlog.{backlog-nil}
use canchat.Base.{same_refl}
use canchat.Base.Map.{get, get-insert, Map}
use canchat.Lobby.{on_after_create, get_or_create_room, obtain_new_peer_id}

abbrev pub counted : World → World
counted = count_event (λ c. record c { event_peer_connected = suc_uint64 c.event_peer_connected })

IsPeer-alloc :
    (v : Peer) (h : Heap Peer) (ps : List ℕ) → All (IsPeer h) ps → All (IsPeer (Heap.alloc v h)) ps
IsPeer-alloc v h [] a = tt
IsPeer-alloc v h (p ∷ ps) a = (present_at p a.0, IsPeer-alloc v h ps a.1)
  where
    present_at : (p : ℕ) → IsPeer h p → IsPeer (Heap.alloc v h) p
    present_at p (peer, e) = elim (Bool-cases (nat_same p h.next)) [
      | inl new ↦ rw new (v, refl)
      | inr old ↦ rw old (peer, e)
    ]

-- The new peer of a connection to the room at `r`, and what the room then is.
abbrev pub newcomer : ℕ → ℕ → String → World → Peer
newcomer socket r nickname v = record {
  message_buffer = [];
  socket = some socket;
  room = r;
  nickname = nickname;
  peer_id = v.lobby.peer_id_counter;
  ping_pong_counter = pos 0;
  files = [];
}

-- What a connection to the room at `r` leaves, from the world `v` in which the room was found.
pub record Connected (socket r : ℕ) (name nickname : String) (v : World) (ms : List MessageDto)
    (o : Open r v ms) (w' : World) : Type 0 where
  pub peer_at : w'.peer_heap.cell v.peer_heap.next ≡ some (newcomer socket r nickname v)
  pub numbered : w'.lobby.peer_id_counter ≡ suc_int int64_max v.lobby.peer_id_counter
  pub rooms_kept : w'.lobby.rooms ≡ v.lobby.rooms
  pub room : Room
  pub room_at : w'.room_heap.cell r ≡ some room
  pub members : room.peer_by_id ≡ insert v.lobby.peer_id_counter v.peer_heap.next o.room.peer_by_id
  pub remembered :
      room.history ≡ backlog w'.config (ms ++ joined_message (newcomer socket r nickname v) ∷ [])
  pub told :
      w'.sent
      ≡ (v.sent
          ++ broadcast
              (joined_message (newcomer socket r nickname v))
              w'.peer_heap
              (values o.room.peer_by_id))
        ++ text_frame socket (
            info_message
              (newcomer socket r nickname v)
              (roster w'.peer_heap (values room.peer_by_id))
              (history_field (history_limit w'.config) room.history))
          ∷ []
  pub joined_is :
      joined_message (newcomer socket r nickname v)
      ≡ message_dto
          (record empty_envelope {
            message_code = some code_peer_joined;
            peer_id = some v.lobby.peer_id_counter;
            peer_name = some nickname;
            message_text = some (str_append nickname " - joined room");
          })
          null_history
  pub info_is :
      info_message
        (newcomer socket r nickname v)
        (roster w'.peer_heap (values room.peer_by_id))
        (history_field (history_limit w'.config) room.history)
      ≡ message_dto
          (record empty_envelope {
            message_code = some code_info;
            peer_id = some v.lobby.peer_id_counter;
            peer_name = some nickname;
            peers = some (roster w'.peer_heap (values room.peer_by_id));
          })
          (shown w'.config (ms ++ joined_message (newcomer socket r nickname v) ∷ []))
  pub room_name : room.room_name ≡ o.room.room_name
  pub room_files : room.file_by_id ≡ o.room.file_by_id
  pub room_numbers : room.file_id_counter ≡ o.room.file_id_counter
  pub rooms_same : (q : ℕ) → q ≢ r → w'.room_heap.cell q ≡ v.room_heap.cell q
  pub peers_same : (q : ℕ) → q ≢ v.peer_heap.next → w'.peer_heap.cell q ≡ v.peer_heap.cell q
  pub next_rooms : w'.room_heap.next ≡ v.room_heap.next
  pub next_peers : w'.peer_heap.next ≡ v.peer_heap.next + 1
  pub files_same : w'.file_heap ≡ v.file_heap
  pub downloads_same : w'.subscriber_heap ≡ v.subscriber_heap
  pub config_same : w'.config ≡ v.config

module _ (socket r : ℕ) (name nickname : String) (v : World) (ms : List MessageDto)
    (o : Open r v ms) where
  peer : Peer
  peer = newcomer socket r nickname v

  -- The world in which the peer enters its room.
  abbrev entering : World
  entering = record v {
    lobby = record (v.lobby) { peer_id_counter = suc_int int64_max v.lobby.peer_id_counter };
    peer_heap = Heap.alloc peer v.peer_heap;
  }

  abbrev opened : Open r entering ms
  opened = record {
    room = o.room;
    room_at = o.room_at;
    members = IsPeer-alloc peer v.peer_heap (values o.room.peer_by_id) o.members;
    remembered = o.remembered;
  }

  joining :
      (w : World)
      → get_or_create_room name (counted w) ≡ (returns r, v)
      → on_after_create socket (some name) (some nickname) w
        ≡ continue
            ((do
              welcome_peer r v.peer_heap.next
              add_peer r v.peer_heap.next
              onboard_peer r v.peer_heap.next)
              entering)
            (λ _. pure v.peer_heap.next)
  unfolding on_after_create obtain_new_peer_id peer new_peer
  joining w g = rw g (
      three-then (welcome_peer r v.peer_heap.next) (add_peer r v.peer_heap.next)
        (onboard_peer r v.peer_heap.next) (pure v.peer_heap.next) entering)

  connect_at :
      (w : World)
      → get_or_create_room name (counted w) ≡ (returns r, v)
      → (w' : World) × (on_after_create socket (some name) (some nickname) w
          ≡ (returns v.peer_heap.next, w'))
        × Connected socket r name nickname v ms o w'
  unfolding peer new_peer info_message joined_message
  connect_at w g =
      let p = v.peer_heap.next in
      let at : entering.peer_heap.cell p ≡ some peer = Heap.cell-alloc peer v.peer_heap in
      (
        joined_world opened p peer,
        joining w g ∙ ap (λ x. continue x (λ _. pure p)) (join_room r p entering ms opened peer at),
        record {
          peer_at = at;
          numbered = refl;
          rooms_kept = refl;
          room = room_joined opened p peer;
          room_at =
              Heap.cell-write r (room_joined opened p peer)
                (announced opened (joined_message peer)).room_heap;
          members = refl;
          remembered = refl;
          told = refl;
          joined_is = refl;
          info_is = rw (history_field-shown v.config (ms ++ joined_message peer ∷ [])) refl;
          room_name = refl;
          room_files = refl;
          room_numbers = refl;
          rooms_same = λ q n. ground arith;
          peers_same = λ q n. ground arith;
          next_rooms = refl;
          next_peers = refl;
          files_same = refl;
          downloads_same = refl;
          config_same = refl;
        },
      )

found_room :
    (r : ℕ) (name : String) (w : World)
    → get name w.lobby.rooms ≡ some r
    → get_or_create_room name w ≡ (returns r, w)
unfolding get_or_create_room
found_room r name w g = ground arith

-- A connection to a room that is there: the room stays under its name, and the peer, under the next
-- number, becomes one of its peers. The peers that were there are told that it joined; it is told of
-- its number, its name and all peers, with their numbers and names, and of the history, in which that
-- message is the last, or null if the configuration keeps none.
pub on_after_create_existing :
    (socket r : ℕ) (name nickname : String) (w : World) (ms : List MessageDto)
    (o : Open r (counted w) ms)
    → get name w.lobby.rooms ≡ some r
    → (w' : World) × (on_after_create socket (some name) (some nickname) w
        ≡ (returns w.peer_heap.next, w'))
      × Connected socket r name nickname (counted w) ms o w'
on_after_create_existing socket r name nickname w ms o g =
    connect_at socket r name nickname (counted w) ms o w (found_room r name (counted w) g)

-- The world in which a room of this name was made.
abbrev pub with_room : String → World → World
with_room name w = record (counted w) {
  statistics = record (w.statistics) {
    counters = record (w.statistics.counters) {
      event_peer_connected = suc_uint64 w.statistics.counters.event_peer_connected;
      event_room_created = suc_uint64 w.statistics.counters.event_room_created;
    };
  };
  room_heap = Heap.alloc (new_room name) w.room_heap;
  lobby = record (w.lobby) { rooms = insert name w.room_heap.next w.lobby.rooms };
}

made_room :
    (name : String) (w : World)
    → get name w.lobby.rooms ≡ none
    → get_or_create_room name (counted w) ≡ (returns w.room_heap.next, with_room name w)
unfolding get_or_create_room make_room
made_room name w g = ground arith

-- A room that was just made: no peers, no files, no history.
pub fresh : (name : String) (w : World) → Open w.room_heap.next (with_room name w) []
unfolding new_room
fresh name w = record {
  room = new_room name;
  room_at = Heap.cell-alloc (new_room name) w.room_heap;
  members = tt;
  remembered = sym (backlog-nil w.config);
}

pub fresh_room : (name : String) (w : World) → (fresh name w).room ≡ new_room name
unfolding fresh
fresh_room name w = refl

-- A connection to a room that is not there makes the room, under its name, and the peer enters it
-- as its first: it alone is told of itself and of a history with nothing but its joining, or null if
-- the configuration keeps none.
pub on_after_create_new :
    (socket : ℕ) (name nickname : String) (w : World)
    → get name w.lobby.rooms ≡ none
    → (w' : World) × (on_after_create socket (some name) (some nickname) w
        ≡ (returns w.peer_heap.next, w'))
      × Connected socket w.room_heap.next name nickname (with_room name w) [] (fresh name w) w'
      × (get name w'.lobby.rooms ≡ some w.room_heap.next)
on_after_create_new socket name nickname w g =
    let (w', e, c) =
      connect_at socket w.room_heap.next name nickname (with_room name w) [] (fresh name w) w
        (made_room name w g) in
    (w', e, c, get_made c.rooms_kept)
  where
    get_made :
        {m : Map String ℕ}
        → m ≡ insert name w.room_heap.next w.lobby.rooms
        → get name m ≡ some w.room_heap.next
    get_made e =
        rw (e, get-insert name name w.room_heap.next w.lobby.rooms) (ground (arith, same_refl name))
