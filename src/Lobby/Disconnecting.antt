-- ===== src/Lobby/Disconnecting.antt =====
-- `onBeforeDestroy_NonBlocking` of server/src/rooms/Lobby.cpp: a connection ends.
use canchat.Base.Heap.{IsFresh}
use canchat.Base.{
  arith, List, ap, ◌∙◌, ◌≢◌, true, false, refl, String, [], ◌∷◌, ◌++◌, ℕ, ℤ, int_eq, string_eq,
  suc_uint64, none, some, List, ◌≡◌, All, Bool-cases, inl, inr, if◌then◌else◌,
}
use canchat.Base.Heap
use canchat.Base.Map.{get, get-erase_same, get-erase_ne, Map, erase, values, All-erase}
use canchat.Base.Exec.{returns}
use canchat.Dto.{MessageDto}
use canchat.World.{World, Peer, Room, Lobby, emit, store_peer, count_event}
use canchat.Peer.{invalidate_socket, invalidations}
use canchat.Room.{
  get_history, history_field, history_limit, get_peer_by_id, left_message, no_entries, is_empty,
}
use canchat.Room.Backlog.{backlog}
use canchat.Room.Broadcast.{IsPeer}
use canchat.Room.Joining.{Open, room_with, announced, goodbye_peer_lem}
use canchat.Room.Leaving.{Withdrawn, withdrawn, Hosted, room_left, world_left, remove_lem, left_at}
use canchat.Room.Leaving.Files.{HasFile, Removed, Staying, world_of}
use canchat.Room.Backlog.{get_history_lem}
use canchat.Room.Broadcast.{broadcast}
use canchat.Room.Leaving.{find_peer}
use canchat.Room.Leaving.Files.{Removed-for_each}
use canchat.Lobby.{get_room, on_before_destroy, delete_room}

abbrev pub counted : World → World
counted =
    count_event λ c. record c { event_peer_disconnected = suc_uint64 c.event_peer_disconnected }

-- A peer that listens to a socket, in its room, and the messages that the room has had.
pub record Connected (p : ℕ) (w : World) (ms : List MessageDto) : Type 0 where
  pub peer : Peer
  pub hosted : Hosted peer.room peer.peer_id w
  pub listens : hosted.host ≡ p
  pub same_peer : hosted.peer ≡ peer
  pub members : All (IsPeer w.peer_heap) (values hosted.room.peer_by_id)
  pub remembered : hosted.room.history ≡ backlog w.config ms

-- The peers that stay.
abbrev pub others : {p : ℕ} {w : World} {ms : List MessageDto} → Connected p w ms → Map ℤ ℕ
others c = erase c.peer.peer_id c.hosted.room.peer_by_id

-- The result of the end of a connection.
pub record Disconnected (p : ℕ) (w : World) (ms : List MessageDto) (c : Connected p w ms)
    (w' : World) : Type 0 where
  pub peer_gone : (get_peer_by_id c.peer.room c.peer.peer_id w').0 ≡ returns none
  pub socket_gone : w'.peer_heap.cell p ≡ some (record (c.peer) { socket = none })
  pub told :
      w'.sent
      ≡ (w.sent ++ broadcast (left_message c.peer) w.peer_heap (values (others c)))
        ++ invalidations c.peer.socket
  pub remembered :
      (get_history c.peer.room w').0
      ≡ returns (
          history_field
            (history_limit w.config)
            (backlog w.config (ms ++ left_message c.peer ∷ [])))
  pub room_kept : no_entries (others c) ≡ false → w'.lobby ≡ w.lobby
  pub room_deleted :
      no_entries (others c) ≡ true → (get_room c.hosted.room.room_name w').0 ≡ returns none
  pub rooms_kept :
      (name : String) → name ≢ c.hosted.room.room_name → (get_room name w').0 ≡ (get_room name w).0
  pub rooms_left : w'.lobby.rooms ≡ (
      if no_entries (others c) then erase c.hosted.room.room_name w.lobby.rooms else w.lobby.rooms)
  pub counted_once :
      w'.statistics.counters.event_peer_disconnected
      ≡ suc_uint64 w.statistics.counters.event_peer_disconnected
  pub next_room : Room
  pub room_at : w'.room_heap.cell c.peer.room ≡ some next_room
  pub others_listed : next_room.peer_by_id ≡ others c
  pub history : next_room.history ≡ backlog w.config (ms ++ left_message c.peer ∷ [])
  pub room_name : next_room.room_name ≡ c.hosted.room.room_name
  pub rooms_same : (q : ℕ) → q ≢ c.peer.room → w'.room_heap.cell q ≡ w.room_heap.cell q
  pub peers_same : (q : ℕ) → q ≢ p → w'.peer_heap.cell q ≡ w.peer_heap.cell q
  pub next_rooms : w'.room_heap.next ≡ w.room_heap.next
  pub next_peers : w'.peer_heap.next ≡ w.peer_heap.next
  pub counter_same : w'.lobby.peer_id_counter ≡ w.lobby.peer_id_counter
  pub config_same : w'.config ≡ w.config
  pub found_before :
      (id : ℤ) (f : ℕ)
      → get id next_room.file_by_id ≡ some f
      → get id c.hosted.room.file_by_id ≡ some f
  pub room_numbers : next_room.file_id_counter ≡ c.hosted.room.file_id_counter
  pub still_fresh : IsFresh w.file_heap → IsFresh w'.file_heap
  pub files_kept : (fs : List ℕ) → All (HasFile w) fs → All (HasFile w') fs
  pub files_gone : Withdrawn c.peer.room w w' c.hosted.peer.files
  pub same_files : Staying w.file_heap w'.file_heap

module _ (p : ℕ) (w : World) (ms : List MessageDto) (c : Connected p w ms) where
  abbrev r : ℕ
  r = c.peer.room

  abbrev id : ℤ
  id = c.peer.peer_id

  abbrev at_room : Hosted r id (counted w)
  at_room = record {
    room = c.hosted.room;
    host = c.hosted.host;
    peer = c.hosted.peer;
    room_at = c.hosted.room_at;
    registered = c.hosted.registered;
    host_at = c.hosted.host_at;
    files_at = c.hosted.files_at;
  }

  peer_at : w.peer_heap.cell p ≡ some c.peer
  peer_at = rw (← c.listens, ← c.same_peer) c.hosted.host_at

  module _ (m : Removed r c.hosted.peer.files (counted w) c.hosted.room) where
    abbrev removed : World
    removed = world_left r id (counted w) at_room m

    abbrev still_open : Open r removed ms
    still_open = record {
      room = room_left r id (counted w) at_room m;
      room_at = left_at r id (counted w) at_room m;
      members = All-erase (IsPeer w.peer_heap) id c.hosted.room.peer_by_id c.members;
      remembered = c.remembered;
    }

    abbrev last_room : Room
    last_room = room_with still_open (left_message c.peer)

    abbrev lobby_left : Lobby
    lobby_left =
        if no_entries (erase id c.hosted.room.peer_by_id)
        then record (w.lobby) { rooms = erase c.hosted.room.room_name w.lobby.rooms }
        else w.lobby

    abbrev disconnected : World
    disconnected =
        record (store_peer p (record (c.peer) { socket = none })
          (emit (invalidations c.peer.socket) (announced still_open (left_message c.peer)))) {
            lobby = lobby_left;
          }

    destroy_lem : on_before_destroy p w ≡ (returns tt, disconnected)
    unfolding on_before_destroy invalidate_socket is_empty delete_room
    destroy_lem =
        rw
          (
            peer_at,
            remove_lem r id (counted w) at_room m,
            goodbye_peer_lem r p removed ms still_open c.peer peer_at,
            peer_at,
          )
          (rw (Heap.cell-write r last_room removed.room_heap)
            (elim (Bool-cases (no_entries (erase id c.hosted.room.peer_by_id))) [
              | inl e ↦ rw (e, Heap.cell-write r last_room removed.room_heap)
              | inr e ↦ rw e
            ]))

    last_at : disconnected.room_heap.cell r ≡ some last_room
    last_at = Heap.cell-write r last_room removed.room_heap

    disconnected-Disconnected : Disconnected p w ms c disconnected
    unfolding get_room
    disconnected-Disconnected = record {
      peer_gone =
          find_peer r id disconnected last_room last_at
          ∙ ap returns (get-erase_same id c.hosted.room.peer_by_id);
      socket_gone = Heap.cell-write p _ w.peer_heap;
      told = refl;
      remembered = ap (λ o. o.0) (get_history_lem r disconnected last_room last_at);
      room_kept = λ e. rw e;
      room_deleted = λ e. rw e (ap returns (get-erase_same c.hosted.room.room_name w.lobby.rooms));
      rooms_kept = λ name n. elim (Bool-cases (no_entries (others c))) [
        | inl e ↦ rw e (ap returns (get-erase_ne c.hosted.room.room_name name w.lobby.rooms n))
        | inr e ↦ rw e
      ];
      rooms_left = elim (Bool-cases (no_entries (others c))) [ inl e ↦ rw e | inr e ↦ rw e ];
      counted_once = refl;
      next_room = last_room;
      room_at = last_at;
      others_listed = refl;
      history = refl;
      room_name = refl;
      rooms_same = λ q n. ground (arith, m.rooms_same q n);
      peers_same = λ q n. Heap.cell-write_ne p q _ w.peer_heap n;
      next_rooms = m.next_same;
      next_peers = refl;
      counter_same = elim (Bool-cases (no_entries (others c))) [ inl e ↦ rw e | inr e ↦ rw e ];
      config_same = refl;
      found_before = m.found_before;
      room_numbers = refl;
      still_fresh = m.still_fresh;
      files_kept = m.kept;
      files_gone =
          withdrawn r w (world_of m) disconnected last_room last_at refl c.hosted.peer.files m.gone;
      same_files = m.same_files;
    }

-- A connected peer's connection ends without an error. The room no longer has the peer, which has no
-- socket; each peer that stays gets the message that it left, which is the last of the history. If
-- somebody stays, the lobby is as before; otherwise it no longer lists a room of that name. It finds
-- every room of another name as before. The room finds no file that the peer had shared, and the
-- downloads of these are no longer valid.
pub on_before_destroy-Disconnected :
    (p : ℕ) (w : World) (ms : List MessageDto) (c : Connected p w ms)
    → (w' : World) × (on_before_destroy p w ≡ (returns tt, w')) × Disconnected p w ms c w'
on_before_destroy-Disconnected p w ms c =
    let m =
      Removed-for_each c.peer.room c.hosted.peer.files (counted w) c.hosted.room c.hosted.room_at
        c.hosted.files_at in
    (disconnected p w ms c m, destroy_lem p w ms c m, disconnected-Disconnected p w ms c m)
