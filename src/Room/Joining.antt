-- ===== src/Room/Joining.antt =====
-- `welcomePeer`, `addPeer`, `onboardPeer` and `goodbyePeer` of server/src/rooms/Room.cpp.
use canchat.Base.{int_eq, ℕ, Option, none, some, List, [], ◌∷◌, ◌++◌, ◌≡◌, refl, All}
use canchat.Base.Heap
use canchat.Base.Heap.{Heap}
use canchat.Base.Map.{insert, values, All-insert}
use canchat.Base.Exec.{returns, for_each_collect, pure, ◌>>=◌, ◌>>◌}
use canchat.Dto.{MessageDto, PeerDto}
use canchat.World.{World, Peer, Room, emit, store_room, load_peer}
use canchat.Peer.{frames_to, send_message_async}
use canchat.Room.{
  welcome_peer, onboard_peer, goodbye_peer, add_peer, joined_message, left_message, info_message,
  peer_dto, history_field, history_limit,
}
use canchat.Room.Backlog.{backlog, add_history_message_lem, get_history_lem}
use canchat.Room.Broadcast.{IsPeer, broadcast, send_to_all_lem}

-- A room whose peers are all there, and the messages that it has had.
pub record Open (r : ℕ) (w : World) (ms : List MessageDto) : Type 0 where
  pub room : Room
  pub room_at : w.room_heap.cell r ≡ some room
  pub members : All (IsPeer w.peer_heap) (values room.peer_by_id)
  pub remembered : room.history ≡ backlog w.config ms

-- The room with one message more.
abbrev pub room_with : {r : ℕ} {w : World} {ms : List MessageDto} → Open r w ms → MessageDto → Room
room_with {w = w} {ms = ms} o m = record (o.room) { history = backlog w.config (ms ++ m ∷ []) }

-- The world after a message went into the room's history and to its peers.
abbrev pub announced : {r : ℕ} {w : World} {ms : List MessageDto} → Open r w ms → MessageDto → World
announced {r} {w} {ms} o m =
    emit (broadcast m w.peer_heap (values o.room.peer_by_id)) (store_room r (room_with o m) w)

pub welcome_peer_lem :
    (r p : ℕ) (w : World) (ms : List MessageDto) (o : Open r w ms) (peer : Peer)
    → w.peer_heap.cell p ≡ some peer
    → welcome_peer r p w ≡ (returns tt, announced o (joined_message peer))
unfolding welcome_peer
welcome_peer_lem r p w ms o peer e = rw e (
    rw (add_history_message_lem r (joined_message peer) w o.room ms o.room_at o.remembered) (
      send_to_all_lem r (joined_message peer) (store_room r (room_with o (joined_message peer)) w)
        (room_with o (joined_message peer))
        (Heap.cell-write r (room_with o (joined_message peer)) w.room_heap) o.members))

pub goodbye_peer_lem :
    (r p : ℕ) (w : World) (ms : List MessageDto) (o : Open r w ms) (peer : Peer)
    → w.peer_heap.cell p ≡ some peer
    → goodbye_peer r p w ≡ (returns tt, announced o (left_message peer))
unfolding goodbye_peer
goodbye_peer_lem r p w ms o peer e = rw e (
    rw (add_history_message_lem r (left_message peer) w o.room ms o.room_at o.remembered) (
      send_to_all_lem r (left_message peer) (store_room r (room_with o (left_message peer)) w)
        (room_with o (left_message peer))
        (Heap.cell-write r (room_with o (left_message peer)) w.room_heap) o.members))

-- What the newcomer is told of the peers.
abbrev dto_at : Option Peer → List (Option PeerDto)
dto_at none = []
dto_at (some peer) =
    some (record { peer_id = some peer.peer_id; peer_name = some peer.nickname }) ∷ []

abbrev pub roster : Heap Peer → List ℕ → List (Option PeerDto)
roster h [] = []
roster h (p ∷ ps) = dto_at (h.cell p) ++ roster h ps

collect_roster :
    (ps : List ℕ) (w : World)
    → All (IsPeer w.peer_heap) ps
    → for_each_collect (λ q. load_peer q >>= λ other. pure (peer_dto other)) ps w
      ≡ (returns (roster w.peer_heap ps), w)
collect_roster [] w a = refl
collect_roster (p ∷ ps) w a = rw (a.0.1, collect_roster ps w a.1)

pub onboard_peer_lem :
    (r p : ℕ) (w : World) (ms : List MessageDto) (o : Open r w ms) (peer : Peer)
    → w.peer_heap.cell p ≡ some peer
    → onboard_peer r p w ≡ (
      returns tt,
      emit
          (frames_to
            (info_message peer
              (roster w.peer_heap (values o.room.peer_by_id))
              (history_field (history_limit w.config) (backlog w.config ms)))
            peer.socket)
          w,
    )
unfolding onboard_peer send_message_async
onboard_peer_lem r p w ms o peer e =
    rw (e, o.room_at)
      (rw (
        collect_roster (values o.room.peer_by_id) w o.members,
        get_history_lem r w o.room o.room_at,
        e,
        o.remembered,
      ))

pub add_peer_lem :
    (r p : ℕ) (w : World) (room : Room) (peer : Peer)
    → w.room_heap.cell r ≡ some room
    → w.peer_heap.cell p ≡ some peer
    → add_peer r p w ≡ (
      returns tt,
      store_room r (record room { peer_by_id = insert peer.peer_id p room.peer_by_id }) w,
    )
unfolding add_peer
add_peer_lem r p w room peer e f = rw (f, e)

-- The room with one peer more, and the message that it joined.
abbrev pub room_joined : {r : ℕ} {w : World} {ms : List MessageDto} → Open r w ms → ℕ → Peer → Room
room_joined o p peer = record (room_with o (joined_message peer)) {
  peer_by_id = insert peer.peer_id p o.room.peer_by_id;
}

-- The world after the three calls.
abbrev pub joined_world :
    {r : ℕ} {w : World} {ms : List MessageDto} → Open r w ms → ℕ → Peer → World
joined_world {r} {w} {ms} o p peer =
    emit
      (frames_to
        (info_message peer (roster w.peer_heap (values (room_joined o p peer).peer_by_id))
          (history_field (history_limit w.config) (room_joined o p peer).history))
        peer.socket)
      (store_room r (room_joined o p peer) (announced o (joined_message peer)))

-- The three calls of a new connection: those who were in the room get the message that the newcomer
-- joined, and the newcomer does not; then it is a peer of the room, and is told of all peers, itself
-- among them, and of the history, which ends in that message.
pub join_room :
    (r p : ℕ) (w : World) (ms : List MessageDto) (o : Open r w ms) (peer : Peer)
    → w.peer_heap.cell p ≡ some peer
    → (do welcome_peer r p; add_peer r p; onboard_peer r p) w ≡ (returns tt, joined_world o p peer)
join_room r p w ms o peer e = rw (welcome_peer_lem r p w ms o peer e) (
    rw
      (add_peer_lem r p (announced o joined) (room_with o joined) peer
        (Heap.cell-write r (room_with o joined) w.room_heap) e)
      (onboard_peer_lem r p w' (ms ++ joined ∷ [])
        (record {
          room = room';
          room_at = Heap.cell-write r room' (announced o joined).room_heap;
          members =
              All-insert (IsPeer w.peer_heap) peer.peer_id p o.room.peer_by_id (peer, e) o.members;
          remembered = refl;
        })
        peer e))
  where
    joined : MessageDto
    joined = joined_message peer

    room' : Room
    room' = room_joined o p peer

    w' : World
    w' = store_room r room' (announced o joined)
