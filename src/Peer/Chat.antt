-- ===== src/Peer/Chat.antt =====
-- A chat message from its text to the other browsers: `handleMessage` of server/src/rooms/Peer.cpp.
use canchat.Base.{ℤ, ℕ, suc_uint64, some, List, [], ◌∷◌, ◌++◌, ◌≡◌, refl, All}
use canchat.Base.Heap
use canchat.Base.Map.{values}
use canchat.Base.Exec.{returns}
use canchat.Dto.{MessageDto, envelope, Envelope, message_dto, History, code_peer_message}
use canchat.World.{World, Peer, Room, emit, store_room, count_event}
use canchat.Peer.{no_action}
use canchat.Peer.Handlers.{Ticks, Library, finish_message, handle_message, dispatch, stamp, parsed}
use canchat.Room.Backlog.{backlog, add_history_message_lem}
use canchat.Room.Broadcast.{IsPeer, broadcast, send_to_all_lem}

-- A peer in its room, whose peers are all there, and the messages that the room has had.
pub record InRoom (p : ℕ) (w : World) (ms : List MessageDto) : Type 0 where
  pub peer : Peer
  pub room : Room
  pub peer_at : w.peer_heap.cell p ≡ some peer
  pub room_at : w.room_heap.cell peer.room ≡ some room
  pub members : All (IsPeer w.peer_heap) (values room.peer_by_id)
  pub remembered : room.history ≡ backlog w.config ms

-- The world after the room got a chat message.
abbrev pub after_chat :
    {p : ℕ} {w : World} {ms : List MessageDto} → InRoom p w ms → MessageDto → World
after_chat {w = w} {ms = ms} i m =
    count_event (λ c. record c { event_peer_send_message = suc_uint64 c.event_peer_send_message })
      (emit (broadcast m w.peer_heap (values i.room.peer_by_id))
        (store_room i.peer.room (record (i.room) { history = backlog w.config (ms ++ m ∷ []) }) w))

dispatch_chat :
    (lib : Library) (p : ℕ) (now : ℤ) (m : MessageDto) (w : World) (ms : List MessageDto)
    (i : InRoom p w ms)
    → dispatch lib p now m code_peer_message w ≡ (returns no_action, after_chat i m)
unfolding dispatch
dispatch_chat lib p now m w ms i = rw (i.peer_at) (
    rw (add_history_message_lem i.peer.room m w i.room ms i.room_at i.remembered) (
      rw
        (send_to_all_lem i.peer.room m (store_room i.peer.room room' w) room'
          (Heap.cell-write i.peer.room room' w.room_heap) i.members)
        refl))
  where
    room' : Room
    room' = record (i.room) { history = backlog w.config (ms ++ m ∷ []) }

handle_chat :
    (lib : Library) (p : ℕ) (now : ℤ) (m : MessageDto) (w : World) (ms : List MessageDto)
    (i : InRoom p w ms)
    → (envelope m).message_code ≡ some code_peer_message
    → handle_message lib p now m w ≡ (returns no_action, after_chat i m)
unfolding handle_message
handle_chat lib p now m w ms i c = rw (c, handle_message) (dispatch_chat lib p now m w ms i)

-- A parsed chat message goes under the sender's own name, number and the server's time, whatever
-- the client wrote there, to every peer of the room with a socket; the room remembers it and the
-- statistics count it. Nothing else changes, and no error is answered.
pub finish_message_chat :
    (lib : Library) (p : ℕ) (now : Ticks) (e : Envelope) (h : History) (w : World)
    (ms : List MessageDto) (i : InRoom p w ms)
    → e.message_code ≡ some code_peer_message
    → let m : MessageDto =
        message_dto
          (record e {
            peer_name = some i.peer.nickname;
            peer_id = some i.peer.peer_id;
            timestamp = some now.read_at;
          })
          h in
      finish_message lib p now (parsed (some (message_dto e h))) w
      ≡ (returns no_action, after_chat i m)
unfolding finish_message stamp
finish_message_chat lib p now e h w ms i c =
    rw (i.peer_at) (handle_chat lib p now.shared_at _ w ms i c)
