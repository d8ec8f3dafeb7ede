-- ===== src/Room/Broadcast.antt =====
-- `sendMessageAsync` of server/src/rooms/Room.cpp: who gets a message that is sent to a room.
use canchat.Base.{
  refl, ℕ, Option, none, some, List, [], ◌∷◌, ◌++◌, ◌≡◌, sym, ap, ◌∙◌, All, append-nil,
  append_assoc,
}
use canchat.Base.Map.{values}
use canchat.Base.Heap.{Heap}
use canchat.Base.Exec.{returns, for_each}
use canchat.Dto.{MessageDto}
use canchat.World.{World, Peer, Room, Event, text_frame, emit}
use canchat.Peer.{frames_to, send_message_async}
use canchat.Room.{send_to_all}

-- The pointer leads to a peer.
abbrev pub IsPeer : Heap Peer → ℕ → Type 0
IsPeer h p = (peer : Peer) × (h.cell p ≡ some peer)

-- One event, on a socket that is there.
abbrev pub on_socket : (ℕ → Event) → Option ℕ → List Event
on_socket event none = []
on_socket event (some s) = event s ∷ []

pub frames_to-on_socket :
    (m : MessageDto) (socket : Option ℕ)
    → frames_to m socket ≡ on_socket (λ s. text_frame s m) socket
frames_to-on_socket m none = refl
frames_to-on_socket m (some s) = refl

-- The frames for one peer: one if it has its socket, and none if it has lost it.
abbrev pub frames_at : MessageDto → Option Peer → List Event
frames_at m none = []
frames_at m (some peer) = on_socket (λ s. text_frame s m) peer.socket

abbrev pub broadcast : MessageDto → Heap Peer → List ℕ → List Event
broadcast m h [] = []
broadcast m h (p ∷ ps) = frames_at m (h.cell p) ++ broadcast m h ps

send_each :
    (m : MessageDto) (ps : List ℕ) (w : World)
    → All (IsPeer w.peer_heap) ps
    → for_each (λ p. send_message_async p m) ps w
      ≡ (returns tt, emit (broadcast m w.peer_heap ps) w)
unfolding send_message_async
send_each m [] w a = ap (λ es. (returns tt, record w { sent = es })) (sym (append-nil w.sent))
send_each m (p ∷ ps) w a =
    let (peer, e) = a.0 in
    rw (e, frames_to-on_socket m peer.socket)
      (send_each m ps (emit (on_socket (λ s. text_frame s m) peer.socket) w) a.1
        ∙ ap (λ es. (returns tt, record w { sent = es }))
            (append_assoc w.sent (on_socket (λ s. text_frame s m) peer.socket)
              (broadcast m w.peer_heap ps)))

-- Each peer of the room that has its socket gets the message once, in the order of the map; a peer
-- that has lost its socket gets nothing, and nothing else happens.
pub send_to_all_lem :
    (r : ℕ) (m : MessageDto) (w : World) (room : Room)
    → w.room_heap.cell r ≡ some room
    → All (IsPeer w.peer_heap) (values room.peer_by_id)
    → send_to_all r m w ≡ (returns tt, emit (broadcast m w.peer_heap (values room.peer_by_id)) w)
unfolding send_to_all
send_to_all_lem r m w room e a = rw (e, send_to_all) (send_each m (values room.peer_by_id) w a)
