-- ===== src/Peer/Dropped.antt =====
-- The messages of a peer that a round of pings has dropped: `onApiError` of
-- server/src/rooms/Peer.cpp after `invalidateSocket`.
use canchat.Base.{ℤ, ℕ, false, Option, none, some, ◌≡◌, refl, sym, ap, ◌∙◌}
use mathlib.Core.Option.{some-injective}
use canchat.Base.Heap
use canchat.Base.Exec.{returns, undefined, ◌>>=◌}
use canchat.Dto.{MessageDto}
use canchat.World.{World}
use canchat.Peer.{send_error, run_starter}
use canchat.Peer.Handlers.{Library, handle_message}
use canchat.Peer.Rejects.{socket_in, socket_of, handle_message_refused}
use canchat.Room.{ping_peer}
use canchat.Room.Pinging.{Pingable, is_alive, ping_peer_lem, pinged}

-- A peer that has not answered the last ping has no socket after the next.
no_socket :
    (p : ℕ) (w : World) (k : Pingable w.peer_heap p)
    → is_alive k.peer ≡ false
    → socket_of p (ping_peer p w).1 ≡ some none
no_socket p w k dead =
    rw (ping_peer_lem p w k)
      (ap socket_in (Heap.cell-write p (pinged k.peer) w.peer_heap) ∙ rw dead refl)

-- A round of pings drops a peer that has not answered the last ping: its socket is gone. A message of
-- it that is refused afterwards, having been read before, makes the server read through a null
-- pointer: the coroutine of the error message is given that socket.
pub refused_after_ping :
    (lib : Library) (p : ℕ) (now : ℤ) (m : MessageDto) (w w' : World) (socket : Option ℕ)
    (e : MessageDto) (k : Pingable w.peer_heap p)
    → is_alive k.peer ≡ false
    → handle_message lib p now m (ping_peer p w).1 ≡ (returns (send_error socket e), w')
    → (handle_message lib p now m >>= run_starter) (ping_peer p w).1
      ≡ (undefined, (ping_peer p w).1)
unfolding run_starter
refused_after_ping lib p now m w w' socket e k dead h =
    let (same, own) = handle_message_refused lib p now m (ping_peer p w).1 w' socket e h in
    let gone : socket ≡ none = some-injective socket none (sym own ∙ no_socket p w k dead) in
    rw (h, gone, same) refl
