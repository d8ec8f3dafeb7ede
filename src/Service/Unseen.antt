-- ===== src/Service/Unseen.antt =====
-- Calls that the view does not show: somebody is typing, a peer answers a ping (server/src/rooms/Peer.cpp),
-- a round of pings (server/src/rooms/Lobby.cpp).
use canchat.Peer.Chat.{InRoom}
use canchat.Base.{
  ℕ, List, subst, Option, ℤ, int_eq, string_eq, String, some, true, ◌≡◌, refl, arith,
}
use canchat.Base.Map.{values}
use canchat.Base.Exec.{returns}
use canchat.Dto.{
  envelope, MessageDto, MessageCode, Envelope, History, code_peer_is_typing, message_dto,
}
use canchat.World.{World, emit, store_peer}
use canchat.Peer.{on_pong, pong, run_starter, no_action}
use canchat.Peer.Handlers.{Ticks, Library, finish_message, handle_message, dispatch, stamp}
use canchat.Room.Broadcast.{broadcast, send_to_all_lem}
use canchat.Service.{View, Call, says, answers, pings, is_typing, step, handle_call}
use canchat.Service.Refines.{Refines, Handled}
use canchat.Service.Listeners.{in_room, Sitting, seated-Sitting, listener_lem}
use canchat.Service.Quiet.{still-Unseen, still-store_peer, still-Refines}
use canchat.Service.Pings.{IsQuiet, ping_round-IsQuiet}

-- A quiet call that the view passes over.
pub IsQuiet-Handled :
    (lib : Library) (call : Call) (v : View) (w : World)
    → Refines v w
    → IsQuiet (handle_call lib call) w
    → Handled lib call w v
IsQuiet-Handled lib call v w fine q = record {
  after = q.after;
  run = q.run;
  still = still-Refines w q.after q.quiet v fine;
}

is_typing_lem : (o : Option MessageCode) → is_typing o ≡ true → o ≡ some code_peer_is_typing
is_typing_lem o e = ground (arith, e)

typing_lem :
    (lib : Library) (p : ℕ) (now : ℤ) (m : MessageDto) (w : World) (ms : List MessageDto)
    (i : InRoom p w ms)
    → (envelope m).message_code ≡ some code_peer_is_typing
    → handle_message lib p now m w
      ≡ (returns no_action, emit (broadcast m w.peer_heap (values i.room.peer_by_id)) w)
unfolding handle_message dispatch
typing_lem lib p now m w ms i e =
    rw (e, handle_message)
      (rw (i.peer_at) (rw (send_to_all_lem i.peer.room m w i.room i.room_at i.members) refl))

module _ (lib : Library) (name : String) (id : ℤ) (v : View) (w : World) (fine : Refines v w)
    (s : Sitting name id v w) where
  pub typing-Handled :
      (now : Ticks) (e : Envelope) (h : History)
      → is_typing e.message_code ≡ true
      → Handled lib (says name id now e h) w v
  unfolding handle_call finish_message run_starter stamp
  typing-Handled now e h typing = IsQuiet-Handled lib (says name id now e h) v w fine (record {
    after = emit (broadcast m w.peer_heap (values s.room.room.peer_by_id)) w;
    run =
        rw (listener_lem name id v w s, s.found.seat.peer_at)
          (rw
            (typing_lem lib s.found.p now.shared_at m w s.channel.log (in_room name id v w s)
              (is_typing_lem e.message_code typing))
            refl);
    quiet = still-Unseen w _ refl refl refl;
  })
    where
      m : MessageDto
      m = stamp s.found.seat.peer now.read_at (message_dto e h)

  answers-Handled : Handled lib (answers name id) w v
  unfolding handle_call on_pong pong run_starter
  answers-Handled = IsQuiet-Handled lib (answers name id) v w fine (record {
    after = store_peer s.found.p (pong s.found.seat.peer) w;
    run = rw (listener_lem name id v w s, s.found.seat.peer_at);
    quiet =
        still-Unseen w (store_peer s.found.p (pong s.found.seat.peer) w)
          (still-store_peer s.found.p s.found.seat.peer (pong s.found.seat.peer) w
            s.found.seat.peer_at refl)
          refl refl;
  })

-- An answer to a ping that the view allows.
pub answers-Refines :
    (lib : Library) (name : String) (id : ℤ) (v v' : View) (w : World)
    → Refines v w
    → step (answers name id) v ≡ some v'
    → Handled lib (answers name id) w v'
unfolding step
answers-Refines lib name id v v' w fine allowed =
    let (s, same) = seated-Sitting name id v w _ v' fine allowed in
    subst (Handled lib (answers name id) w) (ground (arith, same))
      (answers-Handled lib name id v w fine s)

-- A round of pings.
pub pings-Refines :
    (lib : Library) (v v' : View) (w : World)
    → Refines v w
    → step pings v ≡ some v'
    → Handled lib pings w v'
unfolding step handle_call
pings-Refines lib v v' w fine allowed =
    subst (Handled lib pings w) (ground (arith, allowed))
      (IsQuiet-Handled lib pings v w fine (ping_round-IsQuiet w fine.live))
