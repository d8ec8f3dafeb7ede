-- ===== src/Service/Runs.antt =====
-- Connections, messages, shared files, requests for files, pings, answers to them and ends of
-- connections in any order (server/src/rooms/Lobby.cpp, Room.cpp and Peer.cpp).
use canchat.Service.Shares.{shares-Refines}
use canchat.Service.Unseen.{answers-Refines, pings-Refines}
use canchat.Base.{
  ℤ, int_eq, string_eq, String, ℕ, Option, none, some, false, List, [], ◌∷◌, ◌≡◌, refl, ap, subst,
  ◌∙◌, arith, Option-cases, inl, inr,
}
use canchat.Base.Map.{get}
use canchat.Base.Heap.{IsFresh}
use canchat.Base.Exec.{returns}
use canchat.World.{World, Room}
use canchat.Peer.Handlers.{Library}
use canchat.Room.{no_entries}
use canchat.Room.Backlog.{backlog}
use canchat.Lobby.{get_room}
use canchat.Service.Requests.{requests-Refines}
use canchat.Service.{
  requests, shares, answers, pings, View, Channel, Call, joins, says, leaves, step, run_view,
  handle_calls,
}
use canchat.Service.Seats.{no_entries-Seats}
use canchat.Service.Refines.{Matches, Refines, Handled}
use canchat.Service.Joins.{joins-Refines}
use canchat.Service.Says.{says-Refines}
use canchat.Service.Leaves.{leaves-Refines}

step-Refines :
    (lib : Library) (call : Call) (v v' : View) (w : World)
    → Refines v w
    → step call v ≡ some v'
    → Handled lib call w v'
step-Refines lib (joins socket name nickname) v v' w = joins-Refines lib socket name nickname v v' w
step-Refines lib (says name id now e h) v v' w = says-Refines lib name id now e h v v' w
step-Refines lib (shares name id now files) v v' w = shares-Refines lib name id now files v v' w
step-Refines lib (leaves name id) v v' w = leaves-Refines lib name id v v' w
step-Refines lib (answers name id) v v' w = answers-Refines lib name id v v' w
step-Refines lib pings v v' w = pings-Refines lib v v' w
step-Refines lib (requests texts name file_id) v v' w =
    requests-Refines lib texts name file_id v v' w

-- Any calls that the view `v` allows one after the other, made of a server whose state stands for
-- `v`: no handler throws or reads through a null pointer, and the state afterwards stands for the
-- view that the calls lead to. In it the open rooms, their members and nicknames, the next numbers of
-- peers and files and the remembered messages are those of the view.
pub handle_calls-Refines :
    (lib : Library) (calls : List Call) (v v' : View) (w : World)
    → Refines v w
    → run_view calls v ≡ some v'
    → (w' : World) × ((handle_calls lib calls w ≡ (returns tt, w')) × Refines v' w')
unfolding run_view
handle_calls-Refines lib [] v v' w fine e =
    (w, (refl, subst (λ u. Refines u w) (ground (arith, e)) fine))
handle_calls-Refines lib (call ∷ calls) v v' w fine e = elim (Option-cases (step call v)) [
  | inl n ↦ absurd (ground (arith, e, n))
  | inr (u, allowed) ↦
      let h = step-Refines lib call v u w fine allowed in
      let (w', (run, still)) =
        handle_calls-Refines lib calls u v' h.after h.still (rw (run_view, allowed) at e) in
      (w', (rw h.run run, still))
]

-- A server that has no room yet.
pub record IsEmpty (w : World) : Type 0 where
  pub no_rooms : w.lobby.rooms ≡ []
  pub fresh_rooms : IsFresh w.room_heap
  pub fresh_peers : IsFresh w.peer_heap
  pub fresh_files : IsFresh w.file_heap

abbrev pub nobody : ℤ → View
nobody next = record { channels = λ name. none; next_id = next }

pub nobody-Refines : (w : World) → IsEmpty w → Refines (nobody w.lobby.peer_id_counter) w
unfolding get
nobody-Refines w empty = record {
  rooms = λ name. ap (get name) empty.no_rooms;
  live = rw (empty.no_rooms) tt;
  counter = refl;
  fresh_rooms = empty.fresh_rooms;
  fresh_peers = empty.fresh_peers;
  fresh_files = empty.fresh_files;
}

-- What the lobby answers when it is asked for a room.
abbrev pub Answer : String → Option Channel → World → Type 0
Answer name none w = get_room name w ≡ (returns none, w)
Answer name (some c) w =
    (r : ℕ) × ((room : Room) × ((get_room name w ≡ (returns (some r), w))
        × ((w.room_heap.cell r ≡ some room)
            × ((no_entries room.peer_by_id ≡ false) × (room.history ≡ backlog w.config c.log)))))

pub answer_lem :
    (name : String) (o : Option Channel) (next : ℤ) (w : World)
    → Matches name o next w
    → Answer name o w
unfolding get_room
answer_lem name none next w absent = rw absent
answer_lem name (some c) next w l = (
  l.r,
  (l.room, (rw (l.listed), (l.room_at, (no_entries-Seats w l.r l.seats ∙ l.busy, l.remembered)))),
)

-- Whatever calls are made of a server without rooms, as long as the view allows them: afterwards the
-- lobby has under a name the room of the view, with somebody in it and the last messages said there
-- since it was opened, and `nullptr` where the view has no room.
pub handle_calls-Answer :
    (lib : Library) (calls : List Call) (v' : View) (w : World) (name : String)
    → IsEmpty w
    → run_view calls (nobody w.lobby.peer_id_counter) ≡ some v'
    → (w' : World) × ((handle_calls lib calls w ≡ (returns tt, w'))
        × Answer name (v'.channels name) w')
handle_calls-Answer lib calls v' w name empty e =
    let (w', (run, fine)) = handle_calls-Refines lib calls _ v' w (nobody-Refines w empty) e in
    (w', (run, answer_lem name (v'.channels name) v'.next_id w' (fine.rooms name)))
