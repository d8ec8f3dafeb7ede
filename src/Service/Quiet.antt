-- ===== src/Service/Quiet.antt =====
-- Steps that leave rooms and lobby alone, of each peer all but its socket, its counter of pings and its
-- buffer, and the files in memory (server/src/rooms/Peer.cpp).
use canchat.Service.Seats.{FilesThere-kept}
use canchat.Base.Heap.{IsFresh}
use canchat.Base.Heap
use canchat.Base.{
  refl, ℤ, pos, int_eq, string_eq, String, ℕ, Option, none, some, List, [], ◌∷◌, ◌≡◌, sym, ap,
  subst, ◌∙◌, arith, All, Option-cases, inl, inr,
}
use mathlib.Core.Path.{fun_ext}
use canchat.Base.Map.{Map, get, values}
use canchat.Statistics.{default_statistics}
use canchat.World.{World, Peer, store_peer}
use canchat.Room.Broadcast.{IsPeer}
use canchat.Room.Backlog.{backlog}
use canchat.Service.{View, Channel}
use canchat.Service.Seats.{Seats-map, Seat, Seats, KeepsFiles, KeepsFiles-same}
use canchat.Service.Rooms.{IsLive}
use canchat.Service.Refines.{Listed, Matches, Refines}

abbrev pub face : Peer → Peer
face peer = record peer { socket = none; ping_pong_counter = pos 0; message_buffer = [] }

abbrev faces : Option Peer → Option Peer
faces none = none
faces (some peer) = some (face peer)

-- What a quiet step leaves.
abbrev pub still : World → World
still w = record w {
  statistics = default_statistics;
  peer_heap = record { next = w.peer_heap.next; cell = λ p. faces (w.peer_heap.cell p) };
  file_heap = Heap.empty;
  subscriber_heap = Heap.empty;
  sent = [];
}

-- A step that the view does not show.
pub record Unseen (u w : World) : Type 0 where
  pub quiet : still w ≡ still u
  pub files : KeepsFiles u w
  pub fresh : IsFresh u.file_heap → IsFresh w.file_heap

pub Unseen-refl : (w : World) → Unseen w w
Unseen-refl w = record { quiet = refl; files = λ fs all. all; fresh = λ f. f }

pub Unseen-trans : (u v w : World) → Unseen u v → Unseen v w → Unseen u w
Unseen-trans u v w a b = record {
  quiet = b.quiet ∙ a.quiet;
  files = λ fs all. b.files fs (a.files fs all);
  fresh = λ f. b.fresh (a.fresh f);
}

-- Where the files and the downloads are not touched.
pub still-Unseen :
    (u w : World)
    → still w ≡ still u
    → w.file_heap ≡ u.file_heap
    → w.subscriber_heap ≡ u.subscriber_heap
    → Unseen u w
still-Unseen u w e same downloads = record {
  quiet = e;
  files = KeepsFiles-same u w same downloads;
  fresh = λ f. subst IsFresh (sym same) f;
}

pub still-store_peer :
    (p : ℕ) (peer peer' : Peer) (w : World)
    → w.peer_heap.cell p ≡ some peer
    → face peer' ≡ face peer
    → still (store_peer p peer' w) ≡ still w
still-store_peer p peer peer' w at same =
    ap (λ c. record (still w) { peer_heap = record { next = w.peer_heap.next; cell = c } })
      (fun_ext λ q. ground (arith, at, same))

module _ (u w : World) (seen : Unseen u w) where
  abbrev quiet : still w ≡ still u
  quiet = seen.quiet

  -- The same peer after the step.
  record Met (p : ℕ) (peer : Peer) : Type 0 where
    pub met : Peer
    pub met_at : w.peer_heap.cell p ≡ some met
    pub same_face : face met ≡ face peer

  meet : (p : ℕ) (peer : Peer) → u.peer_heap.cell p ≡ some peer → Met p peer
  meet p peer at =
      let same : faces (w.peer_heap.cell p) ≡ some (face peer) =
        ap (λ k. k.peer_heap.cell p) quiet ∙ ap faces at in
      elim (Option-cases (w.peer_heap.cell p)) [
        | inl n ↦ absurd (ground (arith, same, n))
        | inr (met, e) ↦ record { met = met; met_at = e; same_face = ground (arith, same, e) }
      ]

  pub meets : (p : ℕ) → IsPeer u.peer_heap p → IsPeer w.peer_heap p
  meets p (peer, at) = let m = meet p peer at in (m.met, m.met_at)

  pub all_meet : (ps : List ℕ) → All (IsPeer u.peer_heap) ps → All (IsPeer w.peer_heap) ps
  all_meet [] all = tt
  all_meet (p ∷ ps) (k, all) = (meets p k, all_meet ps all)

  Seat-still :
      (r : ℕ) (id : ℤ) (nickname : String) (p : ℕ) → Seat u r id nickname p → Seat w r id nickname p
  Seat-still r id nickname p s =
      let m = meet p s.peer s.peer_at in
      record {
        peer = m.met;
        peer_at = m.met_at;
        same_id = ap (λ k. k.peer_id) m.same_face ∙ s.same_id;
        same_name = ap (λ k. k.nickname) m.same_face ∙ s.same_name;
        same_room = ap (λ k. k.room) m.same_face ∙ s.same_room;
        files_at =
            subst (All _) (sym (ap (λ k. k.files) m.same_face))
              (seen.files s.peer.files s.files_at);
      }

  Seats-still : (r : ℕ) {ms : Map ℤ String} {ps : Map ℤ ℕ} → Seats u r ms ps → Seats w r ms ps
  Seats-still r = Seats-map u w r (Seat-still r)

  Listed-still :
      (name : String) (c : Channel) (next : ℤ) → Listed name c next u → Listed name c next w
  Listed-still name c next l = record {
    r = l.r;
    room = l.room;
    listed = ap (λ k. get name k.lobby.rooms) quiet ∙ l.listed;
    room_at = ap (λ k. k.room_heap.cell l.r) quiet ∙ l.room_at;
    named = l.named;
    seats = Seats-still l.r l.seats;
    remembered = l.remembered ∙ ap (λ k. backlog k.config c.log) (sym quiet);
    numbers = l.numbers;
    files_below = l.files_below;
    files_there = FilesThere-kept u w l.room.file_by_id seen.files l.files_there;
    busy = l.busy;
    below = l.below;
  }

  Matches-still :
      (name : String) (o : Option Channel) (next : ℤ)
      → Matches name o next u
      → Matches name o next w
  Matches-still name none next m = ap (λ k. get name k.lobby.rooms) quiet ∙ m
  Matches-still name (some c) next l = Listed-still name c next l

  pub all-IsLive : (rs : List ℕ) → All (IsLive u) rs → All (IsLive w) rs
  all-IsLive [] all = tt
  all-IsLive (r ∷ rs) (k, all) = (
    record {
      room = k.room;
      room_at = ap (λ x. x.room_heap.cell r) quiet ∙ k.room_at;
      members = all_meet (values k.room.peer_by_id) k.members;
    },
    all-IsLive rs all,
  )

  nobody_there : (p : ℕ) → u.peer_heap.cell p ≡ none → w.peer_heap.cell p ≡ none
  nobody_there p n =
      let same : faces (w.peer_heap.cell p) ≡ none =
        ap (λ k. k.peer_heap.cell p) quiet ∙ ap faces n in
      elim (Option-cases (w.peer_heap.cell p)) [
        | inl e ↦ e
        | inr (met, e) ↦ absurd (ground (arith, same, e))
      ]

  -- A quiet step is not seen in the view.
  pub still-Refines : (v : View) → Refines v u → Refines v w
  still-Refines v fine = record {
    rooms = λ name. Matches-still name (v.channels name) v.next_id (fine.rooms name);
    live =
        subst (λ l. All (IsLive w) (values l.rooms)) (sym (ap (λ k. k.lobby) quiet))
          (all-IsLive (values u.lobby.rooms) fine.live);
    counter = ap (λ k. k.lobby.peer_id_counter) quiet ∙ fine.counter;
    fresh_rooms = λ q past.
        ap (λ k. k.room_heap.cell q) quiet
        ∙ fine.fresh_rooms q (omega (arith, ap (λ k. k.room_heap.next) quiet));
    fresh_peers = λ q past.
        nobody_there q (fine.fresh_peers q (omega (arith, ap (λ k. k.peer_heap.next) quiet)));
    fresh_files = seen.fresh fine.fresh_files;
  }
