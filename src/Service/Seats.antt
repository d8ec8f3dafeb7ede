-- ===== src/Service/Seats.antt =====
-- The members of a channel beside the peers of a room (server/src/rooms/Room.cpp).
use canchat.Room.Leaving.Files.{FilesThere}
use canchat.Room.Leaving.Downloads.{Present}
use canchat.Base.{
  sym, ap, subst, ℤ, int_eq, String, ℕ, some, List, [], ◌∷◌, ◌≡◌, ◌≢◌, refl, ◌∙◌, arith, All, false,
  Bool-cases, inl, inr, int_same,
}
use canchat.Base.Map.{Map, get, insert, erase, values}
use canchat.World.{World, Peer}
use canchat.Room.{no_entries}
use canchat.Room.Broadcast.{IsPeer}
use canchat.Room.Leaving.Files.{HasFile}

-- The peer at `p`, of the room at `r`, with this number and nickname.
pub record Seat (w : World) (r : ℕ) (id : ℤ) (nickname : String) (p : ℕ) : Type 0 where
  pub peer : Peer
  pub peer_at : w.peer_heap.cell p ≡ some peer
  pub same_id : peer.peer_id ≡ id
  pub same_name : peer.nickname ≡ nickname
  pub same_room : peer.room ≡ r
  pub files_at : All (HasFile w) peer.files

-- The same numbers in the same order.
pub data Seats (w : World) (r : ℕ) : Map ℤ String → Map ℤ ℕ → Type 0 where
  none_seated : Seats w r [] []
  seated :
      (id : ℤ) (nickname : String) (p : ℕ) {ms : Map ℤ String} {ps : Map ℤ ℕ}
      → Seat w r id nickname p
      → Seats w r ms ps
      → Seats w r ((id, nickname) ∷ ms) ((id, p) ∷ ps)

-- The peer of a member.
pub record Found (w : World) (r : ℕ) (id : ℤ) (nickname : String) (ps : Map ℤ ℕ) : Type 0 where
  pub p : ℕ
  pub listed : get id ps ≡ some p
  pub seat : Seat w r id nickname p

Found-later :
    (w : World) (r : ℕ) (id k : ℤ) (nickname : String) (q : ℕ) {ps : Map ℤ ℕ}
    → int_same k id ≡ false
    → Found w r id nickname ps
    → Found w r id nickname ((k, q) ∷ ps)
unfolding get
Found-later w r id k nickname q miss f = record {
  p = f.p;
  listed = rw miss f.listed;
  seat = f.seat;
}

pub find :
    (w : World) (r : ℕ) (id : ℤ) (nickname : String) {ms : Map ℤ String} {ps : Map ℤ ℕ}
    → Seats w r ms ps
    → get id ms ≡ some nickname
    → Found w r id nickname ps
unfolding get
find w r id nickname none_seated e = absurd (cc)
find w r id nickname (seated k name p seat s) e = elim (Bool-cases (int_same k id)) [
  | inl hit ↦
      let same_id : k ≡ id = (int_eq.same_iff k id).0 hit in
      let same_name : name ≡ nickname = ground (arith, e, hit) in
      record {
        p = p;
        listed = rw hit;
        seat =
            subst (λ i. Seat w r i nickname p) same_id (subst (λ n. Seat w r k n p) same_name seat);
      }
  | inr miss ↦ Found-later w r id k nickname p miss (find w r id nickname s (rw miss at e))
]

pub Seats-IsPeer :
    (w : World) (r : ℕ) {ms : Map ℤ String} {ps : Map ℤ ℕ}
    → Seats w r ms ps
    → All (IsPeer w.peer_heap) (values ps)
Seats-IsPeer w r none_seated = tt
Seats-IsPeer w r (seated id name p seat s) = ((seat.peer, seat.peer_at), Seats-IsPeer w r s)

-- The files that a step leaves there.
abbrev pub KeepsFiles : World → World → Type 0
KeepsFiles u v = (fs : List ℕ) → All (HasFile u) fs → All (HasFile v) fs

pub KeepsFiles-same :
    (u w : World)
    → w.file_heap ≡ u.file_heap
    → w.subscriber_heap ≡ u.subscriber_heap
    → KeepsFiles u w
KeepsFiles-same u w e d [] h = tt
KeepsFiles-same u w e d (f ∷ fs) ((file, at, subs), h) = (
  (
    file,
    ap (λ k. k.cell f) e ∙ at,
    subst (λ k. All (Present k) (values file.subscribers)) (sym d) subs,
  ),
  KeepsFiles-same u w e d fs h,
)

pub FilesThere-kept : (u w : World) (m : Map ℤ ℕ) → KeepsFiles u w → FilesThere u m → FilesThere w m
FilesThere-kept u w m files h id f e = (files (f ∷ []) (h id f e, tt)).0

pub Seat-kept :
    (u v : World) (r : ℕ) (id : ℤ) (nickname : String) (p : ℕ)
    → v.peer_heap.cell p ≡ u.peer_heap.cell p
    → KeepsFiles u v
    → Seat u r id nickname p
    → Seat v r id nickname p
Seat-kept u v r id nickname p same files s = record {
  peer = s.peer;
  peer_at = same ∙ s.peer_at;
  same_id = s.same_id;
  same_name = s.same_name;
  same_room = s.same_room;
  files_at = files s.peer.files s.files_at;
}

pub Seats-map :
    (u v : World) (r : ℕ) {ms : Map ℤ String} {ps : Map ℤ ℕ}
    → ((id : ℤ) (nickname : String) (p : ℕ) → Seat u r id nickname p → Seat v r id nickname p)
    → Seats u r ms ps
    → Seats v r ms ps
Seats-map u v r f none_seated = none_seated
Seats-map u v r f (seated id name p seat s) =
    seated id name p (f id name p seat) (Seats-map u v r f s)

-- A step that leaves alone every peer of the room.
pub Seats-kept :
    (u v : World) (r : ℕ) {ms : Map ℤ String} {ps : Map ℤ ℕ}
    → ((p : ℕ) (peer : Peer)
        → u.peer_heap.cell p ≡ some peer
        → peer.room ≡ r
        → v.peer_heap.cell p ≡ u.peer_heap.cell p)
    → KeepsFiles u v
    → Seats u r ms ps
    → Seats v r ms ps
Seats-kept u v r keep files = Seats-map u v r λ id name p seat.
    Seat-kept u v r id name p (keep p seat.peer seat.peer_at seat.same_room) files seat

pub Seats-insert :
    (w : World) (r : ℕ) (id : ℤ) (nickname : String) (p : ℕ) {ms : Map ℤ String} {ps : Map ℤ ℕ}
    → Seat w r id nickname p
    → Seats w r ms ps
    → Seats w r (insert id nickname ms) (insert id p ps)
unfolding insert
Seats-insert w r id nickname p seat none_seated = seated id nickname p seat none_seated
Seats-insert w r id nickname p seat (seated k name q other s) = elim (Bool-cases (int_same k id)) [
  | inl hit ↦ rw hit (seated id nickname p seat s)
  | inr miss ↦ rw miss (seated k name q other (Seats-insert w r id nickname p seat s))
]

-- A step that leaves alone every peer but that of one number, which is erased.
pub Seats-erase :
    (u v : World) (r : ℕ) (id : ℤ) {ms : Map ℤ String} {ps : Map ℤ ℕ}
    → ((p : ℕ) (peer : Peer)
        → u.peer_heap.cell p ≡ some peer
        → peer.peer_id ≢ id
        → v.peer_heap.cell p ≡ u.peer_heap.cell p)
    → KeepsFiles u v
    → Seats u r ms ps
    → Seats v r (erase id ms) (erase id ps)
unfolding erase
Seats-erase u v r id keep files none_seated = none_seated
Seats-erase u v r id keep files (seated k name p seat s) = elim (Bool-cases (int_same k id)) [
  | inl hit ↦ rw hit (Seats-erase u v r id keep files s)
  | inr miss ↦
      let other : seat.peer.peer_id ≢ id =
        λ e. absurd (ground (arith, int_eq.same_iff k id, seat.same_id, e, miss)) in
      rw miss (
        seated k name p (Seat-kept u v r k name p (keep p seat.peer seat.peer_at other) files seat)
          (Seats-erase u v r id keep files s))
]

pub no_entries-Seats :
    (w : World) (r : ℕ) {ms : Map ℤ String} {ps : Map ℤ ℕ}
    → Seats w r ms ps
    → no_entries ps ≡ no_entries ms
no_entries-Seats w r none_seated = refl
no_entries-Seats w r (seated k name p seat s) = refl
