-- ===== src/Service/Rooms.antt =====
-- The rooms that the lobby lists, and their peers, are there (server/src/rooms/Lobby.hpp, Room.hpp).
use canchat.Base.{
  ℕ, some, List, [], ◌∷◌, ◌==◌, nat_eq, ◌≡◌, ◌≢◌, sym, subst, ◌∙◌, All, arith, Bool-cases, inl, inr,
}
use canchat.Base.Map.{values}
use canchat.World.{World, Room}
use canchat.Room.Broadcast.{IsPeer}

pub record IsLive (w : World) (r : ℕ) : Type 0 where
  pub room : Room
  pub room_at : w.room_heap.cell r ≡ some room
  pub members : All (IsPeer w.peer_heap) (values room.peer_by_id)

-- No peer goes away.
abbrev pub KeepsPeers : World → World → Type 0
KeepsPeers u w = (p : ℕ) → IsPeer u.peer_heap p → IsPeer w.peer_heap p

peers_kept :
    (u w : World)
    → KeepsPeers u w
    → (ps : List ℕ) → All (IsPeer u.peer_heap) ps
    → All (IsPeer w.peer_heap) ps
peers_kept u w keeps [] all = tt
peers_kept u w keeps (p ∷ ps) (k, all) = (keeps p k, peers_kept u w keeps ps all)

-- A step that changes one room.
pub All-IsLive :
    (r : ℕ) (u w : World)
    → KeepsPeers u w
    → ((q : ℕ) → q ≢ r → w.room_heap.cell q ≡ u.room_heap.cell q)
    → IsLive w r
    → (rs : List ℕ) → All (IsLive u) rs
    → All (IsLive w) rs
All-IsLive r u w keeps same live [] all = tt
All-IsLive r u w keeps same live (q ∷ rs) (k, all) = (
  elim (Bool-cases (q == r)) [
    | inl e ↦ subst (IsLive w) (sym ((nat_eq.same_iff q r).0 e)) live
    | inr e ↦ record {
      room = k.room;
      room_at = same q (λ i. absurd (ground (arith, e, (nat_eq.same_iff q r).1 i))) ∙ k.room_at;
      members = peers_kept u w keeps (values k.room.peer_by_id) k.members;
    }
  ],
  All-IsLive r u w keeps same live rs all,
)
