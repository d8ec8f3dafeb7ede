-- ===== src/Room/Leaving.antt =====
-- A peer leaves a room: `removePeerById` of server/src/rooms/Room.cpp, with the files that it shared
-- and the downloads of these.
pub mod Downloads
pub mod Files
use canchat.Base.{
  refl, ◌∙◌, subst, ◌⊎◌, none, ℤ, ◌≢◌, ℕ, false, some, List, [], ◌∷◌, ◌≡◌, refl, arith, All, int_eq,
  inl, inr, Bool-cases, nat_same,
}
use canchat.Base.Map.{Map, get, erase, values, get-erase}
use canchat.Base.Heap
use canchat.Base.Heap.{Heap}
use canchat.Base.Exec.{returns, for_each}
use canchat.World.{store_room, World, Subscriber, store_subscriber}
use canchat.File.{invalidate}
use canchat.Room.{remove_file}
use canchat.File.{clear_subscribers}
use canchat.World.{store_room, SharedFile, Room}
use canchat.File.Stream.{invalidate_lem}
use canchat.Room.{remove_peer_by_id, get_peer_by_id, get_file_by_id}
use canchat.World.{store_room, Peer}
use canchat.Base.{ap, ◌∙◌, sym}
use canchat.Room.Leaving.Downloads.{Ended}
use canchat.Room.Leaving.Files.{world_of, Gone, HasFile, NotListed, Removed, Removed-for_each}

-- A room, one of its peers, and the files that this peer has shared.
pub record Hosted (r : ℕ) (id : ℤ) (w : World) : Type 0 where
  pub room : Room
  pub host : ℕ
  pub peer : Peer
  pub room_at : w.room_heap.cell r ≡ some room
  pub registered : get id room.peer_by_id ≡ some host
  pub host_at : w.peer_heap.cell host ≡ some peer
  pub files_at : All (HasFile w) peer.files

-- For each file of a list, the downloads are ended and the room does not find it.
abbrev pub Withdrawn : ℕ → World → World → List ℕ → Type 0
Withdrawn r w w' = All λ f.
    (file : SharedFile)
    → w.file_heap.cell f ≡ some file
    → All (Ended w'.subscriber_heap) (values file.subscribers)
      × ((get_file_by_id r file.server_file_id w').0 ≡ returns none)

-- The result of a removal.
pub record Left (r : ℕ) (id : ℤ) (fs : List ℕ) (w w' : World) : Type 0 where
  pub peer_gone : (get_peer_by_id r id w').0 ≡ returns none
  pub peers_kept : (j : ℤ) → j ≢ id → (get_peer_by_id r j w').0 ≡ (get_peer_by_id r j w).0
  pub files_gone : Withdrawn r w w' fs
  pub files_kept : (k : ℤ) → NotListed w k fs → (get_file_by_id r k w').0 ≡ (get_file_by_id r k w).0
  pub silent : w'.sent ≡ w.sent

pub find_peer :
    (r : ℕ) (id : ℤ) (w : World) (room : Room)
    → w.room_heap.cell r ≡ some room
    → (get_peer_by_id r id w).0 ≡ returns (get id room.peer_by_id)
unfolding get_peer_by_id
find_peer r id w room e = ground arith

pub find_file :
    (r : ℕ) (id : ℤ) (w : World) (room : Room)
    → w.room_heap.cell r ≡ some room
    → (get_file_by_id r id w).0 ≡ returns (get id room.file_by_id)
unfolding get_file_by_id
find_file r id w room e = ground arith

pub withdrawn :
    (r : ℕ) (w u v : World) (room : Room)
    → v.room_heap.cell r ≡ some room
    → u.subscriber_heap ≡ v.subscriber_heap
    → (fs : List ℕ) → All (Gone w u room.file_by_id) fs
    → Withdrawn r w v fs
withdrawn r w u v room at same [] p = tt
withdrawn r w u v room at same (f ∷ fs) (g, p) = (
  λ file e. (
    subst (λ h. All (Ended h) (values file.subscribers)) same (g file e).0,
    find_file r file.server_file_id v room at ∙ ap returns (g file e).1,
  ),
  withdrawn r w u v room at same fs p,
)

module _ (r : ℕ) (id : ℤ) (w : World) (h : Hosted r id w)
    (m : Removed r h.peer.files w h.room) where
  abbrev pub room_left : Room
  room_left = record (h.room) { file_by_id = m.files; peer_by_id = erase id h.room.peer_by_id }

  abbrev pub world_left : World
  world_left = store_room r room_left (world_of m)

  pub remove_lem : remove_peer_by_id r id w ≡ (returns tt, world_left)
  unfolding remove_peer_by_id
  remove_lem = ground (arith, h.room_at, h.registered, h.host_at, m.run, m.room_at)

  pub left_at : world_left.room_heap.cell r ≡ some room_left
  left_at = Heap.cell-write r room_left (world_of m).room_heap

  left : Left r id h.peer.files w world_left
  left = record {
    peer_gone =
        find_peer r id world_left room_left left_at
        ∙ ap returns (ground (arith, get-erase id id h.room.peer_by_id));
    peers_kept = λ j n.
        find_peer r j world_left room_left left_at
        ∙ ap returns (ground (arith, n, get-erase id j h.room.peer_by_id))
        ∙ sym (find_peer r j w h.room h.room_at);
    files_gone = withdrawn r w (world_of m) world_left room_left left_at refl h.peer.files m.gone;
    files_kept = λ k n.
        find_file r k world_left room_left left_at
        ∙ ap returns (m.others k n)
        ∙ sym (find_file r k w h.room h.room_at);
    silent = refl;
  }

-- A peer of the room, whose shared files and their subscribers are in memory, is removed without an
-- error. The room then finds neither the peer nor any file that it had shared, each download of these
-- is no longer valid, the other peers and the other files are found as before, and nothing is sent.
pub remove_peer_by_id-Left :
    (r : ℕ) (id : ℤ) (w : World) (h : Hosted r id w)
    → (w' : World) × (remove_peer_by_id r id w ≡ (returns tt, w')) × Left r id h.peer.files w w'
remove_peer_by_id-Left r id w h =
    let m = Removed-for_each r h.peer.files w h.room h.room_at h.files_at in
    (world_left r id w h m, remove_lem r id w h m, left r id w h m)
