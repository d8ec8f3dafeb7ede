-- ===== src/Room/Sharing.antt =====
-- `shareFile` and `getFileById` of server/src/rooms/Room.cpp.
use canchat.Base.{
  ℤ, pos, int_eq, ◌<ℤ◌, int64_max, suc_int, suc_int-eq-add, suc_uint64, +ℤ_parts, ℕ, String, Option,
  none, some, [], ◌∷◌, ◌++◌, ◌≡◌, refl, ap, ◌∙◌, arith,
}
use canchat.Base.Map.{get, insert, get-insert}
use canchat.Base.Heap
use canchat.Base.Exec.{returns, throws}
use canchat.World.{World, Peer, Room, SharedFile, store_peer, store_room, count_event}
use canchat.Peer.{add_file}
use canchat.File.{new_file}
use canchat.Room.{share_file, share_hosted, get_peer_by_id, get_file_by_id}

-- A room and one of its peers.
pub record Hosting (r : ℕ) (host_id : ℤ) (w : World) : Type 0 where
  pub room : Room
  pub host : ℕ
  pub peer : Peer
  pub room_at : w.room_heap.cell r ≡ some room
  pub registered : get host_id room.peer_by_id ≡ some host
  pub host_at : w.peer_heap.cell host ≡ some peer

-- The numbers in use are below the counter.
abbrev pub FilesBelow : Room → Type 0
FilesBelow room = (id : ℤ) (f : ℕ) → get id room.file_by_id ≡ some f → id <ℤ room.file_id_counter

abbrev pub room_after : {r : ℕ} {host_id : ℤ} {w : World} → Hosting r host_id w → Room
room_after {w = w} h = record (h.room) {
  file_id_counter = suc_int int64_max h.room.file_id_counter;
  file_by_id = insert h.room.file_id_counter w.file_heap.next h.room.file_by_id;
}

abbrev pub world_after :
    {r : ℕ} {host_id : ℤ} {w : World} → Hosting r host_id w → ℤ → Option String → ℤ → World
world_after {r} {w = w} h client_file_id name size =
    count_event (λ c. record c { event_peer_share_file = suc_uint64 c.event_peer_share_file })
      (store_room r (room_after h) (
        store_peer h.host (record (h.peer) { files = h.peer.files ++ w.file_heap.next ∷ [] })
          (record w {
            file_heap =
                Heap.alloc (new_file h.host client_file_id h.room.file_id_counter name size)
                  w.file_heap;
          })))

pub share_file_lem :
    (r : ℕ) (host_id client_file_id size : ℤ) (name : Option String) (w : World)
    (h : Hosting r host_id w)
    → share_file r host_id client_file_id name size w
      ≡ (returns w.file_heap.next, world_after h client_file_id name size)
unfolding share_file share_hosted get_peer_by_id add_file
share_file_lem r host_id client_file_id size name w h =
    rw (h.room_at, h.registered, h.room_at, h.host_at)

pub room_after-FilesBelow :
    {r : ℕ} {host_id : ℤ} {w : World} (h : Hosting r host_id w)
    → FilesBelow h.room
    → h.room.file_id_counter <ℤ pos int64_max
    → FilesBelow (room_after h)
room_after-FilesBelow {w = w} h below less id g e =
    let c = h.room.file_id_counter in
    rw (suc_int-eq-add int64_max c less) (
      ground (
        arith,
        get-insert c id w.file_heap.next h.room.file_by_id,
        below id g,
        +ℤ_parts c (pos 1),
        e,
      ))

-- A file with these fields, which nobody downloads yet.
abbrev pub offer : ℕ → ℤ → ℤ → Option String → ℤ → SharedFile
offer host client_file_id id name size = record {
  host = host;
  client_file_id = client_file_id;
  server_file_id = id;
  file_name = name;
  file_size = size;
  subscriber_id_counter = pos 1;
  subscribers = [];
}

-- The result of a share.
pub record Shared (r : ℕ) (host_id client_file_id size : ℤ) (name : Option String) (w : World)
    (h : Hosting r host_id w) (f : ℕ) (w' : World) : Type 0 where
  pub file_made :
      w'.file_heap.cell f ≡ some (offer h.host client_file_id h.room.file_id_counter name size)
  pub found : (get_file_by_id r h.room.file_id_counter w').0 ≡ returns (some f)
  pub kept :
      (id : ℤ) (g : ℕ)
      → get id h.room.file_by_id ≡ some g
      → (get_file_by_id r id w').0 ≡ returns (some g)
  pub listed : w'.peer_heap.cell h.host ≡ some (record (h.peer) { files = h.peer.files ++ f ∷ [] })
  pub next_room : Room
  pub room_at : w'.room_heap.cell r ≡ some next_room
  pub numbered : FilesBelow next_room
  pub counted :
      w'.statistics.counters.event_peer_share_file
      ≡ suc_uint64 w.statistics.counters.event_peer_share_file
  pub silent : w'.sent ≡ w.sent

get_file_lem :
    (r : ℕ) (id : ℤ) (w : World) (room : Room)
    → w.room_heap.cell r ≡ some room
    → (get_file_by_id r id w).0 ≡ returns (get id room.file_by_id)
unfolding get_file_by_id
get_file_lem r id w room e = ground arith

-- For a peer of the room, and as long as the counter does not wrap: the share returns a new file
-- that shows the given fields and the room's next number. The room finds it under that number, still
-- finds every file that it had, and numbers the next one higher; the host lists the file; the
-- statistics count it; nothing is sent.
pub share_file-Shared :
    (r : ℕ) (host_id client_file_id size : ℤ) (name : Option String) (w : World)
    (h : Hosting r host_id w)
    → FilesBelow h.room
    → h.room.file_id_counter <ℤ pos int64_max
    → (f : ℕ) × (w' : World) × (share_file r host_id client_file_id name size w ≡ (returns f, w'))
      × Shared r host_id client_file_id size name w h f w'
unfolding new_file
share_file-Shared r host_id client_file_id size name w h below room_left = (
  w.file_heap.next,
  w',
  share_file_lem r host_id client_file_id size name w h,
  record {
    file_made = Heap.cell-alloc _ w.file_heap;
    found =
        get_file_lem r h.room.file_id_counter w' (room_after h) at
        ∙ ap returns (get-insert h.room.file_id_counter h.room.file_id_counter _ _ ∙ ground arith);
    kept = λ id g e.
        get_file_lem r id w' (room_after h) at
        ∙ ap returns (get-insert h.room.file_id_counter id _ _ ∙ ground (arith, below id g e, e));
    listed = Heap.cell-write h.host _ w.peer_heap;
    next_room = room_after h;
    room_at = at;
    numbered = λ id g e. room_after-FilesBelow h below room_left id g e;
    counted = refl;
    silent = refl;
  },
)
  where
    w' : World
    w' = world_after h client_file_id name size

    at : w'.room_heap.cell r ≡ some (room_after h)
    at = Heap.cell-write r (room_after h) w.room_heap

-- A share by somebody who is not in the room throws, and changes nothing.
pub share_file_stranger :
    (r : ℕ) (host_id client_file_id size : ℤ) (name : Option String) (w : World) (room : Room)
    → w.room_heap.cell r ≡ some room
    → get host_id room.peer_by_id ≡ none
    → share_file r host_id client_file_id name size w ≡ (throws "File host not found.", w)
unfolding share_file get_peer_by_id
share_file_stranger r host_id client_file_id size name w room e n = rw (e, n)
