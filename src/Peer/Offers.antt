-- ===== src/Peer/Offers.antt =====
-- The loop of `handleFilesMessage` (server/src/rooms/Peer.cpp) over a list whose fields are there.
use canchat.Base.{
  zero, suc, ℤ, pos, int_eq, suc_int, ◌<ℤ◌, int64_max, String, ℕ, Option, some, [], ◌∷◌, ◌++◌, ◌≡◌,
  All,
}
use canchat.Base.Heap
use canchat.Base.Map.{Map, get}
use canchat.Base.Exec.{returns}
use canchat.Dto.{FileDto, FilesList, empty_file}
use canchat.World.{SharedFile, World, Peer, Room}
use canchat.File.{new_file}
use canchat.Peer.Handlers.{share_one}
use canchat.Room.Sharing.{
  Hosting, FilesBelow, offer, room_after, world_after, share_file_lem, room_after-FilesBelow,
}

-- An element of the list with the fields that `validateFilesList` asks for.
pub record Complete (o : Option FileDto) : Type 0 where
  pub dto : FileDto
  pub client_file_id : ℤ
  pub name : String
  pub size : ℤ
  pub given : o ≡ some dto
  pub client_file_id_is : dto.client_file_id ≡ some client_file_id
  pub name_is : dto.name ≡ some name
  pub size_is : dto.size ≡ some size

-- What the room is told of a file of this number.
abbrev pub entry : ℤ → {o : Option FileDto} → Complete o → Option FileDto
entry id k =
    some (record empty_file { server_file_id = some id; name = some k.name; size = some k.size })

-- The files under consecutive numbers, from the given one on.
abbrev pub listing : ℤ → (files : FilesList) → All Complete files → FilesList
listing id [] all = []
listing id (o ∷ files) (k, all) = entry id k ∷ listing (suc_int int64_max id) files all

-- The number after `n` files.
abbrev pub skip : ℤ → ℕ → ℤ
skip id zero = id
skip id (suc n) = skip (suc_int int64_max id) n

-- A peer in its room.
pub record Sharer (p : ℕ) (w : World) : Type 0 where
  pub peer : Peer
  pub room : Room
  pub peer_at : w.peer_heap.cell p ≡ some peer
  pub room_at : w.room_heap.cell peer.room ≡ some room
  pub registered : get peer.peer_id room.peer_by_id ≡ some p
  pub below : FilesBelow room

abbrev pub hosting : {p : ℕ} {w : World} (s : Sharer p w) → Hosting s.peer.room s.peer.peer_id w
hosting {p} s = record {
  room = s.room;
  host = p;
  peer = s.peer;
  room_at = s.room_at;
  registered = s.registered;
  host_at = s.peer_at;
}

abbrev pub next_world : {p : ℕ} {w : World} → Sharer p w → {o : Option FileDto} → Complete o → World
next_world s k = world_after (hosting s) k.client_file_id (some k.name) k.size

pub share_one_lem :
    (p : ℕ) (w : World) (s : Sharer p w) (o : Option FileDto) (k : Complete o)
    → share_one p o w ≡ (returns (entry s.room.file_id_counter k), next_world s k)
unfolding share_one new_file
share_one_lem p w s o k = rw (
  s.peer_at,
  k.given,
  k.client_file_id_is,
  k.size_is,
  k.name_is,
  share_file_lem s.peer.room s.peer.peer_id k.client_file_id k.size (some k.name) w (hosting s),
  Heap.cell-alloc (new_file p k.client_file_id s.room.file_id_counter (some k.name) k.size)
      w.file_heap,
)

abbrev pub next_sharer :
    {p : ℕ} {w : World} (s : Sharer p w) {o : Option FileDto} (k : Complete o)
    → s.room.file_id_counter <ℤ pos int64_max
    → Sharer p (next_world s k)
next_sharer {p} {w} s k less = record {
  peer = record (s.peer) { files = s.peer.files ++ w.file_heap.next ∷ [] };
  room = room_after (hosting s);
  peer_at = Heap.cell-write p _ w.peer_heap;
  room_at = Heap.cell-write s.peer.room _ w.room_heap;
  registered = s.registered;
  below = room_after-FilesBelow (hosting s) s.below less;
}

-- The room has each file under its number, with the fields that were given.
abbrev pub Offered :
    ℕ → Heap.Heap SharedFile → Map ℤ ℕ → ℤ → (files : FilesList) → All Complete files → Type 0
Offered p heap listed id [] all = Unit
Offered p heap listed id (o ∷ files) (k, all) =
    ((f : ℕ) × ((get id listed ≡ some f)
        × (heap.cell f ≡ some (offer p k.client_file_id id (some k.name) k.size))))
    × Offered p heap listed (suc_int int64_max id) files all
