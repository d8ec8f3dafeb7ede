-- ===== src/Tests/Overlap.antt =====
-- A connection to a room that its last peer has just left.
use canchat.Base.{string_eq, some, [], ◌≡◌, refl}
use canchat.Base.Map.{get}
use canchat.Base.Heap
use canchat.Base.Exec.{returns}
use canchat.World.{World, Room}
use canchat.Room.Joining.{Open}
use canchat.Lobby.{on_after_create}
use canchat.Lobby.Connecting.{counted}
use canchat.Lobby.Overlap.{overlap, Stranded, overlap-Stranded}
use canchat.Tests.{den, den_room}

abbrev abandoned : Room
abandoned = record den_room { peer_by_id = [] }

abbrev deserted : World
deserted = record den { room_heap = Heap.alloc abandoned Heap.empty }

abbrev still_there : Open 0 (counted deserted) []
still_there = record { room = abandoned; room_at = refl; members = tt; remembered = refl }

den_kept : get "den" deserted.lobby.rooms ≡ some 0
unfolding get
den_kept = refl

overlap-Stranded_example :
    (w' : World) × (overlap 0 (on_after_create 72 (some "den") (some "Elk")) deserted
      ≡ (returns 2, w'))
    × Stranded 0 2 "den" deserted w'
overlap-Stranded_example =
    overlap-Stranded 72 0 "den" "Elk" deserted [] still_there den_kept refl refl
