-- ===== src/Service/Refines.antt =====
-- When the server's state stands for a view of the rooms (server/src/rooms/Lobby.hpp, Room.hpp).
use canchat.Room.Sharing.{FilesBelow}
use canchat.Service.Rooms.{IsLive}
use canchat.Peer.Handlers.{Library}
use canchat.Base.Exec.{returns}
use canchat.Base.{
  All, ℤ, ◌≤ℤ◌, ◌<ℤ◌, int_eq, string_eq, String, ℕ, Option, none, some, false, ◌==◌, ◌≡◌, ◌≢◌, sym,
  ap, subst, ◌∙◌, arith, Bool-cases, inl, inr,
}
use canchat.Base.Map.{values, get}
use canchat.Base.Heap.{IsFresh}
use canchat.World.{World, Peer, Room}
use canchat.Room.{no_entries}
use canchat.Room.Backlog.{backlog}
use canchat.Service.{Call, handle_call, View, Channel, put}
use canchat.Room.Leaving.Files.{FilesThere}
use canchat.Service.Seats.{FilesThere-kept, Seats-IsPeer, Seats, Seats-kept, KeepsFiles}

-- The lobby lists the room of an open channel: its peers are the members, of whom there is one, and
-- its history is the end of the log.
pub record Listed (name : String) (c : Channel) (next : ℤ) (w : World) : Type 0 where
  pub r : ℕ
  pub room : Room
  pub listed : get name w.lobby.rooms ≡ some r
  pub room_at : w.room_heap.cell r ≡ some room
  pub named : room.room_name ≡ name
  pub seats : Seats w r c.members room.peer_by_id
  pub remembered : room.history ≡ backlog w.config c.log
  pub numbers : room.file_id_counter ≡ c.next_file
  pub files_below : FilesBelow room
  pub files_there : FilesThere w room.file_by_id
  pub busy : no_entries c.members ≡ false
  pub below : (id : ℤ) (nickname : String) → get id c.members ≡ some nickname → id <ℤ next

pub Listed-IsLive :
    (name : String) (c : Channel) (next : ℤ) (w : World) (l : Listed name c next w) → IsLive w l.r
Listed-IsLive name c next w l = record {
  room = l.room;
  room_at = l.room_at;
  members = Seats-IsPeer w l.r l.seats;
}

-- And it lists no room that is not open.
abbrev pub Matches : String → Option Channel → ℤ → World → Type 0
Matches name none next w = get name w.lobby.rooms ≡ none
Matches name (some c) next w = Listed name c next w

pub record Refines (v : View) (w : World) : Type 0 where
  pub rooms : (name : String) → Matches name (v.channels name) v.next_id w
  pub live : All (IsLive w) (values w.lobby.rooms)
  pub counter : w.lobby.peer_id_counter ≡ v.next_id
  pub fresh_rooms : IsFresh w.room_heap
  pub fresh_peers : IsFresh w.peer_heap
  pub fresh_files : IsFresh w.file_heap

-- A step that touches one room, and peers of this room only.
pub record Untouched (r : ℕ) (u w : World) : Type 0 where
  pub rooms_same : (q : ℕ) → q ≢ r → w.room_heap.cell q ≡ u.room_heap.cell q
  pub peers_same :
      (p : ℕ) (peer : Peer)
      → u.peer_heap.cell p ≡ some peer
      → peer.room ≢ r
      → w.peer_heap.cell p ≡ u.peer_heap.cell p
  pub files_kept : KeepsFiles u w
  pub config_same : w.config ≡ u.config

Listed-kept :
    (r : ℕ) (u w : World) (name : String) (c : Channel) (next next' : ℤ)
    → Untouched r u w
    → get name w.lobby.rooms ≡ get name u.lobby.rooms
    → next ≤ℤ next'
    → (l : Listed name c next u) → l.r ≢ r
    → Listed name c next' w
Listed-kept r u w name c next next' t same later l apart = record {
  r = l.r;
  room = l.room;
  listed = same ∙ l.listed;
  room_at = t.rooms_same l.r apart ∙ l.room_at;
  named = l.named;
  seats =
      Seats-kept u w l.r
        (λ p peer at in_room. t.peers_same p peer at (λ e. apart (sym in_room ∙ e))) t.files_kept
        l.seats;
  remembered = l.remembered ∙ ap (λ k. backlog k c.log) (sym t.config_same);
  numbers = l.numbers;
  files_below = l.files_below;
  files_there = FilesThere-kept u w l.room.file_by_id t.files_kept l.files_there;
  busy = l.busy;
  below = λ id nickname e. let b = l.below id nickname e in omega arith;
}

pub Matches-kept :
    (r : ℕ) (u w : World) (name : String) (o : Option Channel) (next next' : ℤ)
    → Untouched r u w
    → get name w.lobby.rooms ≡ get name u.lobby.rooms
    → next ≤ℤ next'
    → ((q : ℕ) (room : Room) → u.room_heap.cell q ≡ some room → room.room_name ≡ name → q ≢ r)
    → Matches name o next u
    → Matches name o next' w
Matches-kept r u w name none next next' t same later apart m = same ∙ m
Matches-kept r u w name (some c) next next' t same later apart l =
    Listed-kept r u w name c next next' t same later l (apart l.r l.room l.room_at l.named)

-- Every room, by the one that a step changes and the others.
pub Matches-put :
    (v : View) (w : World) (name : String) (o : Option Channel) (next : ℤ)
    → Matches name o next w
    → ((n : String) → n ≢ name → Matches n (v.channels n) next w)
    → (n : String) → Matches n ((put name o v).channels n) next w
Matches-put v w name o next here there n = elim (Bool-cases (n == name)) [
  | inl e ↦ rw e (subst (λ k. Matches k o next w) (sym ((string_eq.same_iff n name).0 e)) here)
  | inr e ↦ rw e (there n (λ same. absurd (ground (arith, e, (string_eq.same_iff n name).1 same))))
]

-- The result of a call that the view allows.
pub record Handled (lib : Library) (call : Call) (w : World) (v' : View) : Type 0 where
  pub after : World
  pub run : handle_call lib call w ≡ (returns tt, after)
  pub still : Refines v' after
