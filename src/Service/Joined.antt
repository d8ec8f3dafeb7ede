-- ===== src/Service/Joined.antt =====
-- A room after a join (server/src/rooms/Lobby.cpp, `onAfterCreate_NonBlocking`): the peers beside the members.

use canchat.Service.Seats.{FilesThere-kept}
use canchat.Room.Leaving.Files.{FilesThere}
use canchat.Room.Sharing.{FilesBelow}
use canchat.Service.Rooms.{IsLive, All-IsLive, KeepsPeers}
use canchat.Base.{
  All, [], ℤ, pos, ◌<ℤ◌, ◌≤ℤ◌, ◌+ℤ◌, +ℤ_parts, int_eq, string_eq, suc_int, suc_int-eq-add,
  int64_max, String, ℕ, ◌+◌, ◌≤◌, some, false, [], ◌∷◌, ◌++◌, ◌≡◌, ◌≢◌, refl, sym, ap, subst, ◌∙◌,
  arith,
}
use canchat.Base.Map.{values, Map, get, insert, get-insert}
use canchat.Base.Heap.{IsFresh}
use canchat.World.{World, Peer, Room}
use canchat.Peer.{new_peer}
use canchat.Room.{joined_message, no_entries}
use canchat.Room.Backlog.{backlog}
use canchat.Room.Joining.{Open}
use canchat.Lobby.Connecting.{Connected, newcomer}
use canchat.Service.{View, Channel, put, with_member, has_joined}
use canchat.Service.Seats.{KeepsFiles-same, Seat, Seats, Seats-kept, Seats-insert, KeepsFiles}
use canchat.Service.Refines.{Listed-IsLive, Listed, Refines, Untouched, Matches-kept, Matches-put}

no_entries-insert {ℓ} :
    {A : Type ℓ} (id : ℤ) (a : A) (m : Map ℤ A) → no_entries (insert id a m) ≡ false
unfolding insert
no_entries-insert id a [] = refl
no_entries-insert id a ((k, b) ∷ m) = ground arith

joined-eq-has_joined :
    (socket r : ℕ) (nickname : String) (u : World)
    → joined_message (newcomer socket r nickname u) ≡ has_joined u.lobby.peer_id_counter nickname
unfolding joined_message new_peer
joined-eq-has_joined socket r nickname u = refl

-- The world `u` in which the room of a join was found, or made.
pub record Ready (name : String) (c : Channel) (v : View) (w u : World) (r : ℕ) (o : Open r u c.log)
    : Type 1 where
  pub named : o.room.room_name ≡ name
  pub numbers : o.room.file_id_counter ≡ c.next_file
  pub files_below : FilesBelow o.room
  pub files_there : FilesThere w o.room.file_by_id
  pub seats : Seats w r c.members o.room.peer_by_id
  pub listed : get name u.lobby.rooms ≡ some r
  pub others : (n : String) → n ≢ name → get n u.lobby.rooms ≡ get n w.lobby.rooms
  pub others_live :
      (P : ℕ → Type 0) → P r → All P (values w.lobby.rooms) → All P (values u.lobby.rooms)
  pub rooms_same : (q : ℕ) → q ≢ r → u.room_heap.cell q ≡ w.room_heap.cell q
  pub peers_same : u.peer_heap ≡ w.peer_heap
  pub files_same : u.file_heap ≡ w.file_heap
  pub downloads_same : u.subscriber_heap ≡ w.subscriber_heap
  pub config_same : u.config ≡ w.config
  pub counter_same : u.lobby.peer_id_counter ≡ w.lobby.peer_id_counter
  pub fresh_rooms : IsFresh u.room_heap
  pub apart :
      (n : String)
      → n ≢ name
      → (q : ℕ) (room : Room) → w.room_heap.cell q ≡ some room
      → room.room_name ≡ n
      → q ≢ r
  pub below : (id : ℤ) (nickname : String) → get id c.members ≡ some nickname → id <ℤ v.next_id

module _ (socket r : ℕ) (name nickname : String) (c : Channel) (v : View) (w u : World)
    (o : Open r u c.log) (fine : Refines v w) (ready : Ready name c v w u r o)
    (more : v.next_id <ℤ pos int64_max) (w' : World)
    (done : Connected socket r name nickname u c.log o w') where
  id_is : u.lobby.peer_id_counter ≡ v.next_id
  id_is = ready.counter_same ∙ fine.counter

  next_is : suc_int int64_max v.next_id ≡ v.next_id +ℤ pos 1
  next_is = suc_int-eq-add int64_max v.next_id more

  later : v.next_id ≤ℤ suc_int int64_max v.next_id
  later = rw next_is (omega (arith, +ℤ_parts v.next_id (pos 1)))

  taken : (p : ℕ) (peer : Peer) → w.peer_heap.cell p ≡ some peer → p ≢ w.peer_heap.next
  taken p peer at e = ground (arith, at, e, fine.fresh_peers w.peer_heap.next (omega arith))

  old_peer :
      (p : ℕ) (peer : Peer)
      → w.peer_heap.cell p ≡ some peer
      → w'.peer_heap.cell p ≡ w.peer_heap.cell p
  old_peer p peer at =
      done.peers_same p (λ e. taken p peer at (e ∙ ap (λ h. h.next) ready.peers_same))
      ∙ ap (λ h. h.cell p) ready.peers_same

  files_kept : KeepsFiles w w'
  files_kept =
      KeepsFiles-same w w' (done.files_same ∙ ready.files_same)
        (done.downloads_same ∙ ready.downloads_same)

  untouched : Untouched r w w'
  untouched = record {
    rooms_same = λ q n. done.rooms_same q n ∙ ready.rooms_same q n;
    peers_same = λ p peer at n. old_peer p peer at;
    files_kept = files_kept;
    config_same = done.config_same ∙ ready.config_same;
  }

  new-Seat : Seat w' r v.next_id nickname u.peer_heap.next
  unfolding new_peer
  new-Seat = record {
    peer = newcomer socket r nickname u;
    peer_at = done.peer_at;
    same_id = id_is;
    same_name = refl;
    same_room = refl;
    files_at = tt;
  }

  now-Listed : Listed name (with_member v.next_id nickname c) (suc_int int64_max v.next_id) w'
  now-Listed = record {
    r = r;
    room = done.room;
    listed = ap (get name) done.rooms_kept ∙ ready.listed;
    room_at = done.room_at;
    named = done.room_name ∙ ready.named;
    seats =
        subst (Seats w' r (insert v.next_id nickname c.members))
          (sym (done.members ∙ ap (λ i. insert i u.peer_heap.next o.room.peer_by_id) id_is))
          (Seats-insert w' r v.next_id nickname u.peer_heap.next new-Seat
            (Seats-kept w w' r (λ p peer at in_room. old_peer p peer at) files_kept ready.seats));
    remembered =
        done.remembered
        ∙ ap (λ m. backlog w'.config (c.log ++ m ∷ []))
            (joined-eq-has_joined socket r nickname u ∙ ap (λ i. has_joined i nickname) id_is);
    numbers = done.room_numbers ∙ ready.numbers;
    files_below =
        λ id f e. ground (arith, ready.files_below id f, done.room_files, done.room_numbers, e);
    files_there =
        subst (FilesThere w') (sym done.room_files)
          (FilesThere-kept w w' o.room.file_by_id files_kept ready.files_there);
    busy = no_entries-insert v.next_id nickname c.members;
    below = λ id n e. rw next_is (
        ground (
          arith,
          get-insert v.next_id id nickname c.members,
          ready.below id n,
          +ℤ_parts v.next_id (pos 1),
          e,
        ));
  }

  now-IsLive : IsLive w' r
  unfolding now-Listed
  now-IsLive =
      Listed-IsLive name (with_member v.next_id nickname c) (suc_int int64_max v.next_id) w'
        now-Listed

  keeps_peers : KeepsPeers w w'
  keeps_peers p (peer, at) = (peer, old_peer p peer at ∙ at)

  past_rooms : (q : ℕ) → u.room_heap.next ≤ q → q ≢ r
  past_rooms q past e = ground (arith, e, o.room_at, ready.fresh_rooms q past)

  pub joined-Refines :
      Refines
        (record (put name (some (with_member v.next_id nickname c)) v) {
          next_id = suc_int int64_max v.next_id;
        })
        w'
  joined-Refines = record {
    rooms =
        Matches-put v w' name (some (with_member v.next_id nickname c))
          (suc_int int64_max v.next_id) now-Listed
          (λ n other.
            Matches-kept r w w' n (v.channels n) v.next_id (suc_int int64_max v.next_id) untouched
              (ap (get n) done.rooms_kept ∙ ready.others n other) later (ready.apart n other)
              (fine.rooms n));
    live =
        subst (λ m. All (IsLive w') (values m)) (sym done.rooms_kept)
          (ready.others_live (IsLive w') now-IsLive (
            All-IsLive r w w' keeps_peers untouched.rooms_same now-IsLive (values w.lobby.rooms)
              fine.live));
    counter = done.numbered ∙ ap (suc_int int64_max) id_is;
    fresh_rooms = λ q past.
        let far : u.room_heap.next ≤ q = omega (arith, done.next_rooms) in
        done.rooms_same q (past_rooms q far) ∙ ready.fresh_rooms q far;
    fresh_peers = λ q past.
        let far : u.peer_heap.next + 1 ≤ q = omega (arith, done.next_peers) in
        done.peers_same q (λ e. absurd (omega arith))
        ∙ ap (λ h. h.cell q) ready.peers_same
        ∙ fine.fresh_peers q (omega (arith, ap (λ h. h.next) ready.peers_same));
    fresh_files = subst IsFresh (sym (done.files_same ∙ ready.files_same)) fine.fresh_files;
  }
