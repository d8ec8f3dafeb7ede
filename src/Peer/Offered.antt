-- ===== src/Peer/Offered.antt =====
-- The loop of `handleFilesMessage` (server/src/rooms/Peer.cpp): what it does to rooms, peers and files.
use canchat.Base.{
  Bool-cases, inl, inr, int_same, subst, All-append, List, suc, ℤ, pos, int_eq, suc_int,
  suc_int-eq-add, +ℤ_parts, ◌+ℤ◌, ◌≤ℤ◌, ◌<ℤ◌, int64_max, ℕ, ◌<◌, length, Option, some, [], ◌∷◌, ◌≡◌,
  ◌≢◌, refl, ◌∙◌, arith, All,
}
use canchat.Base.Heap
use canchat.Base.Map.{get, get-insert}
use canchat.Base.Exec.{returns, for_each_collect}
use canchat.Dto.{FileDto, FilesList}
use canchat.World.{World}
use canchat.File.{new_file}
use canchat.Peer.Handlers.{share_one}
use canchat.Room.Sharing.{room_after}
use canchat.Peer.Offers.{
  Complete, listing, skip, Sharer, hosting, next_world, next_sharer, share_one_lem, Offered,
}
use canchat.Room.Leaving.Files.{HasFile, FilesThere}
use canchat.Base.Heap.{IsFresh}

-- The result of the loop.
pub record SharedAll (p : ℕ) (w : World) (s : Sharer p w) (files : FilesList)
    (all : All Complete files) (w' : World) : Type 0 where
  pub next : Sharer p w'
  pub offered : Offered p w'.file_heap next.room.file_by_id s.room.file_id_counter files all
  pub kept :
      (id : ℤ) (f : ℕ) → get id s.room.file_by_id ≡ some f → get id next.room.file_by_id ≡ some f
  pub cells_kept : (f : ℕ) → f < w.file_heap.next → w'.file_heap.cell f ≡ w.file_heap.cell f
  pub same_room : next.peer.room ≡ s.peer.room
  pub same_peers : next.room.peer_by_id ≡ s.room.peer_by_id
  pub same_history : next.room.history ≡ s.room.history
  pub same_socket : next.peer.socket ≡ s.peer.socket
  pub others_same : (q : ℕ) → q ≢ p → w'.peer_heap.cell q ≡ w.peer_heap.cell q
  pub same_config : w'.config ≡ w.config
  pub silent : w'.sent ≡ w.sent
  pub numbered : next.room.file_id_counter ≡ skip s.room.file_id_counter (length files)
  pub same_room_name : next.room.room_name ≡ s.room.room_name
  pub same_nickname : next.peer.nickname ≡ s.peer.nickname
  pub same_id : next.peer.peer_id ≡ s.peer.peer_id
  pub rooms_same : (q : ℕ) → q ≢ s.peer.room → w'.room_heap.cell q ≡ w.room_heap.cell q
  pub next_rooms : w'.room_heap.next ≡ w.room_heap.next
  pub next_peers : w'.peer_heap.next ≡ w.peer_heap.next
  pub same_lobby : w'.lobby ≡ w.lobby
  pub still_fresh : IsFresh w.file_heap → IsFresh w'.file_heap
  pub files_kept : IsFresh w.file_heap → (fs : List ℕ) → All (HasFile w) fs → All (HasFile w') fs
  pub there :
      IsFresh w.file_heap → FilesThere w s.room.file_by_id → FilesThere w' next.room.file_by_id
  pub hosts : IsFresh w.file_heap → All (HasFile w) s.peer.files → All (HasFile w') next.peer.files

-- So many numbers are left.
abbrev pub NumbersLeft : ℤ → ℕ → Type 0
NumbersLeft id n = id +ℤ pos n ≤ℤ pos int64_max

one_left : (id : ℤ) (n : ℕ) → NumbersLeft id (suc n) → id <ℤ pos int64_max
one_left id n h = omega (arith, +ℤ_parts id (pos (suc n)))

NumbersLeft-suc_int :
    (id : ℤ) (n : ℕ) → NumbersLeft id (suc n) → NumbersLeft (suc_int int64_max id) n
NumbersLeft-suc_int id n h =
    rw (suc_int-eq-add int64_max id (one_left id n h)) (
      omega (arith, +ℤ_parts id (pos (suc n)), +ℤ_parts id (pos 1), +ℤ_parts (id +ℤ pos 1) (pos n)))

module _ (p : ℕ) (w : World) (s : Sharer p w) (o : Option FileDto) (k : Complete o)
    (less : s.room.file_id_counter <ℤ pos int64_max) where
  first_kept :
      (id : ℤ) (f : ℕ)
      → get id s.room.file_by_id ≡ some f
      → get id (room_after (hosting s)).file_by_id ≡ some f
  first_kept id f e =
      get-insert s.room.file_id_counter id w.file_heap.next s.room.file_by_id
      ∙ ground (arith, s.below id f e, e)

  first_found :
      get s.room.file_id_counter (room_after (hosting s)).file_by_id ≡ some w.file_heap.next
  first_found =
      get-insert s.room.file_id_counter s.room.file_id_counter w.file_heap.next s.room.file_by_id
      ∙ ground arith

  first-IsFresh : IsFresh w.file_heap → IsFresh (next_world s k).file_heap
  first-IsFresh fresh q past = ground (arith, fresh q (omega arith))

  first_HasFile :
      IsFresh w.file_heap → (fs : List ℕ) → All (HasFile w) fs → All (HasFile (next_world s k)) fs
  first_HasFile fresh [] all = tt
  first_HasFile fresh (f ∷ fs) ((file, at, subs), all) = (
    (file, ground (arith, at, fresh w.file_heap.next (omega arith)), subs),
    first_HasFile fresh fs all,
  )

  new-HasFile : HasFile (next_world s k) w.file_heap.next
  unfolding new_file
  new-HasFile = (
    new_file p k.client_file_id s.room.file_id_counter (some k.name) k.size,
    Heap.cell-alloc _ w.file_heap,
    tt,
  )

  first-FilesThere :
      IsFresh w.file_heap
      → FilesThere w s.room.file_by_id
      → FilesThere (next_world s k) (room_after (hosting s)).file_by_id
  first-FilesThere fresh h id f e =
      let found = get-insert s.room.file_id_counter id w.file_heap.next s.room.file_by_id in
      elim (Bool-cases (int_same id s.room.file_id_counter)) [
        | inl hit ↦
            let same : w.file_heap.next ≡ f = ground (arith, found, hit, e) in
            subst (HasFile (next_world s k)) same new-HasFile
        | inr miss ↦
            let old : get id s.room.file_by_id ≡ some f = ground (arith, found, miss, e) in
            (first_HasFile fresh (f ∷ []) (h id f old, tt)).0
      ]

  SharedAll-more :
      (files : FilesList) (all : All Complete files) (w' : World)
      → SharedAll p (next_world s k) (next_sharer s k less) files all w'
      → SharedAll p w s (o ∷ files) (k, all) w'
  unfolding new_file
  SharedAll-more files all w' r = record {
    next = r.next;
    offered = (
      (
        w.file_heap.next,
        (
          r.kept s.room.file_id_counter w.file_heap.next first_found,
          r.cells_kept w.file_heap.next (omega arith) ∙ Heap.cell-alloc _ w.file_heap,
        ),
      ),
      r.offered,
    );
    kept = λ id f e. r.kept id f (first_kept id f e);
    cells_kept = λ f h. r.cells_kept f (omega arith) ∙ ground arith;
    same_room = r.same_room;
    same_peers = r.same_peers;
    same_history = r.same_history;
    same_socket = r.same_socket;
    others_same = λ q n. r.others_same q n ∙ Heap.cell-write_ne p q _ w.peer_heap n;
    same_config = r.same_config;
    silent = r.silent;
    numbered = r.numbered;
    same_room_name = r.same_room_name;
    same_nickname = r.same_nickname;
    same_id = r.same_id;
    rooms_same = λ q n. r.rooms_same q n ∙ Heap.cell-write_ne s.peer.room q _ w.room_heap n;
    next_rooms = r.next_rooms;
    next_peers = r.next_peers;
    same_lobby = r.same_lobby;
    still_fresh = λ fresh. r.still_fresh (first-IsFresh fresh);
    files_kept = λ fresh fs all. r.files_kept (first-IsFresh fresh) fs (first_HasFile fresh fs all);
    there = λ fresh h. r.there (first-IsFresh fresh) (first-FilesThere fresh h);
    hosts = λ fresh all. r.hosts (first-IsFresh fresh) (
        All-append (HasFile (next_world s k)) s.peer.files (w.file_heap.next ∷ [])
          (first_HasFile fresh s.peer.files all) (new-HasFile, tt));
  }

pub share_all :
    (p : ℕ) (w : World) (s : Sharer p w) (files : FilesList) (all : All Complete files)
    → NumbersLeft s.room.file_id_counter (length files)
    → (w' : World) × ((for_each_collect (share_one p) files w
          ≡ (returns (listing s.room.file_id_counter files all), w'))
        × SharedAll p w s files all w')
share_all p w s [] all bound = (
  w,
  (
    refl,
    record {
      next = s;
      offered = tt;
      kept = λ id f e. e;
      cells_kept = λ f h. refl;
      same_room = refl;
      same_peers = refl;
      same_history = refl;
      same_socket = refl;
      others_same = λ q n. refl;
      same_config = refl;
      silent = refl;
      numbered = refl;
      same_room_name = refl;
      same_nickname = refl;
      same_id = refl;
      rooms_same = λ q n. refl;
      next_rooms = refl;
      next_peers = refl;
      same_lobby = refl;
      still_fresh = λ fresh. fresh;
      files_kept = λ fresh fs all. all;
      there = λ fresh h. h;
      hosts = λ fresh all. all;
    },
  ),
)
share_all p w s (o ∷ files) (k, all) bound =
    let less : s.room.file_id_counter <ℤ pos int64_max =
      one_left s.room.file_id_counter (length files) bound in
    let (w', (run, r)) =
      share_all p (next_world s k) (next_sharer s k less) files all
        (NumbersLeft-suc_int s.room.file_id_counter (length files) bound) in
    (w', (rw (share_one_lem p w s o k) (rw run), SharedAll-more p w s o k less files all w' r))
