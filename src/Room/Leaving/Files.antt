-- ===== src/Room/Leaving/Files.antt =====
-- The loop of `removePeerById` (server/src/rooms/Room.cpp) over the files that a peer has shared.
use canchat.Base.{
  ◌∙◌, subst, ◌⊎◌, none, ℤ, ◌≢◌, ℕ, some, List, [], ◌∷◌, ◌≡◌, refl, arith, All, int_eq, inl, inr,
  Bool-cases, nat_same,
}
use canchat.Base.Map.{Map, get, erase, values, get-erase}
use canchat.Base.Heap
use canchat.Base.Heap.{IsFresh, Heap}
use canchat.Base.Exec.{returns, for_each}
use canchat.World.{World}
use canchat.Room.{remove_file}
use canchat.File.{clear_subscribers}
use canchat.World.{SharedFile, Room}
use canchat.Base.Heap.{Heap}
use canchat.World.{Subscriber}
use canchat.Room.Leaving.Downloads.{
  Present, Ended, Ending, Ending-trans, Ending-Present, Ending-Ended, Invalidated,
  Invalidated-for_each,
}

abbrev cleared : SharedFile → SharedFile
cleared file = record file { subscribers = [] }

abbrev pub HasFile : World → ℕ → Type 0
HasFile w f =
    (file : SharedFile) × (w.file_heap.cell f ≡ some file)
    × All (Present w.subscriber_heap) (values file.subscribers)

-- Each file of a map is in memory, with its downloads.
abbrev pub FilesThere : World → Map ℤ ℕ → Type 0
FilesThere w m = (id : ℤ) (f : ℕ) → get id m ≡ some f → HasFile w f

-- A file is left alone, or its downloads are ended.
abbrev Clearing : World → World → Type 0
Clearing u v =
    (f : ℕ) (file : SharedFile)
    → u.file_heap.cell f ≡ some file
    → (v.file_heap.cell f ≡ some file)
      ⊎ ((v.file_heap.cell f ≡ some (cleared file))
          × All (Ended v.subscriber_heap) (values file.subscribers))

-- The downloads of a file are ended, and its number is not in the map.
abbrev pub Gone : World → World → Map ℤ ℕ → ℕ → Type 0
Gone u v m f =
    (file : SharedFile)
    → u.file_heap.cell f ≡ some file
    → All (Ended v.subscriber_heap) (values file.subscribers) × (get file.server_file_id m ≡ none)

-- No file of the list has such a number.
abbrev pub NotListed : World → ℤ → List ℕ → Type 0
NotListed w k =
    All λ f. (file : SharedFile) → w.file_heap.cell f ≡ some file → file.server_file_id ≢ k

module _ (r f : ℕ) (u : World) (room : Room) (file : SharedFile)
    (room_at : u.room_heap.cell r ≡ some room) (file_at : u.file_heap.cell f ≡ some file)
    (i : Invalidated (values file.subscribers) u) where
  abbrev room_without : Room
  room_without = record room { file_by_id = erase file.server_file_id room.file_by_id }

  abbrev world_without : World
  world_without = record u {
    subscriber_heap = i.heap;
    file_heap = Heap.write f (cleared file) u.file_heap;
    room_heap = Heap.write r room_without u.room_heap;
  }

  remove_file_lem : remove_file r f u ≡ (returns tt, world_without)
  unfolding remove_file clear_subscribers
  remove_file_lem = rw (file_at, i.run, Heap.cell-write f (cleared file) u.file_heap, room_at)

  remove_file-Clearing : Clearing u world_without
  remove_file-Clearing g old at = elim (Bool-cases (nat_same g f)) [
    | inl same ↦
        let e : file ≡ old = ground arith in
        inr (ground arith, subst (λ x. All (Ended i.heap) (values x.subscribers)) e i.ended)
    | inr other ↦ inl (ground arith)
  ]

  remove_file-Gone : Gone u world_without room_without.file_by_id f
  remove_file-Gone old at =
      let e : file ≡ old = ground arith in
      (
        subst (λ x. All (Ended i.heap) (values x.subscribers)) e i.ended,
        ground (arith, e, get-erase file.server_file_id old.server_file_id room.file_by_id),
      )

Clearing-HasFile :
    (u v : World)
    → Ending u.subscriber_heap v.subscriber_heap
    → Clearing u v
    → (fs : List ℕ) → All (HasFile u) fs
    → All (HasFile v) fs
Clearing-HasFile u v a c [] p = tt
Clearing-HasFile u v a c (f ∷ fs) ((file, at, subs), p) = (
  elim (c f file at) [
    | inl e ↦ (
      file,
      e,
      Ending-Present u.subscriber_heap v.subscriber_heap a (values file.subscribers) subs,
    )
    | inr (e, ended) ↦ (cleared file, e, tt)
  ],
  Clearing-HasFile u v a c fs p,
)

-- What is gone later, seen from before.
Gone-back :
    (u v w : World) (m : Map ℤ ℕ)
    → Clearing u v
    → Ending v.subscriber_heap w.subscriber_heap
    → (fs : List ℕ) → All (Gone v w m) fs
    → All (Gone u w m) fs
Gone-back u v w m c a [] p = tt
Gone-back u v w m c a (f ∷ fs) (gone, p) = (
  λ file at. elim (c f file at) [
    | inl e ↦ gone file e
    | inr (e, ended) ↦ (
      Ending-Ended v.subscriber_heap w.subscriber_heap a (values file.subscribers) ended,
      (gone (cleared file) e).1,
    )
  ],
  Gone-back u v w m c a fs p,
)

NotListed-after :
    (u v : World) (k : ℤ)
    → Clearing u v
    → (fs : List ℕ) → All (HasFile u) fs
    → NotListed u k fs
    → NotListed v k fs
NotListed-after u v k c [] p n = tt
NotListed-after u v k c (f ∷ fs) ((file, at, subs), p) (n, ns) = (
  λ file' at'. elim (c f file at) [
    | inl e ↦
        let same : file ≡ file' = ground arith in subst (λ x. x.server_file_id ≢ k) same (n file at)
    | inr (e, ended) ↦
        let same : cleared file ≡ file' = ground arith in
        subst (λ x. x.server_file_id ≢ k) same (n file at)
  ],
  NotListed-after u v k c fs p ns,
)

abbrev pub with_heaps : World → Heap Subscriber → Heap SharedFile → Heap Room → World
with_heaps u h files rooms = record u { subscriber_heap = h; file_heap = files; room_heap = rooms }

-- Files stay in memory as they are, but for their subscribers.
abbrev pub Staying : Heap SharedFile → Heap SharedFile → Type 0
Staying g h =
    (f : ℕ) (file : SharedFile)
    → g.cell f ≡ some file
    → (subs : Map ℤ ℕ) × (h.cell f ≡ some (record file { subscribers = subs }))

-- The loop over the leaving peer's files.
pub record Removed (r : ℕ) (fs : List ℕ) (u : World) (room : Room) : Type 0 where
  pub heap : Heap Subscriber
  pub file_heap : Heap SharedFile
  pub room_heap : Heap Room
  pub files : Map ℤ ℕ
  pub run : for_each (remove_file r) fs u ≡ (returns tt, with_heaps u heap file_heap room_heap)
  pub room_at : room_heap.cell r ≡ some (record room { file_by_id = files })
  pub forgotten : (k : ℤ) → get k room.file_by_id ≡ none → get k files ≡ none
  pub others : (k : ℤ) → NotListed u k fs → get k files ≡ get k room.file_by_id
  pub ending : Ending u.subscriber_heap heap
  pub kept :
      (fs : List ℕ) → All (HasFile u) fs → All (HasFile (with_heaps u heap file_heap room_heap)) fs
  pub rooms_same : (q : ℕ) → q ≢ r → room_heap.cell q ≡ u.room_heap.cell q
  pub next_same : room_heap.next ≡ u.room_heap.next
  pub found_before : (k : ℤ) (f : ℕ) → get k files ≡ some f → get k room.file_by_id ≡ some f
  pub still_fresh : IsFresh u.file_heap → IsFresh file_heap
  pub same_files : Staying u.file_heap file_heap
  pub gone : All (Gone u (with_heaps u heap file_heap room_heap) files) fs

abbrev pub world_of : {r : ℕ} {fs : List ℕ} {u : World} {room : Room} → Removed r fs u room → World
world_of {u = u} m = with_heaps u m.heap m.file_heap m.room_heap

Removed-cons :
    (r f : ℕ) (fs : List ℕ) (u : World) (room : Room) (file : SharedFile)
    (room_at : u.room_heap.cell r ≡ some room) (file_at : u.file_heap.cell f ≡ some file)
    (i : Invalidated (values file.subscribers) u)
    → All (HasFile u) fs
    → Removed r fs
        (world_without r f u room file room_at file_at i)
        (room_without r f u room file room_at file_at i)
    → Removed r (f ∷ fs) u room
Removed-cons r f fs u room file room_at file_at i has rest = record {
  heap = rest.heap;
  file_heap = rest.file_heap;
  room_heap = rest.room_heap;
  files = rest.files;
  run = rw (remove_file_lem r f u room file room_at file_at i) rest.run;
  room_at = rest.room_at;
  forgotten =
      λ k n. rest.forgotten k (ground (arith, n, get-erase file.server_file_id k room.file_by_id));
  others = λ k n.
      rest.others k (NotListed-after u v k c fs has n.1)
      ∙ ground (arith, n.0 file file_at, get-erase file.server_file_id k room.file_by_id);
  ending = Ending-trans u.subscriber_heap i.heap rest.heap i.ending rest.ending;
  kept = λ gs all. rest.kept gs (Clearing-HasFile u v i.ending c gs all);
  rooms_same = λ q n. rest.rooms_same q n ∙ Heap.cell-write_ne r q _ u.room_heap n;
  next_same = rest.next_same;
  found_before = λ k g e.
      ground (arith, rest.found_before k g e, get-erase file.server_file_id k room.file_by_id);
  still_fresh = λ fresh. rest.still_fresh (λ q past. ground (arith, fresh q past, file_at));
  same_files = λ g old at. elim (c g old at) [
    | inl e ↦ rest.same_files g old e
    | inr (e, ended) ↦ rest.same_files g (cleared old) e
  ];
  gone = (
    λ old at.
        let g = remove_file-Gone r f u room file room_at file_at i old at in
        (
          Ending-Ended i.heap rest.heap rest.ending (values old.subscribers) g.0,
          rest.forgotten old.server_file_id g.1,
        ),
    Gone-back u v (world_of rest) rest.files c rest.ending fs rest.gone,
  );
}
  where
    v : World
    v = world_without r f u room file room_at file_at i

    c : Clearing u v
    c = remove_file-Clearing r f u room file room_at file_at i

pub Removed-for_each :
    (r : ℕ) (fs : List ℕ) (u : World) (room : Room)
    → u.room_heap.cell r ≡ some room
    → All (HasFile u) fs
    → Removed r fs u room
Removed-for_each r [] u room at p = record {
  heap = u.subscriber_heap;
  file_heap = u.file_heap;
  room_heap = u.room_heap;
  files = room.file_by_id;
  run = refl;
  room_at = at;
  forgotten = λ k n. n;
  others = λ k n. refl;
  ending = λ s sub e. (sub, e, λ v. v);
  kept = λ gs all. all;
  rooms_same = λ q n. refl;
  next_same = refl;
  found_before = λ k f e. e;
  still_fresh = λ fresh. fresh;
  same_files = λ f file e. (file.subscribers, e);
  gone = tt;
}
Removed-for_each r (f ∷ fs) u room at ((file, file_at, subs), p) =
    let i = Invalidated-for_each (values file.subscribers) u subs in
    let v = world_without r f u room file at file_at i in
    Removed-cons r f fs u room file at file_at i p (
      Removed-for_each r fs v (room_without r f u room file at file_at i)
        (Heap.cell-write r _ u.room_heap)
        (Clearing-HasFile u v i.ending (remove_file-Clearing r f u room file at file_at i) fs p))
