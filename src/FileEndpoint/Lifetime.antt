-- ===== src/FileEndpoint/Lifetime.antt =====
-- A download from the response to its end (server/src/controller/FileController.hpp and
-- server/src/rooms/File.cpp): when the body is destroyed, its subscriber is, and unsubscribes.
use canchat.Base.Heap.{Heap}
use canchat.Room.Leaving.Downloads.{Present, all_Present, Invalidated-for_each}
use canchat.FileEndpoint.{read, count_served}
use canchat.Base.Exec.{for_each_keeps, Outcome, returns, throws, undefined, continue, pure, ◌>>◌}
use canchat.Base.Heap
use canchat.Base.Map.{Map, values, All-insert, get, insert, erase, erase-insert}
use canchat.Base.{
  subst, All, Bool, true, false, if◌then◌else◌, Option-cases, Bool-cases, inl, inr, sym, ◌∙◌, ap,
  int_eq, suc_int, int64_max, List, [], ◌∷◌, refl, ap, ◌∙◌, ℤ, int_eq, ℕ, Option, none, some, ◌≡◌,
  arith,
}
use canchat.Base.Heap
use canchat.World.{SharedFile, store_file, World, Bytes, Subscriber}
use canchat.File.{
  provide_file_chunk, clear_subscribers, ReadResult, read_bytes, retry_read, subscribe,
  drop_subscriber, unsubscribe, new_subscriber, read_chunk, deliver_chunk, request_chunk,
  take_chunk, invalidate,
}
use canchat.Peer.{send_message_async}

-- What happens to a download of the file at `f`, between its response and the end of that: a read of
-- the response, a chunk that the host gives the file for a download of some number, and the room that
-- clears the file's downloads, when the host leaves.
pub data Use : Type 0 where
  reads : ℕ → Use
  provides : ℤ → Bytes → Use
  clears : Use

unfoldable pub use_one : ℕ → ℕ → Use → World → World
use_one f s (reads count) w = (read s count w).1
use_one f s (provides id bytes) w = (provide_file_chunk f id bytes w).1
use_one f s clears w = (clear_subscribers f w).1

unfoldable pub use_all : ℕ → ℕ → List Use → World → World
use_all f s [] w = w
use_all f s (op ∷ ops) w = use_all f s ops (use_one f s op w)

-- Whether the file was cleared, already or in these uses.
abbrev pub cleared : Bool → List Use → Bool
cleared b [] = b
cleared b (reads count ∷ ops) = cleared b ops
cleared b (provides id bytes ∷ ops) = cleared b ops
cleared b (clears ∷ ops) = cleared true ops

-- Which file and number a subscriber has.
abbrev identity : Option Subscriber → Option (ℕ × ℤ)
identity none = none
identity (some sub) = some (sub.file, sub.subscriber_id)

-- The subscribers are the same, whatever became of them.
abbrev SameDownloads : World → World → Type 0
SameDownloads u v =
    (t : ℕ) → identity (v.subscriber_heap.cell t) ≡ identity (u.subscriber_heap.cell t)

-- What reads and chunks leave alone.
record Same (u v : World) : Type 0 where
  files : v.file_heap ≡ u.file_heap
  downloads : SameDownloads u v

read_chunk-Same : (s count : ℕ) (w : World) → Same w (read_chunk s count w).1
unfolding read_chunk deliver_chunk request_chunk send_message_async
read_chunk-Same s count w = record { files = ground arith; downloads = λ t. ground arith }

provide_file_chunk-Same :
    (f : ℕ) (id : ℤ) (bytes : Bytes) (w : World) → Same w (provide_file_chunk f id bytes w).1
unfolding provide_file_chunk take_chunk
provide_file_chunk-Same f id bytes w = record {
  files = ground arith;
  downloads = λ t. ground arith;
}

-- The end of `read`, by what the read of the chunk came to.
counted-Same :
    (w : World) (x : Outcome ReadResult × World)
    → Same w x.1
    → Same w (continue x (λ res. count_served res >> pure res)).1
unfolding count_served
counted-Same w (returns retry_read, v) same = same
counted-Same w (returns (read_bytes []), v) same = same
counted-Same w (returns (read_bytes (b ∷ bs)), v) same = record {
  files = same.files;
  downloads = same.downloads;
}
counted-Same w (throws text, v) same = same
counted-Same w (undefined, v) same = same

read-Same : (s count : ℕ) (w : World) → Same w (read s count w).1
unfolding read
read-Same s count w = counted-Same w (read_chunk s count w) (read_chunk-Same s count w)

invalidate-identity :
    (t s : ℕ) (w : World)
    → identity ((invalidate s w).1.subscriber_heap.cell t) ≡ identity (w.subscriber_heap.cell t)
unfolding invalidate
invalidate-identity t s w = ground arith

is_there :
    (h : Heap Subscriber) (s : ℕ) (g : Heap Subscriber)
    → identity (h.cell s) ≡ identity (g.cell s)
    → Present g s
    → Present h s
is_there h s g e (sub, at) = elim (Option-cases (h.cell s)) [
  | inl n ↦ absurd (ground (arith, e, at, n))
  | inr found ↦ found
]

all_there :
    (u v : World) (ss : List ℕ)
    → SameDownloads u v
    → All (Present u.subscriber_heap) ss
    → All (Present v.subscriber_heap) ss
all_there u v [] same all = tt
all_there u v (s ∷ ss) same (k, all) =
    (is_there v.subscriber_heap s u.subscriber_heap (same s) k, all_there u v ss same all)

-- A subscriber by its identity.
identified :
    (o : Option Subscriber) (f : ℕ) (id : ℤ)
    → identity o ≡ some (f, id)
    → (sub : Subscriber) × (o ≡ some sub) × (sub.file ≡ f) × (sub.subscriber_id ≡ id)
identified none f id e = absurd (cc)
identified (some sub) f id e = (sub, refl, ground (arith, e), ground (arith, e))

module _ (f : ℕ) (w : World) (file : SharedFile) (file_at : w.file_heap.cell f ≡ some file) where
  -- The new subscriber, and the world in which it is subscribed.
  abbrev pub begun : World
  begun = (subscribe f w).1

  subscribe_lem : (subscribe f w).0 ≡ returns w.subscriber_heap.next
  unfolding subscribe
  subscribe_lem = ground (arith, file_at)

  begun_file :
      begun.file_heap.cell f
      ≡ some (record file {
        subscriber_id_counter = suc_int int64_max file.subscriber_id_counter;
        subscribers = insert file.subscriber_id_counter w.subscriber_heap.next file.subscribers;
      })
  unfolding subscribe
  begun_file = ground (arith, file_at)

  begun_sub :
      identity (begun.subscriber_heap.cell w.subscriber_heap.next)
      ≡ some (f, file.subscriber_id_counter)
  unfolding subscribe new_subscriber
  begun_sub = ground (arith, file_at)

  begun_downloads :
      begun.subscriber_heap
      ≡ Heap.alloc (new_subscriber file.subscriber_id_counter f) w.subscriber_heap
  unfolding subscribe
  begun_downloads = ground (arith, file_at)

  begun_there :
      All (Present w.subscriber_heap) (values file.subscribers)
      → All
          (Present begun.subscriber_heap)
          (values (insert file.subscriber_id_counter w.subscriber_heap.next file.subscribers))
  begun_there all =
      subst
        (λ h.
          All (Present h)
            (values (insert file.subscriber_id_counter w.subscriber_heap.next file.subscribers)))
        (sym begun_downloads)
        (All-insert _ file.subscriber_id_counter w.subscriber_heap.next file.subscribers
          (new_subscriber file.subscriber_id_counter f, Heap.cell-alloc _ w.subscriber_heap)
          (all_Present _ w.subscriber_heap (values file.subscribers) all))

drop_lem :
    (s : ℕ) (w : World) (sub : Subscriber) (file : SharedFile)
    → w.subscriber_heap.cell s ≡ some sub
    → w.file_heap.cell sub.file ≡ some file
    → drop_subscriber s w ≡ (
      returns tt,
      store_file sub.file
          (record file { subscribers = erase sub.subscriber_id file.subscribers })
          w,
    )
unfolding drop_subscriber unsubscribe
drop_lem s w sub file at file_at = ground (arith, at, file_at)

-- The file at `f`, with the downloads of `put` unless it was cleared, and these downloads.
module _ (f s : ℕ) (file : SharedFile) where
  record Life (b : Bool) (u v : World) : Type 0 where
    file_is :
        v.file_heap.cell f ≡ some (record file { subscribers = if b then [] else file.subscribers })
    downloads : SameDownloads u v
    there : All (Present v.subscriber_heap) (values file.subscribers)

  Same-Life : (b : Bool) (u v w : World) → Same v w → Life b u v → Life b u w
  Same-Life b u v w same l = record {
    file_is = ap (λ h. h.cell f) same.files ∙ l.file_is;
    downloads = λ t. same.downloads t ∙ l.downloads t;
    there = all_there v w (values file.subscribers) same.downloads l.there;
  }

  listed_there :
      (b : Bool) (u v : World)
      → Life b u v
      → All (Present v.subscriber_heap) (values (if b then [] else file.subscribers))
  listed_there true u v l = tt
  listed_there false u v l = l.there

  clears-Life : (b : Bool) (u v : World) → Life b u v → Life true u (clear_subscribers f v).1
  unfolding clear_subscribers
  clears-Life b u v l =
      let listed : List ℕ = values (if b then [] else file.subscribers) in
      let k = Invalidated-for_each listed v (listed_there b u v l) in
      let same : SameDownloads v (record v { subscriber_heap = k.heap }) = λ t.
        ap (λ x. identity (x.1.subscriber_heap.cell t)) (sym k.run)
        ∙ for_each_keeps (λ w. identity (w.subscriber_heap.cell t)) invalidate
            (invalidate-identity t) listed v in
      rw (l.file_is, k.run)
        (record {
          file_is = Heap.cell-write f (record file { subscribers = [] }) v.file_heap;
          downloads = λ t. same t ∙ l.downloads t;
          there =
              all_there v (record v { subscriber_heap = k.heap }) (values file.subscribers) same
                l.there;
        })

  use_all-Life :
      (b : Bool) (ops : List Use) (u v : World)
      → Life b u v
      → Life (cleared b ops) u (use_all f s ops v)
  unfolding use_all use_one
  use_all-Life b [] u v l = l
  use_all-Life b (reads count ∷ ops) u v l =
      use_all-Life b ops u (read s count v).1 (Same-Life b u v _ (read-Same s count v) l)
  use_all-Life b (provides id bytes ∷ ops) u v l =
      use_all-Life b ops u (provide_file_chunk f id bytes v).1
        (Same-Life b u v _ (provide_file_chunk-Same f id bytes v) l)
  use_all-Life b (clears ∷ ops) u v l =
      use_all-Life true ops u (clear_subscribers f v).1 (clears-Life b u v l)

-- A subscriber that stands on the list to which it was added, or on none.
module _ (s f : ℕ) (id : ℤ) (b : Bool) (file : SharedFile) (w : World)
    (listed : w.file_heap.cell f
      ≡ some (record file { subscribers = if b then [] else insert id s file.subscribers }))
    (unused : get id file.subscribers ≡ none) where
  abbrev put : Map ℤ ℕ
  put = if b then [] else insert id s file.subscribers

  erased : erase id put ≡ (if b then [] else file.subscribers)
  unfolding erase
  erased = elim (Bool-cases b) [
    | inl gone ↦ rw gone refl
    | inr kept ↦ rw kept (erase-insert id s file.subscribers unused)
  ]

  dropped :
      (sub : Subscriber)
      → w.subscriber_heap.cell s ≡ some sub
      → sub.file ≡ f
      → sub.subscriber_id ≡ id
      → ((drop_subscriber s w).0 ≡ returns tt)
        × ((drop_subscriber s w).1.file_heap.cell f
            ≡ some (record file { subscribers = if b then [] else file.subscribers }))
  dropped sub at is_file is_id =
      let whole = record file { subscribers = put } in
      let d = drop_lem s w sub whole at (ap w.file_heap.cell is_file ∙ listed) in
      (
        ap (λ x. x.0) d,
        ap (λ x. x.1.file_heap.cell f) d
            ∙ ap
                (λ q.
                  (Heap.write q (record file { subscribers = erase sub.subscriber_id put })
                      w.file_heap).cell
                    f)
                is_file
            ∙ Heap.cell-write f (record file { subscribers = erase sub.subscriber_id put })
                w.file_heap
            ∙ ap (λ k. some (record file { subscribers = erase k put })) is_id
            ∙ ap (λ m. some (record file { subscribers = m })) erased,
      )

-- A download that is begun for a file, is used in any way, and ends with its response: its subscriber
-- is taken off the file without an error. The file then lists the downloads that it listed before, or
-- none if the room has cleared the file meanwhile, and its counter shows that there was one more. The
-- number of the download is not in use before, and the downloads that the file lists are there.
pub subscribe-drop_subscriber :
    (f : ℕ) (w : World) (file : SharedFile) (ops : List Use)
    → w.file_heap.cell f ≡ some file
    → get file.subscriber_id_counter file.subscribers ≡ none
    → All (Present w.subscriber_heap) (values file.subscribers)
    → let s = w.subscriber_heap.next in
      let over = use_all f s ops (subscribe f w).1 in
      ((drop_subscriber s over).0 ≡ returns tt)
      × ((drop_subscriber s over).1.file_heap.cell f
          ≡ some (record file {
            subscriber_id_counter = suc_int int64_max file.subscriber_id_counter;
            subscribers = if cleared false ops then [] else file.subscribers;
          }))
subscribe-drop_subscriber f w file ops file_at unused there =
    let c = file.subscriber_id_counter in
    let s = w.subscriber_heap.next in
    let next = record file { subscriber_id_counter = suc_int int64_max c } in
    let first : Life f s (record next { subscribers = insert c s file.subscribers }) false
        (begun f w file file_at) (begun f w file file_at) =
      record {
        file_is = begun_file f w file file_at;
        downloads = λ t. refl;
        there = begun_there f w file file_at there;
      } in
    let l =
      use_all-Life f s (record next { subscribers = insert c s file.subscribers }) false ops
        (begun f w file file_at) (begun f w file file_at) first in
    let over = use_all f s ops (begun f w file file_at) in
    let (sub, at, is_file, is_id) =
      identified (over.subscriber_heap.cell s) f c (l.downloads s ∙ begun_sub f w file file_at) in
    dropped s f c (cleared false ops) next over l.file_is unused sub at is_file is_id
