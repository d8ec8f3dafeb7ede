-- ===== src/File/Ends.antt =====
-- How a download ends (server/src/rooms/File.cpp): by its size, by an empty chunk, or because the
-- file's subscribers are cleared.
use canchat.Base.{
  ◌≤ℤ◌, ◌<ℤ◌, ℕ, true, false, some, List, [], ◌∷◌, ◌≡◌, refl, ◌∙◌, arith, ◌⊎◌, ◌↔◌, inl, inr,
  Option-cases, append-nil,
}
use canchat.Base.Heap
use canchat.Base.Exec.{returns, throws}
use canchat.World.{World, Subscriber}
use canchat.File.{read_bytes, read_chunk}
use canchat.File.Reads.{At, take_chunk_lem, read_chunk_lem}
use canchat.File.Stream.{Op, provides, reads, clears, Transfer, step, run, invalidate_lem}

-- A subscriber that is no longer valid.
pub record IsCleared (s : ℕ) (t : Transfer) : Type 0 where
  pub sub : Subscriber
  pub sub_at : t.world.subscriber_heap.cell s ≡ some sub
  pub not_valid : sub.valid ≡ false

read_cleared :
    (s count : ℕ) (w : World) (sub : Subscriber)
    → w.subscriber_heap.cell s ≡ some sub
    → sub.valid ≡ false
    → read_chunk s count w ≡ (throws "File is not valid any more.", w)
unfolding read_chunk
read_cleared s count w sub e v = ground arith

step-IsCleared :
    (s : ℕ) (op : Op) (t : Transfer)
    → IsCleared s t
    → IsCleared s (step s op t) × ((step s op t).delivered ≡ t.delivered)
unfolding step
step-IsCleared s (provides bytes) t c = elim (Option-cases c.sub.chunk) [
  | inl e ↦
      rw (take_chunk_lem s bytes t.world c.sub c.sub_at, e)
        (
          record {
            sub = record (c.sub) { chunk = some bytes; waiting = false };
            sub_at = Heap.cell-write s _ t.world.subscriber_heap;
            not_valid = c.not_valid;
          },
          refl,
        )
  | inr (old, e) ↦
      rw (take_chunk_lem s bytes t.world c.sub c.sub_at, e)
        (record { sub = c.sub; sub_at = c.sub_at; not_valid = c.not_valid }, refl)
]
step-IsCleared s (reads count) t c =
    rw (read_cleared s count t.world c.sub c.sub_at c.not_valid)
      (record { sub = c.sub; sub_at = c.sub_at; not_valid = c.not_valid }, append-nil t.delivered)
step-IsCleared s clears t c = rw (invalidate_lem s t.world c.sub c.sub_at) (
  record {
    sub = record (c.sub) { valid = false; waiting = false };
    sub_at = Heap.cell-write s _ t.world.subscriber_heap;
    not_valid = refl;
  },
  refl,
)

run-IsCleared :
    (s : ℕ) (ops : List Op) (t : Transfer) → IsCleared s t → (run s ops t).delivered ≡ t.delivered
unfolding run
run-IsCleared s [] t c = refl
run-IsCleared s (op ∷ ops) t c =
    let r = step-IsCleared s op t c in run-IsCleared s ops (step s op t) r.0 ∙ r.1

-- Once the room has cleared the file's subscribers, no later operation delivers a byte to this one,
-- also not the chunk that was waiting.
pub run-after-clears :
    (s : ℕ) (ops : List Op) (t : Transfer)
    → At s t.world
    → (run s (clears ∷ ops) t).delivered ≡ t.delivered
unfolding run step
run-after-clears s ops t a = run-IsCleared s ops (step s clears t) (
    unfold step in
    rw (invalidate_lem s t.world a.sub a.sub_at) (record {
      sub = record (a.sub) { valid = false; waiting = false };
      sub_at = Heap.cell-write s _ t.world.subscriber_heap;
      not_valid = refl;
    }))

-- A valid subscriber's read reports the end of the stream exactly if the whole size was counted, or
-- if the waiting chunk is empty: an empty chunk ends a download that still lacks bytes.
pub read_end :
    (s count : ℕ) (w : World) (a : At s w)
    → a.sub.valid ≡ true
    → ((read_chunk s count w).0 ≡ returns (read_bytes [])) ↔ (
        (a.file.file_size ≤ℤ a.sub.progress)
        ⊎ ((a.sub.progress <ℤ a.file.file_size) × (a.sub.chunk ≡ some [])))
read_end s count w a v = rw (read_chunk_lem s count w a) (ground arith)
