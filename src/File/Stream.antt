-- ===== src/File/Stream.antt =====
-- A download (server/src/rooms/File.cpp): the bytes that a subscriber's reads deliver.
use canchat.Base.{
  pos, ◌+ℤ◌, ltb_ℤ, int_laws, ℕ, false, Option, none, some, List, [], ◌∷◌, ◌++◌, ltb, length,
  length-append, ◌≡◌, refl, ◌∙◌, arith, inl, inr, Option-cases, Bool-cases, append-nil,
}
use canchat.Base.Heap
use canchat.Base.Exec.{Outcome, returns, throws}
use canchat.World.{World, Bytes, Subscriber, store_subscriber}
use canchat.File.{ReadResult, read_bytes, take_chunk, read_chunk, invalidate}
use canchat.File.Reads.{At, take_chunk_lem, read_chunk_lem}

-- What can happen to one subscriber: the host provides a chunk, the response's body reads at most
-- so many bytes, the subscriber is invalidated, as when the room clears the file's subscribers.
pub data Op : Type 0 where
  provides : Bytes → Op
  reads : ℕ → Op
  clears : Op

-- The world, the bytes that the reads have delivered, and those of the chunks that were taken.
pub record Transfer : Type 0 where
  pub world : World
  pub delivered : Bytes
  pub accepted : Bytes

abbrev pub bytes_of : Outcome ReadResult → Bytes
bytes_of (returns (read_bytes bytes)) = bytes
bytes_of _ = []

abbrev pub taken : Outcome (Unit {0}) → Bytes → Bytes
taken (returns u) bytes = bytes
taken _ bytes = []

unfoldable pub step : ℕ → Op → Transfer → Transfer
step s (provides bytes) t = record {
  world = (take_chunk s bytes t.world).1;
  delivered = t.delivered;
  accepted = t.accepted ++ taken (take_chunk s bytes t.world).0 bytes;
}
step s (reads count) t = record {
  world = (read_chunk s count t.world).1;
  delivered = t.delivered ++ bytes_of (read_chunk s count t.world).0;
  accepted = t.accepted;
}
step s clears t = record t { world = (invalidate s t.world).1 }

unfoldable pub run : ℕ → List Op → Transfer → Transfer
run s [] t = t
run s (op ∷ ops) t = run s ops (step s op t)

abbrev pub pending : Option Bytes → Bytes
pending none = []
pending (some bytes) = bytes

-- The subscriber holds what was accepted and not yet delivered, and has counted the rest.
pub record InOrder (s : ℕ) (t : Transfer) : Type 0 where
  pub at : At s t.world
  pub order : t.accepted ≡ t.delivered ++ pending at.sub.chunk
  pub counted : at.sub.progress ≡ pos (length t.delivered)

pub invalidate_lem :
    (s : ℕ) (w : World) (sub : Subscriber)
    → w.subscriber_heap.cell s ≡ some sub
    → invalidate s w
      ≡ (returns tt, store_subscriber s (record sub { valid = false; waiting = false }) w)
unfolding invalidate
invalidate_lem s w sub e = ground arith

module _ (s : ℕ) (t : Transfer) (i : InOrder s t) where
  -- The transfer after a write to the subscriber.
  abbrev written :
      (sub : Subscriber) → sub.file ≡ i.at.sub.file → At s (store_subscriber s sub t.world)
  written sub e = record {
    sub = sub;
    file = i.at.file;
    host = i.at.host;
    sub_at = Heap.cell-write s sub t.world.subscriber_heap;
    file_at = rw e i.at.file_at;
    host_at = i.at.host_at;
  }

  provides-InOrder : (bytes : Bytes) → InOrder s (step s (provides bytes) t)
  unfolding step
  provides-InOrder bytes = elim (Option-cases i.at.sub.chunk) [
    | inl e ↦
        rw (take_chunk_lem s bytes t.world i.at.sub i.at.sub_at, e)
          (record {
            at = written (record (i.at.sub) { chunk = some bytes; waiting = false }) refl;
            order = rw (i.order, e, append-nil);
            counted = i.counted;
          })
    | inr (old, e) ↦
        rw (take_chunk_lem s bytes t.world i.at.sub i.at.sub_at, e)
          (record { at = i.at; order = append-nil t.accepted ∙ i.order; counted = i.counted })
  ]

  -- The transfer after a read that left it with such a result.
  abbrev after_read : Outcome ReadResult × World → Transfer
  after_read (o, w) = record t { world = w; delivered = t.delivered ++ bytes_of o }

  -- A read that delivers nothing and leaves the subscriber alone.
  quiet : (o : Outcome ReadResult) → bytes_of o ≡ [] → InOrder s (after_read (o, t.world))
  quiet o e = record {
    at = i.at;
    order = rw (e, append-nil) i.order;
    counted = rw (e, append-nil) i.counted;
  }

  reads-InOrder : (count : ℕ) → InOrder s (step s (reads count) t)
  unfolding step
  reads-InOrder count = rw (read_chunk_lem s count t.world i.at) (elim (Bool-cases i.at.sub.valid) [
    | inr v ↦ rw v (quiet (throws "File is not valid any more.") refl)
    | inl v ↦ rw v (elim (Bool-cases (ltb_ℤ i.at.sub.progress i.at.file.file_size)) [
      | inr e ↦ rw e (quiet (returns (read_bytes [])) refl)
      | inl l ↦ rw l (elim (Option-cases i.at.sub.chunk) [
        | inl n ↦ rw n (record {
          at = record {
            sub = i.at.sub;
            file = i.at.file;
            host = i.at.host;
            sub_at = i.at.sub_at;
            file_at = i.at.file_at;
            host_at = i.at.host_at;
          };
          order = rw append-nil i.order;
          counted = rw append-nil i.counted;
        })
        | inr (bytes, c) ↦ rw c (elim (Bool-cases (ltb count (length bytes))) [
          | inl b ↦ rw b (quiet (throws "Invalid chunk size") refl)
          | inr b ↦ rw b (record {
            at =
                written
                  (record (i.at.sub) {
                    progress = i.at.sub.progress +ℤ pos (length bytes);
                    chunk = none;
                  })
                  refl;
            order = rw (i.order, c, append-nil);
            counted = rw i.counted (omega (int_laws, length-append {0} t.delivered bytes));
          })
        ])
      ])
    ])
  ])

  clears-InOrder : InOrder s (step s clears t)
  unfolding step
  clears-InOrder = rw (invalidate_lem s t.world i.at.sub i.at.sub_at) (record {
    at = written (record (i.at.sub) { valid = false; waiting = false }) refl;
    order = i.order;
    counted = i.counted;
  })

-- Whatever the host, the reader and the room do, in whatever order, from a transfer that is in order:
-- the bytes delivered so far, followed by the chunk that waits, are the bytes of the accepted chunks
-- in their order, and the progress is the number of bytes delivered.
pub run-InOrder : (s : ℕ) (ops : List Op) (t : Transfer) → InOrder s t → InOrder s (run s ops t)
unfolding run
run-InOrder s [] t i = i
run-InOrder s (provides bytes ∷ ops) t i = run-InOrder s ops _ (provides-InOrder s t i bytes)
run-InOrder s (reads count ∷ ops) t i = run-InOrder s ops _ (reads-InOrder s t i count)
run-InOrder s (clears ∷ ops) t i = run-InOrder s ops _ (clears-InOrder s t i)
