-- ===== src/FileEndpoint/Serving.antt =====
-- What a request for a file gets, and how its bytes are counted
-- (server/src/controller/FileController.hpp).
use canchat.Base.{
  ◌∙◌, int_eq, string_eq, add_uint64, ℕ, ◌+◌, ◌%◌, ◌^◌, List, [], ◌∷◌, ◌++◌, ◌≡◌, arith, length,
  length-append,
}
use canchat.Base.Exec.{throws, undefined, continue, pure, ◌>>◌, Outcome, returns}
use canchat.World.{World, Bytes}
use canchat.File.{
  ReadResult, read_bytes, retry_read, read_chunk, deliver_chunk, request_chunk, take_chunk,
  invalidate,
}
use canchat.File.Stream.{Op, provides, reads, clears, Transfer, bytes_of, step}
use canchat.Peer.{send_message_async}
use canchat.FileEndpoint.{count_served, read}

-- The download as the response's body runs it.
unfoldable pub serve : ℕ → Op → Transfer → Transfer
serve s (reads count) t = record {
  world = (read s count t.world).1;
  delivered = t.delivered ++ bytes_of (read s count t.world).0;
  accepted = t.accepted;
}
serve s (provides bytes) t = step s (provides bytes) t
serve s clears t = step s clears t

unfoldable pub serve_all : ℕ → List Op → Transfer → Transfer
serve_all s [] t = t
serve_all s (op ∷ ops) t = serve_all s ops (serve s op t)

abbrev pub bytes_counted : World → ℕ
bytes_counted w = w.statistics.counters.file_served_bytes

read_chunk-counted :
    (s count : ℕ) (w : World) → bytes_counted (read_chunk s count w).1 ≡ bytes_counted w
unfolding read_chunk deliver_chunk request_chunk send_message_async
read_chunk-counted s count w = ground arith

take_chunk-counted :
    (s : ℕ) (bytes : Bytes) (w : World) → bytes_counted (take_chunk s bytes w).1 ≡ bytes_counted w
unfolding take_chunk
take_chunk-counted s bytes w = ground arith

invalidate-counted : (s : ℕ) (w : World) → bytes_counted (invalidate s w).1 ≡ bytes_counted w
unfolding invalidate
invalidate-counted s w = ground arith

-- The end of `read`, by what the read of the chunk came to.
counted_after :
    (base n : ℕ) (x : Outcome ReadResult × World)
    → bytes_counted x.1 ≡ (base + n) % 2 ^ 64
    → let y = continue x (λ res. count_served res >> pure res) in
      bytes_counted y.1 ≡ (base + (n + length (bytes_of y.0))) % 2 ^ 64
unfolding count_served add_uint64
counted_after base n (returns retry_read, w) e = omega (arith, e)
counted_after base n (returns (read_bytes []), w) e = omega (arith, e)
counted_after base n (returns (read_bytes (b ∷ bs)), w) e = omega (arith, e)
counted_after base n (throws text, w) e = omega (arith, e)
counted_after base n (undefined, w) e = omega (arith, e)

read-counted :
    (s count base n : ℕ) (w : World)
    → bytes_counted w ≡ (base + n) % 2 ^ 64
    → bytes_counted (read s count w).1
      ≡ (base + (n + length (bytes_of (read s count w).0))) % 2 ^ 64
unfolding read
read-counted s count base n w e =
    counted_after base n (read_chunk s count w) (read_chunk-counted s count w ∙ e)

-- The counter is ahead of `base` by the number of bytes delivered.
abbrev pub Counts : ℕ → Transfer → Type 0
Counts base t = bytes_counted t.world ≡ (base + length t.delivered) % 2 ^ 64

serve-Counts : (s base : ℕ) (op : Op) (t : Transfer) → Counts base t → Counts base (serve s op t)
unfolding serve step
serve-Counts s base (reads count) t e =
    rw (length-append t.delivered (bytes_of (read s count t.world).0))
      (read-counted s count base (length t.delivered) t.world e)
serve-Counts s base (provides bytes) t e = take_chunk-counted s bytes t.world ∙ e
serve-Counts s base clears t e = invalidate-counted s t.world ∙ e

-- However the chunks, the reads of the response and the clearing alternate, the statistics count
-- every delivered byte once: the counter of served bytes, modulo 2^64, stays ahead of its start by
-- the number of bytes delivered.
pub serve_all-Counts :
    (s base : ℕ) (ops : List Op) (t : Transfer) → Counts base t → Counts base (serve_all s ops t)
unfolding serve_all
serve_all-Counts s base [] t e = e
serve_all-Counts s base (op ∷ ops) t e =
    serve_all-Counts s base ops (serve s op t) (serve-Counts s base op t e)
