-- ===== src/File/Reads.antt =====
-- `readChunk` and `provideFileChunk` of a subscriber (server/src/rooms/File.cpp) as equations.
use canchat.Base.{
  pos, ◌+ℤ◌, ltb_ℤ, ℕ, false, not, none, some, List, [], ltb, length, if◌then◌else◌, ◌≡◌, arith,
}
use canchat.Base.Exec.{Outcome, returns, throws}
use canchat.World.{World, Bytes, Subscriber, SharedFile, Peer, Event, emit, store_subscriber}
use canchat.Peer.{frames_to, send_message_async}
use canchat.File.{
  ReadResult, read_bytes, retry_read, take_chunk, read_chunk, chunk_request, request_chunk,
  deliver_chunk,
}

-- A subscriber, its file and the file's host, each at its address.
pub record At (s : ℕ) (w : World) : Type 0 where
  pub sub : Subscriber
  pub file : SharedFile
  pub host : Peer
  pub sub_at : w.subscriber_heap.cell s ≡ some sub
  pub file_at : w.file_heap.cell sub.file ≡ some file
  pub host_at : w.peer_heap.cell file.host ≡ some host

pub take_chunk_lem :
    (s : ℕ) (bytes : Bytes) (w : World) (sub : Subscriber)
    → w.subscriber_heap.cell s ≡ some sub
    → take_chunk s bytes w ≡ elim sub.chunk [
      | none ↦
          (returns tt, store_subscriber s (record sub { chunk = some bytes; waiting = false }) w)
      | some old ↦ (throws "File chunk collision.", w)
    ]
unfolding take_chunk
take_chunk_lem s bytes w sub e = ground (arith, e)

-- The frames in which a read asks the host for more.
abbrev pub request_frames : {s : ℕ} {w : World} → At s w → ℕ → List Event
request_frames a count = frames_to (chunk_request a.file a.sub (pos count)) a.host.socket

abbrev pub read_spec : (s count : ℕ) (w : World) → At s w → Outcome ReadResult × World
read_spec s count w a =
    if not a.sub.valid
    then (throws "File is not valid any more.", w)
    else if ltb_ℤ a.sub.progress a.file.file_size
    then (elim a.sub.chunk [
      | none ↦ (returns retry_read, emit (request_frames a count) w)
      | some bytes ↦ if ltb count (length bytes) then (throws "Invalid chunk size", w) else (
        returns (read_bytes bytes),
        store_subscriber s
            (record (a.sub) { progress = a.sub.progress +ℤ pos (length bytes); chunk = none }) w,
      )
    ])
    else (returns (read_bytes []), w)

pub read_chunk_lem :
    (s count : ℕ) (w : World) (a : At s w) → read_chunk s count w ≡ read_spec s count w a
unfolding read_chunk deliver_chunk request_chunk send_message_async
read_chunk_lem s count w a = ground arith
