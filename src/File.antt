-- ===== src/File.antt =====
-- server/src/rooms/File.cpp: a shared file and its subscribers, the downloads in progress.
pub mod Reads
pub mod Stream
pub mod Ends
pub mod Waiting
use canchat.Base.{
  ℤ, int_eq, pos, suc_int, int64_max, ◌+ℤ◌, ltb_ℤ, String, ℕ, true, false, not, Option, none, some,
  [], ◌∷◌, ltb, length, if◌then◌else◌,
}
use canchat.Base.Map.{get, insert, erase, values}
use canchat.Base.Heap
use canchat.Base.Exec.{pure, throw, modify, gets, for_each, ◌>>=◌, ◌>>◌}
use canchat.Dto.{
  MessageDto, FileDto, empty_file, empty_envelope, message_dto, null_history,
  code_file_request_chunk,
}
use canchat.World.{
  Action, Bytes, Subscriber, SharedFile, load_file, store_file, load_subscriber, store_subscriber,
}
use canchat.Peer.{send_message_async}

-- File::Subscriber::Subscriber
unfoldable pub new_subscriber : ℤ → ℕ → Subscriber
new_subscriber id f = record {
  subscriber_id = id;
  file = f;
  valid = true;
  progress = pos 0;
  chunk = none;
  waiting = false;
}

-- File::File
unfoldable pub new_file : ℕ → ℤ → ℤ → Option String → ℤ → SharedFile
new_file host client_file_id server_file_id file_name file_size = record {
  host = host;
  client_file_id = client_file_id;
  server_file_id = server_file_id;
  file_name = file_name;
  file_size = file_size;
  subscriber_id_counter = pos 1;
  subscribers = [];
}

-- File::Subscriber::provideFileChunk. `notifyAll` takes the coroutine off the wait list.
unfoldable pub take_chunk : ℕ → Bytes → Action Unit
take_chunk s bytes = do
  sub ← load_subscriber s
  elim sub.chunk [
    | some old ↦ throw "File chunk collision."
    | none ↦ modify (store_subscriber s (record sub { chunk = some bytes; waiting = false }))
  ]

-- The message to the host that asks for the next chunk.
unfoldable pub chunk_request : SharedFile → Subscriber → ℤ → MessageDto
chunk_request file sub size =
    message_dto
      (record empty_envelope {
        message_code = some code_file_request_chunk;
        files = some (some dto ∷ []);
      })
      null_history
  where
    dto : FileDto
    dto = record empty_file {
      client_file_id = some file.client_file_id;
      server_file_id = some file.server_file_id;
      subscriber_id = some sub.subscriber_id;
      chunk_position = some sub.progress;
      chunk_size = some size;
    }

-- File::Subscriber::requestChunk
unfoldable pub request_chunk : ℕ → ℤ → Action Unit
request_chunk s size = do
  sub ← load_subscriber s
  if sub.valid
      then (do
        file ← load_file sub.file
        send_message_async file.host (chunk_request file sub size))
      else pure tt

-- What `readChunk` returns: bytes, of which none mean the end of the stream, or `RETRY_READ` with
-- an action that waits for a chunk and then reads again.
pub data ReadResult : Type 0 where
  read_bytes : Bytes → ReadResult
  retry_read : ReadResult

-- File::Subscriber::readChunk, with the branches on the chunk as a helper
unfoldable pub deliver_chunk : ℕ → ℕ → Subscriber → Option Bytes → Action ReadResult
deliver_chunk s count sub none = do request_chunk s (pos count); pure retry_read
deliver_chunk s count sub (some bytes) =
    if ltb count (length bytes) then throw "Invalid chunk size" else do
      modify (
          store_subscriber s
            (record sub { progress = sub.progress +ℤ pos (length bytes); chunk = none }))
      pure (read_bytes bytes)

unfoldable pub read_chunk : ℕ → ℕ → Action ReadResult
read_chunk s count = do
  sub ← load_subscriber s
  if not sub.valid then throw "File is not valid any more." else (do
    file ← load_file sub.file
    if ltb_ℤ sub.progress file.file_size
        then deliver_chunk s count sub sub.chunk
        else pure (read_bytes []))

-- File::Subscriber::invalidate
unfoldable pub invalidate : ℕ → Action Unit
invalidate s = do
  sub ← load_subscriber s
  modify (store_subscriber s (record sub { valid = false; waiting = false }))

unfoldable pub unsubscribe : ℕ → ℤ → Action Unit
unsubscribe f id = do
  file ← load_file f
  modify (store_file f (record file { subscribers = erase id file.subscribers }))

-- File::Subscriber::~Subscriber
unfoldable pub drop_subscriber : ℕ → Action Unit
drop_subscriber s = do sub ← load_subscriber s; unsubscribe sub.file sub.subscriber_id

-- File::subscribe
unfoldable pub subscribe : ℕ → Action ℕ
subscribe f = do
  file ← load_file f
  s ← gets (λ w. w.subscriber_heap.next)
  let id = file.subscriber_id_counter
  modify (λ w. record w { subscriber_heap = Heap.alloc (new_subscriber id f) w.subscriber_heap })
  modify (
      store_file f (record file {
        subscriber_id_counter = suc_int int64_max id;
        subscribers = insert id s file.subscribers;
      }))
  pure s

-- File::provideFileChunk: data for a subscriber that is not there is ignored.
unfoldable pub provide_file_chunk : ℕ → ℤ → Bytes → Action Unit
provide_file_chunk f id bytes = do
  file ← load_file f
  elim (get id file.subscribers) [ none ↦ pure tt | some s ↦ take_chunk s bytes ]

-- File::clearSubscribers
unfoldable pub clear_subscribers : ℕ → Action Unit
clear_subscribers f = do
  file ← load_file f
  for_each invalidate (values file.subscribers)
  modify (store_file f (record file { subscribers = [] }))
