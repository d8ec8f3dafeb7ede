-- ===== src/FileEndpoint/Exchange.antt =====
-- A chunk of a download, from the response's read to the host's browser and back
-- (server/src/rooms/File.cpp, Peer.cpp, server/src/controller/FileController.hpp).
use canchat.Base.{
  ◌≤◌, le→ltb, pos, ◌+ℤ◌, ltb_ℤ, int_eq, add_uint64, length, String, ℕ, true, false, none, some, [],
  ◌∷◌, ◌≡◌, refl,
}
use canchat.Base.Heap
use canchat.Base.Map.{get}
use canchat.Base.Exec.{returns}
use canchat.Dto.{
  MessageDto, FileDto, envelope, message_dto, empty_envelope, empty_file, null_history,
  code_file_request_chunk,
}
use canchat.World.{count_event, World, Bytes, Room, Subscriber, emit, text_frame, store_subscriber}
use canchat.Peer.{no_action}
use canchat.Peer.Handlers.{Library, handle_file_chunk_message}
use canchat.Peer.Uploads.{Chunk, chunk_from_host}
use canchat.File.{read_bytes, retry_read, chunk_request}
use canchat.File.Reads.{At, read_chunk_lem}
use canchat.FileEndpoint.{read, count_served}

-- A download that waits for bytes of a file that its host shares in its room.
pub record Downloading (s : ℕ) (w : World) : Type 0 where
  pub place : At s w
  pub socket : ℕ
  pub room : Room
  pub valid : place.sub.valid ≡ true
  pub empty : place.sub.chunk ≡ none
  pub unfinished : ltb_ℤ place.sub.progress place.file.file_size ≡ true
  pub connected : place.host.socket ≡ some socket
  pub room_at : w.room_heap.cell place.host.room ≡ some room
  pub shared : get place.file.server_file_id room.file_by_id ≡ some place.sub.file
  pub subscribed : get place.sub.subscriber_id place.file.subscribers ≡ some s

-- A message with a chunk for this download.
pub record Answer (lib : Library) (s : ℕ) (w : World) (d : Downloading s w) (bytes : Bytes)
    (m : MessageDto) : Type 0 where
  pub dto : FileDto
  pub text : String
  pub files_is : (envelope m).files ≡ some (some dto ∷ [])
  pub file_is : dto.server_file_id ≡ some d.place.file.server_file_id
  pub subscriber_is : dto.subscriber_id ≡ some d.place.sub.subscriber_id
  pub text_is : dto.file_data ≡ some text
  pub decoded : lib.decode_base64 text ≡ some bytes

module _ (lib : Library) (s count b : ℕ) (bs : Bytes) (m : MessageDto) (w : World)
    (d : Downloading s w) (answer : Answer lib s w d (b ∷ bs) m) where
  -- The message that asks the host's browser for the bytes from the download's progress on.
  abbrev pub request : MessageDto
  request =
      message_dto
        (record empty_envelope {
          message_code = some code_file_request_chunk;
          files = some (
              some (record empty_file {
                client_file_id = some d.place.file.client_file_id;
                server_file_id = some d.place.file.server_file_id;
                subscriber_id = some d.place.sub.subscriber_id;
                chunk_position = some d.place.sub.progress;
                chunk_size = some (pos count);
              })
              ∷ []);
        })
        null_history

  -- The world in which the host's browser was asked.
  abbrev pub asked : World
  asked = emit (text_frame d.socket request ∷ []) w

  abbrev given : Subscriber
  given = record (d.place.sub) { chunk = some (b ∷ bs); waiting = false }

  -- The world in which the browser has answered.
  abbrev pub answered : World
  answered = store_subscriber s given asked

  asks : read s count w ≡ (returns retry_read, asked)
  unfolding read count_served chunk_request
  asks = rw (read_chunk_lem s count w d.place, d.valid, d.unfinished, d.empty, d.connected) refl

  chunk : Chunk d.place.file.host m asked
  chunk = record {
    dto = answer.dto;
    server_file_id = d.place.file.server_file_id;
    subscriber_id = d.place.sub.subscriber_id;
    text = answer.text;
    sender = d.place.host;
    room = d.room;
    file_addr = d.place.sub.file;
    file = d.place.file;
    host = d.place.host;
    files_is = answer.files_is;
    id_is = answer.file_is;
    subscriber_is = answer.subscriber_is;
    text_is = answer.text_is;
    sender_at = d.place.host_at;
    room_at = d.room_at;
    file_is = d.shared;
    file_at = d.place.file_at;
    host_at = d.place.host_at;
  }

  answers : handle_file_chunk_message lib d.place.file.host m asked ≡ (returns no_action, answered)
  unfolding chunk
  answers =
      chunk_from_host lib d.place.file.host m asked chunk (b ∷ bs) s d.place.sub refl answer.decoded
        d.subscribed d.place.sub_at d.empty

  abbrev place' : At s answered
  place' = record {
    sub = given;
    file = d.place.file;
    host = d.place.host;
    sub_at = Heap.cell-write s given w.subscriber_heap;
    file_at = d.place.file_at;
    host_at = d.place.host_at;
  }

  -- The world in which the response has the bytes.
  abbrev pub delivered : World
  delivered =
      count_event
        (λ c. record c { file_served_bytes = add_uint64 c.file_served_bytes (length (b ∷ bs)) })
        (store_subscriber s
          (record given { progress = d.place.sub.progress +ℤ pos (length (b ∷ bs)); chunk = none })
          answered)

  delivers :
      length (b ∷ bs) ≤ count → read s count answered ≡ (returns (read_bytes (b ∷ bs)), delivered)
  unfolding read count_served
  delivers h =
      rw
        (
          read_chunk_lem s count answered place',
          d.valid,
          d.unfinished,
          le→ltb count (length (b ∷ bs)) h,
        )
        refl

-- A download that is valid, has no chunk and is not at the end of its file, and whose host is in the
-- room of the file and connected. A read sends the host one message that asks for the next bytes. If
-- the host answers for the numbers that this message names with a text that decodes to some bytes, of
-- which there are as many as were asked for or fewer, then the next read returns exactly these bytes.
-- The progress and the statistics have grown by their number, no chunk is left, and nothing more was
-- sent.
pub read-handle_file_chunk_message :
    (lib : Library) (s count b : ℕ) (bs : Bytes) (m : MessageDto) (w : World) (d : Downloading s w)
    (answer : Answer lib s w d (b ∷ bs) m)
    → length (b ∷ bs) ≤ count
    → (read s count w ≡ (returns retry_read, asked lib s count b bs m w d answer))
      × ((handle_file_chunk_message lib d.place.file.host m (asked lib s count b bs m w d answer)
            ≡ (returns no_action, answered lib s count b bs m w d answer))
          × (read s count (answered lib s count b bs m w d answer)
              ≡ (returns (read_bytes (b ∷ bs)), delivered lib s count b bs m w d answer)))
read-handle_file_chunk_message lib s count b bs m w d answer h = (
  asks lib s count b bs m w d answer,
  (answers lib s count b bs m w d answer, delivers lib s count b bs m w d answer h),
)
