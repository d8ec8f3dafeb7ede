-- ===== src/FileEndpoint.antt =====
-- The endpoint `GetFile` of server/src/controller/FileController.hpp: a download over HTTP.
pub mod Serving
pub mod Answers
pub mod Lifetime
pub mod Exchange
pub mod Late
use canchat.Base.{ℤ, pos, add_uint64, String, ℕ, Option, none, some, [], ◌∷◌, length, str_append}
use canchat.Base.Exec.{pure, modify, ◌>>=◌, ◌>>◌}
use canchat.World.{Action, load_file, count_event}
use canchat.File.{ReadResult, read_bytes, retry_read, read_chunk, subscribe}
use canchat.Room.{get_file_by_id}
use canchat.Lobby.{get_room}

-- What oatpp does with the texts of a request and of a header: `str_to_int64` is `none` where the
-- conversion reports no success, and `append_string` puts a string, which may be null, after a text.
pub record Texts : Type 0 where
  pub str_to_int64 : String → Option ℤ
  pub append_string : String → Option String → String

-- `OATPP_ASSERT_HTTP` answers with a status and a text; otherwise the response has the header
-- `content-disposition` and a body that reads from a subscriber.
pub data Response : Type 0 where
  http_error : ℕ → String → Response
  streaming : String → ℕ → Response

unfoldable pub content_disposition : Texts → Option String → String
content_disposition texts name =
    str_append (texts.append_string "attachment; filename=\"" name) "\""

-- The end of `act`, where the file is there.
unfoldable pub respond : Texts → ℕ → Action Response
respond texts f = do
  s ← subscribe f
  file ← load_file f
  pure (streaming (content_disposition texts file.file_name) s)

-- The part of `act` that knows the room.
unfoldable pub find_file : Texts → ℕ → ℤ → Action Response
find_file texts r id = do
  found ← get_file_by_id r id
  elim found [ none ↦ pure (http_error 404 "File not found") | some f ↦ respond texts f ]

-- GetFile::act, on the path variables `roomId` and `fileId`
unfoldable pub get_file : Texts → String → String → Action Response
get_file texts room_id file_id = elim (texts.str_to_int64 file_id) [
  | none ↦ pure (http_error 400 "Invalid fileId")
  | some id ↦ do
    room ← get_room room_id
    elim room [ none ↦ pure (http_error 404 "Room not found") | some r ↦ find_file texts r id ]
]

-- `FILE_SERVED_BYTES += res`, if `res` is positive
unfoldable pub count_served : ReadResult → Action Unit
count_served retry_read = pure tt
count_served (read_bytes []) = pure tt
count_served (read_bytes (b ∷ bs)) = modify (
    count_event
      (λ c. record c { file_served_bytes = add_uint64 c.file_served_bytes (length (b ∷ bs)) }))

-- ReadCallback::read
unfoldable pub read : ℕ → ℕ → Action ReadResult
read s count = do res ← read_chunk s count; count_served res; pure res
