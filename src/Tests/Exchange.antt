-- ===== src/Tests/Exchange.antt =====
-- A download that asks for the bytes of a file and gets them.
use canchat.Base.{pos, int_eq, some, [], ◌∷◌, ◌≡◌, refl, arith}
use canchat.Base.Map.{get}
use canchat.Base.Exec.{returns}
use canchat.Dto.{MessageDto, FileDto, empty_file, empty_envelope, message_dto, null_history}
use canchat.Peer.{no_action}
use canchat.Peer.Handlers.{Library, not_parsed, handle_file_chunk_message}
use canchat.File.{read_bytes, retry_read}
use canchat.FileEndpoint.{read}
use canchat.FileEndpoint.Exchange.{
  Downloading, Answer, asked, answered, delivered, read-handle_file_chunk_message,
}
use canchat.Tests.{den, fox, den_room, notes, download}

abbrev lib : Library
lib = record { read_from_string = λ bytes. not_parsed; decode_base64 = λ text. some (1 ∷ 2 ∷ []) }

notes_shared : get notes.server_file_id den_room.file_by_id ≡ some 0
unfolding get
notes_shared = refl

download_listed : get download.subscriber_id notes.subscribers ≡ some 0
unfolding get
download_listed = refl

abbrev waiting_for_notes : Downloading 0 den
waiting_for_notes = record {
  place = record {
    sub = download;
    file = notes;
    host = fox;
    sub_at = refl;
    file_at = refl;
    host_at = refl;
  };
  socket = 70;
  room = den_room;
  valid = refl;
  empty = refl;
  unfinished = refl;
  connected = refl;
  room_at = refl;
  shared = notes_shared;
  subscribed = download_listed;
}

abbrev two_bytes : FileDto
two_bytes = record empty_file {
  server_file_id = some (pos 1);
  subscriber_id = some (pos 1);
  file_data = some "AQI=";
}

abbrev upload : MessageDto
upload = message_dto (record empty_envelope { files = some (some two_bytes ∷ []) }) null_history

abbrev from_fox : Answer lib 0 den waiting_for_notes (1 ∷ 2 ∷ []) upload
from_fox = record {
  dto = two_bytes;
  text = "AQI=";
  files_is = refl;
  file_is = refl;
  subscriber_is = refl;
  text_is = refl;
  decoded = refl;
}

read-handle_file_chunk_message_example :
    (read 0 2 den
      ≡ (returns retry_read, asked lib 0 2 1 (2 ∷ []) upload den waiting_for_notes from_fox))
    × ((handle_file_chunk_message lib 0 upload
            (asked lib 0 2 1 (2 ∷ []) upload den waiting_for_notes from_fox)
          ≡ (returns no_action, answered lib 0 2 1 (2 ∷ []) upload den waiting_for_notes from_fox))
        × (read 0 2 (answered lib 0 2 1 (2 ∷ []) upload den waiting_for_notes from_fox) ≡ (
          returns (read_bytes (1 ∷ 2 ∷ [])),
          delivered lib 0 2 1 (2 ∷ []) upload den waiting_for_notes from_fox,
        )))
read-handle_file_chunk_message_example =
    read-handle_file_chunk_message lib 0 2 1 (2 ∷ []) upload den waiting_for_notes from_fox
      (omega arith)
