-- ===== src/Tests/Files.antt =====
-- The theorems about files, downloads and uploads at concrete inputs.
use canchat.Base.{◌⊎◌, pos, ℕ, some, List, [], ◌∷◌, ◌≡◌, ◌≢◌, refl, arith, false, int_eq}
use canchat.Base.Map.{get}
use canchat.Base.Exec.{returns, undefined}
use canchat.Dto.{
  envelope, code_file_chunk_data, MessageDto, FileDto, empty_file, message_dto, empty_envelope,
  null_history, code_file_chunk_data,
}
use canchat.World.{World, store_subscriber}
use canchat.Peer.{
  send_error, error_message, on_api_error, send_message_async, no_action, send_error, error_message,
}
use canchat.Peer.Handlers.{
  handle_message, dispatch, Library, not_parsed, handle_files_message, handle_file_chunk_message,
  validate_files_list, file_message, share_one, files_list_error,
}
use canchat.Peer.Confined.{Chunked, handle_message-Chunked}
use canchat.Peer.Uploads.{
  chunk_from_stranger, Chunk, chunk_from_host, unvalidated, handle_files_message-unvalidated,
}
use canchat.File.Reads.{At}
use canchat.File.Stream.{Op, provides, reads, clears, Transfer, InOrder, run, run-InOrder}
use canchat.File.Ends.{run-after-clears}
use canchat.Room.{share_file, send_to_all, add_history_message, push_history}
use canchat.Room.Broadcast.{broadcast}
use canchat.Room.Sharing.{Hosting, FilesBelow, Shared, share_file-Shared}
use canchat.Tests.{den, fox, owl, den_room, notes, download}

abbrev lib : Library
lib = record {
  read_from_string = λ bytes. not_parsed;
  decode_base64 = λ text. some (1 ∷ 2 ∷ 3 ∷ []);
}

abbrev chunk_dto : FileDto
chunk_dto = record empty_file {
  server_file_id = some (pos 1);
  subscriber_id = some (pos 1);
  file_data = some "AQID";
}

abbrev chunk_message : MessageDto
chunk_message =
    message_dto
      (record empty_envelope {
        message_code = some code_file_chunk_data;
        files = some (some chunk_dto ∷ []);
      })
      null_history

notes_listed : get (pos 1) den_room.file_by_id ≡ some 0
unfolding get
notes_listed = refl

abbrev from_fox : Chunk 0 chunk_message den
from_fox = record {
  dto = chunk_dto;
  server_file_id = pos 1;
  subscriber_id = pos 1;
  text = "AQID";
  sender = fox;
  room = den_room;
  file_addr = 0;
  file = notes;
  host = fox;
  files_is = refl;
  id_is = refl;
  subscriber_is = refl;
  text_is = refl;
  sender_at = refl;
  room_at = refl;
  file_is = notes_listed;
  file_at = refl;
  host_at = refl;
}

abbrev from_owl : Chunk 1 chunk_message den
from_owl = record {
  dto = chunk_dto;
  server_file_id = pos 1;
  subscriber_id = pos 1;
  text = "AQID";
  sender = owl;
  room = den_room;
  file_addr = 0;
  file = notes;
  host = fox;
  files_is = refl;
  id_is = refl;
  subscriber_is = refl;
  text_is = refl;
  sender_at = refl;
  room_at = refl;
  file_is = notes_listed;
  file_at = refl;
  host_at = refl;
}

download_listed : get (pos 1) notes.subscribers ≡ some 0
unfolding get
download_listed = refl

abbrev den_given : World
den_given =
    store_subscriber 0 (record download { chunk = some (1 ∷ 2 ∷ 3 ∷ []); waiting = false }) den

chunk_given : handle_file_chunk_message lib 0 chunk_message den ≡ (returns no_action, den_given)
chunk_given =
    chunk_from_host lib 0 chunk_message den from_fox (1 ∷ 2 ∷ 3 ∷ []) 0 download refl refl
      download_listed refl refl

handle_chunk : handle_message lib 0 (pos 7) chunk_message den ≡ (returns no_action, den_given)
unfolding handle_message dispatch
handle_chunk = chunk_given

handle_message-Chunked_example :
    (den_given.subscriber_heap ≡ den.subscriber_heap)
    ⊎ (((envelope chunk_message).message_code ≡ some code_file_chunk_data)
        × (returns no_action ≡ returns no_action)
        × Chunked lib 0 chunk_message den den_given)
handle_message-Chunked_example =
    handle_message-Chunked lib 0 (pos 7) chunk_message den den_given (returns no_action)
      handle_chunk

one_ne_two : fox.peer_id ≢ owl.peer_id
one_ne_two e = cc

chunk_refused :
    handle_file_chunk_message lib 1 chunk_message den
    ≡ (returns (send_error owl.socket (error_message "Wrong file host.")), den)
chunk_refused = chunk_from_stranger lib 1 chunk_message den from_owl one_ne_two

abbrev download_at : At 0 den
download_at = record {
  sub = download;
  file = notes;
  host = fox;
  sub_at = refl;
  file_at = refl;
  host_at = refl;
}

abbrev untouched : Transfer
untouched = record { world = den; delivered = []; accepted = [] }

abbrev traffic : List Op
traffic = reads 4 ∷ provides (1 ∷ 2 ∷ []) ∷ provides (9 ∷ []) ∷ reads 4 ∷ clears ∷ reads 4 ∷ []

run-InOrder_example : InOrder 0 (run 0 traffic untouched)
run-InOrder_example =
    run-InOrder 0 traffic untouched (record { at = download_at; order = refl; counted = refl })

run-after-clears_example : (run 0 (clears ∷ traffic) untouched).delivered ≡ []
run-after-clears_example = run-after-clears 0 traffic untouched download_at

fox_listed : get (pos 1) den_room.peer_by_id ≡ some 0
unfolding get
fox_listed = refl

abbrev fox_hosts : Hosting 0 (pos 1) den
fox_hosts = record {
  room = den_room;
  host = 0;
  peer = fox;
  room_at = refl;
  registered = fox_listed;
  host_at = refl;
}

den_below : FilesBelow den_room
unfolding get
den_below id f e = ground arith

share_file-Shared_example :
    (f : ℕ) × (w' : World) × (share_file 0 (pos 1) (pos 6) (some "b.txt") (pos 8) den
      ≡ (returns f, w'))
    × Shared 0 (pos 1) (pos 6) (pos 8) (some "b.txt") den fox_hosts f w'
share_file-Shared_example =
    share_file-Shared 0 (pos 1) (pos 6) (pos 8) (some "b.txt") den fox_hosts den_below (omega arith)

abbrev no_files : MessageDto
no_files = message_dto (record empty_envelope { files = some [] }) null_history

abbrev unnumbered : MessageDto
unnumbered =
    message_dto (record empty_envelope { files = some (some empty_file ∷ []) }) null_history

-- What the validation would say of an empty list, and what the handler does with one.
empty_refused :
    validate_files_list 0 [] den
    ≡ (returns (send_error (some 70) (error_message "Files list is empty.")), den)
unfolding validate_files_list on_api_error
empty_refused = refl

empty_announced :
    (handle_files_message 0 (pos 9) no_files den).1.sent
    ≡ broadcast (file_message fox (pos 9) []) den.peer_heap (0 ∷ 1 ∷ [])
unfolding handle_files_message validate_files_list on_api_error add_history_message push_history
    send_to_all send_message_async
empty_announced = refl

-- And with a file that has no number.
unnumbered_undefined : (handle_files_message 0 (pos 9) unnumbered den).0 ≡ undefined
unfolding handle_files_message share_one validate_files_list on_api_error files_list_error
unnumbered_undefined = refl

handle_files_message-unvalidated_example :
    handle_files_message 0 (pos 9) unnumbered den ≡ unvalidated 0 (pos 9) unnumbered den
handle_files_message-unvalidated_example = handle_files_message-unvalidated 0 (pos 9) unnumbered den
