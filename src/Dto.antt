-- ===== src/Dto.antt =====
-- server/src/dto/DTOs.hpp: the messages between the server and the browser.
-- A field of an oatpp DTO may be null: it is an `Option`. `v_int64` fields are integers.
use canchat.Base.{ℤ, String, Option, none, List, [], ◌∷◌, ℕ}

-- ENUM(MessageCodes, v_int32)
pub data MessageCode : Type 0 where
  code_info code_peer_joined code_peer_left code_peer_message code_peer_message_file : MessageCode
  code_peer_is_typing code_file_share code_file_request_chunk : MessageCode
  code_file_chunk_data code_api_error : MessageCode

-- The numbers of the codes in the JSON text.
unfoldable pub message_code_value : MessageCode → ℕ
message_code_value code_info = 0
message_code_value code_peer_joined = 1
message_code_value code_peer_left = 2
message_code_value code_peer_message = 3
message_code_value code_peer_message_file = 4
message_code_value code_peer_is_typing = 5
message_code_value code_file_share = 6
message_code_value code_file_request_chunk = 7
message_code_value code_file_chunk_data = 8
message_code_value code_api_error = 9

pub record PeerDto : Type 0 where
  pub peer_id : Option ℤ
  pub peer_name : Option String

pub record FileDto : Type 0 where
  pub client_file_id : Option ℤ
  pub server_file_id : Option ℤ
  pub name : Option String
  pub size : Option ℤ
  pub chunk_position : Option ℤ
  pub chunk_size : Option ℤ
  pub subscriber_id : Option ℤ
  pub file_data : Option String

-- MessageDto::FilesList, whose members may be null too.
abbrev pub FilesList : Type 0
FilesList = List (Option FileDto)

-- The fields of `MessageDto` that hold no message.
pub record Envelope : Type 0 where
  pub peer_id : Option ℤ
  pub peer_name : Option String
  pub message_code : Option MessageCode
  pub message_text : Option String
  pub timestamp : Option ℤ
  pub peers : Option (List (Option PeerDto))
  pub files : Option FilesList

-- `MessageDto` is its envelope and its field `history`, a nullable list of nullable messages.
mutual
  pub data MessageDto : Type 0 where
    message_dto : Envelope → History → MessageDto

  pub data History : Type 0 where
    null_history end_history : History
    null_message : History → History
    old_message : MessageDto → History → History

-- FileDto::createShared() and MessageDto::createShared(): all fields null
abbrev pub empty_file : FileDto
empty_file = record {
  client_file_id = none;
  server_file_id = none;
  name = none;
  size = none;
  chunk_position = none;
  chunk_size = none;
  subscriber_id = none;
  file_data = none;
}

abbrev pub empty_envelope : Envelope
empty_envelope = record {
  peer_id = none;
  peer_name = none;
  message_code = none;
  message_text = none;
  timestamp = none;
  peers = none;
  files = none;
}

abbrev pub envelope : MessageDto → Envelope
envelope (message_dto e h) = e

-- The list of messages as the field's value.
abbrev pub history_of : List MessageDto → History
history_of [] = end_history
history_of (m ∷ ms) = old_message m (history_of ms)
