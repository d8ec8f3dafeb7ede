-- ===== src/Peer/Handlers.antt =====
-- server/src/rooms/Peer.cpp: the handlers of a peer's messages, from the frames that the WebSocket
-- delivers to the room. The JSON reader and the Base64 decoder are oatpp's: a parameter.
use canchat.Base.{
  ℤ, nat_eq, int_eq, suc_uint64, String, ℕ, ◌+◌, not, Option, none, some, [], ◌∷◌, ◌++◌, ltb,
  length, if◌then◌else◌, ◌==◌,
}
use canchat.Base.Exec.{pure, throw, fault, deref, modify, gets, for_each_collect, ◌>>=◌, ◌>>◌}
use canchat.Dto.{
  MessageDto, FileDto, FilesList, MessageCode, empty_envelope, empty_file, message_dto,
  null_history, envelope, code_peer_message, code_peer_message_file, code_peer_is_typing,
  code_file_share, code_file_chunk_data,
}
use canchat.World.{Action, Bytes, Peer, load_peer, store_peer, load_file, count_event}
use canchat.Peer.{Starter, no_action, on_api_error}
use canchat.File.{provide_file_chunk}
use canchat.Room.{add_history_message, send_to_all, share_file, get_file_by_id}

-- `readFromString` throws, or returns an object that the text `null` makes null.
pub data Parsed : Type 0 where
  not_parsed : Parsed
  parsed : Option MessageDto → Parsed

-- `decode_base64` is `none` where `Base64::decode` throws.
pub record Library : Type 0 where
  pub read_from_string : Bytes → Parsed
  pub decode_base64 : String → Option Bytes

-- The first complaint of the loop of `validateFilesList`.
unfoldable pub files_list_error : FilesList → Option String
files_list_error [] = none
files_list_error (none ∷ files) = some "File structure is not provided."
files_list_error (some dto ∷ files) = elim dto.client_file_id [
  | none ↦ some "File clientId is not provided."
  | some c ↦ elim dto.name [
    | none ↦ some "File name is not provided."
    | some n ↦ elim dto.size [
      | none ↦ some "File size is not provided."
      | some s ↦ files_list_error files
    ]
  ]
]

unfoldable pub validate_files_list : ℕ → FilesList → Action Starter
validate_files_list p [] = on_api_error p "Files list is empty."
validate_files_list p (file ∷ files) = elim (files_list_error (file ∷ files)) [
  | none ↦ pure no_action
  | some text ↦ on_api_error p text
]

-- The body of the loop of `handleFilesMessage`: a null number is read through.
unfoldable pub share_one : ℕ → Option FileDto → Action (Option FileDto)
share_one p curr = do
  peer ← load_peer p
  dto ← deref curr
  client_file_id ← deref dto.client_file_id
  size ← deref dto.size
  f ← share_file peer.room peer.peer_id client_file_id dto.name size
  file ← load_file f
  pure (
      some (record empty_file {
        server_file_id = some file.server_file_id;
        name = file.file_name;
        size = some file.file_size;
      }))

unfoldable pub file_message : Peer → ℤ → FilesList → MessageDto
file_message peer now files =
    message_dto
      (record empty_envelope {
        message_code = some code_peer_message_file;
        peer_id = some peer.peer_id;
        peer_name = some peer.nickname;
        timestamp = some now;
        files = some files;
      })
      null_history

-- The starter that `validateFilesList` returns is dropped, as in the source.
unfoldable pub handle_files_message : ℕ → ℤ → MessageDto → Action Starter
handle_files_message p now message = do
  files ← deref (envelope message).files
  ignored ← validate_files_list p files
  peer ← load_peer p
  shared ← for_each_collect (share_one p) files
  add_history_message peer.room (file_message peer now shared)
  send_to_all peer.room (file_message peer now shared)
  pure no_action

-- What the clock shows for one message: in `readMessage`, and after that in `handleFilesMessage`, if it
-- comes to that.
pub record Ticks : Type 0 where
  pub read_at : ℤ
  pub shared_at : ℤ

-- What `readMessage` writes over the sender's fields.
unfoldable pub stamp : Peer → ℤ → MessageDto → MessageDto
stamp peer now (message_dto e h) =
    message_dto
      (record e {
        peer_name = some peer.nickname;
        peer_id = some peer.peer_id;
        timestamp = some now;
      })
      h

module _ (lib : Library) where
  abbrev decode : String → Action Bytes
  decode text = elim (lib.decode_base64 text) [
    | none ↦ throw "Base64 decoding error."
    | some bytes ↦ pure bytes
  ]

  -- The end of `handleFileChunkMessage`, where the fields are there.
  unfoldable pub provide_chunk : ℕ → ℤ → ℤ → String → Action Starter
  provide_chunk p server_file_id subscriber_id text = do
    peer ← load_peer p
    found ← get_file_by_id peer.room server_file_id
    elim found [
      | none ↦ pure no_action
      | some f ↦ do
        file ← load_file f
        host ← load_peer file.host
        if not (host.peer_id == peer.peer_id)
            then on_api_error p "Wrong file host."
            else do bytes ← decode text; provide_file_chunk f subscriber_id bytes; pure no_action
    ]

  -- `handleFileChunkMessage` on the front of the list.
  unfoldable pub handle_file_chunk : ℕ → Option FileDto → Action Starter
  handle_file_chunk p none = on_api_error p "File structure is not provided."
  handle_file_chunk p (some dto) = elim dto.server_file_id [
    | none ↦ on_api_error p "File clientId is not provided."
    | some server_file_id ↦ elim dto.subscriber_id [
      | none ↦ on_api_error p "File subscriberId is not provided."
      | some subscriber_id ↦ elim dto.file_data [
        | none ↦ on_api_error p "File chunk data is not provided."
        | some text ↦ provide_chunk p server_file_id subscriber_id text
      ]
    ]
  ]

  -- `front` of an empty list is undefined.
  unfoldable pub handle_chunk_list : ℕ → FilesList → Action Starter
  handle_chunk_list p [] = fault
  handle_chunk_list p (file ∷ []) = handle_file_chunk p file
  handle_chunk_list p (file ∷ next ∷ files) = on_api_error p "Invalid files count. Expected - 1."

  unfoldable pub handle_file_chunk_message : ℕ → MessageDto → Action Starter
  handle_file_chunk_message p message = elim (envelope message).files [
    | none ↦ on_api_error p "No file provided."
    | some files ↦ handle_chunk_list p files
  ]

  -- The `switch` of `handleMessage`.
  unfoldable pub dispatch : ℕ → ℤ → MessageDto → MessageCode → Action Starter
  dispatch p now message code_peer_message = do
    peer ← load_peer p
    add_history_message peer.room message
    send_to_all peer.room message
    modify (
        count_event
          (λ c. record c { event_peer_send_message = suc_uint64 c.event_peer_send_message }))
    pure no_action
  dispatch p now message code_peer_is_typing = do
    peer ← load_peer p
    send_to_all peer.room message
    pure no_action
  dispatch p now message code_file_share = handle_files_message p now message
  dispatch p now message code_file_chunk_data = handle_file_chunk_message p message
  dispatch p now message _ = on_api_error p "Invalid client message code."

  unfoldable pub handle_message : ℕ → ℤ → MessageDto → Action Starter
  handle_message p now message = elim (envelope message).message_code [
    | none ↦ on_api_error p "No message code provided."
    | some code ↦ dispatch p now message code
  ]

  -- `readMessage` where the transfer of a message is finished.
  unfoldable pub finish_message : ℕ → Ticks → Parsed → Action Starter
  finish_message p now not_parsed = on_api_error p "Can't parse message"
  finish_message p now (parsed object) = do
    message ← deref object
    peer ← load_peer p
    handle_message p now.shared_at (stamp peer now.read_at message)

  -- A frame of no bytes ends a message; a null limit is read through.
  unfoldable pub read_message : ℕ → Ticks → Bytes → Action Starter
  read_message p now bytes = do
    peer ← load_peer p
    config ← gets (λ w. w.config)
    max ← deref config.max_message_size_bytes
    if ltb max (length peer.message_buffer + length bytes)
        then on_api_error p "Message size exceeds max allowed size."
        else if length bytes == 0
        then (do
          modify (store_peer p (record peer { message_buffer = [] }))
          finish_message p now (lib.read_from_string peer.message_buffer))
        else do
          modify (store_peer p (record peer { message_buffer = peer.message_buffer ++ bytes }))
          pure no_action
