-- ===== src/Peer/Rejects.antt =====
-- What the message handlers of server/src/rooms/Peer.cpp refuse, and what a refusal leaves alone.
use canchat.Base.{ℤ, int_eq, ℕ, String, Option, none, some, [], ◌∷◌, ◌≡◌, arith}
use canchat.Base.Exec.{returns}
use canchat.Dto.{
  MessageDto, FileDto, FilesList, MessageCode, envelope, code_peer_message, code_peer_is_typing,
  code_file_share, code_file_chunk_data,
}
use canchat.World.{World, Action, Peer}
use canchat.Peer.{Starter, send_error, on_api_error}
use canchat.Peer.Handlers.{
  Library, handle_message, dispatch, handle_files_message, handle_file_chunk_message,
  handle_chunk_list, handle_file_chunk, provide_chunk,
}
use canchat.Room.{get_file_by_id}

-- The socket of a peer, where the peer is there.
abbrev pub socket_in : Option Peer → Option (Option ℕ)
socket_in none = none
socket_in (some peer) = some peer.socket

abbrev pub socket_of : ℕ → World → Option (Option ℕ)
socket_of p w = socket_in (w.peer_heap.cell p)

-- The action changes the world only if it answers with no error, and an error is for the socket that
-- the peer has.
abbrev Harmless : ℕ → Action Starter → Type 0
Harmless p m =
    (w w' : World) (s : Option ℕ) (e : MessageDto)
    → m w ≡ (returns (send_error s e), w')
    → (w' ≡ w) × (socket_of p w ≡ some s)

on_api_error-Harmless : (p : ℕ) (text : String) → Harmless p (on_api_error p text)
unfolding on_api_error
on_api_error-Harmless p text w w' s e h = ground arith

-- What ends in `pure no_action` answers with no error.
handle_files_message-Harmless :
    (p : ℕ) (now : ℤ) (m : MessageDto) → Harmless p (handle_files_message p now m)
unfolding handle_files_message
handle_files_message-Harmless p now m w w' s e h = ground arith

Option-Harmless :
    {A : Type 0} (p : ℕ) (o : Option A) {m : Action Starter} {f : A → Action Starter}
    → Harmless p m
    → ((a : A) → Harmless p (f a))
    → Harmless p (elim o [ none ↦ m | some a ↦ f a ])
Option-Harmless p none hm hf = hm
Option-Harmless p (some a) hm hf = hf a

module _ (lib : Library) where
  provide_chunk-Harmless :
      (p : ℕ) (id sub : ℤ) (text : String) → Harmless p (provide_chunk lib p id sub text)
  unfolding provide_chunk get_file_by_id
  provide_chunk-Harmless p id sub text w w' s e h =
      ground (arith, on_api_error-Harmless p "Wrong file host." w w' s e)

  handle_file_chunk-Harmless :
      (p : ℕ) (file : Option FileDto) → Harmless p (handle_file_chunk lib p file)
  unfolding handle_file_chunk
  handle_file_chunk-Harmless p none = on_api_error-Harmless p "File structure is not provided."
  handle_file_chunk-Harmless p (some dto) =
      Option-Harmless p dto.server_file_id
        (on_api_error-Harmless p "File clientId is not provided.")
        λ id.
          Option-Harmless p dto.subscriber_id
            (on_api_error-Harmless p "File subscriberId is not provided.")
            λ sub.
              Option-Harmless p dto.file_data
                (on_api_error-Harmless p "File chunk data is not provided.")
                λ text. provide_chunk-Harmless p id sub text

  handle_chunk_list-Harmless :
      (p : ℕ) (files : FilesList) → Harmless p (handle_chunk_list lib p files)
  unfolding handle_chunk_list
  handle_chunk_list-Harmless p [] = λ w w' s e h. ground arith
  handle_chunk_list-Harmless p (file ∷ []) = handle_file_chunk-Harmless p file
  handle_chunk_list-Harmless p (file ∷ next ∷ files) =
      on_api_error-Harmless p "Invalid files count. Expected - 1."

  handle_file_chunk_message-Harmless :
      (p : ℕ) (m : MessageDto) → Harmless p (handle_file_chunk_message lib p m)
  unfolding handle_file_chunk_message
  handle_file_chunk_message-Harmless p m =
      Option-Harmless p (envelope m).files (on_api_error-Harmless p "No file provided.")
        λ files. handle_chunk_list-Harmless p files

  dispatch-Harmless :
      (p : ℕ) (now : ℤ) (m : MessageDto) (code : MessageCode)
      → Harmless p (dispatch lib p now m code)
  unfolding dispatch
  dispatch-Harmless p now m code_peer_message w w' s e h = ground arith
  dispatch-Harmless p now m code_peer_is_typing w w' s e h = ground arith
  dispatch-Harmless p now m code_file_share w w' s e h =
      handle_files_message-Harmless p now m w w' s e h
  dispatch-Harmless p now m code_file_chunk_data w w' s e h =
      handle_file_chunk_message-Harmless p m w w' s e h
  dispatch-Harmless p now m _ w w' s e h = on_api_error-Harmless p _ w w' s e h

  -- A message that is answered by an error has changed nothing: whatever the message is, if
  -- `handleMessage` returns the coroutine that sends an error, then the world is as
  -- it was, and the error is for the socket that the sender has.
  pub handle_message_refused :
      (p : ℕ) (now : ℤ) (m : MessageDto) (w w' : World) (socket : Option ℕ) (e : MessageDto)
      → handle_message lib p now m w ≡ (returns (send_error socket e), w')
      → (w' ≡ w) × (socket_of p w ≡ some socket)
  unfolding handle_message
  handle_message_refused p now m w w' s e h =
      Option-Harmless p (envelope m).message_code
        (on_api_error-Harmless p "No message code provided.")
        (λ code. dispatch-Harmless p now m code) w w' s e h
