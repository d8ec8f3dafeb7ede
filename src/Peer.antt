-- ===== src/Peer.antt =====
-- server/src/rooms/Peer.cpp: the methods of a peer that need neither its room nor a file.
-- The handlers of its messages are in Peer/Handlers.antt.
pub mod Handlers
pub mod Frames
pub mod Buffers
pub mod Confined
pub mod Kept
pub mod Limit
pub mod Rejects
pub mod Dropped
pub mod Chat
pub mod Uploads
pub mod Offers
pub mod Offered
pub mod Announcing
pub mod Ping
use canchat.Base.{
  ℤ, pos, suc_int, pred_int, int32_max, int_same, String, ℕ, Bool, true, ◌&&◌, Option, none, some,
  List, [], ◌∷◌, ◌++◌, present,
}
use canchat.Base.Exec.{fault, throw, pure, modify, ◌>>=◌, ◌>>◌}
use canchat.Dto.{MessageDto, empty_envelope, message_dto, null_history, code_api_error}
use canchat.World.{
  Action, Peer, Event, text_frame, ping_frame, pong_frame, close_frame, invalidated, emit,
  load_peer, store_peer,
}

-- The constructor.
unfoldable pub new_peer : ℕ → ℕ → String → ℤ → Peer
new_peer socket room nickname peer_id = record {
  message_buffer = [];
  socket = some socket;
  room = room;
  nickname = nickname;
  peer_id = peer_id;
  ping_pong_counter = pos 0;
  files = [];
}

-- The frame that `sendMessageAsync` writes, if the peer still has its socket.
abbrev pub frames_to : MessageDto → Option ℕ → List Event
frames_to m none = []
frames_to m (some s) = text_frame s m ∷ []

unfoldable pub send_message_async : ℕ → MessageDto → Action Unit
send_message_async p m = do peer ← load_peer p; modify (emit (frames_to m peer.socket))

-- `sendPingAsync` on the peer's own fields: the new counter, and whether a ping is sent.
unfoldable pub ping : Peer → Peer × Bool
ping peer =
    let counter = suc_int int32_max peer.ping_pong_counter in
    (record peer { ping_pong_counter = counter }, present peer.socket && int_same counter (pos 1))

abbrev pub ping_frames : Bool → Option ℕ → List Event
ping_frames true (some s) = ping_frame s ∷ []
ping_frames _ _ = []

unfoldable pub send_ping_async : ℕ → Action Bool
send_ping_async p = do
  peer ← load_peer p
  let (peer', sends) = ping peer
  modify (store_peer p peer')
  modify (emit (ping_frames sends peer.socket))
  pure sends

-- The coroutine that a handler hands to the WebSocket, which then runs it.
pub data Starter : Type 0 where
  no_action : Starter
  send_error : Option ℕ → MessageDto → Starter
  send_pong : ℕ → String → Starter

-- `act` of the coroutine: after the error message and the close-frame it ends in an error.
unfoldable pub run_starter : Starter → Action Unit
run_starter no_action = pure tt
run_starter (send_error none m) = fault
run_starter (send_error (some s) m) = do
  modify (emit (text_frame s m ∷ close_frame s ∷ []))
  throw "API Error"
run_starter (send_pong s text) = modify (emit (pong_frame s text ∷ []))

unfoldable pub error_message : String → MessageDto
error_message text =
    message_dto
      (record empty_envelope { message_code = some code_api_error; message_text = some text })
      null_history

unfoldable pub on_api_error : ℕ → String → Action Starter
on_api_error p text = do peer ← load_peer p; pure (send_error peer.socket (error_message text))

unfoldable pub add_file : ℕ → ℕ → Action Unit
add_file p f = do
  peer ← load_peer p
  modify (store_peer p (record peer { files = peer.files ++ f ∷ [] }))

abbrev pub invalidations : Option ℕ → List Event
invalidations none = []
invalidations (some s) = invalidated s ∷ []

unfoldable pub invalidate_socket : ℕ → Action Unit
invalidate_socket p = do
  peer ← load_peer p
  modify (emit (invalidations peer.socket))
  modify (store_peer p (record peer { socket = none }))

unfoldable pub on_ping : ℕ → ℕ → String → Action Starter
on_ping p socket text = pure (send_pong socket text)

-- `onPong` on the peer's own fields.
unfoldable pub pong : Peer → Peer
pong peer = record peer { ping_pong_counter = pred_int int32_max peer.ping_pong_counter }

unfoldable pub on_pong : ℕ → Action Starter
on_pong p = do peer ← load_peer p; modify (store_peer p (pong peer)); pure no_action

unfoldable pub on_close : ℕ → Action Starter
on_close p = pure no_action
