-- ===== src/Peer/Uploads.antt =====
-- `handleFilesMessage` and `handleFileChunkMessage` of server/src/rooms/Peer.cpp.
use canchat.Base.{
  ℤ, int_eq, ℕ, String, none, some, [], ◌∷◌, ◌≡◌, ◌≢◌, refl, arith, false, Option-cases, inl, inr,
}
use canchat.Base.Map.{get}
use canchat.Base.Exec.{continue, pure, deref, for_each_collect, ◌>>=◌, ◌>>◌, returns}
use canchat.Dto.{MessageDto, FileDto, FilesList, envelope}
use canchat.World.{
  World, Action, load_peer, Bytes, Peer, Room, SharedFile, Subscriber, store_subscriber,
}
use canchat.Peer.{Starter, no_action, send_error, on_api_error, error_message}
use canchat.Peer.Handlers.{
  Library, handle_files_message, handle_file_chunk_message, handle_chunk_list, handle_file_chunk,
  provide_chunk, validate_files_list, files_list_error, share_one, file_message,
}
use canchat.File.{provide_file_chunk, take_chunk}
use canchat.Room.{get_file_by_id, add_history_message, send_to_all}

-- `handleFilesMessage` without its call of `validateFilesList`.
unfoldable pub unvalidated : ℕ → ℤ → MessageDto → Action Starter
unvalidated p now message = do
  files ← deref (envelope message).files
  peer ← load_peer p
  shared ← for_each_collect (share_one p) files
  add_history_message peer.room (file_message peer now shared)
  send_to_all peer.room (file_message peer now shared)
  pure no_action

-- What follows reads the peer anyway.
complaint_ignored :
    {A : Type 0} (p : ℕ) (text : String) (k : Peer → Action A) (w : World)
    → continue (on_api_error p text w) (λ ignored. load_peer p >>= k) ≡ (load_peer p >>= k) w
unfolding on_api_error
complaint_ignored p text k w = ground arith

validate_ignored :
    {A : Type 0} (p : ℕ) (files : FilesList) (k : Peer → Action A) (w : World)
    → continue (validate_files_list p files w) (λ ignored. load_peer p >>= k)
      ≡ (load_peer p >>= k) w
unfolding validate_files_list
validate_ignored p [] k w = complaint_ignored p "Files list is empty." k w
validate_ignored p (file ∷ files) k w = elim (Option-cases (files_list_error (file ∷ files))) [
  | inl e ↦ rw (e, continue, validate_files_list) refl
  | inr (text, e) ↦ rw (e, continue, validate_files_list) (complaint_ignored p text k w)
]

-- The validation of the offered files decides nothing: whatever a files message holds, an empty list
-- or a file without a number, a name or a size included, `handleFilesMessage` does what it would do
-- without the call of `validateFilesList`, whose complaint it drops.
pub handle_files_message-unvalidated :
    (p : ℕ) (now : ℤ) (m : MessageDto) (w : World)
    → handle_files_message p now m w ≡ unvalidated p now m w
unfolding handle_files_message unvalidated
handle_files_message-unvalidated p now m w = elim (Option-cases (envelope m).files) [
  | inl e ↦ rw e refl
  | inr (files, e) ↦ rw e (validate_ignored p files _ w)
]

-- A chunk for a file of the room.
pub record Chunk (p : ℕ) (m : MessageDto) (w : World) : Type 0 where
  pub dto : FileDto
  pub server_file_id : ℤ
  pub subscriber_id : ℤ
  pub text : String
  pub sender : Peer
  pub room : Room
  pub file_addr : ℕ
  pub file : SharedFile
  pub host : Peer
  pub files_is : (envelope m).files ≡ some (some dto ∷ [])
  pub id_is : dto.server_file_id ≡ some server_file_id
  pub subscriber_is : dto.subscriber_id ≡ some subscriber_id
  pub text_is : dto.file_data ≡ some text
  pub sender_at : w.peer_heap.cell p ≡ some sender
  pub room_at : w.room_heap.cell sender.room ≡ some room
  pub file_is : get server_file_id room.file_by_id ≡ some file_addr
  pub file_at : w.file_heap.cell file_addr ≡ some file
  pub host_at : w.peer_heap.cell file.host ≡ some host

-- The fields are there, so the handler comes to the room's file.
chunk_provided :
    (lib : Library) (p : ℕ) (m : MessageDto) (w : World) (c : Chunk p m w)
    → handle_file_chunk_message lib p m w
      ≡ provide_chunk lib p c.server_file_id c.subscriber_id c.text w
unfolding handle_file_chunk_message handle_chunk_list handle_file_chunk
chunk_provided lib p m w c =
    rw (c.files_is, handle_file_chunk_message)
      (rw (c.id_is, handle_file_chunk)
        (rw (c.subscriber_is, handle_file_chunk) (rw (c.text_is, handle_file_chunk))))

-- A chunk from anybody but the file's host is answered by an error and changes nothing.
pub chunk_from_stranger :
    (lib : Library) (p : ℕ) (m : MessageDto) (w : World) (c : Chunk p m w)
    → c.host.peer_id ≢ c.sender.peer_id
    → handle_file_chunk_message lib p m w
      ≡ (returns (send_error c.sender.socket (error_message "Wrong file host.")), w)
unfolding provide_chunk get_file_by_id on_api_error
chunk_from_stranger lib p m w c n =
    rw (chunk_provided lib p m w c, c.sender_at, c.room_at, c.file_is, c.file_at, c.host_at)
      (ground (arith, c.sender_at, n))

-- A chunk from the host reaches the subscriber that it names, decoded: the waiting chunk is set and
-- nothing else changes.
pub chunk_from_host :
    (lib : Library) (p : ℕ) (m : MessageDto) (w : World) (c : Chunk p m w) (bytes : Bytes) (s : ℕ)
    (sub : Subscriber)
    → c.host.peer_id ≡ c.sender.peer_id
    → lib.decode_base64 c.text ≡ some bytes
    → get c.subscriber_id c.file.subscribers ≡ some s
    → w.subscriber_heap.cell s ≡ some sub
    → sub.chunk ≡ none
    → handle_file_chunk_message lib p m w ≡ (
      returns no_action,
      store_subscriber s (record sub { chunk = some bytes; waiting = false }) w,
    )
unfolding provide_chunk get_file_by_id provide_file_chunk take_chunk
chunk_from_host lib p m w c bytes s sub same d g a n =
    rw (chunk_provided lib p m w c, c.sender_at, c.room_at, c.file_is, c.file_at, c.host_at)
      (ground (arith, same, d, g, a, n, c.file_at))
