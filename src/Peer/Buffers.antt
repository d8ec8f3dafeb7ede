-- ===== src/Peer/Buffers.antt =====
-- No handler of a message touches the message buffer of a peer or the configuration
-- (server/src/rooms/Peer.cpp, the handlers below `readMessage`).
use canchat.Config.{ConfigDto}
use canchat.Base.{
  ℤ, String, ℕ, Option, none, some, [], ◌∷◌, ◌≡◌, refl, arith, Option-cases, inl, inr,
}
use canchat.Base.Exec.{deref_keeps}
use canchat.Dto.{envelope, MessageDto, FileDto, FilesList}
use canchat.World.{World, Bytes, Peer}
use canchat.Peer.{send_message_async, add_file, on_api_error}
use canchat.Peer.Kept.{Keeps, on_api_error_keeps, handle_message-kept}
use canchat.Peer.Handlers.{
  Ticks, finish_message, Parsed, parsed, not_parsed, stamp, Library, provide_chunk,
  handle_file_chunk_message, handle_chunk_list, handle_file_chunk, handle_message,
}
use canchat.Room.{add_history_message, share_file, share_hosted, get_file_by_id, get_peer_by_id}
use canchat.File.{provide_file_chunk, take_chunk}

abbrev pub buffer_of : Option Peer → Option Bytes
buffer_of none = none
buffer_of (some peer) = some peer.message_buffer

module _ (q : ℕ) where
  abbrev pub kept : World → Option Bytes × ConfigDto
  kept w = (buffer_of (w.peer_heap.cell q), w.config)

  send_message_async_keeps :
      (p : ℕ) (m : MessageDto) (w : World) → kept (send_message_async p m w).1 ≡ kept w
  unfolding send_message_async
  send_message_async_keeps p m w = ground arith

  add_history_message_keeps :
      (r : ℕ) (m : MessageDto) (w : World) → kept (add_history_message r m w).1 ≡ kept w
  unfolding add_history_message
  add_history_message_keeps r m w = ground arith

  share_file_keeps :
      (r : ℕ) (host_id c size : ℤ) (name : Option String) (w : World)
      → kept (share_file r host_id c name size w).1 ≡ kept w
  unfolding share_file share_hosted get_peer_by_id add_file
  share_file_keeps r host_id c size name w = ground arith

  pub buffer-Keeps : Keeps kept
  buffer-Keeps = record {
    sends = send_message_async_keeps;
    remembers = add_history_message_keeps;
    shares = share_file_keeps;
    counts = λ f w. refl;
  }

  provide_chunk_keeps :
      (lib : Library) (p : ℕ) (f s : ℤ) (t : String) (w : World)
      → kept (provide_chunk lib p f s t w).1 ≡ kept w
  unfolding provide_chunk get_file_by_id provide_file_chunk take_chunk on_api_error
  provide_chunk_keeps lib p f s t w = ground arith

  module _ (lib : Library) (p : ℕ) where
    handle_file_chunk_keeps :
        (o : Option FileDto) (w : World) → kept (handle_file_chunk lib p o w).1 ≡ kept w
    unfolding handle_file_chunk
    handle_file_chunk_keeps none w = on_api_error_keeps kept buffer-Keeps p _ w
    handle_file_chunk_keeps (some dto) w = elim (Option-cases dto.server_file_id) [
      | inl n ↦ rw (n, handle_file_chunk) (on_api_error_keeps kept buffer-Keeps p _ w)
      | inr (f, e) ↦
          rw (e, handle_file_chunk)
            (elim (Option-cases dto.subscriber_id) [
              | inl n ↦ rw (n, handle_file_chunk) (on_api_error_keeps kept buffer-Keeps p _ w)
              | inr (s, d) ↦
                  rw (d, handle_file_chunk)
                    (elim (Option-cases dto.file_data) [
                      | inl n ↦
                          rw (n, handle_file_chunk) (on_api_error_keeps kept buffer-Keeps p _ w)
                      | inr (t, c) ↦ rw (c, handle_file_chunk) (provide_chunk_keeps lib p f s t w)
                    ])
            ])
    ]

    handle_chunk_list_keeps :
        (files : FilesList) (w : World) → kept (handle_chunk_list lib p files w).1 ≡ kept w
    unfolding handle_chunk_list
    handle_chunk_list_keeps [] w = refl
    handle_chunk_list_keeps (f ∷ []) w = handle_file_chunk_keeps f w
    handle_chunk_list_keeps (f ∷ g ∷ files) w = on_api_error_keeps kept buffer-Keeps p _ w

    handle_file_chunk_message_keeps :
        (m : MessageDto) (w : World) → kept (handle_file_chunk_message lib p m w).1 ≡ kept w
    unfolding handle_file_chunk_message
    handle_file_chunk_message_keeps m w = elim (Option-cases (envelope m).files) [
      | inl n ↦ rw (n, handle_file_chunk_message) (on_api_error_keeps kept buffer-Keeps p _ w)
      | inr (files, e) ↦ rw (e, handle_file_chunk_message) (handle_chunk_list_keeps files w)
    ]

    handle_message_keeps :
        (now : ℤ) (m : MessageDto) (w : World) → kept (handle_message lib p now m w).1 ≡ kept w
    handle_message_keeps now m w = elim (handle_message-kept kept buffer-Keeps lib p now m w) [
      | inl (chunk, same) ↦ rw same (handle_file_chunk_message_keeps m w)
      | inr same ↦ same
    ]

    pub finish_message_keeps :
        (now : Ticks) (o : Parsed) (w : World) → kept (finish_message lib p now o w).1 ≡ kept w
    unfolding finish_message
    finish_message_keeps now not_parsed w = on_api_error_keeps kept buffer-Keeps p _ w
    finish_message_keeps now (parsed o) w = deref_keeps kept o _ w λ m w1.
        deref_keeps kept (w1.peer_heap.cell p) _ w1
          λ peer w2. handle_message_keeps now.shared_at (stamp peer now.read_at m) w2
