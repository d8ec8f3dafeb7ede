-- ===== src/Peer/Kept.antt =====
-- What the handlers of a message leave alone, from what the methods below them leave alone
-- (server/src/rooms/Peer.cpp, the handlers below `readMessage`). Chunks are left to the caller.
use canchat.Base.{
  suc_uint64, ℤ, ℕ, String, Option, some, [], ◌∷◌, ◌≡◌, refl, ap, ◌∙◌, ◌⊎◌, inl, inr, Option-cases,
}
use canchat.Base.Exec.{
  deref_keeps, for_each_collect_keeps, continue_keeps, for_each_keeps, for_each_collect,
}
use canchat.Statistics.{Counters}
use canchat.Dto.{
  code_info, code_peer_joined, code_peer_left, code_peer_message, code_peer_message_file,
  code_peer_is_typing, code_file_share, code_file_request_chunk, code_file_chunk_data,
  code_api_error, envelope, MessageDto, FileDto, FilesList, MessageCode,
}
use canchat.World.{World, count_event}
use canchat.Peer.{send_message_async, on_api_error}
use canchat.Peer.Handlers.{
  file_message, Library, validate_files_list, files_list_error, share_one, handle_files_message,
  handle_file_chunk_message, dispatch, handle_message,
}
use canchat.Room.{add_history_message, send_to_all, share_file}

-- The methods leave this part of the World alone.
pub record Keeps {K : Type 0} (kept : World → K) : Type 0 where
  pub sends : (p : ℕ) (m : MessageDto) (w : World) → kept (send_message_async p m w).1 ≡ kept w
  pub remembers : (r : ℕ) (m : MessageDto) (w : World) → kept (add_history_message r m w).1 ≡ kept w
  pub shares :
      (r : ℕ) (host_id c size : ℤ) (name : Option String) (w : World)
      → kept (share_file r host_id c name size w).1 ≡ kept w
  pub counts : (f : Counters → Counters) (w : World) → kept (count_event f w) ≡ kept w

module _ {K : Type 0} (kept : World → K) (k : Keeps kept) where
  pub on_api_error_keeps :
      (p : ℕ) (text : String) (w : World) → kept (on_api_error p text w).1 ≡ kept w
  unfolding on_api_error
  on_api_error_keeps p text w = deref_keeps kept (w.peer_heap.cell p) _ w λ peer w1. refl

  send_to_all_keeps : (r : ℕ) (m : MessageDto) (w : World) → kept (send_to_all r m w).1 ≡ kept w
  unfolding send_to_all
  send_to_all_keeps r m w = elim (Option-cases (w.room_heap.cell r)) [
    | inl n ↦ rw (n, send_to_all)
    | inr (room, at) ↦
        rw (at, send_to_all)
          (for_each_keeps kept (λ p. send_message_async p m) (λ p u. k.sends p m u) _ w)
  ]

  share_one_keeps : (p : ℕ) (o : Option FileDto) (w : World) → kept (share_one p o w).1 ≡ kept w
  unfolding share_one
  share_one_keeps p o w = deref_keeps kept (w.peer_heap.cell p) _ w λ peer w1.
      deref_keeps kept o _ w1 λ dto w2. deref_keeps kept dto.client_file_id _ w2 λ c w3.
        deref_keeps kept dto.size _ w3 λ size w4.
          continue_keeps kept (share_file peer.room peer.peer_id c dto.name size w4) _
            (λ f w5. deref_keeps kept (w5.file_heap.cell f) _ w5 λ file w6. refl)
          ∙ k.shares peer.room peer.peer_id c size dto.name w4

  validate_files_list_keeps :
      (p : ℕ) (files : FilesList) (w : World) → kept (validate_files_list p files w).1 ≡ kept w
  unfolding validate_files_list
  validate_files_list_keeps p [] w = on_api_error_keeps p _ w
  validate_files_list_keeps p (f ∷ files) w = elim (Option-cases (files_list_error (f ∷ files))) [
    | inl n ↦ rw (n, validate_files_list)
    | inr (text, e) ↦ rw (e, validate_files_list) (on_api_error_keeps p text w)
  ]

  handle_files_message_keeps :
      (p : ℕ) (now : ℤ) (m : MessageDto) (w : World)
      → kept (handle_files_message p now m w).1 ≡ kept w
  unfolding handle_files_message
  handle_files_message_keeps p now m w = deref_keeps kept (envelope m).files _ w λ files w1.
      continue_keeps kept (validate_files_list p files w1) _ (λ ignored w2.
        deref_keeps kept (w2.peer_heap.cell p) _ w2 λ peer w3.
          continue_keeps kept (for_each_collect (share_one p) files w3) _ (λ listed w4.
            continue_keeps kept (add_history_message peer.room (file_message peer now listed) w4) _
              (λ u w5.
                continue_keeps kept (send_to_all peer.room (file_message peer now listed) w5) _
                  (λ x w6. refl)
                ∙ send_to_all_keeps peer.room (file_message peer now listed) w5)
            ∙ k.remembers peer.room (file_message peer now listed) w4)
          ∙ for_each_collect_keeps kept (share_one p) (share_one_keeps p) files w3)
      ∙ validate_files_list_keeps p files w1

  module _ (lib : Library) (p : ℕ) (now : ℤ) (m : MessageDto) (w : World) where
    dispatch-kept :
        (c : MessageCode)
        → ((c ≡ code_file_chunk_data)
            × (dispatch lib p now m c w ≡ handle_file_chunk_message lib p m w))
          ⊎ (kept (dispatch lib p now m c w).1 ≡ kept w)
    unfolding dispatch
    dispatch-kept code_peer_message = inr (
        deref_keeps kept (w.peer_heap.cell p) _ w λ peer w1.
          continue_keeps kept (add_history_message peer.room m w1) _ (λ x w2.
            continue_keeps kept (send_to_all peer.room m w2) _ (λ y w3.
              k.counts
                (λ c. record c { event_peer_send_message = suc_uint64 c.event_peer_send_message })
                w3)
            ∙ send_to_all_keeps peer.room m w2)
          ∙ k.remembers peer.room m w1)
    dispatch-kept code_peer_is_typing = inr (
        deref_keeps kept (w.peer_heap.cell p) _ w λ peer w1.
          continue_keeps kept (send_to_all peer.room m w1) _ (λ x w2. refl)
          ∙ send_to_all_keeps peer.room m w1)
    dispatch-kept code_file_share = inr (handle_files_message_keeps p now m w)
    dispatch-kept code_file_chunk_data = inl (refl, refl)
    dispatch-kept code_info = inr (on_api_error_keeps p _ w)
    dispatch-kept code_peer_joined = inr (on_api_error_keeps p _ w)
    dispatch-kept code_peer_left = inr (on_api_error_keeps p _ w)
    dispatch-kept code_peer_message_file = inr (on_api_error_keeps p _ w)
    dispatch-kept code_file_request_chunk = inr (on_api_error_keeps p _ w)
    dispatch-kept code_api_error = inr (on_api_error_keeps p _ w)

    -- A message with a chunk is handled as such, any other leaves this alone.
    pub handle_message-kept :
        (((envelope m).message_code ≡ some code_file_chunk_data)
          × (handle_message lib p now m w ≡ handle_file_chunk_message lib p m w))
        ⊎ (kept (handle_message lib p now m w).1 ≡ kept w)
    unfolding handle_message
    handle_message-kept = elim (Option-cases (envelope m).message_code) [
      | inl n ↦ inr (rw (n, handle_message) (on_api_error_keeps p _ w))
      | inr (c, e) ↦ elim (dispatch-kept c) [
        | inl (is, same) ↦ inl (e ∙ ap some is, rw (e, handle_message) same)
        | inr same ↦ inr (rw (e, handle_message) same)
      ]
    ]
