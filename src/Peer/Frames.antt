-- ===== src/Peer/Frames.antt =====
-- How `readMessage` of server/src/rooms/Peer.cpp puts a message together from its frames.
use canchat.Base.{
  ℕ, ◌+◌, ◌≤◌, ◌<◌, some, List, [], ◌∷◌, ◌++◌, length, length-append, ◌≡◌, ◌≢◌, refl, sym, ap, ◌∙◌,
  ap₂, arith, All, append-nil, append_assoc,
}
use mathlib.Core.List.{flatten}
use canchat.Base.Heap
use canchat.Base.Exec.{returns, pure, for_each, ◌>>=◌, ◌>>◌}
use canchat.World.{World, Action, Bytes, Peer, store_peer}
use canchat.Peer.{no_action, send_error, on_api_error, error_message}
use canchat.Peer.Handlers.{Ticks, Library, read_message, finish_message}

module _ (lib : Library) where
  -- The frames of a message that is still incomplete.
  unfoldable pub read_fragments : ℕ → Ticks → List Bytes → Action Unit
  read_fragments p now frames = for_each (λ f. read_message lib p now f >>= λ _. pure tt) frames

  -- A frame that fits goes to the end of the buffer; nothing else happens.
  read_fragment :
      (p : ℕ) (now : Ticks) (f : Bytes) (w : World) (peer : Peer) (max : ℕ)
      → w.peer_heap.cell p ≡ some peer
      → w.config.max_message_size_bytes ≡ some max
      → f ≢ []
      → length peer.message_buffer + length f ≤ max
      → read_message lib p now f w ≡ (
        returns no_action,
        store_peer p (record peer { message_buffer = peer.message_buffer ++ f }) w,
      )
  unfolding read_message
  read_fragment p now [] w peer max e c n h = absurd (n refl)
  read_fragment p now (b ∷ f) w peer max e c n h = ground arith

  -- The empty frame hands over what was gathered, with an empty buffer.
  read_last :
      (p : ℕ) (now : Ticks) (w : World) (peer : Peer) (max : ℕ)
      → w.peer_heap.cell p ≡ some peer
      → w.config.max_message_size_bytes ≡ some max
      → length peer.message_buffer ≤ max
      → read_message lib p now [] w
        ≡ finish_message lib p now
            (lib.read_from_string peer.message_buffer)
            (store_peer p (record peer { message_buffer = [] }) w)
  unfolding read_message
  read_last p now w peer max e c h = ground arith

  -- A frame with which the message passes the limit is answered by an error; the peer, its buffer
  -- included, and all else stay as they were.
  pub read_message_oversized :
      (p : ℕ) (now : Ticks) (f : Bytes) (w : World) (peer : Peer) (max : ℕ)
      → w.peer_heap.cell p ≡ some peer
      → w.config.max_message_size_bytes ≡ some max
      → max < length peer.message_buffer + length f
      → read_message lib p now f w ≡ (
        returns (send_error peer.socket (error_message "Message size exceeds max allowed size.")),
        w,
      )
  unfolding read_message on_api_error
  read_message_oversized p now f w peer max e c h = ground arith

  fragments_gathered :
      (p : ℕ) (now : Ticks) (frames : List Bytes) (w : World) (peer : Peer) (max : ℕ)
      → w.peer_heap.cell p ≡ some peer
      → w.config.max_message_size_bytes ≡ some max
      → All (λ f. f ≢ []) frames
      → length peer.message_buffer + length (flatten frames) ≤ max
      → read_fragments p now frames w ≡ (
        returns tt,
        store_peer p (record peer { message_buffer = peer.message_buffer ++ flatten frames }) w,
      )
  unfolding read_fragments flatten
  fragments_gathered p now [] w peer max e c n h = rw append-nil (
      ap (λ h. (returns tt, record w { peer_heap = h }))
        (sym (Heap.write_same p peer w.peer_heap e)))
  fragments_gathered p now (f ∷ frames) w peer max e c n h =
      let b = peer.message_buffer in
      rw
        (read_fragment p now f w peer max e c n.0
          (omega (arith, length-append {0} f (flatten frames))))
        (fragments_gathered p now frames (store_peer p (record peer { message_buffer = b ++ f }) w)
            (record peer { message_buffer = b ++ f }) max
            (Heap.cell-write p (record peer { message_buffer = b ++ f }) w.peer_heap) c n.1
            (omega (arith, length-append {0} f (flatten frames), length-append {0} b f))
          ∙ ap₂
              (λ h d. (
                returns tt,
                record w { peer_heap = Heap.write p (record peer { message_buffer = d }) h },
              ))
              refl (append_assoc b f (flatten frames))
          ∙ ap (λ h. (returns tt, record w { peer_heap = h })) (Heap.write-write p _ _ w.peer_heap))

  -- From an empty buffer, frames that are not empty and together within the limit, and then the
  -- empty frame, do what the handler does for the whole message: how the message was cut is not seen.
  pub read_message_fragmented :
      (p : ℕ) (now : Ticks) (frames : List Bytes) (w : World) (peer : Peer) (max : ℕ)
      → w.peer_heap.cell p ≡ some peer
      → w.config.max_message_size_bytes ≡ some max
      → peer.message_buffer ≡ []
      → All (λ f. f ≢ []) frames
      → length (flatten frames) ≤ max
      → (read_fragments p now frames >> read_message lib p now []) w
        ≡ finish_message lib p now (lib.read_from_string (flatten frames)) w
  read_message_fragmented p now frames w peer max e c b n h =
      let gathered = record peer { message_buffer = peer.message_buffer ++ flatten frames } in
      let whole : peer.message_buffer ++ flatten frames ≡ flatten frames =
        ap (λ d. d ++ flatten frames) b in
      let none_before : length peer.message_buffer ≡ 0 = ap length b in
      rw (fragments_gathered p now frames w peer max e c n (omega arith)) (
        read_last p now (store_peer p gathered w) gathered max
          (Heap.cell-write p gathered w.peer_heap) c (omega (arith, ap length whole))
        ∙ ap₂
            (λ x h. finish_message lib p now (lib.read_from_string x) (record w { peer_heap = h }))
            whole
            (Heap.write-write p gathered _ w.peer_heap
              ∙ ap (λ d. Heap.write p (record peer { message_buffer = d }) w.peer_heap) (sym b)
              ∙ Heap.write_same p peer w.peer_heap e))
