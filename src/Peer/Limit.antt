-- ===== src/Peer/Limit.antt =====
-- The limit on a message (server/src/rooms/Peer.cpp, `readMessage`).
use canchat.Base.{
  nat_eq, true, false, ℕ, ◌≤◌, ◌+◌, ◌==◌, ltb, length, length-append, some, List, [], ◌∷◌, ◌++◌,
  ◌≡◌, refl, ap, ◌∙◌, arith, Option-cases, Bool-cases, inl, inr,
}
use canchat.World.{World, Bytes, Peer, store_peer}
use canchat.Peer.Handlers.{Ticks, Library, read_message}
use canchat.Peer.Buffers.{kept, buffer-Keeps, finish_message_keeps}
use canchat.Peer.Kept.{on_api_error_keeps}

-- No peer has more bytes of an unfinished message than this.
abbrev pub IsBounded : ℕ → World → Type 0
IsBounded max w =
    (q : ℕ) (peer : Peer) → w.peer_heap.cell q ≡ some peer → length peer.message_buffer ≤ max

-- A frame for the peer at this address, at this time.
pub record Frame : Type 0 where
  pub peer : ℕ
  pub now : Ticks
  pub bytes : Bytes

-- The world after the frames, however each of them is answered.
abbrev pub after_frames : Library → List Frame → World → World
after_frames lib [] w = w
after_frames lib (f ∷ frames) w =
    after_frames lib frames (read_message lib f.peer f.now f.bytes w).1

kept-IsBounded :
    (max : ℕ) (v w : World) → ((q : ℕ) → kept q w ≡ kept q v) → IsBounded max v → IsBounded max w
kept-IsBounded max v w same bound q peer at = elim (Option-cases (v.peer_heap.cell q)) [
  | inl n ↦ absurd (ground (arith, same q, n, at))
  | inr (old, e) ↦
      let b = bound q old e in
      let s : old.message_buffer ≡ peer.message_buffer = ground (arith, same q, e, at) in rw⁻¹ s b
]

store-IsBounded :
    (max p : ℕ) (peer : Peer) (w : World)
    → length peer.message_buffer ≤ max
    → IsBounded max w
    → IsBounded max (store_peer p peer w)
store-IsBounded max p peer w h bound q other at = ground (arith, bound q other, at, h)

-- The state that a frame leaves, up to what the handlers do with a whole message.
record Stored (lib : Library) (p : ℕ) (now : Ticks) (bytes : Bytes) (max : ℕ) (w : World)
    : Type 0 where
  pub stored : World
  pub bounded : IsBounded max stored
  pub same_config : stored.config ≡ w.config
  pub same : (q : ℕ) → kept q (read_message lib p now bytes w).1 ≡ kept q stored

module _ (lib : Library) (p : ℕ) (now : Ticks) (bytes : Bytes) (max : ℕ) (w : World)
    (limit : w.config.max_message_size_bytes ≡ some max) (bound : IsBounded max w) where
  module _ (peer : Peer) (at : w.peer_heap.cell p ≡ some peer) where
    over_limit :
        ltb max (length peer.message_buffer + length bytes) ≡ true → Stored lib p now bytes max w
    unfolding read_message
    over_limit over = record {
      stored = w;
      bounded = bound;
      same_config = refl;
      same = λ q. rw at (simp (limit, over) (on_api_error_keeps (kept q) (buffer-Keeps q) p _ w));
    }

    finished :
        ltb max (length peer.message_buffer + length bytes) ≡ false
        → (length bytes == 0) ≡ true
        → Stored lib p now bytes max w
    unfolding read_message
    finished fits done = record {
      stored = store_peer p (record peer { message_buffer = [] }) w;
      bounded = store-IsBounded max p (record peer { message_buffer = [] }) w (omega arith) bound;
      same_config = refl;
      same = λ q. rw at (
          simp (limit, fits, done)
            (finish_message_keeps q lib p now _
              (store_peer p (record peer { message_buffer = [] }) w)));
    }

    extended :
        ltb max (length peer.message_buffer + length bytes) ≡ false
        → (length bytes == 0) ≡ false
        → Stored lib p now bytes max w
    unfolding read_message
    extended fits more = record {
      stored = store_peer p (record peer { message_buffer = peer.message_buffer ++ bytes }) w;
      bounded =
          store-IsBounded max p (record peer { message_buffer = peer.message_buffer ++ bytes }) w
            (ground (arith, length-append peer.message_buffer bytes, fits)) bound;
      same_config = refl;
      same = λ q. rw at (simp (limit, fits, more));
    }

  read_message-Stored : Stored lib p now bytes max w
  unfolding read_message
  read_message-Stored = elim (Option-cases (w.peer_heap.cell p)) [
    | inl n ↦ record { stored = w; bounded = bound; same_config = refl; same = λ q. rw n }
    | inr (peer, at) ↦ elim (Bool-cases (ltb max (length peer.message_buffer + length bytes))) [
      | inl over ↦ over_limit peer at over
      | inr fits ↦ elim (Bool-cases (length bytes == 0)) [
        | inl done ↦ finished peer at fits done
        | inr more ↦ extended peer at fits more
      ]
    ]
  ]

-- Whatever frames arrive for whatever peers, in any order, and however each is answered: if no peer
-- had more bytes of an unfinished message than the configured limit, then none has more afterwards.
pub after_frames-IsBounded :
    (lib : Library) (frames : List Frame) (max : ℕ) (w : World)
    → w.config.max_message_size_bytes ≡ some max
    → IsBounded max w
    → IsBounded max (after_frames lib frames w)
after_frames-IsBounded lib [] max w limit bound = bound
after_frames-IsBounded lib (f ∷ frames) max w limit bound =
    let s = read_message-Stored lib f.peer f.now f.bytes max w limit bound in
    let w' : World = (read_message lib f.peer f.now f.bytes w).1 in
    after_frames-IsBounded lib frames max w'
      (ap (λ c. c.max_message_size_bytes) (ap (λ k. k.1) (s.same 0) ∙ s.same_config) ∙ limit)
      (kept-IsBounded max s.stored w' s.same s.bounded)
