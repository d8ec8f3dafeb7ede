-- ===== src/Room/Backlog.antt =====
-- The history of a room: `addHistoryMessage` and `getHistory` of server/src/rooms/Room.cpp.
use canchat.Base.{
  ℕ, zero, suc, ◌≤◌, List, [], ◌∷◌, ◌++◌, none, some, ◌≡◌, refl, ap, ◌∙◌, sym, subst, ap₂, arith,
  length, Option-cases, inl, inr, take_last, append_assoc, append-nil, take_last-short,
  take_last-cons, take_last-append, take_last-zero, le→ltb, lt→ltb,
}
use native.Mathlib.Decide.{dec_le}
use canchat.Base.Exec.{returns, for_each}
use canchat.Base.Heap
use canchat.Config.{ConfigDto}
use canchat.Dto.{MessageDto, History, null_history, history_of}
use canchat.World.{World, Room, store_room}
use canchat.Room.{
  trim, push_history, history_limit, add_history_message, get_history, history_field,
}

trim-short : (max : ℕ) (ms : List MessageDto) → length ms ≤ max → trim max ms ≡ ms
unfolding trim
trim-short max [] h = refl
trim-short max (m ∷ ms) h = rw (le→ltb max (length (m ∷ ms)) h)

trim-eq-take_last : (max : ℕ) (ms : List MessageDto) → trim max ms ≡ take_last max ms
unfolding trim
trim-eq-take_last max [] = rw (take_last-short {A = MessageDto} max [] (omega arith))
trim-eq-take_last max (m ∷ ms) = elim (dec_le max (length ms)) [
  | yes h ↦
      rw (lt→ltb max (length (m ∷ ms)) (omega arith), trim-eq-take_last max ms)
        (sym (take_last-cons max m ms h))
  | no h ↦
      rw (le→ltb max (length (m ∷ ms)) (omega arith))
        (sym (take_last-short max (m ∷ ms) (omega arith)))
]

-- The messages that a room should remember of all that it was given: the last ones, up to the limit.
abbrev pub backlog : ConfigDto → List MessageDto → List MessageDto
backlog config ms = elim config.max_room_history_messages [
  | none ↦ []
  | some max ↦ take_last max ms
]

push_history-backlog :
    (config : ConfigDto) (m : MessageDto) (ms : List MessageDto)
    → push_history (history_limit config) m (backlog config ms) ≡ backlog config (ms ++ m ∷ [])
unfolding push_history history_limit
push_history-backlog config m ms = elim (Option-cases config.max_room_history_messages) [
  | inl e ↦ rw e
  | inr (n, e) ↦ rw e (go n)
]
  where
    go :
        (n : ℕ)
        → push_history
            (history_limit (record config { max_room_history_messages = some n }))
            m
            (take_last n ms)
          ≡ take_last n (ms ++ m ∷ [])
    go zero = take_last-zero ms ∙ sym (take_last-zero (ms ++ m ∷ []))
    go (suc k) =
        trim-eq-take_last (suc k) (take_last (suc k) ms ++ m ∷ [])
        ∙ take_last-append (suc k) ms (m ∷ [])

-- One message more: only the history of the room changes, to the backlog with that message.
pub add_history_message_lem :
    (r : ℕ) (m : MessageDto) (w : World) (room : Room) (ms : List MessageDto)
    → w.room_heap.cell r ≡ some room
    → room.history ≡ backlog w.config ms
    → add_history_message r m w
      ≡ (returns tt, store_room r (record room { history = backlog w.config (ms ++ m ∷ []) }) w)
unfolding add_history_message
add_history_message_lem r m w room ms e h =
    rw (e, add_history_message)
      (ap (λ hs. (returns tt, store_room r (record room { history = hs }) w))
        (ap (push_history (history_limit w.config) m) h ∙ push_history-backlog w.config m ms))

abbrev Holds : ℕ → List MessageDto → World → World → Type 0
Holds r ms old w =
    (room : Room) × (w.room_heap.cell r ≡ some room)
    × (room.history ≡ backlog w.config ms)
    × (w.config ≡ old.config)

after_adds :
    (r : ℕ) (ms before : List MessageDto) (w : World) (room : Room)
    → w.room_heap.cell r ≡ some room
    → room.history ≡ backlog w.config before
    → Holds r (before ++ ms) w (for_each (add_history_message r) ms w).1
after_adds r [] before w room e h =
    (room, e, h ∙ ap (backlog w.config) (sym (append-nil before)), refl)
after_adds r (m ∷ ms) before w room e h = rw (add_history_message_lem r m w room before e h) (
    subst (λ l. Holds r l w (for_each (add_history_message r) ms (store_room r room' w)).1)
      (append_assoc before (m ∷ []) ms)
      (after_adds r ms (before ++ m ∷ []) (store_room r room' w) room'
        (Heap.cell-write r room' w.room_heap) refl))
  where
    room' : Room
    room' = record room { history = backlog w.config (before ++ m ∷ []) }

pub backlog-nil : (config : ConfigDto) → backlog config [] ≡ []
backlog-nil config = elim (Option-cases config.max_room_history_messages) [
  | inl e ↦ rw e
  | inr (n, e) ↦ rw e (take_last-short {A = MessageDto} n [] (omega arith))
]

pub get_history_lem :
    (r : ℕ) (w : World) (room : Room)
    → w.room_heap.cell r ≡ some room
    → get_history r w ≡ (returns (history_field (history_limit w.config) room.history), w)
unfolding get_history
get_history_lem r w room e = rw (e, get_history)

-- What a client is told of these messages: null without a limit or with the limit 0, else the last
-- ones, up to the limit.
abbrev pub shown : ConfigDto → List MessageDto → History
shown config ms = elim config.max_room_history_messages [
  | none ↦ null_history
  | some zero ↦ null_history
  | some (suc k) ↦ history_of (take_last (suc k) ms)
]

pub history_field-shown :
    (config : ConfigDto) (ms : List MessageDto)
    → history_field (history_limit config) (backlog config ms) ≡ shown config ms
unfolding history_limit
history_field-shown config ms = elim (Option-cases config.max_room_history_messages) [
  | inl e ↦ rw e refl
  | inr (n, e) ↦ rw e (by_limit n)
]
  where
    by_limit :
        (n : ℕ)
        → history_field
            (history_limit (record config { max_room_history_messages = some n }))
            (take_last n ms)
          ≡ shown (record config { max_room_history_messages = some n }) ms
    by_limit zero = refl
    by_limit (suc k) = refl

-- From a room with an empty history, after any messages, `getHistory` returns the last ones up to
-- the limit, in their order, and null if there is no limit or it is 0.
pub get_history-after :
    (r : ℕ) (ms : List MessageDto) (w : World) (room : Room)
    → w.room_heap.cell r ≡ some room
    → room.history ≡ []
    → (get_history r (for_each (add_history_message r) ms w).1).0 ≡ returns (shown w.config ms)
get_history-after r ms w room e h =
    let (room', at, hist, same) = after_adds r ms [] w room e (h ∙ sym (backlog-nil w.config)) in
    ap (λ o. o.0) (get_history_lem r (for_each (add_history_message r) ms w).1 room' at)
    ∙ ap₂ (λ c l. returns (history_field (history_limit c) l)) same
        (hist ∙ ap (λ c. backlog c ms) same)
    ∙ ap returns (history_field-shown w.config ms)
