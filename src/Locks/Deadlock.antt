-- ===== src/Locks/Deadlock.antt =====
-- `Room::shareFile` and `Room::removePeerById` of server/src/rooms/Room.cpp take the locks of the
-- files and of the peers of a room in opposite orders.
use canchat.Base.{
  Bool-cases, inl, inr, ℕ, zero, suc, Bool, true, false, some, List, [], ◌∷◌, ◌++◌, All, get_elem?,
  ◌≡◌, refl, sym, subst, ap, ◌∙◌, map, drop, arith,
}
use mathlib.Core.Option.{none-ne-some, some-injective}
use mathlib.Core.Bool.{false≢true}
use canchat.Base.Options.{set_elem, bind-some}
use canchat.Locks.{
  start, rooms_mutex, peer_by_id_lock, file_by_id_lock, Mutex, Act, lock, Thread, act, turn,
  is_held, is_member, step, run_schedule,
}
use canchat.Locks.Methods.{mutex, each}
use canchat.Locks.Tasks.{Task, shares, disconnects, pings, connects, worker, task_acts}
use canchat.Locks.Order.{step-some}

-- A thread whose next mutex one of `ts` holds.
abbrev pub IsBlocked : List Thread → Thread → Type 0
IsBlocked ts t = (m : Mutex) × (todo : List Act) × (t.todo ≡ lock m ∷ todo) × (is_held m ts ≡ true)

lock-IsBlocked :
    (ts : List Thread) (m : Mutex) (todo : List Act)
    → is_held m ts ≡ true
    → IsBlocked ts (start (lock m ∷ todo))
lock-IsBlocked ts m todo h = (m, todo, refl, h)

is_held-append :
    (m : Mutex) (ts others : List Thread) → is_held m ts ≡ true → is_held m (ts ++ others) ≡ true
is_held-append m [] others h = absurd (false≢true h)
is_held-append m (t ∷ ts) others h = elim (Bool-cases (is_member m t.held)) [
  | inl e ↦ rw e refl
  | inr e ↦ rw (e, is_held-append m ts others (ground arith)) refl
]

IsBlocked-turn :
    (ts others : List Thread) (t u : Thread) → IsBlocked ts t → turn (ts ++ others) t ≡ some u → ⊥
IsBlocked-turn ts others t u (m, todo, e, h) went =
    none-ne-some u
      (sym (ap (act (ts ++ others) t.held) e ∙ rw (is_held-append m ts others h) refl) ∙ went)

IsBlocked-turns :
    (ts others us : List Thread)
    → All (IsBlocked ts) us
    → All (λ t. (u : Thread) → turn (ts ++ others) t ≡ some u → ⊥) us
IsBlocked-turns ts others [] h = tt
IsBlocked-turns ts others (t ∷ us) h =
    (λ u. IsBlocked-turn ts others t u h.0, IsBlocked-turns ts others us h.1)

-- Whoever goes on is not among the blocked ones.
set_elem-append :
    (all ts others : List Thread) (i : ℕ) (t u : Thread)
    → All (λ t. (u : Thread) → turn all t ≡ some u → ⊥) ts
    → get_elem? (ts ++ others) i ≡ some t
    → turn all t ≡ some u
    → (rest : List Thread) × (set_elem (ts ++ others) i u ≡ ts ++ rest)
set_elem-append all [] others i t u h at went = (set_elem others i u, refl)
set_elem-append all (x ∷ ts) others zero t u h at went =
    absurd (h.0 u (subst (λ y. turn all y ≡ some u) (sym (some-injective x t at)) went))
set_elem-append all (x ∷ ts) others (suc i) t u h at went =
    let (rest, e) = set_elem-append all ts others i t u h.1 at went in (rest, ap (λ ys. x ∷ ys) e)

pub blocked-step :
    (ts others us : List Thread) (i : ℕ)
    → All (IsBlocked ts) ts
    → step i (ts ++ others) ≡ some us
    → (rest : List Thread) × (us ≡ ts ++ rest)
blocked-step ts others us i h e =
    let (t, u, at, went, e2) = step-some (ts ++ others) us i e in
    let (rest, e3) =
      set_elem-append (ts ++ others) ts others i t u (IsBlocked-turns ts others ts h) at went in
    (rest, sym e2 ∙ e3)

-- Threads that block each other stay as they are, whatever the others do.
pub blocked-run_schedule :
    (σ : List ℕ) (ts others us : List Thread)
    → All (IsBlocked ts) ts
    → run_schedule σ (ts ++ others) ≡ some us
    → (rest : List Thread) × (us ≡ ts ++ rest)
unfolding run_schedule
blocked-run_schedule [] ts others us h e = (others, sym (some-injective (ts ++ others) us e))
blocked-run_schedule (i ∷ σ) ts others us h e =
    let (vs, s, r) = bind-some (step i (ts ++ others)) (run_schedule σ) us e in
    let (rest, e2) = blocked-step ts others vs i h s in
    blocked-run_schedule σ ts rest us h (subst (λ x. run_schedule σ x ≡ some us) e2 r)

-- A thread that has done `n` of its acts and holds one mutex.
abbrev pub waiting : ℕ → Bool → Mutex → List Task → Thread
waiting n kept m tasks = record { held = m ∷ []; todo = drop n (each (task_acts kept) tasks) }

module _ (kept : Bool) (r q offer : ℕ) (offers rooms : List ℕ) (files : List (ℕ × List ℕ))
    (empty : Bool) where
  abbrev share_tasks : List Task
  share_tasks = shares r (offer ∷ offers) ∷ []

  abbrev leave_tasks : List Task
  leave_tasks = disconnects r (some files) empty ∷ []

  abbrev ping_tasks : List Task
  ping_tasks = pings (r ∷ rooms) ∷ []

  -- The four threads: one shares a file in a room, one leaves the room, one pings the rooms, that one
  -- first, and one connects somebody to any room.
  abbrev pub meeting : List Thread
  meeting = map (worker kept) (share_tasks ∷ leave_tasks ∷ ping_tasks ∷ (connects q ∷ []) ∷ [])

  abbrev pub stuck : List Thread
  stuck =
      waiting 1 kept (mutex file_by_id_lock r) share_tasks
      ∷ waiting 2 kept (mutex peer_by_id_lock r) leave_tasks
      ∷ waiting 2 kept (mutex rooms_mutex 0) ping_tasks
      ∷ worker kept (connects q ∷ [])
      ∷ []

  stuck-IsBlocked : All (IsBlocked stuck) stuck
  stuck-IsBlocked = (
    lock-IsBlocked stuck (mutex peer_by_id_lock r) _ (ground arith),
    (
      lock-IsBlocked stuck (mutex file_by_id_lock r) _ (ground arith),
      (
        lock-IsBlocked stuck (mutex peer_by_id_lock r) _ (ground arith),
        (lock-IsBlocked stuck (mutex rooms_mutex 0) _ refl, tt),
      ),
    ),
  )

  is_held-workers :
      (m : Mutex) (work : List (List Task)) → is_held m (map (worker kept) work) ≡ false
  is_held-workers m [] = refl
  is_held-workers m (tasks ∷ work) = is_held-workers m work

  meeting-stuck :
      (work : List (List Task))
      → run_schedule (0 ∷ 1 ∷ 1 ∷ 2 ∷ 2 ∷ []) (meeting ++ map (worker kept) work)
        ≡ some (stuck ++ map (worker kept) work)
  unfolding run_schedule step
  meeting-stuck work =
      rw
        (
          is_held-workers (mutex file_by_id_lock r) work,
          is_held-workers (mutex peer_by_id_lock r) work,
          is_held-workers (mutex rooms_mutex 0) work,
        )
        refl

-- A peer that shares a file meets one that leaves the room of it, a round of pings and somebody who
-- connects, while any other threads run any handlers. The first takes the lock of the files, the
-- second that of the peers, the third that of the rooms: the server runs so. From there on, in
-- whatever order the threads take turns, none of the four ever goes on: the file is not shared, the
-- peer does not leave, no round of pings ends and nobody connects any more.
pub share_leave-Stuck :
    (kept : Bool) (r q offer : ℕ) (offers rooms : List ℕ) (files : List (ℕ × List ℕ)) (empty : Bool)
    (work : List (List Task)) (σ : List ℕ) (us : List Thread)
    → run_schedule σ (stuck kept r q offer offers rooms files empty ++ map (worker kept) work)
      ≡ some us
    → (run_schedule
          (0 ∷ 1 ∷ 1 ∷ 2 ∷ 2 ∷ [])
          (meeting kept r q offer offers rooms files empty ++ map (worker kept) work)
        ≡ some (stuck kept r q offer offers rooms files empty ++ map (worker kept) work))
      × ((rest : List Thread) × (us ≡ stuck kept r q offer offers rooms files empty ++ rest))
share_leave-Stuck kept r q offer offers rooms files empty work σ us e = (
  meeting-stuck kept r q offer offers rooms files empty work,
  blocked-run_schedule σ (stuck kept r q offer offers rooms files empty) (map (worker kept) work) us
      (stuck-IsBlocked kept r q offer offers rooms files empty) e,
)
