-- ===== src/File/Waiting.antt =====
-- Waiting for a chunk: `waitForChunkAsync` of server/src/rooms/File.cpp and the listener of the wait
-- list in server/src/rooms/File.hpp. The list is oatpp's. It keeps the coroutine whose action names
-- it, then tells its listener, then waits for `notifyAll`, after which the coroutine acts again.
use canchat.Base.{
  inl, inr, Option-cases, arith, ℕ, Bool, true, false, not, ◌||◌, none, some, present,
  if◌then◌else◌, ◌≡◌,
}
use canchat.Base.Exec.{Outcome, returns, pure, modify, ◌>>=◌}
use canchat.World.{World, Action, Bytes, Subscriber, load_subscriber, store_subscriber}
use canchat.File.{ReadResult, retry_read, take_chunk, read_chunk, invalidate}

-- What `WaitCoroutine::act` returns.
pub data WaitAction : Type 0 where
  finish : WaitAction
  wait_list_action : WaitAction

abbrev is_ready : Subscriber → Bool
is_ready sub = present sub.chunk || not sub.valid

-- WaitCoroutine::act
unfoldable pub wait_act : ℕ → Action WaitAction
wait_act s = do sub ← load_subscriber s; if is_ready sub then pure finish else pure wait_list_action

-- WaitListListener::onNewItem
unfoldable pub on_new_item : ℕ → Action Unit
on_new_item s = do
  sub ← load_subscriber s
  if is_ready sub then modify (store_subscriber s (record sub { waiting = false })) else pure tt

-- Where the coroutine of a download stands: it reads, it is about to run `act`, its action names the
-- list, it is on the list and the listener was not told, or was told.
pub data Phase : Type 0 where
  reading : Phase
  checking : Phase
  parking : Phase
  parked : Phase
  settled : Phase

abbrev pub phase_read : Outcome ReadResult → Phase
phase_read (returns retry_read) = checking
phase_read _ = reading

abbrev pub phase_act : Outcome WaitAction → Phase
phase_act (returns wait_list_action) = parking
phase_act _ = reading

-- The host's chunks and the room's clearing come between any two steps of the coroutine.
pub data Step (s : ℕ) : Phase → World → Phase → World → Type 0 where
  reads :
      (count : ℕ) (w : World)
      → Step s reading w (phase_read (read_chunk s count w).0) (read_chunk s count w).1
  acts : (w : World) → Step s checking w (phase_act (wait_act s w).0) (wait_act s w).1
  listed :
      (w : World) (sub : Subscriber)
      → w.subscriber_heap.cell s ≡ some sub
      → Step s parking w parked (store_subscriber s (record sub { waiting = true }) w)
  told : (w : World) → Step s parked w settled (on_new_item s w).1
  resumed :
      (w : World) (sub : Subscriber)
      → w.subscriber_heap.cell s ≡ some sub
      → sub.waiting ≡ false
      → Step s settled w checking w
  provided : (bytes : Bytes) (i : Phase) (w : World) → Step s i w i (take_chunk s bytes w).1
  cleared : (i : Phase) (w : World) → Step s i w i (invalidate s w).1

pub data Run (s : ℕ) (w : World) : Phase → World → Type 0 where
  start : Run s w reading w
  next : {i j : Phase} {u v : World} → Run s w i u → Step s i u j v → Run s w j v

-- A coroutine that the listener left on the list has nothing to wake up for.
Quiet : Phase → Subscriber → Type 0
Quiet settled sub = sub.waiting ≡ true → (sub.chunk ≡ none) × (sub.valid ≡ true)
Quiet _ sub = Unit

QuietAt : ℕ → Phase → World → Type 0
QuietAt s i w = (sub : Subscriber) → w.subscriber_heap.cell s ≡ some sub → Quiet i sub

module _ (s : ℕ) where
  told-QuietAt : (w : World) → QuietAt s settled (on_new_item s w).1
  unfolding on_new_item QuietAt Quiet
  told-QuietAt w sub e waits = ground arith

  provided-QuietAt :
      (bytes : Bytes) (i : Phase) (w : World) → QuietAt s i w → QuietAt s i (take_chunk s bytes w).1
  unfolding take_chunk QuietAt Quiet
  provided-QuietAt bytes settled w q sub e = λ waits.
      elim (Option-cases (w.subscriber_heap.cell s)) [
        | inl n ↦ ground (arith, n)
        | inr (old, at) ↦ ground (arith, q old at)
      ]
  provided-QuietAt bytes _ w q sub e = tt

  cleared-QuietAt : (i : Phase) (w : World) → QuietAt s i w → QuietAt s i (invalidate s w).1
  unfolding invalidate QuietAt Quiet
  cleared-QuietAt settled w q sub e = λ waits. elim (Option-cases (w.subscriber_heap.cell s)) [
    | inl n ↦ ground (arith, n)
    | inr (old, at) ↦ ground (arith, q old at)
  ]
  cleared-QuietAt _ w q sub e = tt

  read-Quiet : (o : Outcome ReadResult) (sub : Subscriber) → Quiet (phase_read o) sub
  unfolding Quiet
  read-Quiet (returns retry_read) sub = tt
  read-Quiet _ sub = tt

  act-Quiet : (o : Outcome WaitAction) (sub : Subscriber) → Quiet (phase_act o) sub
  unfolding Quiet
  act-Quiet (returns wait_list_action) sub = tt
  act-Quiet _ sub = tt

  step-QuietAt :
      {i : Phase} {u : World} {j : Phase} {v : World}
      → Step s i u j v
      → QuietAt s i u
      → QuietAt s j v
  unfolding QuietAt
  step-QuietAt (reads count w) q sub e = read-Quiet (read_chunk s count w).0 sub
  step-QuietAt (acts w) q sub e = act-Quiet (wait_act s w).0 sub
  step-QuietAt (listed w old at) q sub e = unfold Quiet in tt
  step-QuietAt (told w) q sub e = told-QuietAt w sub e
  step-QuietAt (resumed w old at n) q sub e = unfold Quiet in tt
  step-QuietAt (provided bytes i w) q sub e = provided-QuietAt bytes i w q sub e
  step-QuietAt (cleared i w) q sub e = cleared-QuietAt i w q sub e

  run-QuietAt : {w : World} {i : Phase} {v : World} → Run s w i v → QuietAt s i v
  unfolding QuietAt
  run-QuietAt start sub e = unfold Quiet in tt
  run-QuietAt (next r t) sub e = step-QuietAt t (run-QuietAt r) sub e

-- No wake-up is lost, in whatever order the chunks and the clearing come between the steps of the
-- coroutine, also between its decision to wait and its place on the list: wherever the listener was
-- told and the subscriber has a chunk or is no longer valid, the coroutine is off the list, and the
-- act that it resumes with finishes.
pub no_lost_wakeup :
    (s : ℕ) {w v : World} (sub : Subscriber)
    → Run s w settled v
    → v.subscriber_heap.cell s ≡ some sub
    → is_ready sub ≡ true
    → (sub.waiting ≡ false) × (wait_act s v ≡ (returns finish, v))
unfolding wait_act QuietAt Quiet
no_lost_wakeup s sub r e ready = ground (arith, run-QuietAt s r sub e)
