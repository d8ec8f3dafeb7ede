-- ===== src/Locks/Guarded.antt =====
-- Accesses under their mutexes, for server/src/rooms.
use canchat.Base.{
  arith, true, some, List, [], ◌∷◌, ◌++◌, All, ◌≡◌, sym, subst, append_assoc, append-nil,
}
use mathlib.Core.Option.{none-ne-some, some-injective}
use canchat.Base.Options.{withheld-some}
use canchat.Locks.{Mutex, Act, lock, unlock, access, peek, Thread, act, is_held, is_member, tail}
use canchat.Locks.Methods.{guarded, single, each}

-- Each access comes while its mutex is held.
abbrev pub IsGuarded : List Mutex → List Act → Type 0
IsGuarded held [] = Unit
IsGuarded held (lock m ∷ todo) = IsGuarded (m ∷ held) todo
IsGuarded held (unlock ∷ todo) = IsGuarded (tail held) todo
IsGuarded held (access m ∷ todo) = (is_member m held ≡ true) × IsGuarded held todo
IsGuarded held (peek m ∷ todo) = IsGuarded held todo

abbrev pub IsGuardedThread : Thread → Type 0
IsGuardedThread t = IsGuarded t.held t.todo

abbrev Holds : List Mutex → List Mutex → Type 0
Holds held = All (λ m. is_member m held ≡ true)

-- Acts that are guarded where the mutexes `ms` are held.
abbrev pub Guards : List Mutex → List Act → Type 0
Guards ms acts =
    (held : List Mutex) (todo : List Act)
    → Holds held ms
    → IsGuarded held todo
    → IsGuarded held (acts ++ todo)

Holds-cons : (m : Mutex) (held ms : List Mutex) → Holds held ms → Holds (m ∷ held) ms
Holds-cons m held [] h = tt
Holds-cons m held (k ∷ ms) h = (ground (arith, h.0), Holds-cons m held ms h.1)

is_member_self : (m : Mutex) (held : List Mutex) → is_member m (m ∷ held) ≡ true
is_member_self m held = ground arith

pub Guards-nil : (ms : List Mutex) → Guards ms []
Guards-nil ms held todo all h = h

pub Guards-append :
    (ms : List Mutex) (xs ys : List Act) → Guards ms xs → Guards ms ys → Guards ms (xs ++ ys)
Guards-append ms xs ys p q held todo all h =
    subst (IsGuarded held) (sym (append_assoc xs ys todo))
      (p held (ys ++ todo) all (q held todo all h))

pub Guards-guarded :
    (ms : List Mutex) (m : Mutex) (body : List Act)
    → Guards (m ∷ ms) body
    → Guards ms (guarded m body)
Guards-guarded ms m body p held todo all h =
    subst (IsGuarded (m ∷ held)) (sym (append_assoc body (unlock ∷ []) todo))
      (p (m ∷ held) (unlock ∷ todo) (is_member_self m held, Holds-cons m held ms all) h)

-- An access, with what comes after it.
pub Guards-access :
    (m : Mutex) (ms : List Mutex) (acts : List Act)
    → Guards (m ∷ ms) acts
    → Guards (m ∷ ms) (access m ∷ acts)
Guards-access m ms acts p held todo all h = (all.0, p held todo all h)

-- An access, after what comes before it.
pub Guards-accessed :
    (m : Mutex) (ms : List Mutex) (acts : List Act)
    → Guards (m ∷ ms) acts
    → Guards (m ∷ ms) (acts ++ access m ∷ [])
Guards-accessed m ms acts p =
    Guards-append (m ∷ ms) acts (access m ∷ []) p (Guards-access m ms [] (Guards-nil (m ∷ ms)))

pub Guards-single : (ms : List Mutex) (m : Mutex) → Guards ms (single m)
Guards-single ms m =
    Guards-guarded ms m (access m ∷ []) (Guards-access m ms [] (Guards-nil (m ∷ ms)))

pub Guards-each {ℓ} :
    {A : Type ℓ} (ms : List Mutex) (body : A → List Act) (xs : List A)
    → ((x : A) → Guards ms (body x))
    → Guards ms (each body xs)
Guards-each ms body [] p = Guards-nil ms
Guards-each ms body (x ∷ xs) p =
    Guards-append ms (body x) (each body xs) (p x) (Guards-each ms body xs p)

pub Guards-IsGuarded : (acts : List Act) → Guards [] acts → IsGuarded [] acts
Guards-IsGuarded acts p = subst (IsGuarded []) (append-nil acts) (p [] [] tt tt)

pub act-IsGuardedThread :
    (ts : List Thread) (held : List Mutex) (todo : List Act) (u : Thread)
    → act ts held todo ≡ some u
    → IsGuarded held todo
    → IsGuardedThread u
act-IsGuardedThread ts held [] u e h = absurd (none-ne-some u e)
act-IsGuardedThread ts held (lock m ∷ todo) u e h =
    subst IsGuardedThread
      (withheld-some (is_held m ts) (record { held = m ∷ held; todo = todo }) u e).1 h
act-IsGuardedThread ts held (unlock ∷ todo) u e h =
    subst IsGuardedThread (some-injective (record { held = tail held; todo = todo }) u e) h
act-IsGuardedThread ts held (access m ∷ todo) u e h =
    subst IsGuardedThread (some-injective (record { held = held; todo = todo }) u e) h.1
act-IsGuardedThread ts held (peek m ∷ todo) u e h =
    subst IsGuardedThread (some-injective (record { held = held; todo = todo }) u e) h
