-- ===== src/Base/Exec.antt =====
-- Stateful code that may throw `std::runtime_error`, or leave what C++ defines. What was done to
-- the state before a throw stays done.
use Prim.Native.String.{String}
use mathlib.Core.Path.{◌≡◌, refl, sym, ap, ◌∙◌, fun_ext}
use mathlib.Core.Option.{Option, none, some}
use mathlib.Core.List.{List, [], ◌∷◌, ◌++◌}

-- `undefined`: a null pointer or an empty container was read through.
pub data Outcome {ℓ} (A : Type ℓ) : Type ℓ where
  returns : A → Outcome A
  throws : String → Outcome A
  undefined : Outcome A

abbrev pub Exec {ℓ} : Type ℓ → Type ℓ → Type ℓ
Exec S A = S → Outcome A × S

module _ {ℓ} {S A : Type ℓ} where
  abbrev pub pure : A → Exec S A
  pure a s = (returns a, s)

  abbrev pub throw : String → Exec S A
  throw e s = (throws e, s)

  abbrev pub fault : Exec S A
  fault s = (undefined, s)

  abbrev pub gets : (S → A) → Exec S A
  gets f s = (returns (f s), s)

  -- Read through a pointer that may be null.
  abbrev pub deref : Option A → Exec S A
  deref none = fault
  deref (some a) = pure a

abbrev pub modify {ℓ} : {S : Type ℓ} → (S → S) → Exec S (Unit {ℓ})
modify f s = (returns tt, f s)

abbrev pub continue {ℓ} : {S A B : Type ℓ} → Outcome A × S → (A → Exec S B) → Outcome B × S
continue (returns a, s) f = f a s
continue (throws e, s) f = (throws e, s)
continue (undefined, s) f = (undefined, s)

infixl 5 ◌>>=◌ ◌>>◌
abbrev pub ◌>>=◌ {ℓ} : {S A B : Type ℓ} → Exec S A → (A → Exec S B) → Exec S B
◌>>=◌ m f s = continue (m s) f

abbrev pub ◌>>◌ {ℓ} : {S B : Type ℓ} → Exec S (Unit {ℓ}) → Exec S B → Exec S B
◌>>◌ m k s = continue (m s) (λ _. k)

-- for (a : xs) body(a), ended by the first iteration that does not return
abbrev pub for_each {ℓ} : {S A : Type ℓ} → (A → Exec S (Unit {ℓ})) → List A → Exec S (Unit {ℓ})
for_each body [] s = (returns tt, s)
for_each body (x ∷ xs) s = continue (body x s) (λ _. for_each body xs)

-- The same, collecting what the iterations return.
abbrev pub for_each_collect {ℓ} : {S A B : Type ℓ} → (A → Exec S B) → List A → Exec S (List B)
for_each_collect body [] s = (returns [], s)
for_each_collect body (x ∷ xs) s =
    continue (body x s) (λ b t. continue (for_each_collect body xs t) (λ bs. pure (b ∷ bs)))

-- Bracketing to the right.
pub continue-continue {ℓ} :
    {S A B C : Type ℓ} (r : Outcome A × S) (f : A → Exec S B) (g : B → Exec S C)
    → continue (continue r f) g ≡ continue r (λ a s. continue (f a s) g)
continue-continue (returns a, s) f g = refl
continue-continue (throws e, s) f g = refl
continue-continue (undefined, s) f g = refl

pub three-then {ℓ} :
    {S B : Type ℓ} (a b c : Exec S (Unit {ℓ})) (d : Exec S B) (s : S)
    → (a >> (b >> (c >> d))) s ≡ continue ((a >> (b >> c)) s) (λ _. d)
three-then a b c d s = sym (
    continue-continue (a s) (λ _. b >> c) (λ _. d)
    ∙ ap (continue (a s)) (fun_ext λ _. fun_ext λ t. continue-continue (b t) (λ _. c) (λ _. d)))

-- Two ways to go on that agree on what was returned.
pub continue_cong {ℓ} :
    {S A B : Type ℓ} (x : Outcome A × S) (f g : A → Exec S B)
    → ((a : A) (s : S) → x ≡ (returns a, s) → f a s ≡ g a s)
    → continue x f ≡ continue x g
continue_cong (returns a, s) f g h = h a s refl
continue_cong (throws e, s) f g h = refl
continue_cong (undefined, s) f g h = refl

pub for_each-append {ℓ} :
    {S A : Type ℓ} (body : A → Exec S (Unit {ℓ})) (xs ys : List A) (s : S)
    → for_each body (xs ++ ys) s ≡ continue (for_each body xs s) (λ _. for_each body ys)
for_each-append body [] ys s = refl
for_each-append body (x ∷ xs) ys s =
    continue_cong (body x s) _ _ (λ a t e. for_each-append body xs ys t)
    ∙ sym (continue-continue (body x s) (λ _. for_each body xs) (λ _. for_each body ys))

pub continue_keeps {ℓ κ} :
    {S A B : Type ℓ} {C : Type κ} (f : S → C) (x : Outcome A × S) (g : A → Exec S B)
    → ((a : A) (s : S) → f (g a s).1 ≡ f s)
    → f (continue x g).1 ≡ f x.1
continue_keeps f (returns a, s) g h = h a s
continue_keeps f (throws e, s) g h = refl
continue_keeps f (undefined, s) g h = refl

-- What no iteration changes, the loop does not change, however it ends.
pub for_each_keeps {ℓ κ} :
    {S A : Type ℓ} {C : Type κ} (f : S → C) (body : A → Exec S (Unit {ℓ}))
    → ((a : A) (s : S) → f (body a s).1 ≡ f s)
    → (xs : List A) (s : S) → f (for_each body xs s).1 ≡ f s
for_each_keeps f body h [] s = refl
for_each_keeps f body h (x ∷ xs) s =
    continue_keeps f (body x s) (λ _. for_each body xs) (λ a t. for_each_keeps f body h xs t)
    ∙ h x s

pub deref_keeps {ℓ κ} :
    {S A B : Type ℓ} {C : Type κ} (f : S → C) (o : Option A) (g : A → Exec S B) (s : S)
    → ((a : A) (t : S) → f (g a t).1 ≡ f t)
    → f (continue (deref o s) g).1 ≡ f s
deref_keeps f none g s h = refl
deref_keeps f (some a) g s h = h a s

pub for_each_collect_keeps {ℓ κ} :
    {S A B : Type ℓ} {C : Type κ} (f : S → C) (body : A → Exec S B)
    → ((a : A) (s : S) → f (body a s).1 ≡ f s)
    → (xs : List A) (s : S) → f (for_each_collect body xs s).1 ≡ f s
for_each_collect_keeps f body h [] s = refl
for_each_collect_keeps f body h (x ∷ xs) s =
    continue_keeps f (body x s) _ (λ b t.
      continue_keeps f (for_each_collect body xs t) _ (λ bs u. refl)
      ∙ for_each_collect_keeps f body h xs t)
    ∙ h x s
