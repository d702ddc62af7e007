-- ===== src/Prelude/Outcomes.antt =====
-- What a Go call does: it returns, it waits for ever on a channel, or it panics.
use mathlib.Core.Path.{◌≡◌, refl}
use mathlib.Core.Logic.{◌⊎◌, inl, inr}

pub data Outcome {ℓ} (A : Type ℓ) : Type ℓ where
  done : A → Outcome A
  blocked : Outcome A
  panicked : Outcome A

infixl 5 ◌>>=◌
abbrev pub ◌>>=◌ {ℓ κ} : {A : Type ℓ} {B : Type κ} → Outcome A → (A → Outcome B) → Outcome B
done a >>= f = f a
blocked >>= f = blocked
panicked >>= f = panicked

pub >>=-eq-done {ℓ κ} :
    {A : Type ℓ} {B : Type κ} (m : Outcome A) (f : A → Outcome B) {b : B}
    → (m >>= f) ≡ done b
    → (a : A) × (m ≡ done a) × (f a ≡ done b)
>>=-eq-done (done a) f h = (a, refl, h)
>>=-eq-done blocked f h = cc
>>=-eq-done panicked f h = cc

-- A result with an error that may be nil.
pub data Checked (E A : Type 0) : Type 0 where
  accepted : A → Checked E A
  refused : E → Checked E A

abbrev pub and_then : {E A B : Type 0} → Checked E A → (A → Checked E B) → Checked E B
and_then (accepted a) f = f a
and_then (refused err) f = refused err

pub Checked-cases :
    {E A : Type 0} (c : Checked E A)
    → ((a : A) × (c ≡ accepted a)) ⊎ ((err : E) × (c ≡ refused err))
Checked-cases (accepted a) = inl (a, refl)
Checked-cases (refused err) = inr (err, refl)
