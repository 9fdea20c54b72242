-- ===== src/Base/Calls.antt =====
-- Programs of calls that change the state of a world and may fail, with their loops: `do` blocks for
-- the sequences of `if err != nil { return err }`, and what it means that such a program succeeds.
pub mod Succeed
use calypso_experiments.Base.Tests.{if◌then◌else◌}
use calypso_experiments.Base.Results.{Result, ok, err, panic, Error}
use Prim.Native.Nat.{ℕ}
use mathlib.Core.Bool.{Bool}
use mathlib.Core.Path.{◌≡◌, refl, ap}
use mathlib.Core.List.{List, [], ◌∷◌}

abbrev pub Call : Type 0 → Type 0 → Type 0
Call W A = W → W × Result A

-- What follows a call: the rest of the program, or its end with the state as it is.
abbrev pub follow : {W A B : Type 0} → (A → Call W B) → W × Result A → W × Result B
follow next (w, ok a) = next a w
follow next (w, err e) = (w, err e)
follow next (w, panic) = (w, panic)

-- Inversion of what followed a call and came to a value.
pub follow-eq-ok :
    {W A B : Type 0} (next : A → Call W B) (x : W × Result A) (w' : W) (b : B)
    → follow next x ≡ (w', ok b)
    → (w : W) × (a : A) × (x ≡ (w, ok a)) × (next a w ≡ (w', ok b))
follow-eq-ok next (w, ok a) w' b h = (w, a, refl, h)
follow-eq-ok next (w, err e) w' b h = absurd (cc)
follow-eq-ok next (w, panic) w' b h = absurd (cc)

pub pair-injective : {A B : Type 0} {x y : A × B} → x ≡ y → (x.0 ≡ y.0) × (x.1 ≡ y.1)
pair-injective h = (ap (λ z. z.0) h, ap (λ z. z.1) h)

infixl 5 ◌>>=◌ ◌>>◌
abbrev pub ◌>>=◌ : {W A B : Type 0} → Call W A → (A → Call W B) → Call W B
◌>>=◌ call next w = follow next (call w)

abbrev pub ◌>>◌ : {W A B : Type 0} → Call W A → Call W B → Call W B
◌>>◌ call next w = follow (λ _. next) (call w)

-- A computation that leaves the world alone.
abbrev pub lift : {W A : Type 0} → Result A → Call W A
lift result w = (w, result)

abbrev pub give : {W A : Type 0} → A → Call W A
give a w = (w, ok a)

-- `if !test { return errors.New(text) }`
abbrev pub demand : {W : Type 0} → Bool → Error → Call W (Unit {0})
demand test text w = (w, if test then ok tt else err text)

-- How long the body of a loop waits: not at all, but for the last element.
abbrev pub wait_before : {A : Type 0} → ℕ → List A → ℕ
wait_before wait [] = wait
wait_before wait (_ ∷ _) = 0

-- A loop over a list that fills another one, and waits at its end.
unfoldable pub each_waiting : {W A B : Type 0} → ℕ → (ℕ → A → Call W B) → List A → Call W (List B)
each_waiting wait body [] = give []
each_waiting wait body (a ∷ rest) = do
  b ← body (wait_before wait rest) a
  bs ← each_waiting wait body rest
  give (b ∷ bs)

-- A loop that does not wait.
unfoldable pub each : {W A B : Type 0} → (A → Call W B) → List A → Call W (List B)
unfolding each_waiting
each body as' = each_waiting 0 (λ wait a. body a) as'

-- Two lists that are filled to the same length, read at the same index.
abbrev pub zip : {A B : Type 0} → List A → List B → List (A × B)
zip [] bs = []
zip (a ∷ rest) [] = []
zip (a ∷ rest) (b ∷ bs) = (a, b) ∷ zip rest bs
