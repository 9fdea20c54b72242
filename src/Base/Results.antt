-- ===== src/Base/Results.antt =====
-- Go's `(value, error)` pairs and panics.
use Prim.Native.String.{String}
use calypso_experiments.Base.Tests.{if◌then◌else◌}
use mathlib.Core.Bool.{Bool, true, false}
use mathlib.Core.Path.{◌≡◌, refl}
use mathlib.Core.Logic.{◌⊎◌, inl, inr}
use mathlib.Core.Option.{Option, none, some}

-- An `error`, by the text of its `Error()` method.
abbrev pub Error : Type 0
Error = String

-- What a function returns that has an `error` result: a value with a nil error, an error, or a
-- panic that unwinds the caller too.
pub data Result {ℓ} (A : Type ℓ) : Type ℓ where
  ok : A → Result A
  err : Error → Result A
  panic : Result A

-- `if err != nil { return …, err }` after a call; a panic goes on, too.
infixl 5 ◌>>=◌
abbrev pub ◌>>=◌ {ℓ κ} : {X : Type ℓ} {Y : Type κ} → Result X → (X → Result Y) → Result Y
panic >>= next = panic
err text >>= next = err text
ok x >>= next = next x

infixl 5 ◌>>◌
abbrev pub ◌>>◌ {κ} : {Y : Type κ} → Result (Unit {0}) → Result Y → Result Y
panic >> next = panic
err text >> next = err text
ok done >> next = next

-- A call whose only result is an `error`.
abbrev pub check : Option Error → Result (Unit {0})
check none = ok tt
check (some e) = err e

-- Inversion of a call that was followed by another and came to a value.
pub >>=-eq-ok {ℓ κ} :
    {X : Type ℓ} {Y : Type κ} (call : Result X) (next : X → Result Y) {y : Y}
    → (call >>= next) ≡ ok y
    → (x : X) × (call ≡ ok x) × (next x ≡ ok y)
>>=-eq-ok panic next h = cc
>>=-eq-ok (err text) next h = cc
>>=-eq-ok (ok x) next h = (x, refl, h)

-- Inversion of a successful guard, and of a successful check.
pub if-eq-ok {ℓ} :
    {A : Type ℓ} (b : Bool) (m : Result A) (e : Error) {a : A}
    → (if b then m else err e) ≡ ok a
    → (b ≡ true) × (m ≡ ok a)
if-eq-ok true m e h = (refl, h)
if-eq-ok false m e h = absurd (cc)

pub check-eq-ok {ℓ} :
    {A : Type ℓ} (o : Option Error) (m : Result A) {a : A}
    → (check o >> m) ≡ ok a
    → (o ≡ none) × (m ≡ ok a)
check-eq-ok none m h = (refl, h)
check-eq-ok (some e) m h = absurd (cc)

pub Result-cases {ℓ} :
    {A : Type ℓ} (m : Result A) → ((a : A) × (m ≡ ok a)) ⊎ ((e : Error) × (m ≡ err e)) ⊎ (m ≡ panic)
Result-cases (ok a) = inl (a, refl)
Result-cases (err e) = inr (inl (e, refl))
Result-cases panic = inr (inr refl)

pub ok-injective {ℓ} : {A : Type ℓ} {a b : A} → ok a ≡ ok b → a ≡ b
ok-injective h = cc
