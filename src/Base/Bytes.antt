-- ===== src/Base/Bytes.antt =====
-- Byte slices, and `bytes.Compare`.
use calypso_experiments.Base.Tests.{ltb, if◌then◌else◌}
use calypso_experiments.Base.Lists.{All}
use Prim.Native.Nat.{ℕ, ◌<◌}
use mathlib.Core.Path.{◌≡◌, refl}
use mathlib.Core.Logic.{◌↔◌}
use mathlib.Core.Bool.{Bool, true, false}
use mathlib.Core.List.{List, [], ◌∷◌}
use native.Mathlib.Omega.{arith}

-- A `[]byte`. That each number is below 256 is `IsBytes`.
abbrev pub Bytes : Type 0
Bytes = List ℕ

abbrev pub IsBytes : Bytes → Type 0
IsBytes = All (λ b. b < 256)

pub data Sign : Type 0 where
  less equal greater : Sign

-- `bytes.Compare`: lexicographic.
unfoldable pub compare_bytes : Bytes → Bytes → Sign
compare_bytes [] [] = equal
compare_bytes [] (b ∷ bs) = less
compare_bytes (a ∷ as') [] = greater
compare_bytes (a ∷ as') (b ∷ bs) =
    if ltb a b then less else if ltb b a then greater else compare_bytes as' bs

-- `bytes.Compare(a, b) == 0`
unfoldable pub is_equal : Sign → Bool
is_equal equal = true
is_equal _ = false

unfoldable pub eq_bytes : Bytes → Bytes → Bool
unfolding compare_bytes is_equal
eq_bytes a b = is_equal (compare_bytes a b)

pub eq_bytes_refl : (a : Bytes) → eq_bytes a a ≡ true
unfolding eq_bytes
eq_bytes_refl [] = refl
eq_bytes_refl (x ∷ a) = ground (arith, eq_bytes_refl a)

pub eq_of_eq_bytes : (a b : Bytes) → eq_bytes a b ≡ true → a ≡ b
unfolding eq_bytes
eq_of_eq_bytes [] [] h = refl
eq_of_eq_bytes [] (y ∷ b) h = cc
eq_of_eq_bytes (x ∷ a) [] h = cc
eq_of_eq_bytes (x ∷ a) (y ∷ b) h = ground (arith, eq_of_eq_bytes a b)

pub eq_bytes_iff : (a b : Bytes) → (eq_bytes a b ≡ true) ↔ (a ≡ b)
eq_bytes_iff a b = (eq_of_eq_bytes a b, λ e. rw e (eq_bytes_refl b))
