-- ===== src/Xor/Laws.antt =====
-- When the loop ends, and what it leaves.
use Prim.Native.Nat.{bit_xor, min}
use calypso_experiments.Base.{
  ℕ, zero, suc, ◌<◌, ◌≤◌, ◌≡◌, refl, ap, [], ◌∷◌, ok, panic, length, get_or, arith, ltb,
  if◌then◌else◌,
}
use calypso_experiments.Base.Bytes.{Bytes}
use calypso_experiments.Xor.{xor_into, safe_xor_bytes}

-- The bytes of `a` and `b` joined one by one, and behind them what `dst` held there.
pub xor_bytes : Bytes → Bytes → Bytes → Bytes
xor_bytes dst [] b = dst
xor_bytes dst (x ∷ a) [] = dst
xor_bytes [] (x ∷ a) (y ∷ b) = []
xor_bytes (d ∷ dst) (x ∷ a) (y ∷ b) = bit_xor x y ∷ xor_bytes dst a b

xor_into-enough :
    (dst a b : Bytes)
    → min (length a) (length b) ≤ length dst
    → xor_into dst a b ≡ ok (xor_bytes dst a b)
unfolding xor_into xor_bytes
xor_into-enough dst [] b h = refl
xor_into-enough dst (x ∷ a) [] h = refl
xor_into-enough [] (x ∷ a) (y ∷ b) h = absurd (omega arith)
xor_into-enough (d ∷ dst) (x ∷ a) (y ∷ b) h = rw (xor_into-enough dst a b (omega arith))

get_or-xor_bytes :
    (dst a b : Bytes) (i : ℕ)
    → i < min (length a) (length b)
    → min (length a) (length b) ≤ length dst
    → get_or (xor_bytes dst a b) i 0 ≡ bit_xor (get_or a i 0) (get_or b i 0)
unfolding xor_bytes
get_or-xor_bytes dst [] b i h k = absurd (omega arith)
get_or-xor_bytes dst (x ∷ a) [] i h k = absurd (omega arith)
get_or-xor_bytes [] (x ∷ a) (y ∷ b) i h k = absurd (omega arith)
get_or-xor_bytes (d ∷ dst) (x ∷ a) (y ∷ b) zero h k = refl
get_or-xor_bytes (d ∷ dst) (x ∷ a) (y ∷ b) (suc i) h k =
    get_or-xor_bytes dst a b i (omega arith) (omega arith)

get_or-xor_bytes_kept :
    (dst a b : Bytes) (i : ℕ)
    → min (length a) (length b) ≤ i
    → min (length a) (length b) ≤ length dst
    → get_or (xor_bytes dst a b) i 0 ≡ get_or dst i 0
unfolding xor_bytes
get_or-xor_bytes_kept dst [] b i h k = refl
get_or-xor_bytes_kept dst (x ∷ a) [] i h k = refl
get_or-xor_bytes_kept [] (x ∷ a) (y ∷ b) i h k = absurd (omega arith)
get_or-xor_bytes_kept (d ∷ dst) (x ∷ a) (y ∷ b) zero h k = absurd (omega arith)
get_or-xor_bytes_kept (d ∷ dst) (x ∷ a) (y ∷ b) (suc i) h k =
    get_or-xor_bytes_kept dst a b i (omega arith) (omega arith)

length-xor_bytes :
    (dst a b : Bytes)
    → min (length a) (length b) ≤ length dst
    → length (xor_bytes dst a b) ≡ length dst
unfolding xor_bytes
length-xor_bytes dst [] b h = refl
length-xor_bytes dst (x ∷ a) [] h = refl
length-xor_bytes [] (x ∷ a) (y ∷ b) h = refl
length-xor_bytes (d ∷ dst) (x ∷ a) (y ∷ b) h = ap suc (length-xor_bytes dst a b (omega arith))

-- If the destination is as long as the shorter of the two inputs, the call returns that length; it
-- leaves the length of the destination, writes at each index below the shorter length the exclusive
-- or of the bytes there, and keeps every byte from there on.
pub safe_xor_bytes_lem :
    (dst a b : Bytes)
    → min (length a) (length b) ≤ length dst
    → (r : Bytes) × (safe_xor_bytes dst a b ≡ ok (min (length a) (length b), r))
      × (length r ≡ length dst)
      × ((i : ℕ)
          → get_or r i 0 ≡ (
              if ltb i (min (length a) (length b))
              then bit_xor (get_or a i 0) (get_or b i 0)
              else get_or dst i 0))
unfolding safe_xor_bytes
safe_xor_bytes_lem dst a b h = (
  xor_bytes dst a b,
  rw (xor_into-enough dst a b h) (ap (λ (n : ℕ). ok (n, xor_bytes dst a b)) (ground arith)),
  length-xor_bytes dst a b h,
  λ i. ground (arith, get_or-xor_bytes dst a b i, get_or-xor_bytes_kept dst a b i),
)

-- A destination that is shorter than both inputs makes the call panic.
pub safe_xor_bytes_short :
    (dst a b : Bytes) → length dst < min (length a) (length b) → safe_xor_bytes dst a b ≡ panic
unfolding safe_xor_bytes
safe_xor_bytes_short dst a b h = rw (xor_into_short dst a b h)
  where
    xor_into_short :
        (dst a b : Bytes) → length dst < min (length a) (length b) → xor_into dst a b ≡ panic
    xor_into_short dst [] b h = absurd (omega arith)
    xor_into_short dst (x ∷ a) [] h = absurd (omega arith)
    xor_into_short [] (x ∷ a) (y ∷ b) h = refl
    xor_into_short (d ∷ dst) (x ∷ a) (y ∷ b) h = rw (xor_into_short dst a b (omega arith))
