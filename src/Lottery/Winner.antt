-- ===== src/Lottery/Winner.antt =====
-- Who wins for given secrets.
use Prim.Native.Nat.{bit_xor, min}
use calypso_experiments.Base.{
  ℕ, zero, suc, ◌%◌, ◌≤◌, ◌<◌, ◌≡◌, refl, sym, ap, ◌∙◌, List, [], ◌∷◌, true, false, ok, ◌>>=◌, ◌==◌,
  ltb, Bool-cases, inl, inr, length, get_or, replicate, All, arith,
}
use native.Mathlib.Nat.{mod-lt, mod-eq_of_lt}
use calypso_experiments.Base.Bits.{bit_xor_comm, bit_xor_assoc, bit_xor-lt}
use calypso_experiments.Base.Bytes.{Bytes, IsBytes}
use calypso_experiments.Xor.Laws.{safe_xor_bytes_lem}
use calypso_experiments.Tournament.Duels.{last_byte_lem}
use calypso_experiments.Lottery.{xor_all, last_digit, winner_of}

abbrev pub IsSecret : Bytes → Type 0
IsSecret secret = length secret ≡ 32

-- The exclusive or of the last bytes.
abbrev pub joined : ℕ → List Bytes → ℕ
joined acc [] = acc
joined acc (secret ∷ secrets) = joined (bit_xor acc (get_or secret 31 0)) secrets

xor_all_lem :
    (result : Bytes) (secrets : List Bytes)
    → length result ≡ 32
    → All IsSecret secrets
    → (r : Bytes) × (xor_all result secrets ≡ ok r)
      × (length r ≡ 32)
      × (get_or r 31 0 ≡ joined (get_or result 31 0) secrets)
unfolding xor_all
xor_all_lem result [] len h = (result, refl, len, refl)
xor_all_lem result (secret ∷ secrets) len (this, h) =
    let (r, e, kept, bytes) = safe_xor_bytes_lem result result secret (omega arith) in
    let (r', e', len', last) = xor_all_lem r secrets (omega arith) h in
    let short : ltb 31 (min (length result) (length secret)) ≡ true = ground arith in
    let here : get_or r 31 0 ≡ bit_xor (get_or result 31 0) (get_or secret 31 0) =
      bytes 31 ∙ (rw short refl) in
    (r', rw (e, e') refl, len', last ∙ ap (λ (x : ℕ). joined x secrets) here)

-- With secrets of 32 bytes the last byte is the exclusive or of their last bytes.
pub last_digit_lem :
    (secrets : List Bytes) → All IsSecret secrets → last_digit secrets ≡ ok (joined 0 secrets)
unfolding last_digit
last_digit_lem secrets h =
    let (r, e, len, last) = xor_all_lem (replicate 32 0) secrets refl h in
    rw (e, last_byte_lem (λ b. b) r len) (ap ok last)

-- Two orders of the same secrets.
pub data IsReordered : List Bytes → List Bytes → Type 0 where
  same : (l : List Bytes) → IsReordered l l
  keep : (x : Bytes) (l m : List Bytes) → IsReordered l m → IsReordered (x ∷ l) (x ∷ m)
  swap : (x y : Bytes) (l : List Bytes) → IsReordered (x ∷ y ∷ l) (y ∷ x ∷ l)
  trans : (l m n : List Bytes) → IsReordered l m → IsReordered m n → IsReordered l n

joined-IsReordered : (l m : List Bytes) → IsReordered l m → (acc : ℕ) → joined acc l ≡ joined acc m
joined-IsReordered l m (same _) acc = refl
joined-IsReordered l m (keep x l' m' r) acc =
    joined-IsReordered l' m' r (bit_xor acc (get_or x 31 0))
joined-IsReordered l m (swap x y l') acc =
    let a = get_or x 31 0 in
    let b = get_or y 31 0 in
    ap (λ (n : ℕ). joined n l')
      (bit_xor_assoc acc a b ∙ ap (bit_xor acc) (bit_xor_comm a b) ∙ sym (bit_xor_assoc acc b a))
joined-IsReordered l m (trans _ k _ r r') acc =
    joined-IsReordered l k r acc ∙ joined-IsReordered k m r' acc

All-IsReordered : (l m : List Bytes) → IsReordered l m → All IsSecret l → All IsSecret m
All-IsReordered l m (same _) h = h
All-IsReordered l m (keep x l' m' r) (this, h) = (this, All-IsReordered l' m' r h)
All-IsReordered l m (swap x y l') (h, (h', rest)) = (h', (h, rest))
All-IsReordered l m (trans _ k _ r r') h = All-IsReordered k m r' (All-IsReordered l k r h)

-- The order in which secrets of 32 bytes are joined does not change the last byte.
pub last_digit-IsReordered :
    (l m : List Bytes) → IsReordered l m → All IsSecret l → last_digit l ≡ last_digit m
last_digit-IsReordered l m r h =
    last_digit_lem l h
    ∙ ap ok (joined-IsReordered l m r 0)
    ∙ sym (last_digit_lem m (All-IsReordered l m r h))

joined-lt :
    (acc : ℕ) (secrets : List Bytes) → acc < 256 → All IsBytes secrets → joined acc secrets < 256
joined-lt acc [] h b = h
joined-lt acc (secret ∷ secrets) h (this, b) =
    joined-lt (bit_xor acc (get_or secret 31 0)) secrets
      (bit_xor-lt 8 acc (get_or secret 31 0) h (get_or_lt secret 31 this)) b
  where
    get_or_lt : (l : Bytes) (i : ℕ) → IsBytes l → get_or l i 0 < 256
    get_or_lt [] i h = omega arith
    get_or_lt (x ∷ l) zero (h, _) = h
    get_or_lt (x ∷ l) (suc i) (_, h) = get_or_lt l i h

-- With secrets of 32 bytes and at least one participant the winner is the last byte modulo the number
-- of participants, and it is below 256, however many they are.
pub winner_of_lem :
    (secrets : List Bytes) (n : ℕ)
    → All IsSecret secrets
    → All IsBytes secrets
    → 1 ≤ n
    → (w : ℕ) × ((last_digit secrets >>= λ digit. winner_of digit n) ≡ ok w)
      × (w ≡ joined 0 secrets % n)
      × (w < n)
      × (w < 256)
unfolding winner_of
winner_of_lem secrets n h b some_one =
    let d = joined 0 secrets in
    let lt : d < 256 = joined-lt 0 secrets (omega arith) b in
    let test : (n == 0) ≡ false = ground arith in
    let left : d % n < n = mod-lt d some_one in
    (d % n, rw (last_digit_lem secrets h, test) refl, refl, left, below d n lt left)
  where
    -- The remainder is the number itself, or is less than the divisor, which is not above it.
    below : (d n : ℕ) → d < 256 → d % n < n → d % n < 256
    below d n h left = elim (Bool-cases (ltb d n)) [
      | inl less ↦ let e : d % n ≡ d = mod-eq_of_lt (ground arith) in omega arith
      | inr more ↦ let ge : n ≤ d = ground arith in omega arith
    ]
