-- ===== src/Workload.antt =====
-- What the simulations share: the files that list the transactions of a run (`readAuxFile`), and slices
-- that are read and written by index.
use calypso_experiments.Base.{
  ℕ, zero, suc, List, [], ◌∷◌, Option, none, some, Result, ok, panic, ◌>>=◌, get_elem?, drop, Bool,
  if◌then◌else◌, ◌==◌, ◌<◌, length, false, arith, ◌≡◌, refl,
}
use calypso_experiments.Base.Calls.{Call}
use calypso_experiments.Base.Bytes.{Bytes}
use calypso_experiments.Crypto.{Crypto}
use calypso_experiments.Util.{Draws}

-- The data of one write, and the random values for its write data and for the read of it.
pub record Item (C : Crypto) : Type 0 where
  pub content : Bytes
  pub draws : Draws C
  pub seed : C.Seed

-- The loop over the lines, as many as the slice has elements: a line that is missing or is no number
-- leaves a 0, and its error is lost.
unfoldable pub numbers : {Line : Type 0} → (Line → Option ℕ) → ℕ → List Line → List ℕ
numbers atoi zero lines = []
numbers atoi (suc n) [] = 0 ∷ numbers atoi n []
numbers atoi (suc n) (line ∷ lines) =
    elim (atoi line) [ none ↦ 0 | some k ↦ k ] ∷ numbers atoi n lines

-- Of fully_centralized: one file. `lines` is what the file has, or why it cannot be opened.
unfoldable pub read_txn_file :
    {Line : Type 0} → (Line → Option ℕ) → ℕ → Result (List Line) → Result (List ℕ)
unfolding numbers
read_txn_file atoi n file = do lines ← file; ok (numbers atoi n lines)

-- Of semi_centralized and of calypso_simulation: the transactions, and how many each block has.
unfoldable pub read_aux_file :
    {Line : Type 0}
    → (Line → Option ℕ)
    → ℕ
    → ℕ
    → Result (List Line)
    → Result (List Line)
    → Result (List ℕ × List ℕ)
unfolding numbers
read_aux_file atoi txns blocks txn_file blk_file = do
  txn_lines ← txn_file
  blk_lines ← blk_file
  ok (numbers atoi txns txn_lines, numbers atoi blocks blk_lines)

-- `l[i] = a`, for an index in the range of the slice.
abbrev pub set_elem {ℓ} : {A : Type ℓ} → List A → ℕ → A → List A
set_elem [] i a = []
set_elem (x ∷ xs) zero a = a ∷ xs
set_elem (x ∷ xs) (suc i) a = x ∷ set_elem xs i a

-- `l[i], err = call()`: the index is checked when the value is assigned, also beside an error.
abbrev pub into : {W A : Type 0} → Bool → Call W A → Call W A
into in_range call w = let (w', r) = call w in (w', if in_range then r else panic)

-- An index out of range panics.
abbrev pub at_index {ℓ} : {A : Type ℓ} → List A → ℕ → Result A
at_index l i = elim (get_elem? l i) [ none ↦ panic | some a ↦ ok a ]

-- An element is at the index from which on the slice starts with it.
module _ {A : Type 0} where
  pub get_elem?-drop :
      (l : List A) (i : ℕ) (a : A) (rest : List A) → drop i l ≡ a ∷ rest → get_elem? l i ≡ some a
  get_elem?-drop [] zero a rest e = absurd (cc)
  get_elem?-drop [] (suc i) a rest e = absurd (cc)
  get_elem?-drop (x ∷ xs) zero a rest e = cc
  get_elem?-drop (x ∷ xs) (suc i) a rest e = get_elem?-drop xs i a rest e

  pub at_index-get_elem? :
      (l : List A) (i : ℕ) (a : A) → get_elem? l i ≡ some a → at_index l i ≡ ok a
  at_index-get_elem? l i a e = rw (e, at_index) refl

  pub drop-set_elem :
      (l : List A) (i : ℕ) (a b : A) (rest : List A)
      → drop i l ≡ a ∷ rest
      → drop (suc i) (set_elem l i b) ≡ rest
  drop-set_elem [] zero a b rest e = absurd (cc)
  drop-set_elem [] (suc i) a b rest e = absurd (cc)
  drop-set_elem (x ∷ xs) zero a b rest e = cc
  drop-set_elem (x ∷ xs) (suc i) a b rest e = drop-set_elem xs i a b rest e

  pub get_elem?-set_elem :
      (l : List A) (i : ℕ) (a b : A) (rest : List A)
      → drop i l ≡ a ∷ rest
      → get_elem? (set_elem l i b) i ≡ some b
  get_elem?-set_elem [] zero a b rest e = absurd (cc)
  get_elem?-set_elem [] (suc i) a b rest e = absurd (cc)
  get_elem?-set_elem (x ∷ xs) zero a b rest e = refl
  get_elem?-set_elem (x ∷ xs) (suc i) a b rest e = get_elem?-set_elem xs i a b rest e

  pub at_index-drop :
      (l : List A) (i : ℕ) (a : A) (rest : List A) → drop i l ≡ a ∷ rest → at_index l i ≡ ok a
  at_index-drop l i a rest e = at_index-get_elem? l i a (get_elem?-drop l i a rest e)

  pub get_elem?-set_elem_same :
      (l : List A) (i : ℕ) (a b : A)
      → get_elem? l i ≡ some a
      → get_elem? (set_elem l i b) i ≡ some b
  get_elem?-set_elem_same [] i a b e = absurd (cc)
  get_elem?-set_elem_same (x ∷ xs) zero a b e = refl
  get_elem?-set_elem_same (x ∷ xs) (suc i) a b e = get_elem?-set_elem_same xs i a b e

  pub get_elem?-set_elem_other :
      (l : List A) (i j : ℕ) (b : A)
      → (j == i) ≡ false
      → get_elem? (set_elem l j b) i ≡ get_elem? l i
  get_elem?-set_elem_other [] i j b e = refl
  get_elem?-set_elem_other (x ∷ xs) zero zero b e = absurd (ground arith)
  get_elem?-set_elem_other (x ∷ xs) zero (suc j) b e = refl
  get_elem?-set_elem_other (x ∷ xs) (suc i) zero b e = refl
  get_elem?-set_elem_other (x ∷ xs) (suc i) (suc j) b e =
      get_elem?-set_elem_other xs i j b (ground arith)

  pub get_elem?_total : (l : List A) (i : ℕ) → i < length l → (a : A) × (get_elem? l i ≡ some a)
  get_elem?_total [] i lt = absurd (omega arith)
  get_elem?_total (x ∷ xs) zero lt = (x, refl)
  get_elem?_total (x ∷ xs) (suc i) lt = get_elem?_total xs i (omega (arith, lt))

  pub get_elem?_lt : (l : List A) (i : ℕ) (a : A) → get_elem? l i ≡ some a → i < length l
  get_elem?_lt [] i a e = absurd (cc)
  get_elem?_lt (x ∷ xs) zero a e = omega arith
  get_elem?_lt (x ∷ xs) (suc i) a e = omega (arith, get_elem?_lt xs i a e)
