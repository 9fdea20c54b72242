-- ===== src/Tournament/Marks.antt =====
-- The list of participants as a list of surviving players: `OrganizeList` leaves, in front, the marks
-- of exactly the winners. Marks behind the last winner stay, and no later round reads them.
use calypso_experiments.Base.{
  ℕ, suc, ◌+◌, ◌-◌, ◌≤◌, ◌<◌, ◌≡◌, ◌≢◌, refl, sym, ◌∙◌, ap, List, [], ◌∷◌, ◌==◌, if◌then◌else◌,
  length, get_or, take, arith,
}
use mathlib.Core.Path.{subst}
use native.Mathlib.Decide.{ℕ_discrete}
use calypso_experiments.Tournament.{organize_from, organize_list}

-- The indices of the marks, from `k` on.
unfoldable pub ones : ℕ → List ℕ → List ℕ
ones k [] = []
ones k (v ∷ ps) = let rest = ones (suc k) ps in if v == 1 then k ∷ rest else rest

abbrev pub IsAscending : ℕ → List ℕ → Type 0
IsAscending n [] = Unit
IsAscending n (w ∷ ws) = (n ≤ w) × IsAscending (suc w) ws

abbrev pub AllBelow : ℕ → List ℕ → Type 0
AllBelow n [] = Unit
AllBelow n (w ∷ ws) = (w < n) × AllBelow n ws

-- The players of `os` at the places `ws`, counted from `found`.
unfoldable pub picks : List ℕ → ℕ → List ℕ → List ℕ
picks os found [] = []
picks os found (w ∷ ws) = get_or os (w - found) 0 ∷ picks os found ws

pub IsAscending-weaken : (m n : ℕ) (ws : List ℕ) → n ≤ m → IsAscending m ws → IsAscending n ws
IsAscending-weaken m n [] h a = tt
IsAscending-weaken m n (w ∷ ws) h (le, a) = (omega arith, a)

pub picks-suc :
    (k : ℕ) (os : List ℕ) (found : ℕ) (ws : List ℕ)
    → IsAscending (suc found) ws
    → picks (k ∷ os) found ws ≡ picks os (suc found) ws
unfolding picks
picks-suc k os found [] a = refl
picks-suc k os found (w ∷ ws) (le, a) =
    let e : w - found ≡ suc (w - suc found) = omega arith in
    rw (e, picks-suc k os found ws (IsAscending-weaken (suc w) (suc found) ws (omega arith) a))

pub picks-here :
    (k : ℕ) (os : List ℕ) (found w : ℕ) (ws : List ℕ)
    → found ≡ w
    → picks (k ∷ os) found (w ∷ ws) ≡ k ∷ picks (k ∷ os) found ws
unfolding picks
picks-here k os found w ws e = let gap : w - found ≡ 0 = omega arith in rw gap

pub ones_hit : (k v : ℕ) (ps : List ℕ) → v ≡ 1 → ones k (v ∷ ps) ≡ k ∷ ones (suc k) ps
unfolding ones
ones_hit k v ps e = rw e

pub ones_miss : (k v : ℕ) (ps : List ℕ) → v ≢ 1 → ones k (v ∷ ps) ≡ ones (suc k) ps
unfolding ones
ones_miss k v ps e = ground arith

module _ (found v w : ℕ) (ps ws : List ℕ) where
  organize_from_miss :
      v ≢ 1 → organize_from found (v ∷ ps) (w ∷ ws) ≡ v ∷ organize_from found ps (w ∷ ws)
  unfolding organize_from
  organize_from_miss e = ground arith

  organize_from_here :
      v ≡ 1
      → found ≡ w
      → organize_from found (v ∷ ps) (w ∷ ws) ≡ 1 ∷ organize_from (suc found) ps ws
  unfolding organize_from
  organize_from_here e f = ground arith

  organize_from_later :
      v ≡ 1
      → found < w
      → organize_from found (v ∷ ps) (w ∷ ws) ≡ 0 ∷ organize_from (suc found) ps (w ∷ ws)
  unfolding organize_from
  organize_from_later e f = ground arith

AllBelow-same : (m n : ℕ) (ws : List ℕ) → m ≡ n → AllBelow m ws → AllBelow n ws
AllBelow-same m n ws e b = subst (λ (x : ℕ). AllBelow x ws) e b

abbrev Organizes : ℕ → ℕ → List ℕ → List ℕ → Type 0
Organizes k found ps ws =
    take (length ws) (ones k (organize_from found ps ws)) ≡ picks (ones k ps) found ws

Organizes-miss :
    (k found v w : ℕ) (ps ws : List ℕ)
    → v ≢ 1
    → Organizes (suc k) found ps (w ∷ ws)
    → Organizes k found (v ∷ ps) (w ∷ ws)
Organizes-miss k found v w ps ws e ih =
    rw (organize_from_miss found v w ps ws e, ones_miss k v ps e, ones_miss k v _ e) ih

Organizes-here :
    (k found v w : ℕ) (ps ws : List ℕ)
    → v ≡ 1
    → found ≡ w
    → IsAscending (suc found) ws
    → Organizes (suc k) (suc found) ps ws
    → Organizes k found (v ∷ ps) (w ∷ ws)
Organizes-here k found v w ps ws e f a ih =
    rw
      (
        organize_from_here found v w ps ws e f,
        ones_hit k 1 _ refl,
        ones_hit k v ps e,
        picks-here k (ones (suc k) ps) found w ws f,
      )
      (ap (λ (l : List ℕ). k ∷ l) (ih ∙ sym (picks-suc k (ones (suc k) ps) found ws a)))

Organizes-later :
    (k found v w : ℕ) (ps ws : List ℕ)
    → v ≡ 1
    → found < w
    → IsAscending (suc found) (w ∷ ws)
    → Organizes (suc k) (suc found) ps (w ∷ ws)
    → Organizes k found (v ∷ ps) (w ∷ ws)
Organizes-later k found v w ps ws e f a ih =
    rw (organize_from_later found v w ps ws e f, ones_hit k v ps e, ones_miss k 0 _ (omega arith))
      (ih ∙ sym (picks-suc k (ones (suc k) ps) found (w ∷ ws) a))

take-ones-organize_from :
    (k found : ℕ) (ps ws : List ℕ)
    → IsAscending found ws
    → AllBelow (found + length (ones k ps)) ws
    → Organizes k found ps ws
unfolding ones picks
take-ones-organize_from k found ps [] a b = refl
take-ones-organize_from k found [] (w ∷ ws) (le, a) (lt, b) = absurd (omega arith)
take-ones-organize_from k found (v ∷ ps) (w ∷ ws) (le, a) (lt, b) = elim (ℕ_discrete v 1) [
  | no miss ↦ Organizes-miss k found v w ps ws miss (
      take-ones-organize_from (suc k) found ps (w ∷ ws) (le, a)
        (AllBelow-same _ _ (w ∷ ws) (ap (λ (l : List ℕ). found + length l) (ones_miss k v ps miss))
          (lt, b)))
  | yes hit ↦
      let step : found + length (ones k (v ∷ ps)) ≡ suc found + length (ones (suc k) ps) =
        omega (arith, ap (λ (l : List ℕ). length l) (ones_hit k v ps hit)) in
      elim (ℕ_discrete found w) [
        | yes here ↦
            let a' : IsAscending (suc found) ws =
              IsAscending-weaken (suc w) (suc found) ws (omega arith) a in
            Organizes-here k found v w ps ws hit here a'
              (take-ones-organize_from (suc k) (suc found) ps ws a' (AllBelow-same _ _ ws step b))
        | no later ↦
            Organizes-later k found v w ps ws hit (omega arith) (omega arith, a)
              (take-ones-organize_from (suc k) (suc found) ps (w ∷ ws) (omega arith, a)
                (AllBelow-same _ _ (w ∷ ws) step (lt, b)))
      ]
]

-- With the winners of a round in ascending order, each one of the players that are marked, the marks in
-- front afterwards are those of the winners, in that order.
pub take-ones-organize_list :
    (ps ws : List ℕ)
    → IsAscending 0 ws
    → AllBelow (length (ones 0 ps)) ws
    → take (length ws) (ones 0 (organize_list ps ws)) ≡ picks (ones 0 ps) 0 ws
unfolding organize_list
take-ones-organize_list ps ws a b =
    take-ones-organize_from 0 0 ps ws a (AllBelow-same _ _ ws (omega arith) b)
