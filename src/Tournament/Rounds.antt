-- ===== src/Tournament/Rounds.antt =====
-- A run of the simulation is a knock-out tournament on the players themselves, and has one winner.
use calypso_experiments.Base.{
  ℕ, zero, suc, ◌-◌, ◌≤◌, ◌<◌, ◌≡◌, refl, ◌∙◌, ap, List, [], ◌∷◌, ◌++◌, length, get_or, take, drop,
  replicate, arith,
}
use calypso_experiments.Tournament.Marks.{ones, picks, IsAscending, AllBelow}

-- The players `k`, `k + 1` and so on, `n` of them.
unfoldable pub players_from : ℕ → ℕ → List ℕ
players_from k zero = []
players_from k (suc n) = k ∷ players_from (suc k) n

pub length-players_from : (k n : ℕ) → length (players_from k n) ≡ n
unfolding players_from
length-players_from k zero = refl
length-players_from k (suc n) = ap suc (length-players_from (suc k) n)

pub ones-replicate : (k n : ℕ) → ones k (replicate n 1) ≡ players_from k n
unfolding ones players_from
ones-replicate k zero = refl
ones-replicate k (suc n) = ap (λ (l : List ℕ). k ∷ l) (ones-replicate (suc k) n)

-- Players below `n` only.
pub picks-AllBelow :
    (n : ℕ) (os : List ℕ) (i : ℕ) (ws : List ℕ) → 0 < n → AllBelow n os → AllBelow n (picks os i ws)
unfolding picks
picks-AllBelow n os i [] h b = tt
picks-AllBelow n os i (w ∷ ws) h b = (get_or_lt n os (w - i) h b, picks-AllBelow n os i ws h b)
  where
    get_or_lt : (n : ℕ) (os : List ℕ) (j : ℕ) → 0 < n → AllBelow n os → get_or os j 0 < n
    get_or_lt n [] j h b = h
    get_or_lt n (x ∷ os) zero h (lt, b) = lt
    get_or_lt n (x ∷ os) (suc j) h (lt, b) = get_or_lt n os j h b

get_or-take :
    (m : ℕ) (os : List ℕ) (w w' : ℕ) → w' ≡ w → w < m → get_or (take m os) w' 0 ≡ get_or os w 0
get_or-take m os w w' e h = ap (λ (x : ℕ). get_or (take m os) x 0) e ∙ at m os w h
  where
    at : (m : ℕ) (os : List ℕ) (w : ℕ) → w < m → get_or (take m os) w 0 ≡ get_or os w 0
    at zero os w h = absurd (omega arith)
    at (suc m) [] w h = refl
    at (suc m) (x ∷ os) zero h = refl
    at (suc m) (x ∷ os) (suc w) h = at m os w (omega arith)

pub picks-take : (m : ℕ) (os ws : List ℕ) → AllBelow m ws → picks (take m os) 0 ws ≡ picks os 0 ws
unfolding picks
picks-take m os [] b = refl
picks-take m os (w ∷ ws) (lt, b) =
    let same : w - 0 ≡ w = omega arith in
    rw (same, get_or-take m os w w refl lt, picks-take m os ws b)

pub picks-append :
    (os xs ys : List ℕ) (i : ℕ) → picks os i (xs ++ ys) ≡ picks os i xs ++ picks os i ys
unfolding picks
picks-append os [] ys i = refl
picks-append os (x ∷ xs) ys i =
    ap (λ (l : List ℕ). get_or os (x - i) 0 ∷ l) (picks-append os xs ys i)

pub length-picks : (os ws : List ℕ) (i : ℕ) → length (picks os i ws) ≡ length ws
unfolding picks
length-picks os [] i = refl
length-picks os (w ∷ ws) i = ap suc (length-picks os ws i)

pub AllBelow-weaken : (m n : ℕ) (ws : List ℕ) → m ≤ n → AllBelow m ws → AllBelow n ws
AllBelow-weaken m n [] h b = tt
AllBelow-weaken m n (w ∷ ws) h (lt, b) = (omega arith, AllBelow-weaken m n ws h b)

pub AllBelow-append :
    (n : ℕ) (ws : List ℕ) (x : ℕ) → AllBelow n ws → x < n → AllBelow n (ws ++ x ∷ [])
AllBelow-append n [] x b h = (h, tt)
AllBelow-append n (w ∷ ws) x (lt, b) h = (lt, AllBelow-append n ws x b h)

pub IsAscending-append :
    (i n : ℕ) (ws : List ℕ) (x : ℕ)
    → i ≤ x
    → x ≡ n
    → AllBelow n ws
    → IsAscending i ws
    → IsAscending i (ws ++ x ∷ [])
IsAscending-append i n [] x h e b a = (h, tt)
IsAscending-append i n (w ∷ ws) x h e (lt, b) (le, a) =
    (le, IsAscending-append (suc w) n ws x (omega arith) e b a)

pub length-take_le : (n : ℕ) (os : List ℕ) → length (take n os) ≤ length os
length-take_le zero os = omega arith
length-take_le (suc n) [] = omega arith
length-take_le (suc n) (x ∷ os) = omega (arith, length-take_le n os)

pub drop_last : (n : ℕ) (os : List ℕ) → length os ≡ suc n → drop n os ≡ get_or os n 0 ∷ []
drop_last n [] h = absurd (omega arith)
drop_last zero (x ∷ []) h = refl
drop_last zero (x ∷ y ∷ os) h = absurd (omega arith)
drop_last (suc n) (x ∷ os) h = drop_last n os (omega arith)

pub drop_all : (n : ℕ) (os : List ℕ) → length os ≡ n → drop n os ≡ []
drop_all zero [] h = refl
drop_all (suc n) [] h = refl
drop_all zero (x ∷ os) h = absurd (omega arith)
drop_all (suc n) (x ∷ os) h = drop_all n os (omega arith)
