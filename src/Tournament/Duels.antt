-- ===== src/Tournament/Duels.antt =====
-- Who wins a duel, and a round of duels.
use calypso_experiments.Base.{
  ℕ, zero, suc, ◌+◌, ◌-◌, ◌%◌, ◌≤◌, ◌<◌, ◌≡◌, refl, sym, ◌∙◌, ap, List, [], ◌∷◌, ◌++◌, Bool, true,
  false, not, some, ok, ◌==◌, if◌then◌else◌, length, get_elem?, get_or, drop, replicate, All, arith,
}
use mathlib.Core.Path.{subst, ap₂}
use calypso_experiments.Base.Bits.{bit_xor_parity}
use calypso_experiments.Base.Bytes.{Bytes, eq_bytes}
use calypso_experiments.Xor.Laws.{safe_xor_bytes_lem}
use calypso_experiments.Tournament.{Reveal, last_byte, duel, winners_from}
use calypso_experiments.Tournament.Marks.{
  IsAscending, IsAscending-weaken, AllBelow, picks, picks-suc,
}

abbrev pub IsSecret : Reveal → Type 0
IsSecret r = length r.secret ≡ 32

module _ (sum256 : Bytes → Bytes) where
  abbrev pub is_honest : Reveal → Bool
  is_honest r = eq_bytes (sum256 r.secret) r.commit

  -- The rules: a player whose secret is not what it committed to loses, the left one first; between
  -- two honest players the parity of the sum of the last bytes of their secrets decides.
  pub left_wins : Reveal → Reveal → Bool
  left_wins l r =
      if not (is_honest l)
      then false
      else if not (is_honest r)
      then true
      else (get_or l.secret 31 0 + get_or r.secret 31 0) % 2 == 0

  get_elem?-get_or : (l : Bytes) (i : ℕ) → i < length l → get_elem? l i ≡ some (get_or l i 0)
  get_elem?-get_or [] i h = absurd (omega arith)
  get_elem?-get_or (x ∷ l) zero h = refl
  get_elem?-get_or (x ∷ l) (suc i) h = get_elem?-get_or l i (omega arith)

  pub last_byte_lem : (b : Bytes) → length b ≡ 32 → last_byte b ≡ ok (get_or b 31 0)
  unfolding last_byte
  last_byte_lem b h = rw (get_elem?-get_or b 31 (omega arith), last_byte)

  -- The code follows the rules, for secrets of 32 bytes.
  pub duel_lem :
      (i : ℕ) (l r : Reveal)
      → IsSecret l
      → IsSecret r
      → duel sum256 i l r ≡ ok (if left_wins l r then i else i + 1)
  unfolding duel left_wins
  duel_lem i l r hl hr =
      let (result, e, len, joined) =
        safe_xor_bytes_lem (replicate 32 0) l.secret r.secret (omega arith) in
      rw e (
        ground (
          arith,
          last_byte_lem result (omega arith),
          joined 31,
          bit_xor_parity (get_or l.secret 31 0) (get_or r.secret 31 0),
        ))

  -- A round on the players themselves: each pair sends its winner on, and whoever has no opponent goes
  -- on too.
  unfoldable pub knock_out : List ℕ → List Reveal → List ℕ
  knock_out (p ∷ q ∷ ps) (l ∷ r ∷ rs) = (if left_wins l r then p else q) ∷ knock_out ps rs
  knock_out (p ∷ q ∷ ps) (l ∷ []) = p ∷ q ∷ ps
  knock_out (p ∷ q ∷ ps) [] = p ∷ q ∷ ps
  knock_out (p ∷ []) rs = p ∷ []
  knock_out [] rs = []

  picks-two :
      (p q : ℕ) (ps : List ℕ) (i : ℕ) (ws : List ℕ)
      → IsAscending (i + 2) ws
      → picks (p ∷ q ∷ ps) i ws ≡ picks ps (i + 2) ws
  picks-two p q ps i ws a =
      let a' : IsAscending (suc (suc i)) ws = IsAscending-weaken (i + 2) _ ws (omega arith) a in
      picks-suc p (q ∷ ps) i ws (IsAscending-weaken (i + 2) _ ws (omega arith) a)
      ∙ picks-suc q ps (suc i) ws a'
      ∙ ap (λ (n : ℕ). picks ps n ws) (omega arith)

  get_or_pair :
      (b : Bool) (p q : ℕ) (ps : List ℕ) (i : ℕ)
      → get_or (p ∷ q ∷ ps) ((if b then i else i + 1) - i) 0 ≡ (if b then p else q)
  get_or_pair true p q ps i = let e : i - i ≡ 0 = omega arith in rw e
  get_or_pair false p q ps i = let e : i + 1 - i ≡ 1 = omega arith in rw e

  -- What the loop over the pairs finds: half as many winners as players, in ascending order and in
  -- range, and on any list of players that is long enough they are the players that the round sends on.
  pub record IsRound (i : ℕ) (rs : List Reveal) (ws : List ℕ) : Type 0 where
    pub found : winners_from sum256 i rs ≡ ok ws
    pub half : length ws + length ws ≡ length rs
    pub ascending : IsAscending i ws
    pub below : AllBelow (i + length rs) ws
    pub players :
        (ps : List ℕ)
        → length rs ≤ length ps
        → knock_out ps rs ≡ picks ps i ws ++ drop (length rs) ps

  AllBelow-same : (m n : ℕ) (ws : List ℕ) → m ≡ n → AllBelow m ws → AllBelow n ws
  AllBelow-same m n ws e b = subst (λ (x : ℕ). AllBelow x ws) e b

  knock_out_nil : (ps : List ℕ) → knock_out ps [] ≡ ps
  unfolding knock_out
  knock_out_nil [] = refl
  knock_out_nil (p ∷ []) = refl
  knock_out_nil (p ∷ q ∷ ps) = refl

  pair_players :
      (i : ℕ) (l r : Reveal) (rs : List Reveal) (ws : List ℕ)
      → IsRound (i + 2) rs ws
      → (ps : List ℕ) → suc (suc (length rs)) ≤ length ps
      → knock_out ps (l ∷ r ∷ rs)
        ≡ picks ps i ((if left_wins l r then i else i + 1) ∷ ws) ++ drop (suc (suc (length rs))) ps
  unfolding knock_out picks
  pair_players i l r rs ws R [] k = absurd (omega arith)
  pair_players i l r rs ws R (p ∷ []) k = absurd (omega arith)
  pair_players i l r rs ws R (p ∷ q ∷ ps) k =
      ap₂ (λ (x : ℕ) (t : List ℕ). x ∷ t) (sym (get_or_pair (left_wins l r) p q ps i))
        (R.players ps (omega arith)
          ∙ ap (λ (t : List ℕ). t ++ drop (length rs) ps) (sym (picks-two p q ps i ws R.ascending)))

  pub winners_from-IsRound :
      (i : ℕ) (rs : List Reveal)
      → All IsSecret rs
      → length rs % 2 ≡ 0
      → (ws : List ℕ) × IsRound i rs ws
  unfolding winners_from picks
  winners_from-IsRound i [] h e = (
    [],
    record {
      found = refl;
      half = omega arith;
      ascending = tt;
      below = tt;
      players = λ ps k. knock_out_nil ps;
    },
  )
  winners_from-IsRound i (l ∷ []) h e = absurd (omega arith)
  winners_from-IsRound i (l ∷ r ∷ rs) (hl, (hr, h)) e =
      let (ws, R) = winners_from-IsRound (i + 2) rs h (omega arith) in
      let w : ℕ = if left_wins l r then i else i + 1 in
      (
        w ∷ ws,
        record {
          found = rw (duel_lem i l r hl hr, R.found);
          half = omega (arith, R.half);
          ascending = (ground arith, IsAscending-weaken (i + 2) _ ws (ground arith) R.ascending);
          below = (ground arith, AllBelow-same _ _ ws (omega arith) R.below);
          players = λ ps k. pair_players i l r rs ws R ps k;
        },
      )
