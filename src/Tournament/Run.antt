-- ===== src/Tournament/Run.antt =====
-- A run of the simulation is a knock-out tournament on the players themselves, and has one winner.
use calypso_experiments.Base.{
  ℕ, zero, suc, ◌+◌, ◌/◌, ◌^◌, ◌≤◌, ◌<◌, ◌≡◌, refl, sym, ◌∙◌, ap, List, [], ◌∷◌, true, false, some,
  Result, ok, ◌==◌, length, take, arith, take_all,
}
use native.Mathlib.Decide.{ℕ_discrete}
use mathlib.Core.Path.{subst}
use calypso_experiments.Base.Bytes.{Bytes}
use calypso_experiments.Tournament.{
  Reveal, Standing, start, simulation_rounds, first_one, run_simulation,
}
use calypso_experiments.Tournament.Marks.{ones, ones_hit, ones_miss, AllBelow}
use calypso_experiments.Tournament.Duels.{knock_out}
use calypso_experiments.Tournament.Rounds.{players_from, length-players_from, ones-replicate}
use calypso_experiments.Tournament.Round.{Survive, IsRevealed, simulation_round_lem}

first_one_lem : (k w : ℕ) (ps : List ℕ) → take 1 (ones k ps) ≡ w ∷ [] → first_one k ps ≡ some w
unfolding ones first_one
first_one_lem k w [] e = absurd (cc)
first_one_lem k w (v ∷ ps) e = elim (ℕ_discrete v 1) [
  | yes hit ↦
      let here : k ≡ w = head_eq (sym (ap (take 1) (ones_hit k v ps hit)) ∙ e) in
      let test : (v == 1) ≡ true = ground arith in rw test (ap some here)
  | no miss ↦
      let rest : take 1 (ones (k + 1) ps) ≡ w ∷ [] =
        ap (λ (i : ℕ). take 1 (ones i ps)) (omega arith)
        ∙ ap (take 1) (sym (ones_miss k v ps miss))
        ∙ e in
      let test : (v == 1) ≡ false = ground arith in rw test (first_one_lem (k + 1) w ps rest)
]
  where
    head_eq : {a b : ℕ} → a ∷ [] ≡ b ∷ [] → a ≡ b
    head_eq h = cc

players_from-AllBelow : (k n m : ℕ) → k + n ≤ m → AllBelow m (players_from k n)
unfolding players_from
players_from-AllBelow k zero m h = tt
players_from-AllBelow k (suc n) m h = (omega arith, players_from-AllBelow (suc k) n m (omega arith))

one_left : (os : List ℕ) → length os ≡ 1 → (w : ℕ) × (os ≡ w ∷ [])
one_left [] e = absurd (omega arith)
one_left (w ∷ []) e = (w, refl)
one_left (w ∷ x ∷ os) e = absurd (omega arith)

-- What is revealed in the `k` rounds that `m` players still have to play.
abbrev pub AreRevealed : (ℕ → ℕ → Result (List Reveal)) → ℕ → ℕ → List (List Reveal) → Type 0
AreRevealed reveals zero m [] = Unit
AreRevealed reveals zero m (rs ∷ rounds) = ⊥
AreRevealed reveals (suc k) m [] = ⊥
AreRevealed reveals (suc k) m (rs ∷ rounds) =
    IsRevealed (reveals k) m rs × AreRevealed reveals k ((m + 1) / 2) rounds

module _ (sum256 : Bytes → Bytes) where
  -- The tournament on the players themselves: round after round, with what is revealed in each.
  unfoldable pub knock_outs : List (List Reveal) → List ℕ → List ℕ
  knock_outs [] ps = ps
  knock_outs (rs ∷ rounds) ps = knock_outs rounds (knock_out sum256 ps rs)

  simulation_rounds_lem :
      (reveals : ℕ → ℕ → Result (List Reveal)) (k m : ℕ) (s : Standing) (os : List ℕ)
      (rounds : List (List Reveal))
      → Survive s os
      → s.left ≡ m
      → 1 ≤ m
      → m ≤ 2 ^ k
      → AreRevealed reveals k m rounds
      → (s' : Standing) × (simulation_rounds sum256 reveals k s ≡ ok s')
        × Survive s' (knock_outs rounds os)
        × (s'.left ≡ 1)
  unfolding simulation_rounds knock_outs
  simulation_rounds_lem reveals zero m s os [] S e lo hi V = (s, refl, S, omega arith)
  simulation_rounds_lem reveals zero m s os (rs ∷ rounds) S e lo hi V = absurd V
  simulation_rounds_lem reveals (suc k) m s os [] S e lo hi V = absurd V
  simulation_rounds_lem reveals (suc k) m s os (rs ∷ rounds) S e lo hi (V, more) =
      let V' : IsRevealed (reveals k) s.left rs =
        subst (λ (x : ℕ). IsRevealed (reveals k) x rs) (sym e) V in
      let (s', step, S', half) = simulation_round_lem sum256 (reveals k) s os rs S V' in
      let (s'', run, S'', one) =
        simulation_rounds_lem reveals k ((m + 1) / 2) s' (knock_out sum256 os rs) rounds S'
          (omega arith) (omega arith) (omega arith) more in
      (s'', rw (step, run) refl, S'', one)

  knock_out-AllBelow :
      (n : ℕ) (ps : List ℕ) (rs : List Reveal) → AllBelow n ps → AllBelow n (knock_out sum256 ps rs)
  unfolding knock_out
  knock_out-AllBelow n (p ∷ q ∷ ps) (l ∷ r ∷ rs) (hp, (hq, b)) =
      (ground arith, knock_out-AllBelow n ps rs b)
  knock_out-AllBelow n (p ∷ q ∷ ps) (l ∷ []) b = b
  knock_out-AllBelow n (p ∷ q ∷ ps) [] b = b
  knock_out-AllBelow n (p ∷ []) rs b = b
  knock_out-AllBelow n [] rs b = tt

  knock_outs-AllBelow :
      (n : ℕ) (rounds : List (List Reveal)) (ps : List ℕ)
      → AllBelow n ps
      → AllBelow n (knock_outs rounds ps)
  unfolding knock_outs
  knock_outs-AllBelow n [] ps b = b
  knock_outs-AllBelow n (rs ∷ rounds) ps b =
      knock_outs-AllBelow n rounds (knock_out sum256 ps rs) (knock_out-AllBelow n ps rs b)

  start-Survive : (n : ℕ) → Survive (start n) (players_from 0 n)
  start-Survive n = record {
    marks =
        ap (take n) (ones-replicate 0 n)
        ∙ take_all n (players_from 0 n) (omega (arith, length-players_from 0 n));
    number = length-players_from 0 n;
  }

  -- A run of the simulation for at least one player, with enough rounds for their number and with
  -- secrets of 32 bytes revealed in each round, ends with one winner: the player that is left when the
  -- same rounds are played as a knock-out tournament on the list of the players.
  pub run_simulation_lem :
      (reveals : ℕ → ℕ → Result (List Reveal)) (rounds : ℕ → ℕ) (n : ℕ)
      (revealed : List (List Reveal))
      → 1 ≤ n
      → n ≤ 2 ^ rounds n
      → AreRevealed reveals (rounds n) n revealed
      → (w : ℕ) × (run_simulation sum256 reveals rounds n ≡ ok (some w))
        × (knock_outs revealed (players_from 0 n) ≡ w ∷ [])
        × (w < n)
  unfolding run_simulation
  run_simulation_lem reveals rounds n revealed lo hi V =
      let (s', run, S, one) =
        simulation_rounds_lem reveals (rounds n) n (start n) (players_from 0 n) revealed
          (start-Survive n) refl lo hi V in
      let (w, e) = one_left (knock_outs revealed (players_from 0 n)) (S.number ∙ one) in
      let first : first_one 0 s'.participants ≡ some w =
        first_one_lem 0 w s'.participants
          (ap (λ (m : ℕ). take m (ones 0 s'.participants)) (sym one) ∙ S.marks ∙ e) in
      let b : AllBelow n (w ∷ []) = subst (AllBelow n) e (
        knock_outs-AllBelow n revealed (players_from 0 n)
          (players_from-AllBelow 0 n n (omega arith))) in
      (w, rw (run, first) refl, e, b.0)
