-- ===== src/Tournament/Round.antt =====
-- A round of the simulation is a round of a knock-out tournament on the players themselves.
use calypso_experiments.Base.{
  ℕ, suc, ◌+◌, ◌-◌, ◌/◌, ◌%◌, ◌*◌, ◌≤◌, ◌≡◌, refl, sym, ◌∙◌, ap, List, [], ◌∷◌, ◌++◌, true, false,
  Result, ok, ◌==◌, length, get_or, take, drop, All, arith, length-append,
}
use mathlib.Core.List.{append-nil}
use native.Mathlib.Decide.{ℕ_discrete}
use calypso_experiments.Base.Bytes.{Bytes}
use calypso_experiments.Tournament.{Reveal, organize_list, Standing, simulation_round}
use calypso_experiments.Tournament.Marks.{
  ones, picks, IsAscending, AllBelow, take-ones-organize_list,
}
use calypso_experiments.Tournament.Duels.{IsSecret, knock_out, IsRound, winners_from-IsRound}
use calypso_experiments.Tournament.Rounds.{
  picks-take, picks-append, length-picks, AllBelow-weaken, AllBelow-append, IsAscending-append,
  length-take_le, drop_last, drop_all,
}

-- The players still in, in front of the marks.
pub record Survive (s : Standing) (os : List ℕ) : Type 0 where
  pub marks : take s.left (ones 0 s.participants) ≡ os
  pub number : length os ≡ s.left

-- The list of participants after a round whose winners are `ws`.
organize-Survive :
    (ps os ws qs : List ℕ) (m n : ℕ)
    → take m (ones 0 ps) ≡ os
    → length os ≡ m
    → IsAscending 0 ws
    → AllBelow m ws
    → n ≡ length ws
    → picks os 0 ws ≡ qs
    → Survive (record { participants = organize_list ps ws; left = n }) qs
organize-Survive ps os ws qs m n marks number a b e p =
    let room : m ≤ length (ones 0 ps) =
      omega (arith, length-take_le m (ones 0 ps), ap (λ (l : List ℕ). length l) marks) in
    let qs' : picks (ones 0 ps) 0 ws ≡ qs =
      sym (picks-take m (ones 0 ps) ws b) ∙ ap (λ (l : List ℕ). picks l 0 ws) marks ∙ p in
    record {
      marks =
          ap (λ (k : ℕ). take k (ones 0 (organize_list ps ws))) e
          ∙ take-ones-organize_list ps ws a (AllBelow-weaken m _ ws room b)
          ∙ qs';
      number = ap (λ (l : List ℕ). length l) (sym p) ∙ length-picks os ws 0 ∙ sym e;
    }

-- How many players reveal in a round: all of them, but for the last one when their number is odd.
abbrev pub in_pairs : ℕ → ℕ
in_pairs m = m / 2 * 2

-- What the players reveal in the round, as far as the run relies on it.
pub record IsRevealed (reveals : ℕ → Result (List Reveal)) (m : ℕ) (rs : List Reveal) : Type 0 where
  pub revealed : reveals (in_pairs m) ≡ ok rs
  pub everyone : length rs ≡ in_pairs m
  pub secrets : All IsSecret rs

module _ (sum256 : Bytes → Bytes) where
  players_even :
      (os ws : List ℕ) (rs : List Reveal)
      → IsRound sum256 0 rs ws
      → length rs ≡ length os
      → picks os 0 ws ≡ knock_out sum256 os rs
  players_even os ws rs R e =
      sym (append-nil (picks os 0 ws))
      ∙ ap (λ (l : List ℕ). picks os 0 ws ++ l) (sym (drop_all (length rs) os (sym e)))
      ∙ sym (R.players os (omega arith))

  players_odd :
      (os ws : List ℕ) (rs : List Reveal) (m : ℕ)
      → IsRound sum256 0 rs ws
      → length rs ≡ m
      → length os ≡ suc m
      → picks os 0 (ws ++ m ∷ []) ≡ knock_out sum256 os rs
  unfolding picks
  players_odd os ws rs m R e e' =
      let same : m - 0 ≡ m = omega arith in
      picks-append os ws (m ∷ []) 0
      ∙ ap (λ (k : ℕ). picks os 0 ws ++ get_or os k 0 ∷ []) same
      ∙ ap (λ (l : List ℕ). picks os 0 ws ++ l) (sym (drop_last m os e'))
      ∙ ap (λ (k : ℕ). picks os 0 ws ++ drop k os) (sym e)
      ∙ sym (R.players os (omega arith))

  abbrev pub Next : (ℕ → Result (List Reveal)) → Standing → List ℕ → List Reveal → Type 0
  Next reveals s os rs =
      (s' : Standing) × (simulation_round sum256 reveals s ≡ ok s')
      × Survive s' (knock_out sum256 os rs)
      × (s'.left ≡ (s.left + 1) / 2)

  round_even :
      (reveals : ℕ → Result (List Reveal)) (s : Standing) (os : List ℕ) (rs : List Reveal)
      → Survive s os
      → reveals s.left ≡ ok rs
      → length rs ≡ s.left
      → All IsSecret rs
      → s.left % 2 ≡ 0
      → Next reveals s os rs
  unfolding simulation_round
  round_even reveals s os rs S e len secret even =
      let (ws, R) = winners_from-IsRound sum256 0 rs secret (omega arith) in
      let test : (s.left % 2 == 0) ≡ true = ground arith in
      let left' : (s.left + 1) / 2 ≡ length ws = omega (arith, R.half) in
      (
        record { participants = organize_list s.participants ws; left = (s.left + 1) / 2 },
        rw (test, e, R.found) refl,
        organize-Survive s.participants os ws _ s.left _ S.marks S.number R.ascending
            (AllBelow-weaken _ s.left ws (omega arith) R.below) left'
            (players_even os ws rs R (omega (arith, S.number))),
        refl,
      )

  round_odd :
      (reveals : ℕ → Result (List Reveal)) (s : Standing) (os : List ℕ) (rs : List Reveal)
      → Survive s os
      → reveals (s.left - 1) ≡ ok rs
      → length rs ≡ s.left - 1
      → All IsSecret rs
      → s.left % 2 ≡ 1
      → Next reveals s os rs
  unfolding simulation_round
  round_odd reveals s os rs S e len secret odd =
      let (ws, R) = winners_from-IsRound sum256 0 rs secret (omega arith) in
      let even : ℕ = s.left - 1 in
      let test : (s.left % 2 == 0) ≡ false = ground arith in
      let back : even + 1 ≡ s.left = omega arith in
      let left' : (even + 1 + 1) / 2 ≡ length (ws ++ even ∷ []) =
        omega (arith, R.half, length-append ws (even ∷ [])) in
      let below : AllBelow even ws = AllBelow-weaken _ even ws (omega arith) R.below in
      (
        record {
          participants = organize_list s.participants (ws ++ even ∷ []);
          left = (even + 1 + 1) / 2;
        },
        rw (test, e, R.found) refl,
        organize-Survive s.participants os (ws ++ even ∷ []) _ s.left _ S.marks S.number
            (IsAscending-append 0 even ws even (omega arith) refl below R.ascending)
            (AllBelow-append s.left ws even (AllBelow-weaken even s.left ws (omega arith) below)
              (omega arith))
            left' (players_odd os ws rs even R len (omega (arith, S.number))),
        ap (λ (n : ℕ). (n + 1) / 2) back,
      )

  pub simulation_round_lem :
      (reveals : ℕ → Result (List Reveal)) (s : Standing) (os : List ℕ) (rs : List Reveal)
      → Survive s os
      → IsRevealed reveals s.left rs
      → Next reveals s os rs
  simulation_round_lem reveals s os rs S V = elim (ℕ_discrete (s.left % 2) 0) [
    | yes even ↦
        let e : in_pairs s.left ≡ s.left = omega arith in
        round_even reveals s os rs S (ap reveals (sym e) ∙ V.revealed) (V.everyone ∙ e) V.secrets
          even
    | no odd ↦
        let e : in_pairs s.left ≡ s.left - 1 = omega arith in
        round_odd reveals s os rs S (ap reveals (sym e) ∙ V.revealed) (V.everyone ∙ e) V.secrets
          (omega arith)
  ]
