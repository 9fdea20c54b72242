-- ===== src/Tournament/Client.antt =====
-- The client's tournament (client/main.go, `runTournamentLottery`) next to that of the simulation.
use calypso_experiments.Base.{
  ℕ, zero, suc, ◌+◌, ◌/◌, ◌%◌, ◌^◌, ◌≡◌, refl, sym, ◌∙◌, ap, List, [], ◌∷◌, true, inl, inr, Result,
  ok, panic, ◌>>=◌, ◌==◌, length, All, arith, Result-cases, >>=-eq-ok, ok-injective,
}
use calypso_experiments.Base.Bytes.{Bytes}
use calypso_experiments.Tournament.{
  Reveal, winners_from, Standing, start, simulation_round, client_round, simulation_rounds,
  client_rounds, run_simulation, run_client,
}
use calypso_experiments.Tournament.Duels.{IsSecret, duel_lem}

module _ (sum256 : Bytes → Bytes) where
  client_round_even :
      (reveals : ℕ → Result (List Reveal)) (s : Standing)
      → s.left % 2 ≡ 0
      → client_round sum256 reveals s ≡ simulation_round sum256 reveals s
  unfolding client_round simulation_round
  client_round_even reveals s even =
      let test : (s.left % 2 == 0) ≡ true = ground arith in
      let half : (s.left + 1) / 2 ≡ s.left / 2 = omega arith in rw (test, half) refl

  -- The state after a round of the client, if the round gets so far.
  client_round_left :
      (reveals : ℕ → Result (List Reveal)) (s s' : Standing)
      → client_round sum256 reveals s ≡ ok s'
      → s'.left ≡ s.left / 2
  unfolding client_round
  client_round_left reveals s s' e =
      let (revealed, _, e') = >>=-eq-ok (reveals s.left) _ e in
      let (ws, _, e'') = >>=-eq-ok (winners_from sum256 0 revealed) _ e' in
      ap (λ (t : Standing). t.left) (sym (ok-injective e''))

  client_rounds_lem :
      (reveals : ℕ → ℕ → Result (List Reveal)) (k : ℕ) (s : Standing)
      → s.left ≡ 2 ^ k
      → client_rounds sum256 reveals k s ≡ simulation_rounds sum256 reveals k s
  unfolding client_rounds simulation_rounds
  client_rounds_lem reveals zero s e = refl
  client_rounds_lem reveals (suc k) s e =
      let same : client_round sum256 (reveals k) s ≡ simulation_round sum256 (reveals k) s =
        client_round_even (reveals k) s (omega arith) in
      ap (λ (r : Result Standing). r >>= client_rounds sum256 reveals k) same
      ∙ elim (Result-cases (client_round sum256 (reveals k) s)) [
        | inl (s', e') ↦
            rw (sym same, e')
              (client_rounds_lem reveals k s'
                (omega (arith, client_round_left (reveals k) s s' e')))
        | inr (inl (x, e')) ↦ rw (sym same, e') refl
        | inr (inr e') ↦ rw (sym same, e') refl
      ]

  -- For a power of two of players the client and the simulation give the same result, whatever is
  -- revealed, errors and panics included.
  pub run_client-run_simulation :
      (reveals : ℕ → ℕ → Result (List Reveal)) (rounds : ℕ → ℕ) (n : ℕ)
      → n ≡ 2 ^ rounds n
      → run_client sum256 reveals rounds n ≡ run_simulation sum256 reveals rounds n
  unfolding run_client run_simulation
  run_client-run_simulation reveals rounds n e =
      rw (client_rounds_lem reveals (rounds n) (start n) e) refl

  winners_from_odd :
      (i : ℕ) (rs : List Reveal)
      → All IsSecret rs
      → length rs % 2 ≡ 1
      → winners_from sum256 i rs ≡ panic
  unfolding winners_from
  winners_from_odd i [] h e = absurd (omega arith)
  winners_from_odd i (l ∷ []) h e = refl
  winners_from_odd i (l ∷ r ∷ rs) (hl, (hr, h)) e =
      rw (duel_lem sum256 i l r hl hr, winners_from_odd (i + 2) rs h (omega arith)) refl

  -- A run of the client in whose first round an odd number of players has revealed secrets of 32 bytes
  -- panics: the last of them has no opponent, and the loop reads behind the end of the list.
  pub run_client_odd :
      (reveals : ℕ → ℕ → Result (List Reveal)) (rounds : ℕ → ℕ) (n k : ℕ) (rs : List Reveal)
      → rounds n ≡ suc k
      → n % 2 ≡ 1
      → reveals k n ≡ ok rs
      → length rs ≡ n
      → All IsSecret rs
      → run_client sum256 reveals rounds n ≡ panic
  unfolding run_client client_rounds client_round
  run_client_odd reveals rounds n k rs more odd e len secret =
      rw (more, e, winners_from_odd 0 rs secret (omega arith)) refl
