-- ===== src/Samples/Witnesses/Rounds.antt =====
-- The tournament and its parts.
use Prim.Native.Nat.{bit_xor, min}
use calypso_experiments.Base.{
  ℕ, ◌<◌, ◌≡◌, refl, List, [], ◌∷◌, some, Result, ok, panic, length, get_or, take, replicate, ltb,
  if◌then◌else◌, arith,
}
use calypso_experiments.Base.Bytes.{Bytes}
use calypso_experiments.Xor.{safe_xor_bytes}
use calypso_experiments.Xor.Laws.{safe_xor_bytes_lem}
use calypso_experiments.Tournament.{Reveal, organize_list, run_simulation, run_client}
use calypso_experiments.Tournament.Marks.{ones, picks, take-ones-organize_list}
use calypso_experiments.Tournament.Duels.{IsRound, winners_from-IsRound}
use calypso_experiments.Tournament.Rounds.{players_from}
use calypso_experiments.Tournament.Run.{knock_outs, run_simulation_lem}
use calypso_experiments.Tournament.Client.{run_client-run_simulation, run_client_odd}
use calypso_experiments.Samples.Suite.{suite}

-- A player that reveals what it committed to, and one that does not.
abbrev honest : Reveal
honest = record { commit = replicate 32 1; secret = replicate 32 1 }

abbrev cheat : Reveal
cheat = record { commit = replicate 32 2; secret = replicate 32 1 }

abbrev reveals : ℕ → ℕ → Result (List Reveal)
reveals k m = ok (honest ∷ cheat ∷ [])

abbrev all_reveal : ℕ → ℕ → Result (List Reveal)
all_reveal k m = ok (replicate m honest)

run_simulation_lem_example :
    (w : ℕ) × (run_simulation suite.sum256 reveals (λ n. 2) 3 ≡ ok (some w))
    × (knock_outs suite.sum256
          ((honest ∷ cheat ∷ []) ∷ (honest ∷ cheat ∷ []) ∷ [])
          (players_from 0 3)
        ≡ w ∷ [])
    × (w < 3)
run_simulation_lem_example =
    run_simulation_lem suite.sum256 reveals (λ n. 2) 3
      ((honest ∷ cheat ∷ []) ∷ (honest ∷ cheat ∷ []) ∷ []) (omega arith) (omega arith)
      (
        record { revealed = refl; everyone = refl; secrets = (refl, (refl, tt)) },
        (record { revealed = refl; everyone = refl; secrets = (refl, (refl, tt)) }, tt),
      )

run_client-run_simulation_example :
    run_client suite.sum256 all_reveal (λ n. 1) 2
    ≡ run_simulation suite.sum256 all_reveal (λ n. 1) 2
run_client-run_simulation_example =
    run_client-run_simulation suite.sum256 all_reveal (λ n. 1) 2 refl

run_client_odd_example : run_client suite.sum256 all_reveal (λ n. 1) 3 ≡ panic
run_client_odd_example =
    run_client_odd suite.sum256 all_reveal (λ n. 1) 3 0 (replicate 3 honest) refl refl refl refl
      (refl, (refl, (refl, tt)))

winners_from-IsRound_example : (ws : List ℕ) × IsRound suite.sum256 4 (honest ∷ cheat ∷ []) ws
winners_from-IsRound_example =
    winners_from-IsRound suite.sum256 4 (honest ∷ cheat ∷ []) (refl, (refl, tt)) refl

take-ones-organize_list_example :
    take 1 (ones 0 (organize_list (1 ∷ 0 ∷ 1 ∷ []) (1 ∷ [])))
    ≡ picks (ones 0 (1 ∷ 0 ∷ 1 ∷ [])) 0 (1 ∷ [])
unfolding ones
take-ones-organize_list_example =
    take-ones-organize_list (1 ∷ 0 ∷ 1 ∷ []) (1 ∷ []) (omega arith, tt) (omega arith, tt)

safe_xor_bytes_lem_example :
    (r : Bytes) × (safe_xor_bytes (0 ∷ 9 ∷ []) (1 ∷ []) (3 ∷ 4 ∷ []) ≡ ok (min 1 2, r))
    × (length r ≡ 2)
    × ((i : ℕ)
        → get_or r i 0 ≡ (
            if ltb i (min 1 2)
            then bit_xor (get_or (1 ∷ []) i 0) (get_or (3 ∷ 4 ∷ []) i 0)
            else get_or (0 ∷ 9 ∷ []) i 0))
safe_xor_bytes_lem_example = safe_xor_bytes_lem (0 ∷ 9 ∷ []) (1 ∷ []) (3 ∷ 4 ∷ []) (omega arith)
