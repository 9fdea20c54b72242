-- ===== src/Tournament.antt =====
-- tournament_lottery: the list of participants (api.go, `OrganizeList`), the duels of one round and
-- the rounds of a run (simulation/service.go, `Run`; client/main.go, `runTournamentLottery`). What the
-- players have committed and revealed in a round is given as a list, in the order of the players.
pub mod Marks
pub mod Duels
pub mod Rounds
pub mod Round
pub mod Run
pub mod Client
pub mod Ledger
pub mod Honest
pub mod Contract
pub mod Fair
use calypso_experiments.Base.{
  ℕ, zero, suc, ◌+◌, ◌-◌, ◌/◌, ◌%◌, ◌≡◌, List, [], ◌∷◌, ◌++◌, Bool, true, false, not, ◌&&◌, Option,
  none, some, Result, ok, err, panic, ◌>>=◌, ltb, ◌==◌, if◌then◌else◌, get_elem?, replicate,
}
use calypso_experiments.Base.Bytes.{Bytes, eq_bytes}
use calypso_experiments.Xor.{safe_xor_bytes}

-- The loop of `OrganizeList`: `found` is `foundCnt`, and the two lists are what is left of the
-- participants and of the winners.
unfoldable pub organize_from : ℕ → List ℕ → List ℕ → List ℕ
organize_from found [] winners = []
organize_from found (v ∷ participants) [] = v ∷ participants
organize_from found (v ∷ participants) (w ∷ winners) =
    let hit = v == 1 in
    let rest =
      organize_from (if hit then found + 1 else found) participants
        (if hit && found == w then winners else w ∷ winners) in
    (if hit && ltb found w then 0 else v) ∷ rest

unfoldable pub organize_list : List ℕ → List ℕ → List ℕ
unfolding organize_from
organize_list participants winners = organize_from 0 participants winners

-- What one player revealed: the data of the commit instance and of the secret instance.
pub record Reveal : Type 0 where
  pub commit : Bytes
  pub secret : Bytes

-- `result[31]` panics on a shorter result.
unfoldable pub last_byte : Bytes → Result ℕ
last_byte result = elim (get_elem? result 31) [ some b ↦ ok b | none ↦ panic ]

-- The participants, and how many are left.
pub record Standing : Type 0 where
  pub participants : List ℕ
  pub left : ℕ

abbrev pub start : ℕ → Standing
start n = record { participants = replicate n 1; left = n }

module _ (sum256 : Bytes → Bytes) where
  -- The winner of the players `i` and `i + 1`.
  unfoldable pub duel : ℕ → Reveal → Reveal → Result ℕ
  unfolding last_byte
  duel i left right =
      if not (eq_bytes (sum256 left.secret) left.commit)
      then ok (i + 1)
      else if not (eq_bytes (sum256 right.secret) right.commit)
      then ok i
      else (do
        written ← safe_xor_bytes (replicate 32 0) left.secret right.secret
        last ← last_byte written.1
        ok (if last % 2 == 0 then i else i + 1))

  -- The loop over the pairs; `revealedSecretList[i+1]` panics on a last player alone.
  unfoldable pub winners_from : ℕ → List Reveal → Result (List ℕ)
  unfolding duel
  winners_from i [] = ok []
  winners_from i (left ∷ []) = panic
  winners_from i (left ∷ right ∷ rest) = do
    w ← duel i left right
    ws ← winners_from (i + 2) rest
    ok (w ∷ ws)

  -- One round of the simulation: with an odd number left, the last player gets a bye.
  unfoldable pub simulation_round : (ℕ → Result (List Reveal)) → Standing → Result Standing
  unfolding winners_from organize_list
  simulation_round reveals s =
      let is_odd = not (s.left % 2 == 0) in
      let even = if is_odd then s.left - 1 else s.left in
      reveals even >>= λ revealed. winners_from 0 revealed >>= λ winner_list.
      let winner_list' = if is_odd then winner_list ++ even ∷ [] else winner_list in
      let left' = if is_odd then even + 1 else even in
      ok (record {
        participants = organize_list s.participants winner_list';
        left = (left' + 1) / 2;
      })

  -- One round of the client, which plays for a power of two.
  unfoldable pub client_round : (ℕ → Result (List Reveal)) → Standing → Result Standing
  unfolding winners_from organize_list
  client_round reveals s = do
    revealed ← reveals s.left
    winner_list ← winners_from 0 revealed
    ok (record { participants = organize_list s.participants winner_list; left = s.left / 2 })

  -- The loop over the rounds; `reveals k m` is what `m` players reveal with `k` rounds to go.
  unfoldable pub simulation_rounds : (ℕ → ℕ → Result (List Reveal)) → ℕ → Standing → Result Standing
  unfolding simulation_round
  simulation_rounds reveals zero s = ok s
  simulation_rounds reveals (suc k) s =
      simulation_round (reveals k) s >>= simulation_rounds reveals k

  unfoldable pub client_rounds : (ℕ → ℕ → Result (List Reveal)) → ℕ → Standing → Result Standing
  unfolding client_round
  client_rounds reveals zero s = ok s
  client_rounds reveals (suc k) s = client_round (reveals k) s >>= client_rounds reveals k

-- The loop that prints the winner: the first participant whose entry is 1.
unfoldable pub first_one : ℕ → List ℕ → Option ℕ
first_one i [] = none
first_one i (v ∷ participants) =
    let rest = first_one (i + 1) participants in if v == 1 then some i else rest

module _ (sum256 : Bytes → Bytes) (reveals : ℕ → ℕ → Result (List Reveal)) where
  -- A run of the simulation. `rounds` is `int(math.Ceil(math.Log2(float64(n))))`.
  unfoldable pub run_simulation : (ℕ → ℕ) → ℕ → Result (Option ℕ)
  unfolding simulation_rounds first_one
  run_simulation rounds n = do
    s ← simulation_rounds sum256 reveals (rounds n) (start n)
    ok (first_one 0 s.participants)

  -- A run of the client. `rounds` is `int(math.Log2(float64(n)))`.
  unfoldable pub run_client : (ℕ → ℕ) → ℕ → Result (Option ℕ)
  unfolding client_rounds first_one
  run_client rounds n = do
    s ← client_rounds sum256 reveals (rounds n) (start n)
    ok (first_one 0 s.participants)
