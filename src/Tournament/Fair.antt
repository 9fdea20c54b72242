-- ===== src/Tournament/Fair.antt =====
-- A run of the simulation whose rounds reveal what a ledger that works gives them.
use calypso_experiments.Base.{
  ℕ, zero, suc, ◌+◌, ◌/◌, ◌^◌, ◌≤◌, ◌<◌, ◌≡◌, refl, ap, ◌∙◌, List, [], ◌∷◌, some, Result, ok,
  length, map, All,
}
use calypso_experiments.Base.Bytes.{Bytes}
use calypso_experiments.Byzcoin.{Byzcoin}
use calypso_experiments.Tournament.{Reveal, run_simulation}
use calypso_experiments.Tournament.Duels.{IsSecret}
use calypso_experiments.Tournament.Rounds.{players_from}
use calypso_experiments.Tournament.Round.{in_pairs}
use calypso_experiments.Tournament.Run.{knock_outs, AreRevealed, run_simulation_lem}
use calypso_experiments.Tournament.Ledger.{Player, ByzcoinData, collect}
use calypso_experiments.Tournament.Honest.{IsHonest, reveal, collect_lem}

-- A player whose secret has 32 bytes.
abbrev pub Draws32 : Player → Type 0
Draws32 p = length p.lottery.secret ≡ 32

length-map : (ps : List Player) → length (map reveal ps) ≡ length ps
length-map [] = refl
length-map (p ∷ ps) = ap suc (length-map ps)

All-map : (ps : List Player) → All Draws32 ps → All IsSecret (map reveal ps)
All-map [] h = tt
All-map (p ∷ ps) (this, h) = (this, All-map ps h)

-- The players of a round: with `k` rounds to go, the `m` that take part.
abbrev pub Schedule : Type 0
Schedule = ℕ → ℕ → List Player

-- What is revealed in the rounds of a run that `m` players begin with `k` rounds to go.
abbrev pub revealed_by : Schedule → ℕ → ℕ → List (List Reveal)
revealed_by players zero m = []
revealed_by players (suc k) m =
    map reveal (players k (in_pairs m)) ∷ revealed_by players k ((m + 1) / 2)

module _ (Y : Byzcoin) (encode : Bytes → Result Bytes) (contract_value : Y.Proof → Result Bytes)
    (byzd : ByzcoinData Y) (Has : Y.World → Bytes → Bytes → Type 0)
    (H : IsHonest Y encode contract_value Has) (block_wait : ℕ) where
  -- What the rounds reveal, each from the state of the ledger at its start.
  abbrev pub collected : (ℕ → Y.World) → Schedule → ℕ → ℕ → Result (List Reveal)
  collected world players k m =
      (collect Y encode contract_value byzd block_wait (world k) (players k m)).1

  collected_lem :
      (world : ℕ → Y.World) (players : Schedule) (k m : ℕ)
      → collected world players k m ≡ ok (map reveal (players k m))
  collected_lem world players k m =
      let (w', e) =
        collect_lem Y encode contract_value byzd Has H block_wait (world k) (players k m) in
      ap (λ (t : Y.World × Result (List Reveal)). t.1) e

  revealed_by-AreRevealed :
      (world : ℕ → Y.World) (players : Schedule) (k m : ℕ)
      → ((k m : ℕ) → length (players k m) ≡ m)
      → ((k m : ℕ) → All Draws32 (players k m))
      → AreRevealed (collected world players) k m (revealed_by players k m)
  revealed_by-AreRevealed world players zero m number secrets = tt
  revealed_by-AreRevealed world players (suc k) m number secrets = (
    record {
      revealed = collected_lem world players k (in_pairs m);
      everyone = length-map (players k (in_pairs m)) ∙ number k (in_pairs m);
      secrets = All-map (players k (in_pairs m)) (secrets k (in_pairs m));
    },
    revealed_by-AreRevealed world players k ((m + 1) / 2) number secrets,
  )

  -- A run of the simulation on a ledger that accepts and proves every transaction, for at least one
  -- player, with enough rounds for their number, as many players in each round as take part and
  -- secrets of 32 bytes, ends with one winner. The winner is a player, and is the one that is left
  -- when the same rounds are played as a knock-out tournament on the list of the players.
  pub run_simulation-collect :
      (sum256 : Bytes → Bytes) (world : ℕ → Y.World) (players : Schedule) (rounds : ℕ → ℕ) (n : ℕ)
      → 1 ≤ n
      → n ≤ 2 ^ rounds n
      → ((k m : ℕ) → length (players k m) ≡ m)
      → ((k m : ℕ) → All Draws32 (players k m))
      → (w : ℕ) × (run_simulation sum256 (collected world players) rounds n ≡ ok (some w))
        × (knock_outs sum256 (revealed_by players (rounds n) n) (players_from 0 n) ≡ w ∷ [])
        × (w < n)
  run_simulation-collect sum256 world players rounds n lo hi number secrets =
      run_simulation_lem sum256 (collected world players) rounds n
        (revealed_by players (rounds n) n) lo hi
        (revealed_by-AreRevealed world players (rounds n) n number secrets)
