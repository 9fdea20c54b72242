-- ===== src/CalypsoSimulation/Whole.antt =====
-- Whole runs of the simulation, when the ledger can be set up and Calypso works.
use calypso_experiments.Base.{ℕ, ◌≡◌, ◌≤◌, ◌<◌, String, List, [], ◌∷◌, ok, All, length}
use Prim.Native.String.{◌++◌ as ◌<>◌}
use calypso_experiments.Base.Bytes.{Bytes}
use calypso_experiments.Base.Calls.Succeed.{Gives}
use calypso_experiments.Byzcoin.{Byzcoin}
use calypso_experiments.Sharing.Schedules.{turns_in}
use calypso_experiments.SetUp.{DarcRules, unchecked_rules}
use calypso_experiments.Lottery.{Calypso}
use calypso_experiments.CalypsoSimulation.Serving.{IsServing}
use calypso_experiments.CalypsoSimulation.{SetUp}
use calypso_experiments.CalypsoSimulation.Runs.{genesis, Cothority, Signers}

-- Servers on which a ledger can be set up. `Started w client admin genesis` says that in `w` the client is
-- that of a running ledger with that admin and genesis darc, `Made w client lts` that the LTS was made
-- on it, and `Up U w` that the ledger has the LTS of `U` and a darc by which the writer and the reader of
-- `U` may write and read.
pub record IsStarting {K : Calypso} {R : DarcRules} (Y : Byzcoin) (X : Cothority K R)
    (Started : K.World → X.Client → R.Signer → X.Darc → Type 0)
    (Made : K.World → X.Client → K.Lts → Type 0) (Up : SetUp K → K.World → Type 0) : Type 0 where
  pub messages :
      (roster : X.Roster) (admin : R.Signer)
      → (msg : X.Message) × (X.default_genesis_msg roster
            (("spawn:" <> Y.contract_darc_id) ∷ [])
            (R.identity admin)
          ≡ ok msg)
  pub ledgers :
      (w : K.World) (roster : X.Roster) (admin : R.Signer) (msg : X.Message) (interval : ℕ)
      → X.default_genesis_msg roster (("spawn:" <> Y.contract_darc_id) ∷ []) (R.identity admin)
        ≡ ok msg
      → Gives
          (λ v. X.new_ledger v (X.set_interval msg interval))
          w
          (λ w' client. Started w' client admin (X.genesis_darc (X.set_interval msg interval)))
  pub makes_lts :
      (w : K.World) (client : X.Client) (admin : R.Signer) (genesis : X.Darc)
      → Started w client admin genesis
      → Gives
          (X.create_lts client)
          w
          (λ w' lts. Started w' client admin genesis × Made w' client lts)
  pub rules :
      (writer reader : R.Signer)
      → (first both : R.Rules) × (R.add_rule
            (R.init_rules (R.identity writer ∷ []) (R.identity writer ∷ []))
            ("spawn:" <> X.write_id)
            (R.or_expr (R.identity writer))
          ≡ ok first)
        × (R.add_rule first ("spawn:" <> X.read_id) (R.or_expr (R.identity reader)) ≡ ok both)
  pub darcs :
      (w : K.World) (client : X.Client) (admin : R.Signer) (genesis : X.Darc) (lts : K.Lts)
      (writer reader : R.Signer) (rules : R.Rules) (wait : ℕ)
      → Started w client admin genesis
      → Made w client lts
      → unchecked_rules R X.write_id X.read_id writer reader ≡ ok rules
      → Gives (X.spawn_darc client admin genesis (X.new_darc rules) wait) w (λ w' done.
        Up
          (record {
            lts = lts;
            writer = X.as_signer writer;
            reader = X.as_signer reader;
            darc = X.new_darc rules;
          })
          w')

module _ (K : Calypso) (R : DarcRules) (Y : Byzcoin) (X : Cothority K R)
    (Started : K.World → X.Client → R.Signer → X.Darc → Type 0)
    (Made : K.World → X.Client → K.Lts → Type 0) (Up : SetUp K → K.World → Type 0)
    (I : IsStarting Y X Started Made Up) where
  module _ (Has : SetUp K → K.World → Bytes → Bytes → Type 0)
      (Shows : SetUp K → K.Proof → Bytes → Type 0)
      (W : (U : SetUp K) → IsServing K U (Up U) (Has U) (Shows U)) where
    -- Every goroutine of a round gets at least three turns.
    abbrev pub AllFair : List (Signers R × List Bytes × List ℕ) → Type 0
    AllFair rounds =
        All
          (λ (round : Signers R × List Bytes × List ℕ).
            (i : ℕ) → i < length round.1 → 3 ≤ turns_in round.2 i)
          rounds
