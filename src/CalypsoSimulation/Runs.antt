-- ===== src/CalypsoSimulation/Runs.antt =====
-- calypso_simulation/service.go, whole runs: the files, the set-up of the ledger and of the darcs, and the
-- rounds. What a run draws is given.
use calypso_experiments.Base.{ℕ, String, List, [], ◌∷◌, Option, none, some, Result, map}
use calypso_experiments.Base.Bytes.{Bytes}
use calypso_experiments.Base.Calls.{Call, ◌>>=◌, ◌>>◌, lift, give}
use calypso_experiments.Byzcoin.{Byzcoin}
use calypso_experiments.Workload.{read_aux_file}
use calypso_experiments.Sharing.{Sharing, Goroutine, start, asked, proved, ended}
use calypso_experiments.Sharing.Blocks.{Counters}
use calypso_experiments.SetUp.{DarcRules, Genesis, unchecked_rules, setup_calypso_byzcoin}
use calypso_experiments.Lottery.{Calypso}
use calypso_experiments.CalypsoSimulation.{
  SetUp, multi_client_calypso, key_benchmark_round, run_byzgen_calypso,
}

-- `SimulationService`, and the number of rounds of `SimulationBFTree`.
pub record Config : Type 0 where
  pub rounds : ℕ
  pub num_transactions : ℕ
  pub num_write_transactions : ℕ
  pub num_read_transactions : ℕ
  pub num_blocks : ℕ
  pub block_interval : ℕ
  pub block_wait : ℕ

-- What cothority does to set a run up. The calls of Calypso go to the ledger that was made last.
pub record Cothority (K : Calypso) (R : DarcRules) : Type 1 where
  pub Roster : Type 0
  pub Message : Type 0
  pub Client : Type 0
  pub Darc : Type 0
  -- `time.Second`, `ContractWriteID`, `ContractReadID`
  pub second : ℕ
  pub write_id : String
  pub read_id : String
  pub default_genesis_msg : Roster → List String → String → Result Message
  pub set_interval : Message → ℕ → Message
  pub genesis_darc : Message → Darc
  pub new_ledger : K.World → Message → K.World × Result Client
  pub create_lts : Client → Call K.World K.Lts
  pub spawn_darc : Client → R.Signer → Darc → K.Darc → ℕ → Call K.World (Unit {0})
  -- `NewDarc`, and a signer as Calypso takes it
  pub new_darc : R.Rules → K.Darc
  pub as_signer : R.Signer → K.Signer

-- The signers that a set-up draws.
pub record Signers (R : DarcRules) : Type 0 where
  pub admin : R.Signer
  pub writer : R.Signer
  pub reader : R.Signer

-- What a goroutine worked on, and how it ended, if it did.
unfoldable pub outcome : {S : Sharing} → Goroutine S → S.Item × Option (Result (Unit {0}))
outcome g =
    (g.item, elim g.stage [ start ↦ none | asked id ↦ none | proved q ↦ none | ended r ↦ some r ])

module _ (K : Calypso) (R : DarcRules) (Y : Byzcoin) (X : Cothority K R) where
  abbrev pub genesis : Genesis
  genesis = record {
    World = K.World;
    Roster = X.Roster;
    Message = X.Message;
    Client = X.Client;
    Darc = X.Darc;
    default_genesis_msg = X.default_genesis_msg;
    set_interval = X.set_interval;
    genesis_darc = X.genesis_darc;
    new_ledger = X.new_ledger;
  }

  -- From `setupByzcoin` to `SpawnDarc`.
  unfoldable pub set_up_round : Config → X.Roster → Signers R → ℕ → Call K.World (SetUp K)
  unfolding setup_calypso_byzcoin unchecked_rules
  set_up_round config roster signers wait = do
    byzd ←
        setup_calypso_byzcoin genesis Y X.second roster config.block_interval
          (R.identity signers.admin)
    lts ← X.create_lts byzd.0
    rules ← lift (unchecked_rules R X.write_id X.read_id signers.writer signers.reader)
    X.spawn_darc byzd.0 signers.admin byzd.1 (X.new_darc rules) wait
    give (record {
      lts = lts;
      writer = X.as_signer signers.writer;
      reader = X.as_signer signers.reader;
      darc = X.new_darc rules;
    })

  -- `runByzgenSimulation`, with the keys that it draws and the two files.
  unfoldable pub run_byzgen_simulation :
      {Line : Type 0}
      → Config
      → X.Roster
      → Signers R
      → List Bytes
      → (Line → Option ℕ)
      → Result (List Line)
      → Result (List Line)
      → Call K.World (Counters ℕ)
  unfolding set_up_round read_aux_file run_byzgen_calypso
  run_byzgen_simulation config roster signers keys atoi txn_file blk_file = do
    lists ← lift (read_aux_file atoi config.num_transactions config.num_blocks txn_file blk_file)
    U ← set_up_round config roster signers 3
    run_byzgen_calypso K U config.rounds config.num_write_transactions config.num_read_transactions
        keys lists.0 lists.1

  -- `runMultiClientCalypso`, with the signers, the keys and the schedule of each round. The errors of
  -- the goroutines are only logged.
  unfoldable pub run_multi_client_calypso :
      Config
      → X.Roster
      → List (Signers R × List Bytes × List ℕ)
      → Call K.World (List (List (Bytes × Option (Result (Unit {0})))))
  unfolding set_up_round multi_client_calypso outcome
  run_multi_client_calypso config roster [] = give []
  run_multi_client_calypso config roster ((signers, keys, schedule) ∷ rounds) = do
    U ← set_up_round config roster signers config.block_wait
    readers ← multi_client_calypso K U config.block_wait schedule keys
    logged ← run_multi_client_calypso config roster rounds
    give (map outcome readers ∷ logged)

  -- `runMicrobenchmark`, with the signers and the keys of each round, and the keys that are decoded.
  unfoldable pub run_key_benchmark :
      Config → X.Roster → List (Signers R × List Bytes) → Call K.World (List (List Bytes))
  unfolding set_up_round key_benchmark_round
  run_key_benchmark config roster [] = give []
  run_key_benchmark config roster ((signers, keys) ∷ rounds) = do
    U ← set_up_round config roster signers 3
    decoded ← key_benchmark_round K U keys
    more ← run_key_benchmark config roster rounds
    give (decoded ∷ more)
