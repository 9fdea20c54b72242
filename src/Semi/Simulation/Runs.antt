-- ===== src/Semi/Simulation/Runs.antt =====
-- semi_centralized/simulation/service.go, whole runs: the files, the set-up of the ledger and of the
-- darcs, and the rounds. What a run draws is given.
use calypso_experiments.Base.{ℕ, String, List, [], ◌∷◌, Option, Result, ok, panic, map, Bool}
use calypso_experiments.Base.Bytes.{Bytes}
use calypso_experiments.Base.Calls.{Call, ◌>>=◌, ◌>>◌, lift, give}
use calypso_experiments.Crypto.{Crypto}
use calypso_experiments.Byzcoin.{Byzcoin}
use calypso_experiments.Workload.{Item, read_aux_file}
use calypso_experiments.Util.{WriteData}
use calypso_experiments.Sharing.Blocks.{Counters}
use calypso_experiments.SetUp.{DarcRules, Genesis, write_rules, setup_semi_byzcoin}
use calypso_experiments.CalypsoSimulation.Runs.{Config, Signers, outcome}
use calypso_experiments.Semi.{SemiWrite, CalypsoRead, Ledger}
use calypso_experiments.Semi.Client.{Transport, spawn_darc}
use calypso_experiments.Semi.Simulation.{
  SetUp, microbenchmark_round, multi_client_round, run_byzgen,
}

-- What cothority does to set a run up; `nonce` is what `GenNonce` gives.
pub record Cothority {C : Crypto} (G : Ledger C) (T : Transport G) (Y : Byzcoin) (R : DarcRules)
    : Type 1 where
  pub Roster : Type 0
  pub Message : Type 0
  pub Client : Type 0
  pub second : ℕ
  pub default_genesis_msg : Roster → List String → String → Result Message
  pub set_interval : Message → ℕ → Message
  pub genesis_darc : Message → Y.Darc
  pub new_ledger : Y.World → Message → Y.World × Result Client
  -- the servers of the roster, and `Roster.Publics()`
  pub servers : Roster → List T.Server
  pub publics : Roster → List C.Point
  -- `BcClient.ID`
  pub ledger_id : Client → G.SkipBlockId
  pub new_darc : R.Rules → Y.Darc
  pub as_signer : R.Signer → Y.Signer
  -- `signer.Ed25519.Secret`
  pub secret : R.Signer → C.Scalar
  pub nonce : Bytes
  pub zero_nonce : Bytes
  pub encode_write : SemiWrite C → Result Bytes
  pub encode_read : CalypsoRead → Y.Signer → Result Bytes
  pub as_proof : Y.Proof → G.Proof

module _ (C : Crypto) (G : Ledger C) (T : Transport G) (Y : Byzcoin) (R : DarcRules)
    (X : Cothority G T Y R) where
  abbrev genesis : Genesis
  genesis = record {
    World = Y.World;
    Roster = X.Roster;
    Message = X.Message;
    Client = X.Client;
    Darc = Y.Darc;
    default_genesis_msg = X.default_genesis_msg;
    set_interval = X.set_interval;
    genesis_darc = X.genesis_darc;
    new_ledger = X.new_ledger;
  }

  -- From `SetupByzcoin` to `SpawnDarc`.
  unfoldable pub set_up_ledger : ℕ → X.Roster → Signers R → ℕ → Call Y.World (SetUp G T Y)
  unfolding setup_semi_byzcoin write_rules spawn_darc
  set_up_ledger interval roster signers wait = do
    byz ← setup_semi_byzcoin genesis Y X.second roster interval (R.identity signers.admin)
    rules ←
        lift
          (write_rules R Y.contract_semi_write_id Y.contract_read_id signers.writer signers.reader)
    (λ y. spawn_darc Y y (X.as_signer signers.admin) (X.new_darc rules) byz.1 wait X.nonce)
    give (record {
      roster = X.servers roster;
      sc_id = X.ledger_id byz.0;
      writer = X.as_signer signers.writer;
      reader = X.as_signer signers.reader;
      darc = X.new_darc rules;
      reader_sk = X.secret signers.reader;
      zero_nonce = X.zero_nonce;
      encode_write = X.encode_write;
      encode_read = X.encode_read;
      as_proof = X.as_proof;
    })

  -- The ledger and the services.
  abbrev pub Servers : Type 0
  Servers = T.World × Y.World

  unfoldable pub set_up_both : ℕ → X.Roster → Signers R → ℕ → Call Servers (SetUp G T Y)
  unfolding set_up_ledger
  set_up_both interval roster signers wait (t, y) =
      let (y', r) = set_up_ledger interval roster signers wait y in ((t, y'), r)

  -- `config.Roster.Publics()[0]`
  unfoldable pub server_public : X.Roster → Result C.Point
  server_public roster = elim (X.publics roster) [ [] ↦ panic | pk ∷ _ ↦ ok pk ]

  -- `runMicrobenchmark`, with the signers and the items of each round, and what it logs.
  unfoldable pub run_microbenchmark :
      Config
      → X.Roster
      → C.Point
      → List (Signers R × List (Item C))
      → Call Servers (List (List Bool))
  unfolding set_up_both microbenchmark_round
  run_microbenchmark config roster server_pk [] = give []
  run_microbenchmark config roster server_pk ((signers, items) ∷ rounds) = do
    U ← set_up_both config.block_interval roster signers 4
    same ← microbenchmark_round C G T Y U server_pk items
    more ← run_microbenchmark config roster server_pk rounds
    give (same ∷ more)

  -- `runMultiClientSimulation`, with the signers, the items and the schedule of each round. The errors
  -- of the goroutines are only logged.
  unfoldable pub run_multi_client_simulation :
      Config
      → X.Roster
      → C.Point
      → List (Signers R × List (Item C) × List ℕ)
      → Call Servers (List (List ((WriteData C × Item C) × Option (Result (Unit {0})))))
  unfolding set_up_both multi_client_round outcome
  run_multi_client_simulation config roster server_pk [] = give []
  run_multi_client_simulation config roster server_pk ((signers, items, schedule) ∷ rounds) = do
    U ← set_up_both config.block_interval roster signers config.block_wait
    readers ← multi_client_round C G T Y U config.block_wait schedule server_pk items
    logged ← run_multi_client_simulation config roster server_pk rounds
    give (map outcome readers ∷ logged)

  -- `Run`
  unfoldable pub run :
      Config
      → X.Roster
      → List (Signers R × List (Item C) × List ℕ)
      → Call Servers (List (List ((WriteData C × Item C) × Option (Result (Unit {0})))))
  unfolding server_public run_multi_client_simulation
  run config roster rounds = do
    server_pk ← lift (server_public roster)
    run_multi_client_simulation config roster server_pk rounds

  -- `runByzgenSimulation`, with the items of the fixed writes and of the others, and the two files.
  unfoldable pub run_byzgen_semi :
      {Line : Type 0}
      → Config
      → X.Roster
      → C.Point
      → Signers R
      → List (Item C)
      → List (Item C)
      → (Line → Option ℕ)
      → Result (List Line)
      → Result (List Line)
      → Call Servers (Counters (List (WriteData C)))
  unfolding set_up_both read_aux_file run_byzgen
  run_byzgen_semi config roster server_pk signers fixed_items items atoi txn_file blk_file = do
    lists ← lift (read_aux_file atoi config.num_transactions config.num_blocks txn_file blk_file)
    U ← set_up_both config.block_interval roster signers 4
    run_byzgen C G T Y U config.rounds config.num_read_transactions server_pk fixed_items items
        lists.0 lists.1
