-- ===== src/Lottery/Runs.antt =====
-- calypso_lottery/simulation/service.go, whole runs: in each round the ledger, the darcs of the
-- participants and their secrets, and then the lottery. What a run draws is given.
use calypso_experiments.Base.{ℕ, String, List, [], ◌∷◌, Option, Result}
use calypso_experiments.Base.Bytes.{Bytes}
use calypso_experiments.Base.Calls.{Call, ◌>>=◌, ◌>>◌, lift, give}
use calypso_experiments.Crypto.{Crypto}
use calypso_experiments.Byzcoin.{Byzcoin}
use calypso_experiments.SetUp.{
  DarcRules, Genesis, setup_darcs, setup_calypso_byzcoin, secret_data, spawn_darcs,
}
use calypso_experiments.Lottery.{Calypso, Participant, run_calypso_lottery, run_batched_lottery}
use calypso_experiments.Lottery.Multiple.{run_multiple_lottery}

-- What cothority does to set a round up. The calls of Calypso and of byzcoin go to the ledger that was
-- made last; both are part of one state.
pub record Cothority (K : Calypso) (R : DarcRules) (Y : Byzcoin) : Type 1 where
  pub Roster : Type 0
  pub Message : Type 0
  pub Client : Type 0
  pub second : ℕ
  pub write_id : String
  pub read_id : String
  pub default_genesis_msg : Roster → List String → String → Result Message
  pub set_interval : Message → ℕ → Message
  pub genesis_darc : Message → Y.Darc
  pub new_ledger : K.World → Message → K.World × Result Client
  pub create_lts : Client → Call K.World K.Lts
  pub on_byzcoin : {A : Type 0} → Call Y.World A → Call K.World A
  -- `NewDarc`, as byzcoin and as Calypso take it, and the signers
  pub new_darc : R.Rules → Y.Darc
  pub as_darc : Y.Darc → K.Darc
  pub admin_signer : R.Signer → Y.Signer
  pub as_signer : R.Signer → K.Signer

-- What a round draws: the signers, and for each participant a signer, a nonce and a secret.
pub record Drawn (R : DarcRules) : Type 0 where
  pub admin : R.Signer
  pub reader : R.Signer
  pub writers : List (R.Signer × Bytes × Bytes)

module _ (C : Crypto) (K : Calypso) (R : DarcRules) (Y : Byzcoin) (X : Cothority K R Y) where
  abbrev genesis : Genesis
  genesis = record {
    World = K.World;
    Roster = X.Roster;
    Message = X.Message;
    Client = X.Client;
    Darc = Y.Darc;
    default_genesis_msg = X.default_genesis_msg;
    set_interval = X.set_interval;
    genesis_darc = X.genesis_darc;
    new_ledger = X.new_ledger;
  }

  abbrev writer_signers : List (R.Signer × Bytes × Bytes) → List R.Signer
  writer_signers [] = []
  writer_signers ((signer, _, _) ∷ writers) = signer ∷ writer_signers writers

  -- The darcs with the nonces of their transactions.
  abbrev with_nonces : List R.Rules → List (R.Signer × Bytes × Bytes) → List (Y.Darc × Bytes)
  with_nonces [] writers = []
  with_nonces (rules ∷ more) [] = []
  with_nonces (rules ∷ more) ((_, nonce, _) ∷ writers) =
      (X.new_darc rules, nonce) ∷ with_nonces more writers

  -- The loop over `CreateLotteryData` and `NewWrite`.
  unfoldable pub participants_of :
      List R.Rules → List (R.Signer × Bytes × Bytes) → List (Participant K)
  unfolding secret_data
  participants_of [] writers = []
  participants_of (rules ∷ more) [] = []
  participants_of (rules ∷ more) ((signer, _, secret) ∷ writers) =
      record {
        writer = X.as_signer signer;
        darc = X.as_darc (X.new_darc rules);
        secret = (secret_data C secret).secret;
      }
      ∷ participants_of more writers

  -- From `CreateLTS` to the participants, on a ledger with the genesis darc.
  unfoldable pub set_up_participants :
      ℕ → X.Client × Y.Darc → Drawn R → Call K.World (K.Lts × List (Participant K))
  unfolding setup_darcs spawn_darcs participants_of
  set_up_participants wait byzd drawn = do
    lts ← X.create_lts byzd.0
    rules ← lift (setup_darcs R X.write_id X.read_id drawn.reader (writer_signers drawn.writers))
    X.on_byzcoin
        (spawn_darcs Y (X.admin_signer drawn.admin) byzd.1 wait (with_nonces rules drawn.writers))
    give (lts, participants_of rules drawn.writers)

  -- From `SetupByzcoin` to the participants.
  unfoldable pub set_up_lottery :
      ℕ → ℕ → X.Roster → Drawn R → Call K.World (K.Lts × List (Participant K))
  unfolding setup_calypso_byzcoin set_up_participants
  set_up_lottery block_interval wait roster drawn = do
    byzd ← setup_calypso_byzcoin genesis Y X.second roster block_interval (R.identity drawn.admin)
    set_up_participants wait byzd drawn

  -- `runCalypsoLottery`, with the last digit of each round.
  unfoldable pub calypso_lottery_rounds : ℕ → ℕ → X.Roster → List (Drawn R) → Call K.World (List ℕ)
  unfolding set_up_lottery run_calypso_lottery
  calypso_lottery_rounds block_interval block_wait roster [] = give []
  calypso_lottery_rounds block_interval block_wait roster (drawn ∷ rounds) = do
    lottery ← set_up_lottery block_interval block_wait roster drawn
    digit ← (λ w. run_calypso_lottery K block_wait lottery.0 (X.as_signer drawn.reader) w lottery.1)
    digits ← calypso_lottery_rounds block_interval block_wait roster rounds
    give (digit ∷ digits)

  -- `runBatchedLottery`, which `Run` calls.
  unfoldable pub batched_lottery_rounds : ℕ → ℕ → X.Roster → List (Drawn R) → Call K.World (List ℕ)
  unfolding set_up_lottery run_batched_lottery
  batched_lottery_rounds block_interval block_wait roster [] = give []
  batched_lottery_rounds block_interval block_wait roster (drawn ∷ rounds) = do
    lottery ← set_up_lottery block_interval block_wait roster drawn
    digit ← (λ w. run_batched_lottery K block_wait lottery.0 (X.as_signer drawn.reader) w lottery.1)
    digits ← batched_lottery_rounds block_interval block_wait roster rounds
    give (digit ∷ digits)

  -- `runMultipleLottery`, on a ledger that is there.
  unfoldable pub multiple_lottery : ℕ → ℕ → X.Client × Y.Darc → Drawn R → Call K.World (Option ℕ)
  unfolding set_up_participants run_multiple_lottery
  multiple_lottery fuel block_wait byzd drawn = do
    lottery ← set_up_participants block_wait byzd drawn
    run_multiple_lottery K fuel lottery.0 (X.as_signer drawn.reader) lottery.1
