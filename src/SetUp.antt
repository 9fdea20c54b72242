-- ===== src/SetUp.antt =====
-- The set-up of a run: the ledger and the darcs, whose rules say who may spawn what (`SetupByzcoin`,
-- `SetupDarcs` and `SpawnDarc` of semi_centralized/api.go, calypso_lottery/api.go,
-- tournament_lottery/api.go and calypso_simulation/service.go). The keys that are drawn are given.
pub mod Rules
use calypso_experiments.Base.{ℕ, ◌*◌, String, List, [], ◌∷◌, Result, ok, err, panic, Error, ◌>>=◌}
use Prim.Native.String.{◌++◌ as ◌<>◌}
use calypso_experiments.Base.Bytes.{Bytes}
use calypso_experiments.Base.Calls.{Call, each_waiting}
use calypso_experiments.Byzcoin.{Byzcoin}
use calypso_experiments.Crypto.{Crypto}
use calypso_experiments.Semi.Client.{spawn_darc}
use calypso_experiments.Tournament.Ledger.{contract_lottery_store_id}

-- `darc` and `expression` of cothority.
pub record DarcRules : Type 1 where
  pub Signer : Type 0
  pub Rules : Type 0
  pub Expr : Type 0
  -- `signer.Identity().String()`
  pub identity : Signer → String
  -- `darc.InitRules(owners, signers)`
  pub init_rules : List String → List String → Rules
  -- `Rules.AddRule(action, expr)`
  pub add_rule : Rules → String → Expr → Result Rules
  pub or_expr : String → Expr

module _ (R : DarcRules) where
  -- The rules of a darc under which the writer spawns `write_id` and the reader `read_id`.
  unfoldable pub write_rules : String → String → R.Signer → R.Signer → Result R.Rules
  write_rules write_id read_id writer reader = do
    rules ←
        R.add_rule (R.init_rules (R.identity writer ∷ []) (R.identity writer ∷ []))
          ("spawn:" <> write_id) (R.or_expr (R.identity writer))
    R.add_rule rules ("spawn:" <> read_id) (R.or_expr (R.identity reader))

  -- `SetupDarcs` of the lottery: the rules for each writer.
  unfoldable pub setup_darcs : String → String → R.Signer → List R.Signer → Result (List R.Rules)
  unfolding write_rules
  setup_darcs write_id read_id reader [] = ok []
  setup_darcs write_id read_id reader (writer ∷ writers) = do
    rules ← write_rules write_id read_id writer reader
    more ← setup_darcs write_id read_id reader writers
    ok (rules ∷ more)

  -- `Rules.AddRule` where its error is lost: the rules are then what they were.
  unfoldable pub add_rule_unchecked : R.Rules → String → R.Expr → Result R.Rules
  add_rule_unchecked rules action expr = elim (R.add_rule rules action expr) [
    | ok rules' ↦ ok rules'
    | err e ↦ ok rules
    | panic ↦ panic
  ]

  -- `setupDarcs` of calypso_simulation.
  unfoldable pub unchecked_rules : String → String → R.Signer → R.Signer → Result R.Rules
  unfolding add_rule_unchecked
  unchecked_rules write_id read_id writer reader = do
    rules ←
        add_rule_unchecked (R.init_rules (R.identity writer ∷ []) (R.identity writer ∷ []))
          ("spawn:" <> write_id) (R.or_expr (R.identity writer))
    add_rule_unchecked rules ("spawn:" <> read_id) (R.or_expr (R.identity reader))

-- `byzcoin.DefaultGenesisMsg` and `byzcoin.NewLedger`, over the state of the servers.
pub record Genesis : Type 1 where
  pub World : Type 0
  pub Roster : Type 0
  pub Message : Type 0
  pub Client : Type 0
  pub Darc : Type 0
  -- the rules and the identity of the admin
  pub default_genesis_msg : Roster → List String → String → Result Message
  pub set_interval : Message → ℕ → Message
  pub genesis_darc : Message → Darc
  pub new_ledger : World → Message → World × Result Client

module _ (N : Genesis) where
  -- `second` is `time.Second`; `rules` are the rules of the genesis darc, which differ between the
  -- packages.
  unfoldable pub setup_byzcoin :
      ℕ → List String → N.Roster → ℕ → String → N.World → N.World × Result (N.Client × N.Darc)
  setup_byzcoin second rules roster block_interval admin w =
      elim (N.default_genesis_msg roster rules admin) [
        | err e ↦ (w, err e)
        | panic ↦ (w, panic)
        | ok msg ↦
            let msg' = N.set_interval msg (block_interval * second) in
            let (w', client) = N.new_ledger w msg' in
            (w', client >>= λ cl. ok (cl, N.genesis_darc msg'))
      ]

  -- `SetupByzcoin` of semi_centralized, for darcs, writes and reads.
  unfoldable pub setup_semi_byzcoin :
      Byzcoin → ℕ → N.Roster → ℕ → String → N.World → N.World × Result (N.Client × N.Darc)
  unfolding setup_byzcoin
  setup_semi_byzcoin Y second roster block_interval admin w =
      setup_byzcoin second
        (("spawn:" <> Y.contract_darc_id)
          ∷ ("spawn:" <> Y.contract_semi_write_id)
          ∷ ("spawn:" <> Y.contract_read_id)
          ∷ [])
        roster block_interval admin w

  -- `setupByzcoin` of calypso_simulation, for darcs.
  unfoldable pub setup_calypso_byzcoin :
      Byzcoin → ℕ → N.Roster → ℕ → String → N.World → N.World × Result (N.Client × N.Darc)
  unfolding setup_byzcoin
  setup_calypso_byzcoin Y second roster block_interval admin w =
      setup_byzcoin second (("spawn:" <> Y.contract_darc_id) ∷ []) roster block_interval admin w

  -- `SetupByzcoin` of the tournament, for the contract of the lottery.
  unfoldable pub setup_tournament_byzcoin :
      ℕ → N.Roster → ℕ → String → N.World → N.World × Result (N.Client × N.Darc)
  unfolding setup_byzcoin
  setup_tournament_byzcoin second roster block_interval admin w =
      setup_byzcoin second (("spawn:" <> contract_lottery_store_id) ∷ []) roster block_interval
        admin w

-- `CreateLotteryData` of the Calypso lottery: the secret and its hash.
pub record SecretData : Type 0 where
  pub secret : Bytes
  pub digest : Bytes

unfoldable pub secret_data : Crypto → Bytes → SecretData
secret_data C secret = record { secret = secret; digest = C.sum256 secret }

-- `SpawnDarc` of the lottery, under the genesis darc; `nonce` is what `GenNonce` gives.
unfoldable pub spawn_lottery_darc :
    (Y : Byzcoin) → Y.Signer → Y.Darc → ℕ → Y.Darc × Bytes → Call Y.World Y.AddTxResponse
unfolding spawn_darc
spawn_lottery_darc Y signer genesis wait (darc, nonce) w =
    spawn_darc Y w signer darc genesis wait nonce

-- The loop over `SpawnDarc`, whose last call waits.
unfoldable pub spawn_darcs :
    (Y : Byzcoin)
    → Y.Signer
    → Y.Darc
    → ℕ
    → List (Y.Darc × Bytes)
    → Call Y.World (List Y.AddTxResponse)
unfolding spawn_lottery_darc
spawn_darcs Y signer genesis wait darcs =
    each_waiting wait (spawn_lottery_darc Y signer genesis) darcs
