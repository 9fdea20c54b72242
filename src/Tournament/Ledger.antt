-- ===== src/Tournament/Ledger.antt =====
-- How the players of a round commit and reveal: the transactions of tournament_lottery/api.go, and the
-- phases of a round in simulation/service.go and client/main.go, over a ledger that is a parameter.
use calypso_experiments.Base.{
  ℕ, String, List, [], ◌∷◌, Result, ok, err, panic, Error, ◌==◌, if◌then◌else◌,
}
use Prim.Native.String.{◌++◌ as ◌<>◌}
use calypso_experiments.Base.Bytes.{Bytes}
use calypso_experiments.Base.Steps.{◌then_do◌}
use calypso_experiments.Byzcoin.{Byzcoin, Instruction, TransactionReply}
use calypso_experiments.Tournament.{Reveal}

pub record LotteryData : Type 0 where
  pub secret : Bytes
  pub digest : Bytes

-- `secret` is what the random source gives.
unfoldable pub create_lottery_data : (Bytes → Bytes) → Bytes → LotteryData
create_lottery_data sum256 secret = record { secret = secret; digest = sum256 secret }

-- A player of a round, with the nonces of its two transactions.
pub record Player : Type 0 where
  pub lottery : LotteryData
  pub commit_nonce : Bytes
  pub secret_nonce : Bytes

-- The fields of `ByzcoinData` that the transactions use.
pub record ByzcoinData (Y : Byzcoin) : Type 0 where
  pub signer : Y.Signer
  pub g_darc : Y.Darc

abbrev pub contract_lottery_store_id : String
contract_lottery_store_id = "tournamentLotteryStore"

-- `encode` is `protobuf.Encode` of a `DataStore`, `contract_value` the data that
-- `ContractValue` finds in a proof; `nonce` is what `byzcoin.GenNonce()` gives.
module _ (Y : Byzcoin) (encode : Bytes → Result Bytes) (contract_value : Y.Proof → Result Bytes)
    (byzd : ByzcoinData Y) where
  unfoldable pub store_instruction : Bytes → Bytes → Instruction
  store_instruction nonce buf = record {
    instance_id = Y.new_instance_id (Y.get_base_id byzd.g_darc);
    nonce = nonce;
    index = 0;
    count = 1;
    contract_id = contract_lottery_store_id;
    args = record { name = "store"; value = buf } ∷ [];
    signatures = [];
  }

  -- The transaction that is signed; it is waited for unless `wait` is 0.
  unfoldable pub send_store : Y.World → Instruction → ℕ → Y.World × Result (TransactionReply Y)
  send_store w signed wait =
      (if wait == 0
        then Y.add_transaction w (signed ∷ [])
        else Y.add_transaction_and_wait w (signed ∷ []) wait)
      then_do λ w' response.
          (w', ok (record { response = response; instance_id = Y.derive_id signed }))

  unfoldable pub add_store : Y.World → Bytes → Bytes → ℕ → Y.World × Result (TransactionReply Y)
  unfolding store_instruction send_store
  add_store w nonce content wait = (w, encode content) then_do λ w₁ buf.
      (w₁, Y.sign_by (store_instruction nonce buf) (Y.get_base_id byzd.g_darc) byzd.signer)
      then_do λ w₂ signed. send_store w₂ signed wait

  unfoldable pub add_secret_transaction :
      Y.World → Bytes → LotteryData → ℕ → Y.World × Result (TransactionReply Y)
  unfolding add_store
  add_secret_transaction w nonce ld wait = add_store w nonce ld.secret wait

  unfoldable pub add_commit_transaction :
      Y.World → Bytes → LotteryData → ℕ → Y.World × Result (TransactionReply Y)
  unfolding add_store
  add_commit_transaction w nonce ld wait = add_store w nonce ld.digest wait

  -- A loop over the players that adds a transaction for each, and waits for the last.
  unfoldable pub add_all :
      (Y.World → Player → ℕ → Y.World × Result (TransactionReply Y))
      → ℕ
      → Y.World
      → List Player
      → Y.World × Result (List (TransactionReply Y))
  add_all add block_wait w [] = (w, ok [])
  add_all add block_wait w (player ∷ players) =
      add w player (elim players [ [] ↦ block_wait | _ ∷ _ ↦ 0 ]) then_do λ w₁ reply.
      add_all add block_wait w₁ players then_do λ w₂ replies. (w₂, ok (reply ∷ replies))

  -- A loop that gets the proof of each transaction; `mismatch` is the error for one that is not there.
  unfoldable pub get_proofs :
      Error → Y.World → List (TransactionReply Y) → Y.World × Result (List Y.Proof)
  get_proofs mismatch w [] = (w, ok [])
  get_proofs mismatch w (reply ∷ replies) = Y.get_proof w reply.instance_id then_do λ w₁ proof.
      (w₁, if Y.is_match proof then ok proof else err mismatch) then_do λ w₂ proof'.
      get_proofs mismatch w₂ replies then_do λ w₃ proofs. (w₃, ok (proof' ∷ proofs))

  abbrev pub with_prefix : {A : Type 0} → Error → Result A → Result A
  with_prefix p (ok a) = ok a
  with_prefix p (err e) = err (p <> e)
  with_prefix p panic = panic

  -- The loop that reads the commits and the secrets; the list of proofs of the secrets is as long.
  unfoldable pub read_revealed :
      Y.World → List Y.Proof → List Y.Proof → Y.World × Result (List Reveal)
  read_revealed w (c ∷ commits) (s ∷ secrets) =
      (w, with_prefix "did not get a commit instance" (contract_value c)) then_do λ w₁ commit.
      (w₁, with_prefix "did not get a secret instance" (contract_value s)) then_do λ w₂ secret.
      read_revealed w₂ commits secrets then_do λ w₃ rest.
      (w₃, ok (record { commit = commit; secret = secret } ∷ rest))
  read_revealed w [] secrets = (w, ok [])
  read_revealed w (c ∷ commits) [] = (w, panic)

  -- The round up to the duels: everyone commits, then everyone reveals.
  unfoldable pub collect : ℕ → Y.World → List Player → Y.World × Result (List Reveal)
  unfolding add_secret_transaction add_commit_transaction add_all get_proofs read_revealed
  collect block_wait w players =
      add_all (λ v p wait. add_commit_transaction v p.commit_nonce p.lottery wait) block_wait w
        players
      then_do λ w₁ commit_txns.
          get_proofs "Commit inclusion proof does not match" w₁ commit_txns
          then_do λ w₂ commit_proofs.
              add_all (λ v p wait. add_secret_transaction v p.secret_nonce p.lottery wait)
                block_wait w₂ players
              then_do λ w₃ secret_txns.
                  get_proofs "Secret inclusion proof does not match" w₃ secret_txns
                  then_do λ w₄ secret_proofs. read_revealed w₄ commit_proofs secret_proofs

  -- The same in the client, which waits 3 blocks for the last transaction of each loop.
  unfoldable pub client_collect : Y.World → List Player → Y.World × Result (List Reveal)
  unfolding collect
  client_collect w players = collect 3 w players
