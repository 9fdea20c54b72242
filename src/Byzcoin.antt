-- ===== src/Byzcoin.antt =====
-- ByzCoin as the programs of the repository call it: instructions, their signatures and the client of
-- a ledger (`byzcoin` and `darc` of cothority). `Byzcoin` has the operations, over the state of all
-- that a call can change.
use calypso_experiments.Base.{ℕ, String, List, Bool, Result}
use calypso_experiments.Base.Bytes.{Bytes}

pub record Argument : Type 0 where
  pub name : String
  pub value : Bytes

-- `byzcoin.Instruction` with a spawn.
pub record Instruction : Type 0 where
  pub instance_id : Bytes
  pub nonce : Bytes
  pub index : ℕ
  pub count : ℕ
  pub contract_id : String
  pub args : List Argument
  pub signatures : List Bytes

pub record Byzcoin : Type 1 where
  pub Signer : Type 0
  pub Darc : Type 0
  pub World : Type 0
  pub Proof : Type 0
  pub AddTxResponse : Type 0
  -- `byzcoin.ContractDarcID`, `calypso.ContractSemiWriteID`, `calypso.ContractReadID`
  pub contract_darc_id : String
  pub contract_semi_write_id : String
  pub contract_read_id : String
  -- `darc.GetBaseID()`, `darc.GetID()`, `darc.ToProto()`
  pub get_base_id : Darc → Bytes
  pub get_id : Darc → Bytes
  pub to_proto : Darc → Result Bytes
  pub new_instance_id : Bytes → Bytes
  -- `SignBy(id, signer)`, which `SignInstruction` also stands for, and `DeriveID("")`
  pub sign_by : Instruction → Bytes → Signer → Result Instruction
  pub derive_id : Instruction → Bytes
  pub add_transaction : World → List Instruction → World × Result AddTxResponse
  pub add_transaction_and_wait : World → List Instruction → ℕ → World × Result AddTxResponse
  pub get_proof : World → Bytes → World × Result Proof
  -- `proof.InclusionProof.Match()`, `proof.InclusionProof.Key`
  pub is_match : Proof → Bool
  pub inclusion_key : Proof → Bytes

-- `TransactionReply` of the three packages that declare it.
pub record TransactionReply (Y : Byzcoin) : Type 0 where
  pub response : Y.AddTxResponse
  pub instance_id : Bytes
