-- ===== src/Contracts.antt =====
-- What byzcoin hands to a contract and takes back from it: the instruction, the view of the global
-- state, and state changes.
use calypso_experiments.Base.{String, List, Result, Option, Error}
use calypso_experiments.Base.Bytes.{Bytes}
use calypso_experiments.Byzcoin.{Argument}

-- `inst.GetType()` with the part of the instruction that goes with it.
pub data Kind : Type 0 where
  spawn : String → List Argument → Kind
  invoke : String → List Argument → Kind
  delete : Kind
  invalid : Kind

-- `inst` and, as `derived`, its `DeriveID("")`.
pub record Instruction : Type 0 where
  pub instance_id : Bytes
  pub kind : Kind
  pub derived : Bytes

pub data Action : Type 0 where
  create update remove : Action

pub record StateChange : Type 0 where
  pub action : Action
  pub instance_id : Bytes
  pub contract_id : String
  pub value : Bytes
  pub darc_id : Bytes

-- `byzcoin.CollectionView`, with `inst.VerifyDarcSignature(cdb)`.
pub record Collection : Type 1 where
  pub View : Type 0
  pub Coin : Type 0
  pub verify_darc_signature : Instruction → View → Option Error
  -- the value, the contract and the darc of an instance
  pub get_values : View → Bytes → Result (Bytes × String × Bytes)

-- The three results of a contract: changes, coins and error.
pub record Outcome (Y : Collection) : Type 0 where
  pub changes : List StateChange
  pub coins : List Y.Coin
  pub failed : Option Error
