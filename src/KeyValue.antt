-- ===== src/KeyValue.antt =====
-- byzcoin/keyvalue.go and byzcoin/proto.go: the key/value contract.
pub mod Update
pub mod Contract
use calypso_experiments.Base.{
  String, List, [], ◌∷◌, ◌++◌, Bool, true, false, Option, none, some, Result, ok, err, panic, Error,
  if◌then◌else◌,
}
use text.Mathlib.Text.{◌==◌ as str_eq}
use calypso_experiments.Base.Bytes.{Bytes}
use calypso_experiments.Byzcoin.{Argument}
use calypso_experiments.Contracts.{
  Instruction, StateChange, Collection, Outcome, Kind, spawn, invoke, delete, invalid, Action,
  create, remove,
}
use calypso_experiments.Contracts

pub record KeyValue : Type 0 where
  pub key : String
  pub value : Bytes

pub record KeyValueData : Type 0 where
  pub storage : List KeyValue

abbrev pub contract_key_value_id : String
contract_key_value_id = "keyValue"

unfoldable pub new_storage : List Argument → List KeyValue
new_storage [] = []
new_storage (kv ∷ args) = record { key = kv.name; value = kv.value } ∷ new_storage args

unfoldable pub new_contract_struct : List Argument → KeyValueData
unfolding new_storage
new_contract_struct args = record { storage = new_storage args }

-- `kv.Value == nil || len(kv.Value) == 0`
abbrev pub is_empty : Bytes → Bool
is_empty [] = true
is_empty (_ ∷ _) = false

-- The inner loop of `Update`, for one argument: whether a key matched, and the storage. An empty
-- value removes the first match and ends the loop; another value goes into every match.
unfoldable pub scan : String → Bytes → List KeyValue → Bool × List KeyValue
scan name value [] = (false, [])
scan name value (stored ∷ rest) =
    let later = scan name value rest in
    if str_eq stored.key name
    then if is_empty value then (true, rest) else (true, record stored { value = value } ∷ later.1)
    else (later.0, stored ∷ later.1)

unfoldable pub update_one : Argument → List KeyValue → List KeyValue
unfolding scan
update_one kv storage =
    let (updated, storage') = scan kv.name kv.value storage in
    if updated then storage' else storage' ++ record { key = kv.name; value = kv.value } ∷ []

unfoldable pub update_all : List Argument → List KeyValue → List KeyValue
update_all [] storage = storage
update_all (kv ∷ args) storage = update_all args (update_one kv storage)

unfoldable pub update : KeyValueData → List Argument → KeyValueData
unfolding update_all
update cs args = record { storage = update_all args cs.storage }

-- `protobuf.Encode(&cs)` and `protobuf.Decode(csBuf, &cs)`.
pub record Codec : Type 0 where
  pub encode : KeyValueData → Result Bytes
  pub decode : Bytes → Result KeyValueData

module _ (Y : Collection) (N : Codec) where
  -- A return with an error leaves the coins of `cIn`, but for the one after a wrong command.
  unfoldable pub fail_with : List Y.Coin → Error → Outcome Y
  fail_with coins e = record { changes = []; coins = coins; failed = some e }

  unfoldable pub change_with : List Y.Coin → StateChange → Outcome Y
  change_with coins sc = record { changes = sc ∷ []; coins = coins; failed = none }

  -- The result of `GetValues` that the update reads: its error is overwritten by that of the decoder.
  unfoldable pub stored_value : Y.View → Bytes → Bytes
  stored_value cdb id = elim (Y.get_values cdb id) [ ok (v, _, _) ↦ v | _ ↦ [] ]

  unfoldable pub run_update :
      Y.View → Instruction → List Argument → List Y.Coin → Bytes → Option (Outcome Y)
  unfolding fail_with change_with stored_value
  run_update cdb inst args coins darc_id = elim (N.decode (stored_value cdb inst.instance_id)) [
    | panic ↦ none
    | err e ↦ some (fail_with coins e)
    | ok cs ↦ elim (N.encode (update cs args)) [
      | panic ↦ none
      | err e ↦ some (fail_with coins e)
      | ok cs_buf ↦ some (
          change_with coins (record {
            action = Action.update;
            instance_id = inst.instance_id;
            contract_id = contract_key_value_id;
            value = cs_buf;
            darc_id = darc_id;
          }))
    ]
  ]

  unfoldable pub run_spawn : Instruction → List Argument → List Y.Coin → Bytes → Option (Outcome Y)
  unfolding fail_with change_with
  run_spawn inst args coins darc_id = elim (N.encode (new_contract_struct args)) [
    | panic ↦ none
    | err e ↦ some (fail_with coins e)
    | ok cs_buf ↦ some (
        change_with coins (record {
          action = create;
          instance_id = inst.derived;
          contract_id = contract_key_value_id;
          value = cs_buf;
          darc_id = darc_id;
        }))
  ]

  unfoldable pub run_kind : Y.View → Instruction → Kind → List Y.Coin → Bytes → Option (Outcome Y)
  unfolding run_update run_spawn fail_with change_with
  run_kind cdb inst (spawn _ args) coins darc_id = run_spawn inst args coins darc_id
  run_kind cdb inst (invoke command args) coins darc_id =
      if str_eq command "update"
      then run_update cdb inst args coins darc_id
      else some (fail_with [] "Value contract can only update")
  run_kind cdb inst delete coins darc_id = some (
      change_with coins (record {
        action = remove;
        instance_id = inst.instance_id;
        contract_id = contract_key_value_id;
        value = [];
        darc_id = darc_id;
      }))
  run_kind cdb inst invalid coins darc_id = some (fail_with coins "didn't find any instruction")

  -- `none` is a panic of the codec.
  unfoldable pub contract_key_value : Y.View → Instruction → List Y.Coin → Option (Outcome Y)
  unfolding run_kind fail_with
  contract_key_value cdb inst c_in = elim (Y.verify_darc_signature inst cdb) [
    | some e ↦ some (fail_with c_in e)
    | none ↦ elim (Y.get_values cdb inst.instance_id) [
      | panic ↦ none
      | err e ↦ some (fail_with c_in e)
      | ok (_, _, darc_id) ↦ run_kind cdb inst inst.kind c_in darc_id
    ]
  ]
