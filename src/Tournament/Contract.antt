-- ===== src/Tournament/Contract.antt =====
-- tournament_lottery/contracts.go: the contract that keeps commits and secrets.
use calypso_experiments.Base.{
  ◌≡◌, ◌≢◌, refl, sym, String, List, [], ◌∷◌, Bool-cases, ◌⊎◌, inl, inr, Option, none, some,
  Option-cases, Result-cases, ok, err, panic, Error, if◌then◌else◌,
}
use mathlib.Core.Path.{subst}
use text.Mathlib.Text.{◌==◌ as str_eq}
use text.Mathlib.TextEquality.{eq_iff}
use calypso_experiments.Base.Bytes.{Bytes}
use calypso_experiments.Byzcoin.{Argument}
use calypso_experiments.Contracts.{
  Instruction, Collection, Outcome, Kind, spawn, invoke, delete, invalid, create,
}
use calypso_experiments.Tournament.Ledger.{contract_lottery_store_id}

-- `search` is the method of `byzcoin.Arguments`; it gives an empty value for a missing argument.
module _ (Y : Collection) (search : List Argument → String → Bytes) where
  unfoldable pub refuse : Error → Outcome Y
  refuse e = record { changes = []; coins = []; failed = some e }

  unfoldable pub spawn_store : Instruction → List Y.Coin → Bytes → Bytes → Outcome Y
  unfolding refuse
  spawn_store inst c darc_id [] = refuse "need a store request in 'store' argument"
  spawn_store inst c darc_id (b ∷ str) = record {
    changes =
        record {
          action = create;
          instance_id = inst.derived;
          contract_id = contract_lottery_store_id;
          value = b ∷ str;
          darc_id = darc_id;
        }
        ∷ [];
    coins = c;
    failed = none;
  }

  unfoldable pub run_store : Instruction → Kind → List Y.Coin → Bytes → Outcome Y
  unfolding spawn_store refuse
  run_store inst (spawn id args) c darc_id =
      if str_eq id contract_lottery_store_id
      then spawn_store inst c darc_id (search args "store")
      else refuse "can only spawn store"
  run_store inst (invoke command args) c darc_id = refuse "not a valid operation"
  run_store inst delete c darc_id = refuse "not a valid operation"
  run_store inst invalid c darc_id = refuse "not a valid operation"

  -- `none` is a panic of the collection.
  unfoldable pub contract_lottery_store : Y.View → Instruction → List Y.Coin → Option (Outcome Y)
  unfolding run_store refuse
  contract_lottery_store cdb inst c = elim (Y.verify_darc_signature inst cdb) [
    | some e ↦ some (refuse e)
    | none ↦ elim (Y.get_values cdb inst.instance_id) [
      | panic ↦ none
      | err e ↦ some (refuse e)
      | ok (_, _, darc_id) ↦ some (run_store inst inst.kind c darc_id)
    ]
  ]

  -- A creation of the derived instance with the argument, which is not empty, under the darc; or a
  -- refusal, with neither changes nor coins.
  abbrev pub StoresOrRefuses : Instruction → List Y.Coin → Bytes → Kind → Outcome Y → Type 0
  StoresOrRefuses inst c darc_id kind o =
      ((e : Error) × (o ≡ refuse e))
      ⊎ ((args : List Argument) × (kind ≡ spawn contract_lottery_store_id args)
          × (search args "store" ≢ [])
          × (o ≡ record {
            changes =
                record {
                  action = create;
                  instance_id = inst.derived;
                  contract_id = contract_lottery_store_id;
                  value = search args "store";
                  darc_id = darc_id;
                }
                ∷ [];
            coins = c;
            failed = none;
          }))

  spawn_store_lem :
      (inst : Instruction) (c : List Y.Coin) (darc_id : Bytes) (args : List Argument) (str : Bytes)
      → str ≡ search args "store"
      → StoresOrRefuses inst c darc_id
          (spawn contract_lottery_store_id args)
          (spawn_store inst c darc_id str)
  unfolding spawn_store
  spawn_store_lem inst c darc_id args [] e = inl (_, refl)
  spawn_store_lem inst c darc_id args (b ∷ str) e = inr (args, refl, (λ h. cc), rw (sym e) refl)

  run_store_lem :
      (inst : Instruction) (kind : Kind) (c : List Y.Coin) (darc_id : Bytes)
      → StoresOrRefuses inst c darc_id kind (run_store inst kind c darc_id)
  unfolding run_store
  run_store_lem inst (spawn id args) c darc_id =
      elim (Bool-cases (str_eq id contract_lottery_store_id)) [
        | inr other ↦ inl ("can only spawn store", rw other refl)
        | inl right ↦
            let is : id ≡ contract_lottery_store_id =
              (eq_iff id contract_lottery_store_id).0 right in
            subst
              (λ x.
                StoresOrRefuses inst c darc_id (spawn x args)
                  (run_store inst (spawn x args) c darc_id))
              (sym is) (spawn_store_lem inst c darc_id args (search args "store") refl)
      ]
  run_store_lem inst (invoke command args) c darc_id = inl ("not a valid operation", refl)
  run_store_lem inst delete c darc_id = inl ("not a valid operation", refl)
  run_store_lem inst invalid c darc_id = inl ("not a valid operation", refl)

  by_parts :
      (cdb : Y.View) (inst : Instruction) (c : List Y.Coin) (v : Bytes) (id : String)
      (darc_id : Bytes)
      → Y.verify_darc_signature inst cdb ≡ none
      → Y.get_values cdb inst.instance_id ≡ ok (v, id, darc_id)
      → contract_lottery_store cdb inst c ≡ some (run_store inst inst.kind c darc_id)
  unfolding contract_lottery_store
  by_parts cdb inst c v id darc_id good p = rw (good, p, contract_lottery_store) refl

  -- Unless the collection panics, the contract returns: an error with neither changes nor coins, where
  -- the signature of the instruction is not right or its instance is not known; otherwise, under the
  -- darc of that instance, the creation of the derived instance with the argument `store`, if the
  -- instruction spawns this contract and that argument is not empty, or an error again.
  pub contract_lottery_store_lem :
      (cdb : Y.View) (inst : Instruction) (c : List Y.Coin)
      → Y.get_values cdb inst.instance_id ≢ panic
      → (o : Outcome Y) × (contract_lottery_store cdb inst c ≡ some o)
        × (((e : Error) × (o ≡ refuse e))
            ⊎ ((v : Bytes) × (id : String) × (darc_id : Bytes) × (Y.verify_darc_signature inst cdb
                  ≡ none)
                × (Y.get_values cdb inst.instance_id ≡ ok (v, id, darc_id))
                × StoresOrRefuses inst c darc_id inst.kind o))
  unfolding contract_lottery_store
  contract_lottery_store_lem cdb inst c calm =
      elim (Option-cases (Y.verify_darc_signature inst cdb)) [
        | inr (e, bad) ↦ (refuse e, rw (bad, contract_lottery_store) refl, inl (e, refl))
        | inl good ↦ elim (Result-cases (Y.get_values cdb inst.instance_id)) [
          | inr (inr p) ↦ absurd (calm p)
          | inr (inl (e, p)) ↦ (refuse e, rw (good, p, contract_lottery_store) refl, inl (e, refl))
          | inl ((v, id, darc_id), p) ↦ (
            run_store inst inst.kind c darc_id,
            by_parts cdb inst c v id darc_id good p,
            inr (v, id, darc_id, good, p, run_store_lem inst inst.kind c darc_id),
          )
        ]
      ]
