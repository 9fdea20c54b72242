-- ===== src/KeyValue/Contract.antt =====
-- The contract over the life of an instance.
use calypso_experiments.Base.{
  ◌≡◌, refl, sym, ap, String, List, [], ◌∷◌, Bool-cases, inl, inr, ◌⊎◌, none, some, Option-cases,
  Result-cases, ok, Error,
}
use mathlib.Core.Path.{subst}
use mathlib.Core.Option.{some-injective}
use text.Mathlib.Text.{◌==◌ as str_eq}
use text.Mathlib.TextEquality.{eq_iff}
use calypso_experiments.Base.Bytes.{Bytes}
use calypso_experiments.Byzcoin.{Argument}
use calypso_experiments.Contracts.{
  Instruction, StateChange, Collection, Outcome, Kind, spawn, invoke, delete, invalid, Action,
  create, remove,
}
use calypso_experiments.KeyValue.{
  fail_with, change_with, stored_value, KeyValueData, contract_key_value_id, new_contract_struct,
  update, Codec, run_kind, run_update, run_spawn, contract_key_value,
}

-- The one change that an instruction may make, by its kind: the data that a spawn or an update leaves,
-- encoded, and the instance.
abbrev pub Change : (Y : Collection) → Codec → Y.View → Instruction → Kind → StateChange → Type 0
Change Y N cdb inst (spawn _ args) sc =
    (sc.action ≡ create)
    × (sc.instance_id ≡ inst.derived)
    × (N.encode (new_contract_struct args) ≡ ok sc.value)
Change Y N cdb inst (invoke command args) sc =
    (sc.action ≡ Action.update)
    × (sc.instance_id ≡ inst.instance_id)
    × (command ≡ "update")
    × ((old : KeyValueData) × (N.decode (stored_value Y N cdb inst.instance_id) ≡ ok old)
        × (N.encode (update old args) ≡ ok sc.value))
Change Y N cdb inst delete sc =
    (sc.action ≡ remove) × (sc.instance_id ≡ inst.instance_id) × (sc.value ≡ [])
Change Y N cdb inst invalid sc = ⊥

module _ (Y : Collection) (N : Codec) (cdb : Y.View) (inst : Instruction) (c_in : List Y.Coin) where
  -- An outcome with no error makes one change, by the rules for its kind, and leaves the coins; one
  -- with an error changes nothing.
  pub record IsRight (kind : Kind) (darc_id : Bytes) (o : Outcome Y) : Type 0 where
    pub done :
        o.failed ≡ none
        → (sc : StateChange) × (o.changes ≡ sc ∷ [])
          × (o.coins ≡ c_in)
          × (sc.contract_id ≡ contract_key_value_id)
          × (sc.darc_id ≡ darc_id)
          × Change Y N cdb inst kind sc
    pub refused : (e : Error) → o.failed ≡ some e → o.changes ≡ []

  fail_with-IsRight :
      (kind : Kind) (darc_id : Bytes) (coins : List Y.Coin) (e : Error)
      → IsRight kind darc_id (fail_with Y N coins e)
  unfolding fail_with
  fail_with-IsRight kind darc_id coins e = record {
    done = λ h. absurd (cc);
    refused = λ e' h. refl;
  }

  change_with-IsRight :
      (kind : Kind) (sc : StateChange)
      → sc.contract_id ≡ contract_key_value_id
      → Change Y N cdb inst kind sc
      → IsRight kind sc.darc_id (change_with Y N c_in sc)
  unfolding change_with
  change_with-IsRight kind sc named ch = record {
    done = λ h. (sc, refl, refl, named, refl, ch);
    refused = λ e h. absurd (cc);
  }

  run_spawn-IsRight :
      (id : String) (args : List Argument) (darc_id : Bytes) (o : Outcome Y)
      → run_spawn Y N inst args c_in darc_id ≡ some o
      → IsRight (spawn id args) darc_id o
  unfolding run_spawn
  run_spawn-IsRight id args darc_id o h =
      elim (Result-cases (N.encode (new_contract_struct args))) [
        | inr (inr e) ↦ absurd (cc (rw (e, run_spawn) at h))
        | inr (inl (x, e)) ↦
            subst (IsRight (spawn id args) darc_id) (some-injective _ _ (rw (e, run_spawn) at h))
              (fail_with-IsRight (spawn id args) darc_id c_in x)
        | inl (b, e) ↦
            subst (IsRight (spawn id args) darc_id) (some-injective _ _ (rw (e, run_spawn) at h))
              (change_with-IsRight (spawn id args) _ refl (refl, refl, e))
      ]

  run_update-IsRight :
      (args : List Argument) (darc_id : Bytes) (o : Outcome Y)
      → run_update Y N cdb inst args c_in darc_id ≡ some o
      → IsRight (invoke "update" args) darc_id o
  unfolding run_update
  run_update-IsRight args darc_id o h =
      elim (Result-cases (N.decode (stored_value Y N cdb inst.instance_id))) [
        | inr (inr e) ↦ absurd (cc (rw (e, run_update) at h))
        | inr (inl (x, e)) ↦
            subst (IsRight _ darc_id) (some-injective _ _ (rw (e, run_update) at h))
              (fail_with-IsRight (invoke "update" args) darc_id c_in x)
        | inl (old, e) ↦ elim (Result-cases (N.encode (update old args))) [
          | inr (inr f) ↦ absurd (cc (rw (e, f, run_update) at h))
          | inr (inl (x, f)) ↦
              subst (IsRight _ darc_id) (some-injective _ _ (rw (e, f, run_update) at h))
                (fail_with-IsRight (invoke "update" args) darc_id c_in x)
          | inl (b, f) ↦
              subst (IsRight _ darc_id) (some-injective _ _ (rw (e, f, run_update) at h))
                (change_with-IsRight (invoke "update" args) _ refl (refl, refl, refl, (old, e, f)))
        ]
      ]

  run_kind-IsRight :
      (kind : Kind) (darc_id : Bytes) (o : Outcome Y)
      → run_kind Y N cdb inst kind c_in darc_id ≡ some o
      → IsRight kind darc_id o
  unfolding run_kind
  run_kind-IsRight (spawn id args) darc_id o h = run_spawn-IsRight id args darc_id o h
  run_kind-IsRight (invoke command args) darc_id o h = elim (Bool-cases (str_eq command "update")) [
    | inl e ↦
        subst (λ c. IsRight (invoke c args) darc_id o) (sym ((eq_iff command "update").0 e))
          (run_update-IsRight args darc_id o (rw e at h))
    | inr e ↦
        subst (IsRight _ darc_id) (some-injective _ _ (rw e at h))
          (fail_with-IsRight (invoke command args) darc_id [] "Value contract can only update")
  ]
  run_kind-IsRight delete darc_id o h =
      subst (IsRight delete darc_id) (some-injective _ _ h)
        (change_with-IsRight delete _ refl (refl, refl, refl))
  run_kind-IsRight invalid darc_id o h =
      subst (IsRight invalid darc_id) (some-injective _ _ h)
        (fail_with-IsRight invalid darc_id c_in "didn't find any instruction")

-- If there is no error, the signature of the instruction was verified and its instance is known, there
-- is one change, under the darc of that instance and by the rules for its kind, and the coins are those
-- that were given. If there is an error, nothing is changed.
abbrev pub ChangesOrFails :
    (Y : Collection) → Codec → Y.View → Instruction → List Y.Coin → Outcome Y → Type 0
ChangesOrFails Y N cdb inst c_in o =
    ((e : Error) × (o.failed ≡ some e) × (o.changes ≡ []))
    ⊎ ((sc : StateChange) × (o.failed ≡ none)
        × (o.changes ≡ sc ∷ [])
        × (o.coins ≡ c_in)
        × (sc.contract_id ≡ contract_key_value_id)
        × (Y.verify_darc_signature inst cdb ≡ none)
        × ((v : Bytes) × (id : String) × (Y.get_values cdb inst.instance_id
              ≡ ok (v, id, sc.darc_id)))
        × Change Y N cdb inst inst.kind sc)

failed_with :
    (Y : Collection) (N : Codec) (coins : List Y.Coin) (e : Error) (o : Outcome Y)
    → some (fail_with Y N coins e) ≡ some o
    → (e : Error) × (o.failed ≡ some e) × (o.changes ≡ [])
unfolding fail_with
failed_with Y N coins e o h =
    let same : fail_with Y N coins e ≡ o = some-injective _ _ h in
    (e, sym (ap (λ (x : Outcome Y). x.failed) same), sym (ap (λ (x : Outcome Y). x.changes) same))

by_kind :
    (Y : Collection) (N : Codec) (cdb : Y.View) (inst : Instruction) (c_in : List Y.Coin)
    (v : Bytes) (id : String) (darc_id : Bytes) (o : Outcome Y)
    → Y.verify_darc_signature inst cdb ≡ none
    → Y.get_values cdb inst.instance_id ≡ ok (v, id, darc_id)
    → IsRight Y N cdb inst c_in inst.kind darc_id o
    → ChangesOrFails Y N cdb inst c_in o
by_kind Y N cdb inst c_in v id darc_id o verified known r = elim (Option-cases o.failed) [
  | inr (e, f) ↦ inl (e, f, r.refused e f)
  | inl f ↦
      let (sc, one, coins, named, darc, ch) = r.done f in
      inr (sc, f, one, coins, named, verified, (v, id, rw darc known), ch)
]

-- What the contract does for any instruction, unless the codec panics. If it returns no error, the
-- signature of the instruction was verified and its instance is known, and it makes one change, under
-- the darc of that instance, and returns the coins that it was given: for a spawn, the creation of the
-- derived instance with its arguments; for an update, and no other command, the data that the view
-- has for the instance with the arguments written into it; for a delete, the removal of the instance.
-- If it returns an error it changes nothing.
pub contract_key_value-IsRight :
    (Y : Collection) (N : Codec) (cdb : Y.View) (inst : Instruction) (c_in : List Y.Coin)
    (o : Outcome Y)
    → contract_key_value Y N cdb inst c_in ≡ some o
    → ChangesOrFails Y N cdb inst c_in o
unfolding contract_key_value
contract_key_value-IsRight Y N cdb inst c_in o h =
    elim (Option-cases (Y.verify_darc_signature inst cdb)) [
      | inr (e, refused) ↦ inl (failed_with Y N c_in e o (rw (refused, contract_key_value) at h))
      | inl verified ↦ elim (Result-cases (Y.get_values cdb inst.instance_id)) [
        | inr (inr p) ↦ absurd (cc (rw (verified, p, contract_key_value) at h))
        | inr (inl (e, p)) ↦
            inl (failed_with Y N c_in e o (rw (verified, p, contract_key_value) at h))
        | inl ((v, id, darc_id), known) ↦ by_kind Y N cdb inst c_in v id darc_id o verified known (
            run_kind-IsRight Y N cdb inst c_in inst.kind darc_id o
              (rw (verified, known, contract_key_value) at h))
      ]
    ]
