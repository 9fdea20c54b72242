-- ===== src/Samples/Witnesses/Storage.antt =====
-- The key/value contract.
use calypso_experiments.Base.{ℕ, ◌≡◌, refl, String, List, [], ◌∷◌, none, some, ok}
use calypso_experiments.Byzcoin.{Argument}
use calypso_experiments.Contracts.{Instruction, Collection, Outcome, invoke, Action}
use calypso_experiments.KeyValue.{KeyValueData, Codec, update, contract_key_value}
use calypso_experiments.KeyValue.Update.{
  value_of, HasUniqueKeys, effects, update_refines, delete_absent, delete_duplicate,
}
use calypso_experiments.KeyValue.Contract.{ChangesOrFails, contract_key_value-IsRight}

abbrev storage : KeyValueData
storage = record {
  storage = record { key = "a"; value = 1 ∷ [] } ∷ record { key = "b"; value = 2 ∷ [] } ∷ [];
}

abbrev args : List Argument
args = record { name = "b"; value = [] } ∷ record { name = "c"; value = 3 ∷ [] } ∷ []

update_refines_example :
    HasUniqueKeys (update storage args).storage
    × ((j : String)
        → value_of j (update storage args).storage ≡ effects j (value_of j storage.storage) args)
update_refines_example = update_refines storage args (refl, (refl, tt))

delete_absent_example :
    value_of "c" (update storage (record { name = "c"; value = [] } ∷ [])).storage ≡ some []
delete_absent_example = delete_absent "c" storage refl

delete_duplicate_example :
    value_of "a"
      (update
        (record {
          storage =
              record { key = "a"; value = 1 ∷ [] } ∷ record { key = "a"; value = 2 ∷ [] } ∷ [];
        })
        (record { name = "a"; value = [] } ∷ [])).storage
    ≡ some (2 ∷ [])
delete_duplicate_example = delete_duplicate "a" (1 ∷ []) (2 ∷ []) []

-- One instance, whose data decodes to `storage`, under the darc 7.
abbrev state : Collection
state = record {
  View = Unit {0};
  Coin = ℕ;
  verify_darc_signature = λ inst cdb. none;
  get_values = λ cdb id. ok (1 ∷ [], "keyValue", 7 ∷ []);
}

abbrev codec : Codec
codec = record { encode = λ cs. ok (1 ∷ []); decode = λ b. ok storage }

abbrev instruction : Instruction
instruction = record { instance_id = 1 ∷ []; kind = invoke "update" args; derived = 2 ∷ [] }

abbrev outcome : Outcome state
outcome = record {
  changes =
      record {
        action = Action.update;
        instance_id = 1 ∷ [];
        contract_id = "keyValue";
        value = 1 ∷ [];
        darc_id = 7 ∷ [];
      }
      ∷ [];
  coins = 5 ∷ [];
  failed = none;
}

contract_key_value-IsRight_example : ChangesOrFails state codec tt instruction (5 ∷ []) outcome
unfolding contract_key_value
contract_key_value-IsRight_example =
    contract_key_value-IsRight state codec tt instruction (5 ∷ []) outcome refl
