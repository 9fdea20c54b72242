-- ===== src/KeyValue/Update.antt =====
-- The storage as a map: what `Update` does to each key.
use calypso_experiments.Base.{
  ◌≡◌, refl, ◌∙◌, ap, String, List, [], ◌∷◌, ◌++◌, true, false, Option, none, some, if◌then◌else◌,
  arith,
}
use text.Mathlib.Text.{◌==◌ as str_eq}
use text.Mathlib.TextEquality.{eq_iff}
use calypso_experiments.Base.Bytes.{Bytes}
use calypso_experiments.Byzcoin.{Argument}
use calypso_experiments.KeyValue.{
  KeyValue, KeyValueData, is_empty, scan, update_one, update_all, update,
}

-- The value of the first entry of a key.
abbrev pub value_of : String → List KeyValue → Option Bytes
value_of j [] = none
value_of j (kv ∷ l) = if str_eq kv.key j then some kv.value else value_of j l

abbrev pub HasUniqueKeys : List KeyValue → Type 0
HasUniqueKeys [] = Unit
HasUniqueKeys (kv ∷ l) = (value_of kv.key l ≡ none) × HasUniqueKeys l

-- What one argument means for the value under the key `j`: it replaces the value; an empty one
-- removes the key if it is there, and is stored if it is not.
abbrev pub effect : String → Option Bytes → Argument → Option Bytes
effect j old kv =
    if str_eq kv.name j
    then if is_empty kv.value
      then elim old [ none ↦ some kv.value | some _ ↦ none ]
      else some kv.value
    else old

abbrev pub effects : String → Option Bytes → List Argument → Option Bytes
effects j old [] = old
effects j old (kv ∷ args) = effects j (effect j old kv) args

scan-updated :
    (name : String) (value : Bytes) (l : List KeyValue)
    → (scan name value l).0 ≡ elim (value_of name l) [ none ↦ false | some _ ↦ true ]
unfolding scan
scan-updated name value [] = refl
scan-updated name value (kv ∷ l) = ground (arith, scan-updated name value l)

value_of-scan :
    (name : String) (value : Bytes) (j : String) (l : List KeyValue)
    → HasUniqueKeys l
    → value_of j (scan name value l).1 ≡ (
        if str_eq name j
        then elim (value_of j l) [
          | none ↦ none
          | some _ ↦ if is_empty value then none else some value
        ]
        else value_of j l)
unfolding scan
value_of-scan name value j [] u = ground arith
value_of-scan name value j (kv ∷ l) (fresh, u) =
    ground
      (arith, value_of-scan name value j l u, eq_iff kv.key name, eq_iff kv.key j, eq_iff name j)

value_of-append_one :
    (j : String) (kv : KeyValue) (l : List KeyValue)
    → value_of j (l ++ kv ∷ []) ≡ elim (value_of j l) [
      | some v ↦ some v
      | none ↦ if str_eq kv.key j then some kv.value else none
    ]
value_of-append_one j kv [] = ground arith
value_of-append_one j kv (x ∷ l) = ground (arith, value_of-append_one j kv l)

value_of-update_one :
    (j : String) (kv : Argument) (l : List KeyValue)
    → HasUniqueKeys l
    → value_of j (update_one kv l) ≡ effect j (value_of j l) kv
unfolding update_one
value_of-update_one j kv l u = ground (
  arith,
  scan-updated kv.name kv.value l,
  value_of-scan kv.name kv.value j l u,
  value_of-append_one j (record { key = kv.name; value = kv.value }) (scan kv.name kv.value l).1,
  eq_iff kv.name j,
)

scan-HasUniqueKeys :
    (name : String) (value : Bytes) (l : List KeyValue)
    → HasUniqueKeys l
    → HasUniqueKeys (scan name value l).1
unfolding scan
scan-HasUniqueKeys name value [] u = tt
scan-HasUniqueKeys name value (kv ∷ l) (fresh, u) = ground (
  arith,
  scan-HasUniqueKeys name value l u,
  value_of-scan name value kv.key l u,
  eq_iff name kv.key,
)

append_one-HasUniqueKeys :
    (kv : KeyValue) (l : List KeyValue)
    → HasUniqueKeys l
    → value_of kv.key l ≡ none
    → HasUniqueKeys (l ++ kv ∷ [])
append_one-HasUniqueKeys kv [] u fresh = (refl, tt)
append_one-HasUniqueKeys kv (x ∷ l) (fresh', u) fresh = ground (
  arith,
  append_one-HasUniqueKeys kv l u,
  value_of-append_one x.key kv l,
  eq_iff kv.key x.key,
  eq_iff x.key kv.key,
)

update_one-HasUniqueKeys :
    (kv : Argument) (l : List KeyValue) → HasUniqueKeys l → HasUniqueKeys (update_one kv l)
unfolding update_one
update_one-HasUniqueKeys kv l u = ground (
  arith,
  scan-updated kv.name kv.value l,
  scan-HasUniqueKeys kv.name kv.value l u,
  value_of-scan kv.name kv.value kv.name l u,
  append_one-HasUniqueKeys (record { key = kv.name; value = kv.value }) (scan kv.name kv.value l).1,
)

-- On a storage with unique keys an update keeps them unique, and leaves under each key what the
-- arguments, read one after the other, mean for that key.
pub update_refines :
    (cs : KeyValueData) (args : List Argument)
    → HasUniqueKeys cs.storage
    → HasUniqueKeys (update cs args).storage
      × ((j : String)
          → value_of j (update cs args).storage ≡ effects j (value_of j cs.storage) args)
unfolding update
update_refines cs args u = go args cs.storage u
  where
    go :
        (args : List Argument) (l : List KeyValue)
        → HasUniqueKeys l
        → HasUniqueKeys (update_all args l)
          × ((j : String) → value_of j (update_all args l) ≡ effects j (value_of j l) args)
    go [] l u = (u, λ j. refl)
    go (kv ∷ args) l u =
        let (unique, values) = go args (update_one kv l) (update_one-HasUniqueKeys kv l u) in
        (unique, λ j. values j ∙ ap (λ o. effects j o args) (value_of-update_one j kv l u))

-- Two entries of one key, as `NewContractStruct` makes them of two arguments of one name: an empty
-- value removes only the first, and the key keeps the value of the second.
pub delete_duplicate :
    (name : String) (v w : Bytes) (rest : List KeyValue)
    → value_of name
        (update
          (record {
            storage = record { key = name; value = v } ∷ record { key = name; value = w } ∷ rest;
          })
          (record { name = name; value = [] } ∷ [])).storage
      ≡ some w
unfolding update update_all update_one scan
delete_duplicate name v w rest = ground (arith, eq_iff name name)

scan_absent :
    (name : String) (value : Bytes) (l : List KeyValue)
    → value_of name l ≡ none
    → scan name value l ≡ (false, l)
unfolding scan
scan_absent name value [] h = refl
scan_absent name value (kv ∷ l) h = ground (arith, scan_absent name value l)

-- An empty value for a key that is not in the storage is not ignored: it adds an entry with that
-- empty value.
pub delete_absent :
    (name : String) (cs : KeyValueData)
    → value_of name cs.storage ≡ none
    → value_of name (update cs (record { name = name; value = [] } ∷ [])).storage ≡ some []
unfolding update update_all update_one
delete_absent name cs h = ground (
  arith,
  scan_absent name [] cs.storage h,
  value_of-append_one name (record { key = name; value = [] }) cs.storage,
  eq_iff name name,
)
