-- ===== src/Samples/Witnesses/Byzgen.antt =====
-- A round of Byzgen on the service of the semi-centralized samples: a block with a write and a block with
-- another transaction.
use calypso_experiments.Base.{
  ℕ, ◌≡◌, refl, Bool, true, false, not, ◌&&◌, ◌==◌, ==_iff, ap, List, [], ◌∷◌, ◌++◌, Result, ok,
  err, panic, All, arith,
}
use mathlib.Core.Path.{subst}
use calypso_experiments.Base.Bytes.{Bytes}
use calypso_experiments.Base.Calls.Succeed.{Gives}
use calypso_experiments.Util.{WriteData, create_write_data, aead_seal, el_gamal_encrypt}
use calypso_experiments.Util.Fresh.{AllNew, AllDiffer}
use calypso_experiments.Util.RoundTrip.{IsDrawn}
use calypso_experiments.Workload.{Item}
use calypso_experiments.Sharing.Blocks.Ends.{Counted}
use calypso_experiments.Semi.Simulation.{create_all, run_byzgen}
use calypso_experiments.Semi.Simulation.Running.{IsLasting}
use calypso_experiments.Semi.Simulation.Byzgen.{run_byzgen-Counted}
use calypso_experiments.Samples.Suite.{suite, suite-IsSound, draws-IsDrawn}
use calypso_experiments.Samples.Database.{bolt, bolt-IsBolt, semi_codec, semi_codec-IsCodec}
use calypso_experiments.Samples.Services.{semi, semi_transport, semi_at, semi-Delivers, ledger}
use calypso_experiments.Samples.Witnesses.Readers.{
  byzcoin, set_up, Asked, Wrote, item, byzcoin-IsLedger, byzcoin-TakesWrites, semi-Accepts,
  semi-Serves,
}

byzcoin-IsLasting : IsLasting byzcoin set_up Wrote Asked
byzcoin-IsLasting = record {
  write_keeps = λ y wd wait p id h. h;
  read_keeps = λ y q wait s id h. h;
  proof_keeps = λ y i p id h. h;
  proof_keeps_writes = λ y i s id h. h;
}

-- An item for each byte, with that byte as its content.
abbrev items_of : Bytes → List (Item suite)
items_of [] = []
items_of (b ∷ bs) = item (b ∷ []) ∷ items_of bs

items_of-IsDrawn : (bs : Bytes) → All (λ (i : Item suite). IsDrawn i.draws) (items_of bs)
items_of-IsDrawn [] = tt
items_of-IsDrawn (b ∷ bs) = (draws-IsDrawn, items_of-IsDrawn bs)

abbrev digits : Bytes
digits = b'0' ∷ b'1' ∷ b'2' ∷ b'3' ∷ b'4' ∷ b'5' ∷ b'6' ∷ b'7' ∷ b'8' ∷ b'9' ∷ []

abbrev items : List (Item suite)
items = item (b'h' ∷ b'i' ∷ []) ∷ []

abbrev second : Bytes → ℕ
second [] = 0
second (x ∷ []) = 0
second (x ∷ y ∷ rest) = y

-- No key of the list has `n` as its second byte.
abbrev none_has : ℕ → List (WriteData suite) → Bool
none_has n [] = true
none_has n (wd ∷ wds) = not (n == second wd.data_hash) && none_has n wds

abbrev all_apart : List (WriteData suite) → Bool
all_apart [] = true
all_apart (wd ∷ wds) = none_has (second wd.data_hash) wds && all_apart wds

both_true : (b c : Bool) → (b && c) ≡ true → (b ≡ true) × (c ≡ true)
both_true true c e = (refl, e)
both_true false c e = absurd (cc)

none_has-AllDiffer :
    (h : Bytes) (wds : List (WriteData suite)) → none_has (second h) wds ≡ true → AllDiffer h wds
none_has-AllDiffer h [] e = tt
none_has-AllDiffer h (wd ∷ wds) e =
    let (here, later) =
      both_true (not (second h == second wd.data_hash)) (none_has (second h) wds) e in
    (
      λ same.
          let equal = (==_iff (second h) (second wd.data_hash)).1 (ap second same) in absurd (cc),
      none_has-AllDiffer h wds later,
    )

all_apart-AllNew : (wds : List (WriteData suite)) → all_apart wds ≡ true → AllNew suite bolt [] wds
all_apart-AllNew [] e = tt
all_apart-AllNew (wd ∷ wds) e =
    let (here, later) = both_true (none_has (second wd.data_hash) wds) (all_apart wds) e in
    (refl, none_has-AllDiffer wd.data_hash wds here, all_apart-AllNew wds later)

abbrev made : Result (List (WriteData suite)) → List (WriteData suite)
made (ok wds) = wds
made (err e) = []
made panic = []

abbrev created : List (Item suite) → Result (List (WriteData suite))
created l = create_all suite ledger semi_transport byzcoin set_up (suite.mul_base 4) l

created-AllNew :
    (fixed_wds wds : List (WriteData suite))
    → created (items_of digits) ≡ ok fixed_wds
    → created items ≡ ok wds
    → AllNew suite bolt [] (fixed_wds ++ wds)
unfolding create_all create_write_data aead_seal el_gamal_encrypt
created-AllNew fixed_wds wds e e' = all_apart-AllNew (fixed_wds ++ wds) (
    subst (λ r. all_apart (made r ++ wds) ≡ true) e
      (subst (λ r. all_apart (made (created (items_of digits)) ++ made r) ≡ true) e' refl))

run_byzgen-Counted_example :
    Gives
      (run_byzgen suite ledger semi_transport byzcoin set_up 1 1
        (suite.mul_base 4)
        (items_of digits)
        items
        (1 ∷ 2 ∷ [])
        (1 ∷ 1 ∷ []))
      (semi, tt)
      (λ w' c. Counted (1 ∷ 2 ∷ []) c)
run_byzgen-Counted_example =
    run_byzgen-Counted suite ledger bolt semi_codec bolt-IsBolt semi_codec-IsCodec suite-IsSound
      semi_transport semi_at semi-Delivers tt [] byzcoin set_up 4 (9 ∷ []) Wrote byzcoin-TakesWrites
      semi-Accepts refl Asked byzcoin-IsLedger semi-Serves byzcoin-IsLasting 1 (items_of digits)
      items (1 ∷ 2 ∷ []) (1 ∷ 1 ∷ []) (semi, tt) (items_of-IsDrawn digits) (draws-IsDrawn, tt) refl
      created-AllNew refl (1, refl, (0, refl, refl)) (omega arith) (omega arith)
