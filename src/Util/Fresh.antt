-- ===== src/Util/Fresh.antt =====
-- Write data (util/util.go) that a database does not have yet.
use calypso_experiments.Base.{◌≡◌, ◌≢◌, ◌∙◌, ℕ, List, [], ◌∷◌, none, ok}
use calypso_experiments.Base.Bytes.{Bytes}
use calypso_experiments.Crypto.{Crypto}
use calypso_experiments.Store.{Bolt, IsBolt, Schema, store}
use calypso_experiments.Store.Laws.{get-store}
use calypso_experiments.Util.{WriteData}

-- Write data whose keys are new to a database, and differ.
abbrev pub AllDiffer : {C : Crypto} → Bytes → List (WriteData C) → Type 0
AllDiffer h [] = Unit
AllDiffer h (wd ∷ wds) = (h ≢ wd.data_hash) × AllDiffer h wds

module _ (C : Crypto) (B : Bolt) where
  abbrev pub AllNew : B.Bucket → List (WriteData C) → Type 0
  AllNew db [] = Unit
  AllNew db (wd ∷ wds) = (B.get db wd.data_hash ≡ none) × AllDiffer wd.data_hash wds × AllNew db wds

-- Storing other content leaves the keys new.
pub AllNew-store :
    {R : Type 0} (C : Crypto) (B : Bolt) (L : IsBolt B) (schema : Schema R) (db : B.Bucket) (r : R)
    (key : List ℕ) (h : Bytes) (wds : List (WriteData C))
    → (store C.sum256 B schema db r).1 ≡ ok key
    → h ≡ C.sum256 (schema.content r)
    → AllDiffer h wds
    → AllNew C B db wds
    → AllNew C B (store C.sum256 B schema db r).0 wds
AllNew-store C B L schema db r key h [] done hashed differ new = tt
AllNew-store C B L schema db r key h (wd ∷ wds) done hashed (d, differ) (absent, differ', new) = (
  get-store C.sum256 B L schema db r key wd.data_hash done (λ e. d (hashed ∙ e)) ∙ absent,
  differ',
  AllNew-store C B L schema db r key h wds done hashed differ new,
)
