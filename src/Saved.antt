-- ===== src/Saved.antt =====
-- The start of the three services and the storage that they save: `save`, `tryLoad` and the functions
-- that make a service (service/service.go, fully_centralized/service/service.go,
-- semi_centralized/service.go). The storage of onet is a parameter.
pub mod Restart
use calypso_experiments.Base.{
  ℕ, ◌≡◌, Bool, List, [], ◌∷◌, Option, none, some, Result, ok, err, panic, Error, ◌>>=◌,
  if◌then◌else◌,
}
use calypso_experiments.Crypto.{Crypto}
use calypso_experiments.Store.{Bolt}
use calypso_experiments.Central
use calypso_experiments.Semi
use calypso_experiments.Template.{Tree, Storage, clock}

-- What `Load` finds: a value of the type of the storage, or of another type.
pub data Loaded (A : Type 0) : Type 0 where
  right_type : A → Loaded A
  wrong_type : Loaded A

-- `Save` and `Load` of the context under `storageID`, over the state of the disk; `none` for nothing
-- that was saved.
pub record Context (A : Type 0) : Type 1 where
  pub Disk : Type 0
  pub save : Disk → A → Disk × Option Error
  pub load : Disk → Result (Option (Loaded A))

module _ {A : Type 0} (X : Context A) where
  -- The error is only logged.
  unfoldable pub save : X.Disk → A → X.Disk
  save disk storage = (X.save disk storage).0

  -- The storage after `tryLoad`; `empty` is `&storage{}`.
  unfoldable pub try_load : A → X.Disk → Result A
  try_load empty disk = do
    msg ← X.load disk
    elim msg [
      | none ↦ ok empty
      | some (right_type storage) ↦ ok storage
      | some wrong_type ↦ err "Data of wrong type"
    ]

  -- `registered` is whether the handlers could be registered.
  unfoldable pub new_service : A → Bool → X.Disk → Result A
  unfolding try_load
  new_service empty registered disk =
      if registered then try_load empty disk else err "Couldn't register messages"

-- `newCentralizedCalypsoService`: the database of the bucket and the private key of the server, beside
-- the saved storage.
unfoldable pub new_centralized_calypso_service :
    {A : Type 0} (X : Context A) (C : Crypto) (B : Bolt) (N : Central.Codec C)
    → B.Bucket
    → C.Scalar
    → A
    → Bool
    → X.Disk
    → Result (Central.Service C B N × A)
unfolding new_service
new_centralized_calypso_service X C B N db private empty registered disk = do
  storage ← new_service X empty registered disk
  ok (record { db = db; private = private }, storage)

-- `newSemiCentralizedService`
unfoldable pub new_semi_centralized_service :
    {A : Type 0} (X : Context A) (C : Crypto) (G : Semi.Ledger C) (B : Bolt) (N : Semi.Codec)
    → B.Bucket
    → C.Scalar
    → A
    → Bool
    → X.Disk
    → Result (Semi.Service C G B N × A)
unfolding new_service
new_semi_centralized_service X C G B N db private empty registered disk = do
  storage ← new_service X empty registered disk
  ok (record { db = db; private = private }, storage)

module _ (X : Context Storage) where
  -- `newService` of the template.
  unfoldable pub new_template_service : Bool → X.Disk → Result Storage
  unfolding new_service
  new_template_service registered disk = new_service X (record { count = 0 }) registered disk

  -- A call of `Clock` and what it leaves on the disk: the counter is saved before the tree is made.
  unfoldable pub clock_saved :
      Storage × X.Disk → Option Tree → Result (Unit {0}) → (Storage × X.Disk) × Option (Result ℕ)
  unfolding clock save
  clock_saved (s, disk) generated created =
      let (s', reply) = clock s generated created in ((s', save X disk s'), reply)

  -- The service and the disk after a sequence of calls.
  unfoldable pub clocks_saved :
      Storage × X.Disk → List (Option Tree × Result (Unit {0})) → Storage × X.Disk
  unfolding clock_saved
  clocks_saved state [] = state
  clocks_saved state ((generated, created) ∷ calls) =
      clocks_saved (clock_saved state generated created).0 calls
