-- ===== src/Store.antt =====
-- The databases of the two services: fully_centralized/service/struct.go (`StoreWrite`, `GetWrite`,
-- `getFromTx`) and semi_centralized/db.go (`StoreData`, `GetStoredData`, `getFromTx`) are the same
-- code over two types of request. A request is kept, marshalled, under the SHA-256 of its content.
-- Bolt and `network.Marshal` are parameters.
pub mod Laws
pub mod Fetch
use calypso_experiments.Base.{
  ◌≡◌, ◌⊎◌, Option, none, some, Result, ok, err, panic, ◌>>=◌, Error, if◌then◌else◌,
}
use calypso_experiments.Base.Bytes.{Bytes, eq_bytes}
use calypso_experiments.Hex.{Text, encode_to_string, decode_string}

-- A bucket of a bolt database. `update` gives the bucket after the transaction, and its error.
pub record Bolt : Type 1 where
  pub Bucket : Type 0
  pub get : Bucket → Bytes → Option Bytes
  -- `none` stands for an error.
  pub put : Bucket → Bytes → Bytes → Option Bucket
  pub update : Bucket → (Bucket → Result Bucket) → Bucket × Option Error
  pub view : {A : Type 0} → Bucket → (Bucket → Result A) → Result A

-- What bolt documents: a put is seen by the gets that follow; a transaction whose function returns
-- an error is rolled back; one whose function returns nil is committed, or is rolled back with the
-- error of the commit; a view runs its function on the bucket as it stands.
pub record IsBolt (B : Bolt) : Type 1 where
  pub get-put :
      (b b' : B.Bucket) (k v j : Bytes)
      → B.put b k v ≡ some b'
      → B.get b' j ≡ (if eq_bytes k j then some v else B.get b j)
  pub update_failed :
      (b : B.Bucket) (f : B.Bucket → Result B.Bucket) (e : Error)
      → f b ≡ err e
      → B.update b f ≡ (b, some e)
  pub update_done :
      (b b' : B.Bucket) (f : B.Bucket → Result B.Bucket)
      → f b ≡ ok b'
      → (B.update b f ≡ (b', none)) ⊎ ((e : Error) × (B.update b f ≡ (b, some e)))
  pub view_read : {A : Type 0} (b : B.Bucket) (f : B.Bucket → Result A) → B.view b f ≡ f b

-- What `network.Unmarshal` returns: a message of a registered type, the request's or another.
pub data Message (R : Type 0) : Type 0 where
  stored : R → Message R
  other : Message R

-- A type of request: the two fields that the database reads, its codec, and the one error text in
-- which the two files differ.
pub record Schema (R : Type 0) : Type 0 where
  pub content : R → Bytes
  pub digest : R → Bytes
  pub marshal : R → Result Bytes
  pub unmarshal : Bytes → Result (Message R)
  pub cannot_marshal : Error

pub record IsCodec {R : Type 0} (M : Schema R) : Type 0 where
  pub unmarshal-marshal : (r : R) (v : Bytes) → M.marshal r ≡ ok v → M.unmarshal v ≡ ok (stored r)

module _ (sum256 : Bytes → Bytes) (B : Bolt) {R : Type 0} (M : Schema R) where
  -- The function of the transaction.
  unfoldable pub insert_new : Bytes → Bytes → B.Bucket → Result B.Bucket
  insert_new data_hash val b = elim (B.get b data_hash) [
    | some _ ↦ err "Key already exists"
    | none ↦ elim (B.put b data_hash val) [ some b' ↦ ok b' | none ↦ err "Cannot store the value" ]
  ]

  unfoldable pub insert_marshalled : B.Bucket → Bytes → Bytes → B.Bucket × Result Text
  unfolding insert_new
  insert_marshalled db data_hash val =
      let (db', failed) = B.update db (insert_new data_hash val) in
      elim failed [ some e ↦ (db', err e) | none ↦ (db', ok (encode_to_string data_hash)) ]

  -- `StoreWrite` and `StoreData`
  unfoldable pub store : B.Bucket → R → B.Bucket × Result Text
  store db req =
      let data_hash = sum256 (M.content req) in
      if eq_bytes data_hash (M.digest req)
      then elim (M.marshal req) [
        | ok val ↦ insert_marshalled db data_hash val
        | err _ ↦ (db, err M.cannot_marshal)
        | panic ↦ (db, panic)
      ]
      else (db, err "Hashes do not match")

  -- `sr.(*StoreRequest)` panics on a message of another type.
  unfoldable pub type_assertion : Message R → Result R
  type_assertion (stored r) = ok r
  type_assertion other = panic

  -- `getFromTx`
  unfoldable pub get_from_tx : Bytes → B.Bucket → Result R
  unfolding type_assertion
  get_from_tx key b = elim (B.get b key) [
    | none ↦ err "Key does not exist"
    | some val ↦ M.unmarshal val >>= type_assertion
  ]

  -- `GetWrite` and `GetStoredData`
  unfoldable pub fetch : B.Bucket → Text → Result R
  unfolding get_from_tx
  fetch db key = do key_byte ← decode_string key; B.view db (get_from_tx key_byte)
