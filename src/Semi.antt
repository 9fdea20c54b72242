-- ===== src/Semi.antt =====
-- semi_centralized: the service (service.go, db.go) that keeps encrypted data and re-encrypts its key
-- for a reader whose write and read are on the ledger, and the calls of its client (api.go) that
-- reach it. ByzCoin, its proofs and the transport are parameters.
pub mod Access
pub mod Client
pub mod Holds
pub mod Recovery
pub mod Simulation
pub mod Program
pub mod Main
use calypso_experiments.Base.{
  ◌≡◌, String, List, [], ◌∷◌, Option, none, some, Bool, true, false, Result, ok, err, panic, ◌>>=◌,
  ◌>>◌, check, Error, if◌then◌else◌,
}
use Prim.Native.String.{◌++◌ as ◌<>◌}
use calypso_experiments.Base.Bytes.{Bytes, compare_bytes, eq_bytes, is_equal}
use calypso_experiments.Hex.{Text, decode_string}
use calypso_experiments.Crypto.{Crypto}
use calypso_experiments.Store.{Bolt, Schema, Message, store, fetch}
use calypso_experiments.Util.{
  WriteData, aead_open, compare_keys, el_gamal_encrypt, el_gamal_decrypt,
}

pub record StoreRequest : Type 0 where
  pub content : Bytes
  pub data_hash : Bytes

pub record StoreReply : Type 0 where
  pub stored_key : Text

-- `calypso.SemiWrite`, as `AddWriteTransaction` fills it.
pub record SemiWrite (C : Crypto) : Type 0 where
  pub data_hash : Bytes
  pub k : C.Point
  pub c : C.Point
  pub reader : C.Point
  pub enc_reader : Bytes

-- `calypso.Read`: the instance of the write that is to be read. (The service does not look at `Xc`.)
pub record CalypsoRead : Type 0 where
  pub write : Bytes

-- Proofs of ByzCoin, with the contracts of `calypso`.
pub record Ledger (C : Crypto) : Type 1 where
  pub Proof : Type 0
  pub SkipBlockId : Type 0
  -- `ContractValue` for `ContractReadID` and for `ContractSemiWriteID`
  pub read_value : Proof → Result CalypsoRead
  pub write_value : Proof → Result (SemiWrite C)
  -- `InclusionProof.Key`, `NewInstanceID`
  pub inclusion_key : Proof → Bytes
  pub new_instance_id : Bytes → Bytes
  pub verify_proof : Proof → SkipBlockId → Option Error

module _ {C : Crypto} (L : Ledger C) where
  pub record DecryptRequest : Type 0 where
    pub write : L.Proof
    pub read : L.Proof
    pub sc_id : L.SkipBlockId
    pub key : Text
    pub sig : Bytes

pub record DecryptReply (C : Crypto) : Type 0 where
  pub content : Bytes
  pub data_hash : Bytes
  pub k : C.Point
  pub c : C.Point

pub record Codec : Type 0 where
  pub marshal : StoreRequest → Result Bytes
  pub unmarshal : Bytes → Result (Message StoreRequest)

abbrev pub store_schema : Codec → Schema StoreRequest
store_schema N = record {
  content = λ r. r.content;
  digest = λ r. r.data_hash;
  marshal = N.marshal;
  unmarshal = N.unmarshal;
  cannot_marshal = "Cannot marshal store request";
}

pub record Draw (C : Crypto) : Type 0 where
  pub seed : C.Seed
  pub ephemeral : C.Scalar

-- `errors.New(prefix + err.Error())`
abbrev pub prefixed {ℓ} : {A : Type ℓ} → Error → Result A → Result A
prefixed p (ok a) = ok a
prefixed p (err e) = err (p <> e)
prefixed p panic = panic

module _ (C : Crypto) where
  unfoldable pub reencrypt_data : SemiWrite C → C.Scalar → Draw C → Result (C.Point × C.Point)
  reencrypt_data wt sk draw = do
    sym_key ← el_gamal_decrypt C sk wt.k wt.c
    dec_reader ← aead_open C sym_key wt.enc_reader
    same ← compare_keys C wt.reader dec_reader
    if is_equal same
        then (do
          let (k, c, _) = el_gamal_encrypt C wt.reader sym_key draw.seed draw.ephemeral
          ok (k, c))
        else err "Reader public key does not match"

module _ (C : Crypto) (L : Ledger C) where
  -- The last part of `verifyDecryptRequest`, on the key and its signature.
  unfoldable pub verify_key : DecryptRequest L → StoreRequest → SemiWrite C → Result (SemiWrite C)
  verify_key req stored_data write = do
    key_bytes ← decode_string req.key
    if eq_bytes key_bytes stored_data.data_hash
        then (do check (C.verify write.reader key_bytes req.sig); ok write)
        else err "Keys do not match"

  unfoldable pub verify_decrypt_request : DecryptRequest L → StoreRequest → Result (SemiWrite C)
  unfolding verify_key
  verify_decrypt_request req stored_data = do
    read ← prefixed "didn't get a read instance: " (L.read_value req.read)
    write ← prefixed "didn't get a write instance: " (L.write_value req.write)
    if eq_bytes read.write (L.new_instance_id (L.inclusion_key req.write))
        then (do
          prefixed "read proof cannot be verified to come from scID: "
              (check (L.verify_proof req.read req.sc_id))
          prefixed "write proof cannot be verified to come from scID: "
              (check (L.verify_proof req.write req.sc_id))
          verify_key req stored_data write)
        else err "read doesn't point to passed write"

module _ (C : Crypto) (L : Ledger C) (B : Bolt) (N : Codec) where
  -- `SemiCentralizedDB`
  unfoldable pub db_store_data : B.Bucket → StoreRequest → B.Bucket × Result Text
  db_store_data db req = store C.sum256 B (store_schema N) db req

  unfoldable pub get_stored_data : B.Bucket → Text → Result StoreRequest
  get_stored_data db key = fetch C.sum256 B (store_schema N) db key

  pub record Service : Type 0 where
    pub db : B.Bucket
    pub private : C.Scalar

  unfoldable pub store_data : Service → StoreRequest → Service × Result StoreReply
  unfolding db_store_data
  store_data s req =
      let (db', stored_key) = db_store_data s.db req in
      (record s { db = db' }, stored_key >>= λ key. ok (record { stored_key = key }))

  unfoldable pub decrypt : Service → DecryptRequest L → Draw C → Result (DecryptReply C)
  unfolding get_stored_data
  decrypt s req draw = do
    stored_data ← get_stored_data s.db req.key
    write_txn ← verify_decrypt_request C L req stored_data
    points ← reencrypt_data C write_txn s.private draw
    ok (record {
      content = stored_data.content;
      data_hash = stored_data.data_hash;
      k = points.0;
      c = points.1;
    })

  -- The stores that a server answers one after the other.
  unfoldable pub serve : Service → List StoreRequest → Service
  serve s [] = s
  serve s (req ∷ reqs) = serve (store_data s req).0 reqs
