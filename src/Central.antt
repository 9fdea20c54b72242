-- ===== src/Central.antt =====
-- fully_centralized: the service (service/service.go, service/struct.go) that keeps write requests
-- and re-encrypts their keys, and its client (service/api.go, api.go). The two files of the service
-- name no part of onet but the transport, which is a parameter of the client.
pub mod Access
pub mod Recovery
pub mod Simulation
pub mod Program
pub mod Main
pub mod Printed
use calypso_experiments.Base.{
  ◌≡◌, String, List, [], ◌∷◌, Option, none, some, Bool, true, false, Result, ok, err, panic, ◌>>=◌,
  ◌>>◌, check, Error, if◌then◌else◌,
}
use calypso_experiments.Base.Bytes.{Bytes, eq_bytes}
use calypso_experiments.Hex.{Text, decode_string}
use calypso_experiments.Crypto.{Crypto}
use calypso_experiments.Store.{Bolt, Schema, Message, store, fetch}
use calypso_experiments.Util.{WriteData, el_gamal_encrypt, el_gamal_decrypt}

pub record WriteRequest (C : Crypto) : Type 0 where
  pub enc_data : Bytes
  pub data_hash : Bytes
  pub k : C.Point
  pub c : C.Point
  pub reader : C.Point
  pub enc_reader : Bytes

pub record WriteReply : Type 0 where
  pub write_id : Text

pub record ReadRequest : Type 0 where
  pub write_id : Text
  pub sig : Bytes

pub record ReadReply (C : Crypto) : Type 0 where
  pub k : C.Point
  pub c : C.Point

-- `network.Marshal` and `network.Unmarshal`, at the requests of this service.
pub record Codec (C : Crypto) : Type 0 where
  pub marshal : WriteRequest C → Result Bytes
  pub unmarshal : Bytes → Result (Message (WriteRequest C))

-- What the database reads of a write request.
abbrev pub write_schema : {C : Crypto} → Codec C → Schema (WriteRequest C)
write_schema N = record {
  content = λ r. r.enc_data;
  digest = λ r. r.data_hash;
  marshal = N.marshal;
  unmarshal = N.unmarshal;
  cannot_marshal = "Cannot marshal write request";
}

-- The random values of one re-encryption.
pub record Draw (C : Crypto) : Type 0 where
  pub seed : C.Seed
  pub ephemeral : C.Scalar

module _ (C : Crypto) where
  unfoldable pub reencrypt_data :
      ReadRequest → WriteRequest C → C.Scalar → Draw C → Result (C.Point × C.Point)
  reencrypt_data rr sw sk draw = do
    wid_bytes ← decode_string rr.write_id
    if eq_bytes wid_bytes sw.data_hash
        then (do
          check (C.verify sw.reader wid_bytes rr.sig)
          sym_key ← el_gamal_decrypt C sk sw.k sw.c
          let (k, c, _) = el_gamal_encrypt C sw.reader sym_key draw.seed draw.ephemeral
          ok (k, c))
        else err "WriteIDs do not match"

module _ (C : Crypto) (B : Bolt) (N : Codec C) where
  unfoldable pub store_write : B.Bucket → WriteRequest C → B.Bucket × Result Text
  store_write db req = store C.sum256 B (write_schema N) db req

  unfoldable pub get_write : B.Bucket → Text → Result (WriteRequest C)
  get_write db write_id = fetch C.sum256 B (write_schema N) db write_id

  -- The part of `Service` that the handlers use: the database and the private key of the server.
  pub record Service : Type 0 where
    pub db : B.Bucket
    pub private : C.Scalar

  unfoldable pub write : Service → WriteRequest C → Service × Result WriteReply
  unfolding store_write
  write s req =
      let (db', stored_key) = store_write s.db req in
      (record s { db = db' }, stored_key >>= λ key. ok (record { write_id = key }))

  unfoldable pub read : Service → ReadRequest → Draw C → Result (ReadReply C)
  unfolding get_write
  read s req draw = do
    stored_write ← get_write s.db req.write_id
    points ← reencrypt_data C req stored_write s.private draw
    ok (record { k = points.0; c = points.1 })

  -- The requests that a server answers one after the other. A read changes nothing.
  unfoldable pub serve : Service → List (WriteRequest C) → Service
  serve s [] = s
  serve s (req ∷ reqs) = serve (write s req).0 reqs

-- `SendProtobuf`, at the two requests, over the state of everything that the sending can change.
pub record Transport (C : Crypto) : Type 1 where
  pub World : Type 0
  pub Server : Type 0
  pub send_write : World → Server → WriteRequest C → World × Result WriteReply
  pub send_read : World → Server → ReadRequest → World × Result (ReadReply C)

module _ {C : Crypto} where
  -- `EncReader` is not set.
  abbrev pub request_of : WriteData C → WriteRequest C
  request_of wd = record {
    enc_data = wd.content;
    data_hash = wd.data_hash;
    k = wd.k;
    c = wd.c;
    reader = wd.reader;
    enc_reader = [];
  }

module _ (C : Crypto) (T : Transport C) where
  -- `r.List[0]` panics on an empty roster.
  unfoldable pub client_write :
      T.World → List T.Server → WriteRequest C → T.World × Result WriteReply
  client_write w [] wr = (w, panic)
  client_write w (dest ∷ _) wr = T.send_write w dest wr

  unfoldable pub client_read :
      T.World → List T.Server → ReadRequest → T.World × Result (ReadReply C)
  client_read w [] rr = (w, panic)
  client_read w (dest ∷ _) rr = T.send_read w dest rr

  -- The write data comes back with its key set, beside the error: `none` for a panic.
  unfoldable pub create_write_txn :
      T.World → List T.Server → WriteData C → T.World × Option (WriteData C × Option Error)
  unfolding client_write
  create_write_txn w roster wd =
      let (w', reply) = client_write w roster (request_of wd) in
      elim reply [
        | ok r ↦ (w', some (record wd { stored_key = r.write_id }, none))
        | err e ↦ (w', some (record wd { stored_key = [] }, some e))
        | panic ↦ (w', none)
      ]

  -- `widBytes`, `sig` and the request.
  unfoldable pub sign_read : Text → C.Scalar → C.Seed → Result ReadRequest
  sign_read write_id sk seed = do
    wid_bytes ← decode_string write_id
    sig ← C.sign sk wid_bytes seed
    ok (record { write_id = write_id; sig = sig })

  unfoldable pub create_read_txn :
      T.World → List T.Server → Text → C.Scalar → C.Seed → T.World × Result (C.Point × C.Point)
  unfolding sign_read client_read
  create_read_txn w roster write_id sk seed = elim (sign_read write_id sk seed) [
    | err e ↦ (w, err e)
    | panic ↦ (w, panic)
    | ok rr ↦ let (w', reply) = client_read w roster rr in (w', reply >>= λ r. ok (r.k, r.c))
  ]
