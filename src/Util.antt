-- ===== src/Util.antt =====
-- util/util.go: hybrid encryption. Data is sealed by AES-GCM under a fresh key, and that key is
-- encrypted by ElGamal to the server. What `rand.Reader` and `random.New()` give to a call is an
-- argument of the call.
pub mod RoundTrip
pub mod Fresh
use calypso_experiments.Base.{
  ℕ, ◌+◌, ◌-◌, String, List, [], ◌∷◌, ◌++◌, Bool, true, false, Option, none, some, Result, ok, err,
  panic, ◌>>=◌, ltb, if◌then◌else◌, length, take, drop,
}
use calypso_experiments.Base.Bytes.{Bytes, Sign, compare_bytes}
use calypso_experiments.Hex.{Text}
use calypso_experiments.Crypto.{Crypto}

abbrev pub nonce_len : ℕ
nonce_len = 12

-- The random values that one call of `CreateWriteData` draws, in the order of the draws.
pub record Draws (C : Crypto) : Type 0 where
  pub sym_key : Bytes
  pub data_nonce : Result Bytes
  pub key_seed : C.Seed
  pub ephemeral : C.Scalar
  pub reader_nonce : Result Bytes

pub record WriteData (C : Crypto) : Type 0 where
  pub content : Bytes
  pub data_hash : Bytes
  pub k : C.Point
  pub c : C.Point
  pub reader : C.Point
  pub enc_reader : Bytes
  pub stored_key : Text

module _ (C : Crypto) where
  unfoldable pub compare_keys : C.Point → Bytes → Result Sign
  compare_keys reader_pt dec_reader = do
    reader_pt_bytes ← C.marshal_binary reader_pt
    ok (compare_bytes reader_pt_bytes dec_reader)

  -- `read` is what `io.ReadFull(rand.Reader, nonce)` gives.
  unfoldable pub aead_seal : Bytes → Bytes → Result Bytes → Result Bytes
  aead_seal sym_key content read = do
    block ← C.new_cipher sym_key
    nonce ← read
    aesgcm ← C.new_gcm block
    ok (C.seal aesgcm nonce content ++ nonce)

  unfoldable pub aead_open : Bytes → Bytes → Result Bytes
  aead_open key ciphertext = do
    block ← C.new_cipher key
    aesgcm ← C.new_gcm block
    if ltb (length ciphertext) 12
        then err "ciphertext too short"
        else C.unseal aesgcm (drop (length ciphertext - nonce_len) ciphertext)
            (take (length ciphertext - nonce_len) ciphertext)

  unfoldable pub el_gamal_decrypt : C.Scalar → C.Point → C.Point → Result Bytes
  el_gamal_decrypt sk k c = C.point_data (C.sub c (C.mul sk k))

  -- `K`, `C` and the remainder.
  unfoldable pub el_gamal_encrypt : C.Point → Bytes → C.Seed → C.Scalar → C.Point × C.Point × Bytes
  el_gamal_encrypt pk msg seed k =
      let max = if ltb (length msg) C.embed_len then length msg else C.embed_len in
      (C.mul_base k, C.add (C.mul k pk) (C.embed msg seed), drop max msg)

  unfoldable pub recover_data : Bytes → C.Scalar → C.Point → C.Point → Result Bytes
  recover_data enc_data sk k c = do recv_key ← el_gamal_decrypt sk k c; aead_open recv_key enc_data

  unfoldable pub sym_encrypt : Bytes → Bytes → Result Bytes → Result Bytes
  unfolding aead_seal
  sym_encrypt msg key read = do enc_data ← aead_seal key msg read; ok enc_data

  -- `EncReader` is filled only for the semi-centralized service.
  unfoldable pub create_write_data :
      Draws C → Bytes → C.Point → C.Point → Bool → Result (WriteData C)
  unfolding sym_encrypt el_gamal_encrypt
  create_write_data draws content reader server_key is_semi = do
    enc_data ← sym_encrypt content draws.sym_key draws.data_nonce
    let (k, c, _) = el_gamal_encrypt server_key draws.sym_key draws.key_seed draws.ephemeral
    let wd : WriteData C = record {
      content = enc_data;
      data_hash = C.sum256 enc_data;
      k = k;
      c = c;
      reader = reader;
      enc_reader = [];
      stored_key = [];
    }
    if is_semi
        then (do
          reader_bytes ← C.marshal_binary reader
          enc_reader ← sym_encrypt reader_bytes draws.sym_key draws.reader_nonce
          ok (record wd { enc_reader = enc_reader }))
        else ok wd

  -- The lines of the key file, or why it cannot be opened; `encoding.StringHexToPoint` is `parse`.
  parse_keys : (Text → Result C.Point) → List Text → Result (List C.Point)
  parse_keys parse [] = ok []
  parse_keys parse (line ∷ lines) = do
    tmp ← parse line
    keys ← parse_keys parse lines
    ok (tmp ∷ keys)

  first_key : List C.Point → Result C.Point
  first_key [] = panic
  first_key (key ∷ keys) = ok key

  unfoldable pub get_server_key : (Text → Result C.Point) → Result (List Text) → Result C.Point
  unfolding parse_keys first_key
  get_server_key parse file = do lines ← file; keys ← parse_keys parse lines; first_key keys

-- The file, and what `app.ReadGroupDescToml` makes of it: the servers of the group. For an empty
-- group the code returns a nil roster with the `err` of the call before, which is nil.
unfoldable pub read_roster {ℓ} :
    {File : Type ℓ} {Server : Type ℓ}
    → (File → Result (List Server))
    → Result File
    → Result (Option (List Server))
read_roster read_group file = do
  f ← file
  group ← read_group f
  elim group [ [] ↦ ok none | s ∷ ss ↦ ok (some (s ∷ ss)) ]
