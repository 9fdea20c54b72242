-- ===== src/Semi/Client.antt =====
-- semi_centralized/api.go: the calls of the client. What `network` and `protobuf` do is a parameter.
use calypso_experiments.Base.{ℕ, String, List, [], ◌∷◌, Result, ok, err, panic, ◌>>=◌}
use calypso_experiments.Base.Bytes.{Bytes}
use calypso_experiments.Hex.{Text, decode_string}
use calypso_experiments.Crypto.{Crypto}
use calypso_experiments.Byzcoin.{Byzcoin, Instruction, TransactionReply}
use calypso_experiments.Util.{WriteData}
use calypso_experiments.Semi.{
  StoreRequest, StoreReply, SemiWrite, CalypsoRead, Ledger, DecryptRequest, DecryptReply,
}

-- `SendProtobuf`, at the two requests.
pub record Transport {C : Crypto} (L : Ledger C) : Type 1 where
  pub World : Type 0
  pub Server : Type 0
  pub send_store : World → Server → StoreRequest → World × Result StoreReply
  pub send_decrypt : World → Server → DecryptRequest L → World × Result (DecryptReply C)

module _ {C : Crypto} (L : Ledger C) (T : Transport L) where
  -- `scCl.BcClient.Roster.List[0]` panics on an empty roster.
  unfoldable pub client_store_data :
      T.World → List T.Server → Bytes → Bytes → T.World × Result StoreReply
  client_store_data w [] content data_hash = (w, panic)
  client_store_data w (dest ∷ _) content data_hash =
      T.send_store w dest (record { content = content; data_hash = data_hash })

  -- The signed request.
  unfoldable pub sign_decrypt :
      L.Proof → L.Proof → Text → L.SkipBlockId → C.Scalar → C.Seed → Result (DecryptRequest L)
  sign_decrypt wr_proof r_proof key sc_id sk seed = do
    key_bytes ← decode_string key
    sig ← C.sign sk key_bytes seed
    ok (record { write = wr_proof; read = r_proof; sc_id = sc_id; key = key; sig = sig })

  unfoldable pub client_decrypt :
      T.World
      → List T.Server
      → L.SkipBlockId
      → L.Proof
      → L.Proof
      → Text
      → C.Scalar
      → C.Seed
      → T.World × Result (DecryptReply C)
  unfolding sign_decrypt
  client_decrypt w roster sc_id wr_proof r_proof key sk seed =
      elim (sign_decrypt wr_proof r_proof key sc_id sk seed) [
        | err e ↦ (w, err e)
        | panic ↦ (w, panic)
        | ok dr ↦ elim roster [ [] ↦ (w, panic) | dest ∷ _ ↦ T.send_decrypt w dest dr ]
      ]

module _ (Y : Byzcoin) where
  -- Signs the one instruction of a transaction under a darc, sends it, and gives the reply with the
  -- instance that the signed instruction derives.
  unfoldable pub send_signed :
      Y.World → Instruction → Bytes → Y.Signer → ℕ → Y.World × Result (TransactionReply Y)
  send_signed w inst darc_id signer wait = elim (Y.sign_by inst darc_id signer) [
    | err e ↦ (w, err e)
    | panic ↦ (w, panic)
    | ok signed ↦
        let (w', response) = Y.add_transaction_and_wait w (signed ∷ []) wait in
        (w', response >>= λ r. ok (record { response = r; instance_id = Y.derive_id signed }))
  ]

  unfoldable pub spawn_instruction : Bytes → Bytes → String → String → Bytes → Instruction
  spawn_instruction target nonce contract_id name value = record {
    instance_id = target;
    nonce = nonce;
    index = 0;
    count = 1;
    contract_id = contract_id;
    args = record { name = name; value = value } ∷ [];
    signatures = [];
  }

  -- `nonce` is what `byzcoin.GenNonce()` gives.
  unfoldable pub spawn_darc :
      Y.World → Y.Signer → Y.Darc → Y.Darc → ℕ → Bytes → Y.World × Result Y.AddTxResponse
  unfolding spawn_instruction
  spawn_darc w signer new_darc control_darc wait nonce = elim (Y.to_proto new_darc) [
    | err e ↦ (w, err e)
    | panic ↦ (w, panic)
    | ok darc_buf ↦
        let inst =
          spawn_instruction (Y.new_instance_id (Y.get_base_id control_darc)) nonce
            Y.contract_darc_id "darc" darc_buf in
        elim (Y.sign_by inst (Y.get_base_id control_darc) signer) [
          | err e ↦ (w, err e)
          | panic ↦ (w, panic)
          | ok signed ↦ Y.add_transaction_and_wait w (signed ∷ []) wait
        ]
  ]

abbrev pub semi_write_of : {C : Crypto} → WriteData C → SemiWrite C
semi_write_of wd = record {
  data_hash = wd.data_hash;
  k = wd.k;
  c = wd.c;
  reader = wd.reader;
  enc_reader = wd.enc_reader;
}

-- `zero_nonce` is `byzcoin.Nonce{}`.
module _ (Y : Byzcoin) (zero_nonce : Bytes) where
  -- `encode` is `protobuf.Encode`.
  unfoldable pub add_write_transaction :
      {C : Crypto}
      → (SemiWrite C → Result Bytes)
      → Y.World
      → WriteData C
      → Y.Signer
      → Y.Darc
      → ℕ
      → Y.World × Result (TransactionReply Y)
  unfolding send_signed spawn_instruction
  add_write_transaction encode w wd signer darc wait = elim (encode (semi_write_of wd)) [
    | err e ↦ (w, err e)
    | panic ↦ (w, panic)
    | ok write_buf ↦
        send_signed Y w
          (spawn_instruction Y (Y.new_instance_id (Y.get_base_id darc)) zero_nonce
            Y.contract_semi_write_id "write" write_buf)
          (Y.get_id darc) signer wait
  ]

  -- `encode` takes the read and the signer, whose public key is `Xc`.
  unfoldable pub add_read_transaction :
      (CalypsoRead → Y.Signer → Result Bytes)
      → Y.World
      → Y.Proof
      → Y.Signer
      → Y.Darc
      → ℕ
      → Y.World × Result (TransactionReply Y)
  unfolding send_signed spawn_instruction
  add_read_transaction encode w proof signer darc wait =
      let target = Y.new_instance_id (Y.inclusion_key proof) in
      elim (encode (record { write = target }) signer) [
        | err e ↦ (w, err e)
        | panic ↦ (w, panic)
        | ok read_buf ↦
            send_signed Y w
              (spawn_instruction Y target zero_nonce Y.contract_read_id "read" read_buf)
              (Y.get_id darc) signer wait
      ]
