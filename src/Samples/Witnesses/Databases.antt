-- ===== src/Samples/Witnesses/Databases.antt =====
-- The database, the sealing and the two services that answer from it.
use calypso_experiments.Base.{◌≡◌, ◌↔◌, refl, [], ◌∷◌, ◌++◌, ok, replicate, true}
use calypso_experiments.Base.Bytes.{Bytes}
use calypso_experiments.Hex.{encode_to_string}
use calypso_experiments.Central
use calypso_experiments.Central.Access.{IsAnswer as CentralAnswer, read-eq-ok}
use calypso_experiments.Semi
use calypso_experiments.Semi.Access.{IsAnswer as SemiAnswer, decrypt-eq-ok}
use calypso_experiments.Store.{Schema, store, fetch}
use calypso_experiments.Store.Laws.{AddsOrKeeps, store_refines, store_accepts}
use calypso_experiments.Store.Fetch.{fetch-store, IsKeyed, store-IsKeyed}
use calypso_experiments.Util.{
  WriteData, aead_open, el_gamal_encrypt, el_gamal_decrypt, create_write_data,
}
use calypso_experiments.Util.RoundTrip.{
  Seals, create_write_data-Seals_semi, el_gamal_decrypt-el_gamal_encrypt,
}
use calypso_experiments.Samples.Suite.{
  suite, suite-IsSound, draws, draws-IsDrawn, low_bytes-IsBytes, nonce,
}
use calypso_experiments.Samples.Database.{
  bolt, bolt-IsBolt, central_codec, semi_codec, semi_codec-IsCodec,
}
use calypso_experiments.Samples.Services.{central, ledger, semi, semi-HasRoom}

abbrev schema : Schema Semi.StoreRequest
schema = Semi.store_schema semi_codec

abbrev request : Semi.StoreRequest
request = record { content = 5 ∷ 200 ∷ []; data_hash = 5 ∷ 200 ∷ [] }

-- A database with that request.
abbrev kept : bolt.Bucket
kept = (store suite.sum256 bolt schema [] request).0

empty-IsKeyed : IsKeyed suite.sum256 bolt bolt-IsBolt schema semi_codec-IsCodec []
empty-IsKeyed = record { keyed = λ k r h. absurd (cc) }

store_refines_example :
    AddsOrKeeps suite.sum256 bolt bolt-IsBolt schema [] request
      (store suite.sum256 bolt schema [] request)
store_refines_example =
    store_refines suite.sum256 bolt bolt-IsBolt schema semi_codec-IsCodec [] request

store_accepts_example :
    (store suite.sum256 bolt schema [] request).1 ≡ ok (encode_to_string (5 ∷ 200 ∷ []))
store_accepts_example =
    store_accepts suite.sum256 bolt bolt-IsBolt schema [] request _ (semi-HasRoom []) refl refl refl

fetch-store_example :
    fetch suite.sum256 bolt schema kept (encode_to_string (5 ∷ 200 ∷ [])) ≡ ok request
fetch-store_example =
    fetch-store suite.sum256 bolt bolt-IsBolt schema semi_codec-IsCodec low_bytes-IsBytes [] request
      (encode_to_string (5 ∷ 200 ∷ []))
      (store_accepts suite.sum256 bolt bolt-IsBolt schema [] request _ (semi-HasRoom []) refl refl
        refl)

abbrev write_request : Central.WriteRequest suite
write_request = record {
  enc_data = 1 ∷ 2 ∷ [];
  data_hash = 1 ∷ 2 ∷ [];
  k = (1, []);
  c = (2, 7 ∷ []);
  reader = (3, []);
  enc_reader = [];
}

abbrev read_request : Central.ReadRequest
read_request = record { write_id = encode_to_string (1 ∷ 2 ∷ []); sig = 3 ∷ 1 ∷ 2 ∷ [] }

abbrev written : Central.Service suite bolt central_codec
written = (Central.write suite bolt central_codec central write_request).0

read-eq-ok_example :
    (Central.read suite bolt central_codec written read_request
        (record { seed = tt; ephemeral = 1 })
      ≡ ok (record { k = (1, []); c = (3, 7 ∷ []) }))
    ↔ CentralAnswer suite bolt bolt-IsBolt central_codec written read_request
        (record { seed = tt; ephemeral = 1 })
        (record { k = (1, []); c = (3, 7 ∷ []) })
read-eq-ok_example =
    read-eq-ok suite bolt bolt-IsBolt central_codec written read_request
      (record { seed = tt; ephemeral = 1 }) (record { k = (1, []); c = (3, 7 ∷ []) })

abbrev write_transaction : Semi.SemiWrite suite
write_transaction = record {
  data_hash = 5 ∷ 200 ∷ [];
  k = (1, []);
  c = (2, replicate 16 3);
  reader = (9, []);
  enc_reader = b'x' ∷ 9 ∷ nonce;
}

abbrev decrypt_request : Semi.DecryptRequest ledger
decrypt_request = record {
  write = (write_transaction, 8 ∷ []);
  read = (write_transaction, 8 ∷ []);
  sc_id = 1;
  key = encode_to_string (5 ∷ 200 ∷ []);
  sig = 9 ∷ 5 ∷ 200 ∷ [];
}

abbrev decrypt_reply : Semi.DecryptReply suite
decrypt_reply = record {
  content = 5 ∷ 200 ∷ [];
  data_hash = 5 ∷ 200 ∷ [];
  k = (1, []);
  c = (9, replicate 16 3);
}

abbrev stored_semi : Semi.Service suite ledger bolt semi_codec
stored_semi = (Semi.store_data suite ledger bolt semi_codec semi request).0

decrypt-eq-ok_example :
    (Semi.decrypt suite ledger bolt semi_codec stored_semi decrypt_request
        (record { seed = tt; ephemeral = 1 })
      ≡ ok decrypt_reply)
    ↔ SemiAnswer suite ledger bolt bolt-IsBolt semi_codec stored_semi decrypt_request
        (record { seed = tt; ephemeral = 1 })
        decrypt_reply
decrypt-eq-ok_example =
    decrypt-eq-ok suite ledger bolt bolt-IsBolt semi_codec stored_semi decrypt_request
      (record { seed = tt; ephemeral = 1 }) decrypt_reply

store-IsKeyed_example :
    IsKeyed suite.sum256 bolt bolt-IsBolt schema semi_codec-IsCodec
      (store suite.sum256 bolt schema [] request).0
store-IsKeyed_example =
    store-IsKeyed suite.sum256 bolt bolt-IsBolt schema semi_codec-IsCodec [] request empty-IsKeyed

create_write_data-Seals_semi_example :
    (wd : WriteData suite) × (create_write_data suite draws (1 ∷ 2 ∷ []) (9, []) (4, []) true
      ≡ ok wd)
    × Seals suite wd 4 (9, []) (1 ∷ 2 ∷ []) (replicate 16 3)
    × (aead_open suite (replicate 16 3) wd.enc_reader ≡ ok (9 ∷ []))
create_write_data-Seals_semi_example =
    create_write_data-Seals_semi suite suite-IsSound draws draws-IsDrawn 4 (1 ∷ 2 ∷ []) (9, [])
      (9 ∷ []) refl

el_gamal_decrypt-el_gamal_encrypt_example :
    let (K, c, remainder) = el_gamal_encrypt suite (4, []) (replicate 40 1) tt 5 in
    (m : Bytes) × (el_gamal_decrypt suite 4 K c ≡ ok m) × (m ++ remainder ≡ replicate 40 1)
el_gamal_decrypt-el_gamal_encrypt_example =
    el_gamal_decrypt-el_gamal_encrypt suite suite-IsSound 4 5 (replicate 40 1) tt
