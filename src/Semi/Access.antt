-- ===== src/Semi/Access.antt =====
-- Who gets a key from the semi-centralized service.
use calypso_experiments.Base.{
  ◌≡◌, refl, sym, ap, ◌∙◌, ◌↔◌, Option, none, some, Result, ok, err, panic, ◌>>◌, >>=-eq-ok, check,
  check-eq-ok, if-eq-ok, ok-injective, Error,
}
use mathlib.Core.Path.{subst}
use calypso_experiments.Base.Bytes.{Bytes, is_equal, eq_bytes, eq_bytes_refl, eq_of_eq_bytes}
use calypso_experiments.Hex.{decode_string}
use calypso_experiments.Crypto.{Crypto}
use calypso_experiments.Store.{Bolt, IsBolt, fetch}
use calypso_experiments.Store.Laws.{requests}
use calypso_experiments.Store.Fetch.{fetch-eq-ok}
use calypso_experiments.Util.{aead_open, compare_keys, el_gamal_encrypt, el_gamal_decrypt}
use calypso_experiments.Semi.{
  StoreRequest, SemiWrite, CalypsoRead, Ledger, DecryptRequest, DecryptReply, Codec, store_schema,
  Draw, prefixed, reencrypt_data, verify_key, verify_decrypt_request, get_stored_data, Service,
  decrypt,
}

abbrev pub for_reader : (C : Crypto) → C.Point → Bytes → Draw C → C.Point × C.Point
for_reader C reader sym_key draw =
    let (k, c, _) = el_gamal_encrypt C reader sym_key draw.seed draw.ephemeral in (k, c)

prefixed-eq-ok {ℓ} :
    {A : Type ℓ} (p : Error) (m : Result A) {a : A} → prefixed p m ≡ ok a → m ≡ ok a
prefixed-eq-ok p (ok a) h = h
prefixed-eq-ok p (err e) h = absurd (cc)
prefixed-eq-ok p panic h = absurd (cc)

prefixed-check-eq-ok {ℓ} :
    {A : Type ℓ} (p : Error) (o : Option Error) (m : Result A) {a : A}
    → (prefixed p (check o) >> m) ≡ ok a
    → (o ≡ none) × (m ≡ ok a)
prefixed-check-eq-ok p none m h = (refl, h)
prefixed-check-eq-ok p (some e) m h = absurd (cc)

-- The write transaction opens with the key of the server, and names its reader twice: in the open,
-- and sealed under the symmetric key.
pub record Opens (C : Crypto) (wt : SemiWrite C) (sk : C.Scalar) (sym_key : Bytes) : Type 0 where
  pub reader_bytes : Bytes
  pub opens : el_gamal_decrypt C sk wt.k wt.c ≡ ok sym_key
  pub sealed_reader : aead_open C sym_key wt.enc_reader ≡ ok reader_bytes
  pub same_reader : C.marshal_binary wt.reader ≡ ok reader_bytes

-- The proofs of the request are of a write and of a read of that write, both from the ledger that
-- the request names, and the reader of that write signed the key of the stored data.
pub record Verified (C : Crypto) (L : Ledger C) (req : DecryptRequest L) (stored : StoreRequest)
    (wt : SemiWrite C) : Type 0 where
  pub reading : CalypsoRead
  pub is_read : L.read_value req.read ≡ ok reading
  pub is_write : L.write_value req.write ≡ ok wt
  pub of_write : reading.write ≡ L.new_instance_id (L.inclusion_key req.write)
  pub read_proved : L.verify_proof req.read req.sc_id ≡ none
  pub write_proved : L.verify_proof req.write req.sc_id ≡ none
  pub names : decode_string req.key ≡ ok stored.data_hash
  pub signed : C.verify wt.reader stored.data_hash req.sig ≡ none

module _ (C : Crypto) where
  pub reencrypt_data-eq-ok :
      (wt : SemiWrite C) (sk : C.Scalar) (draw : Draw C) (points : C.Point × C.Point)
      → (reencrypt_data C wt sk draw ≡ ok points) ↔ (
          (sym_key : Bytes) × Opens C wt sk sym_key
          × (points ≡ for_reader C wt.reader sym_key draw))
  unfolding reencrypt_data compare_keys eq_bytes
  reencrypt_data-eq-ok wt sk draw points = (
    λ h.
        let (sym_key, opens, h₁) = >>=-eq-ok (el_gamal_decrypt C sk wt.k wt.c) _ h in
        let (dec_reader, unsealed, h₂) = >>=-eq-ok (aead_open C sym_key wt.enc_reader) _ h₁ in
        let (same, compared, h₃) = >>=-eq-ok (compare_keys C wt.reader dec_reader) _ h₂ in
        let (pt_bytes, marshalled, h₄) = >>=-eq-ok (C.marshal_binary wt.reader) _ compared in
        let (equal, h₅) = if-eq-ok (is_equal same) _ _ h₃ in
        let e : pt_bytes ≡ dec_reader =
          eq_of_eq_bytes pt_bytes dec_reader (ap is_equal (ok-injective h₄) ∙ equal) in
        (
          sym_key,
          record {
            reader_bytes = dec_reader;
            opens = opens;
            sealed_reader = unsealed;
            same_reader = marshalled ∙ ap ok e;
          },
          sym (ok-injective h₅),
        ),
    λ (sym_key, o, e).
        rw (o.opens, o.sealed_reader, o.same_reader, eq_bytes_refl o.reader_bytes) (ap ok (sym e)),
  )

module _ (C : Crypto) (L : Ledger C) (req : DecryptRequest L) (stored : StoreRequest) where
  verify_key-eq-ok :
      (write wt : SemiWrite C)
      → verify_key C L req stored write ≡ ok wt
      → (decode_string req.key ≡ ok stored.data_hash)
        × (C.verify write.reader stored.data_hash req.sig ≡ none)
        × (write ≡ wt)
  unfolding verify_key
  verify_key-eq-ok write wt h =
      let (key_bytes, named, h₁) = >>=-eq-ok (decode_string req.key) _ h in
      let (same, h₂) = if-eq-ok (eq_bytes key_bytes stored.data_hash) _ _ h₁ in
      let (signed, h₃) = check-eq-ok (C.verify write.reader key_bytes req.sig) _ h₂ in
      let e : key_bytes ≡ stored.data_hash = eq_of_eq_bytes key_bytes stored.data_hash same in
      (named ∙ ap ok e, ap (λ b. C.verify write.reader b req.sig) (sym e) ∙ signed, ok-injective h₃)

  verified :
      (reading : CalypsoRead) (write wt : SemiWrite C)
      → L.read_value req.read ≡ ok reading
      → L.write_value req.write ≡ ok write
      → verify_decrypt_request C L req stored ≡ ok wt
      → Verified C L req stored wt
  unfolding verify_decrypt_request
  verified reading write wt is_read is_write h =
      let (of_write, h₁) =
        if-eq-ok (eq_bytes reading.write (L.new_instance_id (L.inclusion_key req.write))) _ _
          (rw (is_read, is_write) at h) in
      let (read_proved, h₂) = prefixed-check-eq-ok _ (L.verify_proof req.read req.sc_id) _ h₁ in
      let (write_proved, h₃) = prefixed-check-eq-ok _ (L.verify_proof req.write req.sc_id) _ h₂ in
      let (names, signed, e) = verify_key-eq-ok write wt h₃ in
      record {
        reading = reading;
        is_read = is_read;
        is_write = is_write ∙ ap ok e;
        of_write = eq_of_eq_bytes _ _ of_write;
        read_proved = read_proved;
        write_proved = write_proved;
        names = names;
        signed =
            ap (λ (x : SemiWrite C). C.verify x.reader stored.data_hash req.sig) (sym e) ∙ signed;
      }

  pub verify_decrypt_request-eq-ok :
      (wt : SemiWrite C)
      → (verify_decrypt_request C L req stored ≡ ok wt) ↔ Verified C L req stored wt
  unfolding verify_decrypt_request
  verify_decrypt_request-eq-ok wt = (
    λ h.
        let (reading, is_read, h₁) = >>=-eq-ok (prefixed _ (L.read_value req.read)) _ h in
        let (write, is_write, h₂) = >>=-eq-ok (prefixed _ (L.write_value req.write)) _ h₁ in
        verified reading write wt (prefixed-eq-ok _ _ is_read) (prefixed-eq-ok _ _ is_write) h,
    λ v. rw (
      v.is_read,
      v.is_write,
      v.of_write,
      eq_bytes_refl (L.new_instance_id (L.inclusion_key req.write)),
      v.read_proved,
      v.write_proved,
      v.names,
      eq_bytes_refl stored.data_hash,
      v.signed,
    ),
  )

module _ (C : Crypto) (L : Ledger C) (B : Bolt) (LB : IsBolt B) (N : Codec) where
  -- The reply is stored data with the key of its write, encrypted to the reader of that write, for a
  -- verified request.
  abbrev pub IsAnswer : Service C L B N → DecryptRequest L → Draw C → DecryptReply C → Type 0
  IsAnswer s req draw reply =
      (stored : StoreRequest) × (wt : SemiWrite C) × (sym_key : Bytes) × (requests B
          (store_schema N) s.db stored.data_hash
        ≡ some stored)
      × Verified C L req stored wt
      × Opens C wt s.private sym_key
      × (reply ≡ record {
        content = stored.content;
        data_hash = stored.data_hash;
        k = (for_reader C wt.reader sym_key draw).0;
        c = (for_reader C wt.reader sym_key draw).1;
      })

  -- A decryption request is answered exactly when its key is, in hexadecimal, the key of stored data
  -- whose declared hash it also is; its two proofs, valid for the ledger that it names, are of a write
  -- and of a read of that write; the signature on the hash is valid under the reader of that write;
  -- and the private key of the server opens the write and finds the same reader sealed in it. The
  -- answer is the stored data with the symmetric key encrypted to that reader.
  pub decrypt-eq-ok :
      (s : Service C L B N) (req : DecryptRequest L) (draw : Draw C) (reply : DecryptReply C)
      → (decrypt C L B N s req draw ≡ ok reply) ↔ IsAnswer s req draw reply
  unfolding decrypt
  decrypt-eq-ok s req draw reply = (
    λ h.
        let (stored, found, h₁) = >>=-eq-ok (get_stored_data C L B N s.db req.key) _ h in
        let (wt, accepted, h₂) = >>=-eq-ok (verify_decrypt_request C L req stored) _ h₁ in
        let (points, done, h₃) = >>=-eq-ok (reencrypt_data C wt s.private draw) _ h₂ in
        let (k, named, kept) =
          (fetch-eq-ok C.sum256 B LB (store_schema N) s.db req.key stored).0 found in
        let v = (verify_decrypt_request-eq-ok C L req stored wt).0 accepted in
        let (sym_key, o, e) = (reencrypt_data-eq-ok C wt s.private draw points).0 done in
        (
          stored,
          wt,
          sym_key,
          subst (λ j. requests B (store_schema N) s.db j ≡ some stored)
              (ok-injective (sym named ∙ v.names)) kept,
          v,
          o,
          sym (ok-injective h₃)
              ∙ ap
                  (λ (p : C.Point × C.Point).
                    let r : DecryptReply C = record {
                      content = stored.content;
                      data_hash = stored.data_hash;
                      k = p.0;
                      c = p.1;
                    } in
                    r)
                  e,
        ),
    λ (stored, wt, sym_key, kept, v, o, e).
        let found : fetch C.sum256 B (store_schema N) s.db req.key ≡ ok stored =
          (fetch-eq-ok C.sum256 B LB (store_schema N) s.db req.key stored).1
            (stored.data_hash, v.names, kept) in
        let accepted = (verify_decrypt_request-eq-ok C L req stored wt).1 v in
        let done : reencrypt_data C wt s.private draw ≡ ok (for_reader C wt.reader sym_key draw) =
          (reencrypt_data-eq-ok C wt s.private draw _).1 (sym_key, o, refl) in
        rw (found, accepted, done) (ap ok (sym e)),
  )
