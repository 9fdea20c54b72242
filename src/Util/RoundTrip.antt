-- ===== src/Util/RoundTrip.antt =====
-- What is sealed can be opened, and what is encrypted to a key can be decrypted by its owner.
use calypso_experiments.Base.{
  ◌-◌, ◌≤◌, ◌≡◌, ◌∙◌, refl, true, false, [], ◌++◌, ok, length, take, length-append, take-append,
  drop-append, take_all, take-append-drop_cut, arith, ap, ltb,
}
use calypso_experiments.Base.Bytes.{Bytes}
use calypso_experiments.Crypto.{Crypto, IsSound}
use calypso_experiments.Util.{
  Draws, WriteData, nonce_len, aead_seal, aead_open, el_gamal_encrypt, el_gamal_decrypt,
  recover_data, create_write_data,
}

-- Appending the nonce and cutting it off again.
module _ (C : Crypto) {b : C.Block} {g : C.Gcm} where
  aead_open-append :
      (key x nonce : Bytes)
      → C.new_cipher key ≡ ok b
      → C.new_gcm b ≡ ok g
      → length nonce ≡ nonce_len
      → aead_open C key (x ++ nonce) ≡ C.unseal g nonce x
  unfolding aead_open
  aead_open-append key x nonce eb eg hn =
      rw (
        eb,
        eg,
        long,
        cut,
        take-append x nonce (length x) refl,
        drop-append x nonce (length x) refl,
      )
    where
      cut : length (x ++ nonce) - 12 ≡ length x
      cut = omega (arith, length-append x nonce)

      long : ltb (length (x ++ nonce)) 12 ≡ false
      long = ground (arith, length-append x nonce)

  aead_seal_lem :
      (key content nonce : Bytes)
      → C.new_cipher key ≡ ok b
      → C.new_gcm b ≡ ok g
      → aead_seal C key content (ok nonce) ≡ ok (C.seal g nonce content ++ nonce)
  unfolding aead_seal
  aead_seal_lem key content nonce eb eg = rw (eb, eg)

module _ (C : Crypto) (S : IsSound C) where
  -- Under a key of 16 bytes and with a nonce of 12 bytes that could be read, sealing succeeds and
  -- opening the sealed text under the same key gives the data back.
  pub aead_open-aead_seal :
      (key content nonce : Bytes)
      → length key ≡ 16
      → length nonce ≡ nonce_len
      → (ct : Bytes) × (aead_seal C key content (ok nonce) ≡ ok ct)
        × (aead_open C key ct ≡ ok content)
  aead_open-aead_seal key content nonce hk hn =
      let (b, eb) = S.new_cipher_sixteen key hk in
      let (g, eg) = S.new_gcm_total b in
      (
        C.seal g nonce content ++ nonce,
        aead_seal_lem C key content nonce eb eg,
        aead_open-append C key (C.seal g nonce content) nonce eb eg hn
            ∙ S.unseal-seal g nonce content,
      )

  pub el_gamal_decrypt-mul_base :
      (sk k : C.Scalar) (msg : Bytes) (seed : C.Seed)
      → el_gamal_decrypt C sk (C.mul_base k) (C.add (C.mul k (C.mul_base sk)) (C.embed msg seed))
        ≡ ok (take C.embed_len msg)
  unfolding el_gamal_decrypt
  el_gamal_decrypt-mul_base sk k msg seed =
      let pad = C.mul k (C.mul_base sk) in
      ap C.point_data
        (ap (C.sub (C.add pad (C.embed msg seed))) (S.mul_comm sk k) ∙ S.sub-add pad _)
      ∙ S.point_data-embed msg seed

  -- What the owner of the key decrypts, with the remainder that the encryption returned behind it,
  -- is the message, of whatever length.
  pub el_gamal_decrypt-el_gamal_encrypt :
      (sk k : C.Scalar) (msg : Bytes) (seed : C.Seed)
      → let (K, c, remainder) = el_gamal_encrypt C (C.mul_base sk) msg seed k in
        (m : Bytes) × (el_gamal_decrypt C sk K c ≡ ok m) × (m ++ remainder ≡ msg)
  unfolding el_gamal_encrypt
  el_gamal_decrypt-el_gamal_encrypt sk k msg seed = (
    take C.embed_len msg,
    el_gamal_decrypt-mul_base sk k msg seed,
    take-append-drop_cut C.embed_len _ msg (ground arith),
  )

  -- Whoever encrypts the symmetric key of a sealed text to a key pair lets the owner of that pair
  -- recover the data.
  pub recover_data_lem :
      (sk k : C.Scalar) (seed : C.Seed) (sym_key ct content : Bytes)
      → length sym_key ≤ C.embed_len
      → aead_open C sym_key ct ≡ ok content
      → let (K, c, _) = el_gamal_encrypt C (C.mul_base sk) sym_key seed k in
        recover_data C ct sk K c ≡ ok content
  unfolding recover_data el_gamal_encrypt
  recover_data_lem sk k seed sym_key ct content fits opened =
      rw (el_gamal_decrypt-mul_base sk k sym_key seed, take_all C.embed_len sym_key fits) opened

-- What the draws of one call must give: a key for AES-128, and nonces that could be read.
pub record IsDrawn {C : Crypto} (draws : Draws C) : Type 0 where
  pub fits : length draws.sym_key ≤ C.embed_len
  pub key_length : length draws.sym_key ≡ 16
  pub nonce : Bytes
  pub nonce_read : draws.data_nonce ≡ ok nonce
  pub nonce_length : length nonce ≡ nonce_len
  pub other_nonce : Bytes
  pub other_nonce_read : draws.reader_nonce ≡ ok other_nonce
  pub other_nonce_length : length other_nonce ≡ nonce_len

-- Write data for `reader` that the owner of `sk` can open.
pub record Seals (C : Crypto) (wd : WriteData C) (sk : C.Scalar) (reader : C.Point)
    (content sym_key : Bytes) : Type 0 where
  pub hashed : wd.data_hash ≡ C.sum256 wd.content
  pub addressed : wd.reader ≡ reader
  pub key_opens : el_gamal_decrypt C sk wd.k wd.c ≡ ok sym_key
  pub content_opens : aead_open C sym_key wd.content ≡ ok content

module _ (C : Crypto) (S : IsSound C) (draws : Draws C) (D : IsDrawn draws) (sk : C.Scalar) where
  key_decrypts :
      el_gamal_decrypt C sk
        (C.mul_base draws.ephemeral)
        (C.add (C.mul draws.ephemeral (C.mul_base sk)) (C.embed draws.sym_key draws.key_seed))
      ≡ ok draws.sym_key
  key_decrypts =
      el_gamal_decrypt-mul_base C S sk draws.ephemeral draws.sym_key draws.key_seed
      ∙ ap ok (take_all C.embed_len draws.sym_key D.fits)

  -- For the fully centralized service.
  pub create_write_data-Seals :
      (content : Bytes) (reader : C.Point)
      → (wd : WriteData C) × (create_write_data C draws content reader (C.mul_base sk) false
          ≡ ok wd)
        × Seals C wd sk reader content draws.sym_key
        × (wd.stored_key ≡ [])
  unfolding create_write_data
  create_write_data-Seals content reader =
      let (ct, sealed, opened) =
        aead_open-aead_seal C S draws.sym_key content D.nonce D.key_length D.nonce_length in
      (
        record {
          content = ct;
          data_hash = C.sum256 ct;
          k = C.mul_base draws.ephemeral;
          c = C.add (C.mul draws.ephemeral (C.mul_base sk)) (C.embed draws.sym_key draws.key_seed);
          reader = reader;
          enc_reader = [];
          stored_key = [];
        },
        rw (D.nonce_read, sealed) refl,
        record {
          hashed = refl;
          addressed = refl;
          key_opens = key_decrypts;
          content_opens = opened;
        },
        refl,
      )

  -- For the semi-centralized service the write data also holds the reader's key, sealed under the
  -- same symmetric key.
  pub create_write_data-Seals_semi :
      (content : Bytes) (reader : C.Point) (reader_bytes : Bytes)
      → C.marshal_binary reader ≡ ok reader_bytes
      → (wd : WriteData C) × (create_write_data C draws content reader (C.mul_base sk) true ≡ ok wd)
        × Seals C wd sk reader content draws.sym_key
        × (aead_open C draws.sym_key wd.enc_reader ≡ ok reader_bytes)
  unfolding create_write_data
  create_write_data-Seals_semi content reader reader_bytes marshalled =
      let (ct, sealed, opened) =
        aead_open-aead_seal C S draws.sym_key content D.nonce D.key_length D.nonce_length in
      let (er, sealed_reader, opened_reader) =
        aead_open-aead_seal C S draws.sym_key reader_bytes D.other_nonce D.key_length
          D.other_nonce_length in
      (
        record {
          content = ct;
          data_hash = C.sum256 ct;
          k = C.mul_base draws.ephemeral;
          c = C.add (C.mul draws.ephemeral (C.mul_base sk)) (C.embed draws.sym_key draws.key_seed);
          reader = reader;
          enc_reader = er;
          stored_key = [];
        },
        rw (D.nonce_read, sealed, marshalled, D.other_nonce_read, sealed_reader) refl,
        record {
          hashed = refl;
          addressed = refl;
          key_opens = key_decrypts;
          content_opens = opened;
        },
        opened_reader,
      )
