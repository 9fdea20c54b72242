-- ===== src/Semi/Recovery.antt =====
-- A reader recovers what a writer stored, through the client, the ledger and the service.
use calypso_experiments.Base.{◌≡◌, refl, sym, ap, ◌∙◌, List, ◌∷◌, none, some, true, ok, length, ◌≤◌}
use mathlib.Core.Path.{subst}
use calypso_experiments.Base.Bytes.{Bytes}
use calypso_experiments.Hex.{encode_to_string, decode_string}
use calypso_experiments.Hex.RoundTrip.{decode_string-encode_to_string}
use calypso_experiments.Crypto.{Crypto, IsSound}
use calypso_experiments.Store.{Bolt, IsBolt, IsCodec, store}
use calypso_experiments.Store.Laws.{requests, HasRoom, store_accepts}
use calypso_experiments.Store.Fetch.{requests-store_self}
use calypso_experiments.Util.{WriteData, Draws, recover_data, create_write_data, aead_open}
use calypso_experiments.Util.RoundTrip.{
  IsDrawn, Seals, create_write_data-Seals_semi, recover_data_lem,
}
use calypso_experiments.Semi.{
  StoreRequest, Ledger, DecryptRequest, DecryptReply, Codec, store_schema, Service, store_data,
  decrypt, serve,
}
use calypso_experiments.Semi.Client.{
  Transport, client_store_data, sign_decrypt, client_decrypt, semi_write_of,
}
use calypso_experiments.Semi.Access.{for_reader, decrypt-eq-ok}
use calypso_experiments.Semi.Holds.{stored_of, Delivers, Holds, Proves, serve-Holds}

module _ (C : Crypto) (G : Ledger C) (B : Bolt) (N : Codec) (L : IsBolt B)
    (K : IsCodec (store_schema N)) where
  module _ (S : IsSound C) (T : Transport G) (at : T.World → T.Server → Service C G B N)
      (D : Delivers C G B N T at) where
    -- The owner of the reader's key, with proofs of the write and of a read, gets the stored data from
    -- a server that holds it, and recovers the content.
    pub client_decrypt-recovers :
        (w : T.World) (dest : T.Server) (rest : List T.Server) (sc_id : G.SkipBlockId)
        (wr_proof r_proof : G.Proof) (wd : WriteData C) (sk reader_sk : C.Scalar)
        (content sym_key reader_bytes sig : Bytes) (seed : C.Seed)
        → length sym_key ≤ C.embed_len
        → Holds C G B N (at w dest) sk wd
        → Seals C wd sk (C.mul_base reader_sk) content sym_key
        → aead_open C sym_key wd.enc_reader ≡ ok reader_bytes
        → C.marshal_binary (C.mul_base reader_sk) ≡ ok reader_bytes
        → Proves G sc_id wr_proof r_proof wd
        → C.sign reader_sk wd.data_hash seed ≡ ok sig
        → (reply : DecryptReply C) × ((client_decrypt G T w
              (dest ∷ rest)
              sc_id
              wr_proof
              r_proof
              (encode_to_string wd.data_hash)
              reader_sk
              seed).1
            ≡ ok reply)
          × (recover_data C reply.content reader_sk reply.k reply.c ≡ ok content)
    unfolding client_decrypt
    client_decrypt-recovers w dest rest sc_id wr_proof r_proof wd sk reader_sk content sym_key
          reader_bytes sig seed fits h s unsealed marshalled p signed =
        let named : decode_string (encode_to_string wd.data_hash) ≡ ok wd.data_hash =
          decode_string-encode_to_string wd.data_hash (rw s.hashed (S.sum256-IsBytes wd.content)) in
        let dr : DecryptRequest G = record {
          write = wr_proof;
          read = r_proof;
          sc_id = sc_id;
          key = encode_to_string wd.data_hash;
          sig = sig;
        } in
        let (draw, reply_is) = D.decrypt_reply w dest dr in
        let points = for_reader C wd.reader sym_key draw in
        let reply : DecryptReply C = record {
          content = wd.content;
          data_hash = wd.data_hash;
          k = points.0;
          c = points.1;
        } in
        let answered : decrypt C G B N (at w dest) dr draw ≡ ok reply =
          (decrypt-eq-ok C G B L N (at w dest) dr draw reply).1 (
            stored_of wd,
            semi_write_of wd,
            sym_key,
            h.kept,
            record {
              reading = record { write = G.new_instance_id (G.inclusion_key wr_proof) };
              is_read = p.is_read;
              is_write = p.is_write;
              of_write = refl;
              read_proved = p.read_proved;
              write_proved = p.write_proved;
              names = named;
              signed = rw s.addressed (S.verify-sign reader_sk wd.data_hash sig seed signed);
            },
            record {
              reader_bytes = reader_bytes;
              opens = rw h.owner s.key_opens;
              sealed_reader = unsealed;
              same_reader = rw s.addressed marshalled;
            },
            refl,
          ) in
        let asked : sign_decrypt G T wr_proof r_proof (encode_to_string wd.data_hash) sc_id
              reader_sk seed
            ≡ ok dr =
          unfold sign_decrypt in rw (named, signed) in
        (
          reply,
          rw (asked, client_decrypt) (rw (reply_is, answered)),
          rw s.addressed (
              recover_data_lem C S reader_sk draw.ephemeral draw.seed sym_key wd.content content
                fits s.content_opens),
        )

    -- A store of data whose hash is right goes through on a server that has room and does not have its
    -- key yet, and the server holds the data.
    pub client_store_data-Holds :
        (w : T.World) (dest : T.Server) (rest : List T.Server) (wd : WriteData C) (v : Bytes)
        → HasRoom C.sum256 B L (store_schema N) (at w dest).db
        → B.get (at w dest).db wd.data_hash ≡ none
        → wd.data_hash ≡ C.sum256 wd.content
        → N.marshal (stored_of wd) ≡ ok v
        → ((client_store_data G T w (dest ∷ rest) wd.content wd.data_hash).1
            ≡ ok (record { stored_key = encode_to_string wd.data_hash }))
          × Holds C G B N
              (at (client_store_data G T w (dest ∷ rest) wd.content wd.data_hash).0 dest)
              (at w dest).private
              wd
    unfolding client_store_data
    client_store_data-Holds w dest rest wd v H fresh hashed marshalled =
        let db = (at w dest).db in
        let done : (store C.sum256 B (store_schema N) db (stored_of wd)).1
            ≡ ok (encode_to_string wd.data_hash) =
          store_accepts C.sum256 B L (store_schema N) db (stored_of wd) v H
            (ap (B.get db) (sym hashed) ∙ fresh) (sym hashed) marshalled
          ∙ ap (λ (b : Bytes). ok (encode_to_string b)) (sym hashed) in
        let there : Holds C G B N (store_data C G B N (at w dest) (stored_of wd)).0
            (at w dest).private wd =
          unfold store_data in
          record {
            owner = refl;
            kept =
                subst
                  (λ j.
                    requests B (store_schema N)
                      (store C.sum256 B (store_schema N) db (stored_of wd)).0 j
                    ≡ some (stored_of wd))
                  (sym hashed)
                  (requests-store_self C.sum256 B L (store_schema N) K db (stored_of wd) _ done).1;
          } in
        (
          D.store_reply w dest (stored_of wd) ∙ (unfold store_data in rw done),
          rw (D.store_state w dest (stored_of wd)) there,
        )

    -- The whole path, for a client whose first server is `dest`: the writer gets write data and the
    -- server's key for it; once `after` has happened, and with the two proofs that the ledger gives for
    -- the write data, the reader gets a reply from which it recovers the content.
    abbrev pub Recovers :
        (T.World → T.World)
        → (WriteData C → G.Proof × G.Proof)
        → G.SkipBlockId
        → T.World
        → T.Server
        → List T.Server
        → Draws C
        → Bytes
        → C.Scalar
        → C.Seed
        → Type 0
    Recovers after proofs sc_id w dest rest draws content reader_sk seed =
        (wd : WriteData C) × (reply : DecryptReply C) × (create_write_data C draws content
            (C.mul_base reader_sk) (C.mul_base (at w dest).private) true
          ≡ ok wd)
        × ((client_store_data G T w (dest ∷ rest) wd.content wd.data_hash).1
            ≡ ok (record { stored_key = encode_to_string wd.data_hash }))
        × ((client_decrypt G T
              (after (client_store_data G T w (dest ∷ rest) wd.content wd.data_hash).0)
              (dest ∷ rest) sc_id (proofs wd).0 (proofs wd).1 (encode_to_string wd.data_hash)
              reader_sk seed).1
            ≡ ok reply)
        × (recover_data C reply.content reader_sk reply.k reply.c ≡ ok content)

    -- Data that a writer prepares for a reader and stores on a server with room, where its key is new,
    -- is accepted; and after any further stores on that server, with proofs of the write transaction
    -- and of a read of it, the reader recovers the content.
    pub semi_recovery :
        (w : T.World) (dest : T.Server) (rest : List T.Server) (draws : Draws C)
        (content reader_bytes : Bytes) (reader_sk : C.Scalar) (seed : C.Seed)
        (reqs : List StoreRequest) (after : T.World → T.World) (sc_id : G.SkipBlockId)
        (proofs : WriteData C → G.Proof × G.Proof)
        → IsDrawn draws
        → C.marshal_binary (C.mul_base reader_sk) ≡ ok reader_bytes
        → HasRoom C.sum256 B L (store_schema N) (at w dest).db
        → ((wd : WriteData C)
            → create_write_data C draws content
                (C.mul_base reader_sk)
                (C.mul_base (at w dest).private)
                true
              ≡ ok wd
            → B.get (at w dest).db wd.data_hash ≡ none)
        → ((req : StoreRequest) → (v : Bytes) × (N.marshal req ≡ ok v))
        → ((m : Bytes) → (sig : Bytes) × (C.sign reader_sk m seed ≡ ok sig))
        → ((v : T.World) → at (after v) dest ≡ serve C G B N (at v dest) reqs)
        → ((wd : WriteData C) → Proves G sc_id (proofs wd).0 (proofs wd).1 wd)
        → Recovers after proofs sc_id w dest rest draws content reader_sk seed
    semi_recovery w dest rest draws content reader_bytes reader_sk seed reqs after sc_id proofs
          drawn marshalled H fresh marshals signs later p =
        let sk = (at w dest).private in
        let (wd, made, sealed, unsealed) =
          create_write_data-Seals_semi C S draws drawn sk content (C.mul_base reader_sk)
            reader_bytes marshalled in
        let (v, marshalled_request) = marshals (stored_of wd) in
        let (accepted, held) =
          client_store_data-Holds w dest rest wd v H (fresh wd made) sealed.hashed
            marshalled_request in
        let (sig, signed) = signs wd.data_hash in
        let w' = after (client_store_data G T w (dest ∷ rest) wd.content wd.data_hash).0 in
        let (reply, answered, opens) =
          client_decrypt-recovers w' dest rest sc_id (proofs wd).0 (proofs wd).1 wd sk reader_sk
            content draws.sym_key reader_bytes sig seed drawn.fits
            (rw (later _) (serve-Holds C G B N L K _ reqs sk wd held)) sealed unsealed marshalled
            (p wd) signed in
        (wd, reply, made, accepted, answered, opens)
