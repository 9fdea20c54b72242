-- ===== src/Central/Recovery.antt =====
-- A reader recovers what a writer wrote, through the client, the transport and the service.
use calypso_experiments.Base.{
  ◌≡◌, refl, sym, ap, ◌∙◌, List, [], ◌∷◌, none, some, false, ok, length, ◌≤◌,
}
use mathlib.Core.Path.{subst}
use calypso_experiments.Base.Bytes.{Bytes}
use calypso_experiments.Hex.{encode_to_string, decode_string}
use calypso_experiments.Hex.RoundTrip.{decode_string-encode_to_string}
use calypso_experiments.Crypto.{Crypto, IsSound}
use calypso_experiments.Store.{Bolt, IsBolt, IsCodec, store}
use calypso_experiments.Store.Laws.{requests, HasRoom, store_accepts}
use calypso_experiments.Store.Fetch.{requests-store, requests-store_self}
use calypso_experiments.Util.{WriteData, Draws, recover_data, create_write_data}
use calypso_experiments.Util.RoundTrip.{IsDrawn, Seals, create_write_data-Seals, recover_data_lem}
use calypso_experiments.Central.{
  WriteRequest, ReadRequest, Codec, write_schema, Draw, Service, write, read, serve, Transport,
  request_of, create_write_txn, create_read_txn, sign_read,
}
use calypso_experiments.Central.Access.{for_reader, read-eq-ok}

module _ (C : Crypto) (B : Bolt) (N : Codec C) where
  -- A transport that hands every request to the handler of the server that it is sent to.
  pub record Delivers (T : Transport C) (at : T.World → T.Server → Service C B N) : Type 0 where
    pub write_reply :
        (w : T.World) (d : T.Server) (req : WriteRequest C)
        → (T.send_write w d req).1 ≡ (write C B N (at w d) req).1
    pub write_state :
        (w : T.World) (d : T.Server) (req : WriteRequest C)
        → at (T.send_write w d req).0 d ≡ (write C B N (at w d) req).0
    pub read_reply :
        (w : T.World) (d : T.Server) (req : ReadRequest)
        → (draw : Draw C) × ((T.send_read w d req).1 ≡ read C B N (at w d) req draw)

  -- The request of `wd` is in the database of the server whose private key is `sk`.
  pub record Holds (s : Service C B N) (sk : C.Scalar) (wd : WriteData C) : Type 0 where
    pub owner : s.private ≡ sk
    pub kept : requests B (write_schema N) s.db wd.data_hash ≡ some (request_of wd)

  module _ (L : IsBolt B) (K : IsCodec (write_schema N)) where
    write-Holds :
        (s : Service C B N) (req : WriteRequest C) (sk : C.Scalar) (wd : WriteData C)
        → Holds s sk wd
        → Holds (write C B N s req).0 sk wd
    unfolding write
    write-Holds s req sk wd h = record {
      owner = h.owner;
      kept = requests-store C.sum256 B L (write_schema N) K s.db _ req wd.data_hash h.kept;
    }

    -- Whatever requests a server answers, it goes on holding the write data that it holds.
    pub serve-Holds :
        (s : Service C B N) (reqs : List (WriteRequest C)) (sk : C.Scalar) (wd : WriteData C)
        → Holds s sk wd
        → Holds (serve C B N s reqs) sk wd
    unfolding serve
    serve-Holds s [] sk wd h = h
    serve-Holds s (req ∷ reqs) sk wd h =
        serve-Holds (write C B N s req).0 reqs sk wd (write-Holds s req sk wd h)

    module _ (S : IsSound C) (T : Transport C) (at : T.World → T.Server → Service C B N)
        (D : Delivers T at) where
      -- Whoever has the key of the reader gets the data from a server that holds its write data.
      pub create_read_txn-recovers :
          (w : T.World) (dest : T.Server) (rest : List T.Server) (wd : WriteData C)
          (sk reader_sk : C.Scalar) (content sym_key sig : Bytes) (seed : C.Seed)
          → length sym_key ≤ C.embed_len
          → Holds (at w dest) sk wd
          → Seals C wd sk (C.mul_base reader_sk) content sym_key
          → C.sign reader_sk wd.data_hash seed ≡ ok sig
          → (points : C.Point × C.Point) × ((create_read_txn C T w
                (dest ∷ rest)
                (encode_to_string wd.data_hash)
                reader_sk
                seed).1
              ≡ ok points)
            × (recover_data C wd.content reader_sk points.0 points.1 ≡ ok content)
      unfolding create_read_txn
      create_read_txn-recovers w dest rest wd sk reader_sk content sym_key sig seed fits h s
            signed =
          let named : decode_string (encode_to_string wd.data_hash) ≡ ok wd.data_hash =
            decode_string-encode_to_string wd.data_hash
              (rw s.hashed (S.sum256-IsBytes wd.content)) in
          let rr : ReadRequest = record { write_id = encode_to_string wd.data_hash; sig = sig } in
          let (draw, reply_is) = D.read_reply w dest rr in
          let points = for_reader C wd.reader sym_key draw in
          let answered : read C B N (at w dest) rr draw
              ≡ ok (record { k = points.0; c = points.1 }) =
            (read-eq-ok C B L N (at w dest) rr draw _).1 (
              request_of wd,
              sym_key,
              h.kept,
              record {
                names = named;
                signed = rw s.addressed (S.verify-sign reader_sk wd.data_hash sig seed signed);
                opens = rw h.owner s.key_opens;
              },
              refl,
            ) in
          let asked : sign_read C T (encode_to_string wd.data_hash) reader_sk seed ≡ ok rr =
            unfold sign_read in rw (named, signed) in
          (
            points,
            rw (asked, create_read_txn) (rw (reply_is, answered)),
            rw s.addressed (
                recover_data_lem C S reader_sk draw.ephemeral draw.seed sym_key wd.content content
                  fits s.content_opens),
          )

      -- A write of data whose hash is right goes through on a server that has room and does not have
      -- its key yet: the client gets the key, and the server holds the data.
      pub create_write_txn-Holds :
          (w : T.World) (dest : T.Server) (rest : List T.Server) (wd : WriteData C) (v : Bytes)
          → HasRoom C.sum256 B L (write_schema N) (at w dest).db
          → B.get (at w dest).db wd.data_hash ≡ none
          → wd.data_hash ≡ C.sum256 wd.content
          → N.marshal (request_of wd) ≡ ok v
          → ((create_write_txn C T w (dest ∷ rest) wd).1
              ≡ some (record wd { stored_key = encode_to_string wd.data_hash }, none))
            × Holds (at (create_write_txn C T w (dest ∷ rest) wd).0 dest) (at w dest).private wd
      unfolding create_write_txn
      create_write_txn-Holds w dest rest wd v H fresh hashed marshalled =
          let done : (store C.sum256 B (write_schema N) (at w dest).db (request_of wd)).1
              ≡ ok (encode_to_string wd.data_hash) =
            store_accepts C.sum256 B L (write_schema N) (at w dest).db (request_of wd) v H
              (ap (B.get (at w dest).db) (sym hashed) ∙ fresh) (sym hashed) marshalled
            ∙ ap (λ (b : Bytes). ok (encode_to_string b)) (sym hashed) in
          let replied : (T.send_write w dest (request_of wd)).1
              ≡ ok (record { write_id = encode_to_string wd.data_hash }) =
            D.write_reply w dest (request_of wd) ∙ (unfold write in rw done) in
          let there : Holds (write C B N (at w dest) (request_of wd)).0 (at w dest).private wd =
            unfold write in
            record {
              owner = refl;
              kept =
                  subst
                    (λ j.
                      requests B (write_schema N)
                        (store C.sum256 B (write_schema N) (at w dest).db (request_of wd)).0 j
                      ≡ some (request_of wd))
                    (sym hashed)
                    (requests-store_self C.sum256 B L (write_schema N) K (at w dest).db
                      (request_of wd) _ done).1;
            } in
          (
            rw (replied, create_write_txn),
            rw (replied, create_write_txn) (rw (D.write_state w dest (request_of wd)) there),
          )

      -- The whole path, for a client whose first server is `dest`: the writer gets write data and the
      -- server's key for it, and once `after` has happened the reader gets points from which it
      -- recovers the content.
      abbrev pub Recovers :
          (T.World → T.World)
          → T.World
          → T.Server
          → List T.Server
          → Draws C
          → Bytes
          → C.Scalar
          → C.Seed
          → Type 0
      Recovers after w dest rest draws content reader_sk seed =
          (wd : WriteData C) × (points : C.Point × C.Point) × (create_write_data C draws content
              (C.mul_base reader_sk) (C.mul_base (at w dest).private) false
            ≡ ok wd)
          × ((create_write_txn C T w (dest ∷ rest) wd).1
              ≡ some (record wd { stored_key = encode_to_string wd.data_hash }, none))
          × ((create_read_txn C T (after (create_write_txn C T w (dest ∷ rest) wd).0) (dest ∷ rest)
                (encode_to_string wd.data_hash) reader_sk seed).1
              ≡ ok points)
          × (recover_data C wd.content reader_sk points.0 points.1 ≡ ok content)

      -- Data that a writer prepares for a reader and writes to a server with room, where its key is
      -- new, is accepted; and after any further write requests that the server answers, the reader
      -- recovers the data with the key that the writer got.
      pub central_recovery :
          (w : T.World) (dest : T.Server) (rest : List T.Server) (draws : Draws C) (content : Bytes)
          (reader_sk : C.Scalar) (seed : C.Seed) (reqs : List (WriteRequest C))
          (after : T.World → T.World)
          → IsDrawn draws
          → HasRoom C.sum256 B L (write_schema N) (at w dest).db
          → ((wd : WriteData C)
              → create_write_data C draws content
                  (C.mul_base reader_sk)
                  (C.mul_base (at w dest).private)
                  false
                ≡ ok wd
              → B.get (at w dest).db wd.data_hash ≡ none)
          → ((req : WriteRequest C) → (v : Bytes) × (N.marshal req ≡ ok v))
          → ((m : Bytes) → (sig : Bytes) × (C.sign reader_sk m seed ≡ ok sig))
          → ((v : T.World) → at (after v) dest ≡ serve C B N (at v dest) reqs)
          → Recovers after w dest rest draws content reader_sk seed
      central_recovery w dest rest draws content reader_sk seed reqs after drawn H fresh marshals
            signs later =
          let sk = (at w dest).private in
          let (wd, made, sealed, _) =
            create_write_data-Seals C S draws drawn sk content (C.mul_base reader_sk) in
          let (v, marshalled) = marshals (request_of wd) in
          let (accepted, held) =
            create_write_txn-Holds w dest rest wd v H (fresh wd made) sealed.hashed marshalled in
          let (sig, signed) = signs wd.data_hash in
          let w' = after (create_write_txn C T w (dest ∷ rest) wd).0 in
          let (points, reads, opens) =
            create_read_txn-recovers w' dest rest wd sk reader_sk content draws.sym_key sig seed
              drawn.fits (rw (later _) (serve-Holds _ reqs sk wd held)) sealed signed in
          (wd, points, made, accepted, reads, opens)
