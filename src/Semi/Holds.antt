-- ===== src/Semi/Holds.antt =====
-- What a server holds, and the transport and the proofs that a client works with.
use calypso_experiments.Base.{◌≡◌, List, [], ◌∷◌, none, some, ok}
use calypso_experiments.Crypto.{Crypto}
use calypso_experiments.Store.{Bolt, IsBolt, IsCodec}
use calypso_experiments.Store.Laws.{requests}
use calypso_experiments.Store.Fetch.{requests-store}
use calypso_experiments.Util.{WriteData}
use calypso_experiments.Semi.{
  StoreRequest, Ledger, DecryptRequest, Codec, store_schema, Draw, Service, store_data, decrypt,
  serve,
}
use calypso_experiments.Semi.Client.{Transport, semi_write_of}

-- The request that the client stores for its write data.
abbrev pub stored_of : {C : Crypto} → WriteData C → StoreRequest
stored_of wd = record { content = wd.content; data_hash = wd.data_hash }

module _ (C : Crypto) (G : Ledger C) (B : Bolt) (N : Codec) where
  -- A transport that hands every request to the handler of the server that it is sent to.
  pub record Delivers (T : Transport G) (at : T.World → T.Server → Service C G B N) : Type 0 where
    pub store_reply :
        (w : T.World) (d : T.Server) (req : StoreRequest)
        → (T.send_store w d req).1 ≡ (store_data C G B N (at w d) req).1
    pub store_state :
        (w : T.World) (d : T.Server) (req : StoreRequest)
        → at (T.send_store w d req).0 d ≡ (store_data C G B N (at w d) req).0
    pub decrypt_reply :
        (w : T.World) (d : T.Server) (req : DecryptRequest G)
        → (draw : Draw C) × ((T.send_decrypt w d req).1 ≡ decrypt C G B N (at w d) req draw)

  pub record Holds (s : Service C G B N) (sk : C.Scalar) (wd : WriteData C) : Type 0 where
    pub owner : s.private ≡ sk
    pub kept : requests B (store_schema N) s.db wd.data_hash ≡ some (stored_of wd)

-- Proofs of the write transaction of `wd` and of a read of it, from the ledger `sc_id`.
pub record Proves {C : Crypto} (G : Ledger C) (sc_id : G.SkipBlockId) (wr_proof r_proof : G.Proof)
    (wd : WriteData C) : Type 0 where
  pub is_write : G.write_value wr_proof ≡ ok (semi_write_of wd)
  pub is_read :
      G.read_value r_proof ≡ ok (record { write = G.new_instance_id (G.inclusion_key wr_proof) })
  pub write_proved : G.verify_proof wr_proof sc_id ≡ none
  pub read_proved : G.verify_proof r_proof sc_id ≡ none

module _ (C : Crypto) (G : Ledger C) (B : Bolt) (N : Codec) (L : IsBolt B)
    (K : IsCodec (store_schema N)) where
  store_data-Holds :
      (s : Service C G B N) (req : StoreRequest) (sk : C.Scalar) (wd : WriteData C)
      → Holds C G B N s sk wd
      → Holds C G B N (store_data C G B N s req).0 sk wd
  unfolding store_data
  store_data-Holds s req sk wd h = record {
    owner = h.owner;
    kept = requests-store C.sum256 B L (store_schema N) K s.db _ req wd.data_hash h.kept;
  }

  -- Whatever a server stores, it goes on holding the data that it holds.
  pub serve-Holds :
      (s : Service C G B N) (reqs : List StoreRequest) (sk : C.Scalar) (wd : WriteData C)
      → Holds C G B N s sk wd
      → Holds C G B N (serve C G B N s reqs) sk wd
  unfolding serve
  serve-Holds s [] sk wd h = h
  serve-Holds s (req ∷ reqs) sk wd h =
      serve-Holds (store_data C G B N s req).0 reqs sk wd (store_data-Holds s req sk wd h)
