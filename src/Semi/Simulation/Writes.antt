-- ===== src/Semi/Simulation/Writes.antt =====
-- The loops of the simulation that write, against a server with room.
use calypso_experiments.Base.{◌≡◌, refl, sym, ap, ◌∙◌, List, [], ◌∷◌, ok, length, ◌≤◌, All}
use mathlib.Core.Path.{subst}
use calypso_experiments.Base.Bytes.{Bytes}
use calypso_experiments.Base.Calls.Succeed.{Gives, Gives-runs, Gives-weaken, Both, Round}
use calypso_experiments.Hex.{encode_to_string}
use calypso_experiments.Crypto.{Crypto, IsSound}
use calypso_experiments.Byzcoin.{Byzcoin}
use calypso_experiments.Store.{Bolt, IsBolt, IsCodec}
use calypso_experiments.Store.Laws.{HasRoom, store_accepts}
use calypso_experiments.Util.{WriteData, aead_open}
use calypso_experiments.Util.Fresh.{AllNew, AllNew-store}
use calypso_experiments.Util.RoundTrip.{IsDrawn, Seals, create_write_data-Seals_semi}
use calypso_experiments.Workload.{Item}
use calypso_experiments.Semi.{StoreRequest, Ledger, Codec, store_schema, Service, store_data, serve}
use calypso_experiments.Semi.Client.{Transport, client_store_data}
use calypso_experiments.Semi.Holds.{stored_of, Delivers, Holds, serve-Holds}
use calypso_experiments.Semi.Recovery.{client_store_data-Holds}
use calypso_experiments.Semi.Simulation.{SetUp, create_all, store_one}

module _ (C : Crypto) (G : Ledger C) (B : Bolt) (N : Codec) (L : IsBolt B)
    (K : IsCodec (store_schema N)) (S : IsSound C) (T : Transport G)
    (at : T.World → T.Server → Service C G B N) (D : Delivers C G B N T at) (dest : T.Server)
    (rest : List T.Server) (Y : Byzcoin) (U : SetUp G T Y) (sk : C.Scalar)
    (reader_bytes : Bytes) where
  -- What the writers rely on: the first server of the roster has room, and requests can be marshalled.
  pub record Accepts : Type 1 where
    pub roster_is : U.roster ≡ dest ∷ rest
    pub has_room : (db : B.Bucket) → HasRoom C.sum256 B L (store_schema N) db
    pub marshals : (req : StoreRequest) → (v : Bytes) × (N.marshal req ≡ ok v)

  -- Write data for the item.
  abbrev pub IsSealed : Item C → WriteData C → T.World × Y.World → Type 0
  IsSealed item wd w =
      Seals C wd sk (C.mul_base U.reader_sk) item.content item.draws.sym_key
      × (length item.draws.sym_key ≤ C.embed_len)
      × (aead_open C item.draws.sym_key wd.enc_reader ≡ ok reader_bytes)

  abbrev pub AllHashed : List (WriteData C) → Type 0
  AllHashed wds = All (λ (wd : WriteData C). wd.data_hash ≡ C.sum256 wd.content) wds

  pub create_all_lem :
      (w : T.World × Y.World) (items : List (Item C))
      → C.marshal_binary (C.mul_base U.reader_sk) ≡ ok reader_bytes
      → All (λ (item : Item C). IsDrawn item.draws) items
      → (wds : List (WriteData C)) × (create_all C G T Y U (C.mul_base sk) items ≡ ok wds)
        × Both IsSealed w items wds
        × AllHashed wds
  unfolding create_all
  create_all_lem w [] marshalled drawn = ([], refl, tt, tt)
  create_all_lem w (item ∷ items) marshalled (d, drawn) =
      let (wds, made, sealed, hashed) = create_all_lem w items marshalled drawn in
      let (wd, created, seals, unsealed) =
        create_write_data-Seals_semi C S item.draws d sk item.content (C.mul_base U.reader_sk)
          reader_bytes marshalled in
      (
        wd ∷ wds,
        rw (created, made) refl,
        ((seals, d.fits, unsealed), sealed),
        (seals.hashed, hashed),
      )

  -- The state of the loop that stores, with the write data `wds` to go.
  pub record Storing (wds : List (WriteData C)) (w : T.World × Y.World) : Type 0 where
    pub owner : (at w.0 dest).private ≡ sk
    pub hashed : AllHashed wds
    pub new : AllNew C B (at w.0 dest).db wds

  -- Write data that the server has, with its key.
  abbrev pub IsKept : WriteData C → WriteData C → T.World × Y.World → Type 0
  IsKept wd wd' w =
      Holds C G B N (at w.0 dest) sk wd
      × (wd' ≡ record wd { stored_key = encode_to_string wd.data_hash })

  -- The rest of the write data goes on being new.
  Storing-store :
      Accepts
      → (wd : WriteData C) (wds : List (WriteData C)) (w : T.World × Y.World) (t : T.World)
      → Storing (wd ∷ wds) w
      → at t dest ≡ (store_data C G B N (at w.0 dest) (stored_of wd)).0
      → Storing wds (t, w.1)
  Storing-store A wd wds w t inv state =
      let (absent, differ, new) = inv.new in
      let (hashed, all_hashed) = inv.hashed in
      let (v, marshalled) = A.marshals (stored_of wd) in
      let done =
        store_accepts C.sum256 B L (store_schema N) (at w.0 dest).db (stored_of wd) v
          (A.has_room (at w.0 dest).db) (ap (B.get (at w.0 dest).db) (sym hashed) ∙ absent)
          (sym hashed) marshalled in
      record {
        owner = ap (λ (s : Service C G B N). s.private) state ∙ (unfold store_data in inv.owner);
        hashed = all_hashed;
        new =
            subst (λ (s : Service C G B N). AllNew C B s.db wds) (sym state)
              (unfold store_data in
                AllNew-store C B L (store_schema N) (at w.0 dest).db (stored_of wd) _ wd.data_hash
                  wds done hashed differ new);
      }

  -- It leaves the ledger alone.
  pub store_one-ledger :
      Accepts
      → (wd : WriteData C) (wds : List (WriteData C)) (w : T.World × Y.World) → Storing (wd ∷ wds) w
      → Gives
          (store_one C G T Y U wd)
          w
          (λ w' wd'. (w'.1 ≡ w.1) × Round Storing IsKept wd wds w w' wd')
  unfolding store_one client_store_data
  store_one-ledger A wd wds w inv =
      let (v, marshalled) = A.marshals (stored_of wd) in
      let (replied, held) =
        client_store_data-Holds C G B N L K S T at D w.0 dest rest wd v
          (A.has_room (at w.0 dest).db) inv.new.0 inv.hashed.0 marshalled in
      let t = (T.send_store w.0 dest (stored_of wd)).0 in
      let state = D.store_state w.0 dest (stored_of wd) in
      Gives-runs _ (record wd { stored_key = encode_to_string wd.data_hash }) w (t, w.1)
        (rw (A.roster_is, replied) refl)
        (
          refl,
          (
            Storing-store A wd wds w t inv state,
            (subst (λ k. Holds C G B N (at t dest) k wd) inv.owner held, refl),
            λ a b (kept, e). (
              subst (λ (s : Service C G B N). Holds C G B N s sk a) (sym state)
                  (unfold serve in
                    serve-Holds C G B N L K (at w.0 dest) (stored_of wd ∷ []) sk a kept),
              e,
            ),
          ),
        )

  pub store_one-Gives :
      Accepts
      → (wd : WriteData C) (wds : List (WriteData C)) (w : T.World × Y.World) → Storing (wd ∷ wds) w
      → Gives (store_one C G T Y U wd) w (Round Storing IsKept wd wds w)
  store_one-Gives A wd wds w inv =
      Gives-weaken _ w (store_one-ledger A wd wds w inv) (λ w' wd' (ledger, round). round)

  -- Nothing else than the server's state matters.
  pub Storing-moves :
      (wds : List (WriteData C)) (w w' : T.World × Y.World)
      → at w'.0 dest ≡ at w.0 dest
      → Storing wds w
      → Storing wds w'
  Storing-moves wds w w' e inv = record {
    owner = ap (λ (s : Service C G B N). s.private) e ∙ inv.owner;
    hashed = inv.hashed;
    new = subst (λ (s : Service C G B N). AllNew C B s.db wds) (sym e) inv.new;
  }
