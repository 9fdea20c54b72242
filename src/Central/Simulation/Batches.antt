-- ===== src/Central/Simulation/Batches.antt =====
-- The rounds that write, read and recover a batch, on a server that works.
use calypso_experiments.Base.{
  ℕ, ◌≡◌, refl, sym, ap, ◌∙◌, List, [], ◌∷◌, inl, inr, Result-cases, ok, All,
}
use mathlib.Core.Path.{subst}
use calypso_experiments.Base.Bytes.{Bytes}
use calypso_experiments.Base.Calls.Succeed.{Gives, Gives-runs, Round}
use calypso_experiments.Hex.{encode_to_string}
use calypso_experiments.Crypto.{Crypto, IsSound}
use calypso_experiments.Store.{Bolt, IsBolt, IsCodec}
use calypso_experiments.Store.Laws.{HasRoom, store_accepts}
use calypso_experiments.Util.{WriteData}
use calypso_experiments.Util.Fresh.{AllNew, AllNew-store}
use calypso_experiments.Central.{
  WriteRequest, ReadRequest, Codec, write_schema, Service, write, Transport, request_of,
  client_write, client_read, create_write_txn, create_read_txn, sign_read, serve,
}
use calypso_experiments.Central.Recovery.{Delivers, Holds, serve-Holds, create_write_txn-Holds}
use calypso_experiments.Central.Simulation.{reply_of, write_txn}

-- What a batch runs on: a server with room whose transport delivers, and which reads do not change.
module _ (C : Crypto) (B : Bolt) (N : Codec C) (L : IsBolt B) (K : IsCodec (write_schema N))
    (S : IsSound C) (T : Transport C) (at : T.World → T.Server → Service C B N)
    (D : Delivers C B N T at) (dest : T.Server) (rest : List T.Server) where
  pub record IsWorking : Type 1 where
    pub has_room : (db : B.Bucket) → HasRoom C.sum256 B L (write_schema N) db
    pub reads_keep :
        (w : T.World) (req : ReadRequest) → at (T.send_read w dest req).0 dest ≡ at w dest
    pub marshals : (req : WriteRequest C) → (v : Bytes) × (N.marshal req ≡ ok v)
    pub signs :
        (k : C.Scalar) (m : Bytes) (seed : C.Seed) → (sig : Bytes) × (C.sign k m seed ≡ ok sig)

  pub create_write_txn-state :
      (w : T.World) (wd : WriteData C)
      → at (create_write_txn C T w (dest ∷ rest) wd).0 dest
        ≡ (write C B N (at w dest) (request_of wd)).0
  unfolding create_write_txn client_write
  create_write_txn-state w wd = elim (Result-cases (T.send_write w dest (request_of wd)).1) [
    | inl (r, e) ↦ rw (e, create_write_txn) (D.write_state w dest (request_of wd))
    | inr (inl (x, e)) ↦ rw (e, create_write_txn) (D.write_state w dest (request_of wd))
    | inr (inr e) ↦ rw (e, create_write_txn) (D.write_state w dest (request_of wd))
  ]

  pub create_read_txn-state :
      IsWorking
      → (w : T.World) (key : List ℕ) (sk : C.Scalar) (seed : C.Seed)
      → at (create_read_txn C T w (dest ∷ rest) key sk seed).0 dest ≡ at w dest
  unfolding create_read_txn client_read
  create_read_txn-state W w key sk seed = elim (Result-cases (sign_read C T key sk seed)) [
    | inl (rr, e) ↦ rw (e, create_read_txn) (W.reads_keep w rr)
    | inr (inl (x, e)) ↦ rw (e, create_read_txn) refl
    | inr (inr e) ↦ rw (e, create_read_txn) refl
  ]

  -- The state of the loop that writes, with the write data `wds` to go.
  pub record Writing (sk : C.Scalar) (wds : List (WriteData C)) (w : T.World) : Type 0 where
    pub owner : (at w dest).private ≡ sk
    pub hashed : All (λ (wd : WriteData C). wd.data_hash ≡ C.sum256 wd.content) wds
    pub new : AllNew C B (at w dest).db wds

  -- Write data that the server has, with its key.
  abbrev pub IsWritten : C.Scalar → WriteData C → WriteData C → T.World → Type 0
  IsWritten sk wd wd' w =
      Holds C B N (at w dest) sk wd
      × (wd' ≡ record wd { stored_key = encode_to_string wd.data_hash })

  pub write_txn-Gives :
      IsWorking
      → (sk : C.Scalar) (wd : WriteData C) (wds : List (WriteData C)) (w : T.World)
      → Writing sk (wd ∷ wds) w
      → Gives (write_txn C T (dest ∷ rest) wd) w (Round (Writing sk) (IsWritten sk) wd wds w)
  unfolding write_txn
  write_txn-Gives W sk wd wds w inv =
      let (absent, differ, new) = inv.new in
      let (hashed, all_hashed) = inv.hashed in
      let (v, marshalled) = W.marshals (request_of wd) in
      let room = W.has_room (at w dest).db in
      let (replied, held) =
        create_write_txn-Holds C B N L K S T at D w dest rest wd v room absent hashed marshalled in
      let w' = (create_write_txn C T w (dest ∷ rest) wd).0 in
      let state = create_write_txn-state w wd in
      let done =
        store_accepts C.sum256 B L (write_schema N) (at w dest).db (request_of wd) v room
          (ap (B.get (at w dest).db) (sym hashed) ∙ absent) (sym hashed) marshalled in
      Gives-runs _ (record wd { stored_key = encode_to_string wd.data_hash }) w w'
        (ap (λ x. (w', reply_of C T (dest ∷ rest) x)) replied)
        (
          record {
            owner = ap (λ (s : Service C B N). s.private) state ∙ (unfold write in inv.owner);
            hashed = all_hashed;
            new =
                subst (λ (s : Service C B N). AllNew C B s.db wds) (sym state)
                  (unfold write in
                    AllNew-store C B L (write_schema N) (at w dest).db (request_of wd) _
                      wd.data_hash wds done hashed differ new);
          },
          (subst (λ k. Holds C B N (at w' dest) k wd) inv.owner held, refl),
          λ a b (kept, e). (
            subst (λ (s : Service C B N). Holds C B N s sk a) (sym state)
                (unfold serve in serve-Holds C B N L K (at w dest) (request_of wd ∷ []) sk a kept),
            e,
          ),
        )
