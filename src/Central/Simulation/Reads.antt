-- ===== src/Central/Simulation/Reads.antt =====
-- What was written can be read: the states between the loops of a round.
use calypso_experiments.Base.{
  ◌≡◌, ◌≢◌, refl, sym, ap, ◌∙◌, List, [], ◌∷◌, inl, inr, >>=-eq-ok, Result, Result-cases, ok,
  length, ◌≤◌, All,
}
use mathlib.Core.Path.{subst}
use calypso_experiments.Base.Calls.{each}
use calypso_experiments.Base.Calls.Succeed.{
  Gives, Gives-runs, Gives-weaken, Both, Both-compose, each-Gives,
}
use calypso_experiments.Hex.{encode_to_string}
use calypso_experiments.Crypto.{Crypto, IsSound}
use calypso_experiments.Store.{Bolt, IsBolt, IsCodec, store}
use calypso_experiments.Store.Laws.{store_refuses}
use calypso_experiments.Util.Fresh.{AllNew}
use calypso_experiments.Util.{WriteData, recover_data}
use calypso_experiments.Util.RoundTrip.{IsDrawn, Seals, create_write_data-Seals}
use calypso_experiments.Workload.{Item}
use calypso_experiments.Central.{
  WriteReply, Codec, write_schema, Service, write, Transport, request_of, client_write,
  create_write_txn, create_read_txn,
}
use calypso_experiments.Central.Recovery.{Delivers, Holds, create_read_txn-recovers}
use calypso_experiments.Central.Simulation.{write_txn, read_txn, create_all}
use calypso_experiments.Central.Simulation.Batches.{
  IsWorking, create_read_txn-state, Writing, IsWritten, write_txn-Gives,
}

module _ (C : Crypto) (B : Bolt) (N : Codec C) (L : IsBolt B) (K : IsCodec (write_schema N))
    (S : IsSound C) (T : Transport C) (at : T.World → T.Server → Service C B N)
    (D : Delivers C B N T at) (dest : T.Server) (rest : List T.Server) where
  -- What a read needs of write data that went through all that.
  pub record IsReady (sk reader_sk : C.Scalar) (txn : WriteData C) (item : Item C) (w : T.World)
      : Type 0 where
    pub made : WriteData C
    pub seals : Seals C made sk (C.mul_base reader_sk) item.content item.draws.sym_key
    pub fits : length item.draws.sym_key ≤ C.embed_len
    pub held : Holds C B N (at w dest) sk made
    pub written : txn ≡ record made { stored_key = encode_to_string made.data_hash }

  abbrev pub IsSealed : C.Scalar → C.Scalar → Item C → WriteData C → T.World → Type 0
  IsSealed sk reader_sk item wd w =
      Seals C wd sk (C.mul_base reader_sk) item.content item.draws.sym_key
      × (length item.draws.sym_key ≤ C.embed_len)

  pub create_all_lem :
      (sk reader_sk : C.Scalar) (w : T.World) (items : List (Item C))
      → All (λ (item : Item C). IsDrawn item.draws) items
      → (wds : List (WriteData C)) × (create_all C T
            (dest ∷ rest)
            (C.mul_base reader_sk)
            (C.mul_base sk)
            items
          ≡ ok wds)
        × Both (IsSealed sk reader_sk) w items wds
        × All (λ (wd : WriteData C). wd.data_hash ≡ C.sum256 wd.content) wds
  unfolding create_all
  create_all_lem sk reader_sk w [] drawn = ([], refl, tt, tt)
  create_all_lem sk reader_sk w (item ∷ items) (d, drawn) =
      let (wds, made, sealed, hashed) = create_all_lem sk reader_sk w items drawn in
      let (wd, created, seals, blank) =
        create_write_data-Seals C S item.draws d sk item.content (C.mul_base reader_sk) in
      (wd ∷ wds, rw (created, made) refl, ((seals, d.fits), sealed), (seals.hashed, hashed))

  -- After the first two loops: every item is ready to be read.
  abbrev pub AllReady : C.Scalar → C.Scalar → List (Item C) → T.World → List (WriteData C) → Type 0
  AllReady sk reader_sk items w txns = Both (IsReady sk reader_sk) w txns items

  pub writes-Give :
      IsWorking C B N L K S T at D dest rest
      → (sk reader_sk : C.Scalar) (items : List (Item C)) (wds : List (WriteData C)) (w : T.World)
      → (at w dest).private ≡ sk
      → Both (IsSealed sk reader_sk) w items wds
      → All (λ (wd : WriteData C). wd.data_hash ≡ C.sum256 wd.content) wds
      → AllNew C B (at w dest).db wds
      → Gives (each (write_txn C T (dest ∷ rest)) wds) w (AllReady sk reader_sk items)
  writes-Give W sk reader_sk items wds w owner sealed hashed new =
      Gives-weaken _ w
        (each-Gives (Writing C B N L K S T at D dest rest sk)
          (IsWritten C B N L K S T at D dest rest sk) (write_txn C T (dest ∷ rest))
          (λ wd more v inv. write_txn-Gives C B N L K S T at D dest rest W sk wd more v inv) wds w
          (record { owner = owner; hashed = hashed; new = new }))
        (λ w' txns filled.
          Both-compose (IsSealed sk reader_sk) (IsWritten C B N L K S T at D dest rest sk)
            (IsReady sk reader_sk) w w'
            (λ item wd txn p q. record {
              made = wd;
              seals = p.0;
              fits = p.1;
              held = q.0;
              written = q.1;
            })
            items wds txns sealed filled.1)

  -- A read of what is ready gives points from which the content is recovered, and changes nothing.
  abbrev pub Opens : C.Scalar → WriteData C × Item C → C.Point × C.Point → T.World → Type 0
  Opens reader_sk p points w =
      recover_data C p.0.content reader_sk points.0 points.1 ≡ ok p.1.content

  pub read_txn-Gives :
      IsWorking C B N L K S T at D dest rest
      → (sk reader_sk : C.Scalar) (txn : WriteData C) (item : Item C) (seed : C.Seed) (w : T.World)
      → IsReady sk reader_sk txn item w
      → Gives
          (read_txn C T (dest ∷ rest) txn.stored_key reader_sk seed)
          w
          (λ w' points. (at w' dest ≡ at w dest) × Opens reader_sk (txn, item) points w')
  unfolding read_txn
  read_txn-Gives W sk reader_sk txn item seed w r =
      let (sig, signed) = W.signs reader_sk r.made.data_hash seed in
      let (points, done, opened) =
        create_read_txn-recovers C B N L K S T at D w dest rest r.made sk reader_sk item.content
          item.draws.sym_key sig seed r.fits r.held r.seals signed in
      let key = encode_to_string r.made.data_hash in
      let w' = (create_read_txn C T w (dest ∷ rest) key reader_sk seed).0 in
      rw r.written (
        Gives-runs _ points w w' (ap (λ (x : Result (C.Point × C.Point)). (w', x)) done)
          (create_read_txn-state C B N L K S T at D dest rest W w key reader_sk seed, opened))

  -- What is ready stays ready while the server does not change.
  pub IsReady-moves :
      (sk reader_sk : C.Scalar) (txn : WriteData C) (item : Item C) (w w' : T.World)
      → at w' dest ≡ at w dest
      → IsReady sk reader_sk txn item w
      → IsReady sk reader_sk txn item w'
  IsReady-moves sk reader_sk txn item w w' e r = record {
    made = r.made;
    seals = r.seals;
    fits = r.fits;
    held = subst (λ (s : Service C B N). Holds C B N s sk r.made) (sym e) r.held;
    written = r.written;
  }

  -- Write data that the server has is refused.
  pub write_txn-refused :
      (sk : C.Scalar) (wd wd' : WriteData C) (w : T.World)
      → Holds C B N (at w dest) sk wd
      → (write_txn C T (dest ∷ rest) wd w).1 ≢ ok wd'
  unfolding write_txn create_write_txn client_write write
  write_txn-refused sk wd wd' w held done =
      elim (Result-cases (T.send_write w dest (request_of wd)).1) [
        | inr (inl (x, e)) ↦ (let h = rw (e, write_txn, create_write_txn) at done in absurd (cc))
        | inr (inr e) ↦ (let h = rw (e, write_txn, create_write_txn) at done in absurd (cc))
        | inl (r, e) ↦ answered r (sym (D.write_reply w dest (request_of wd)) ∙ e)
      ]
    where
      answered : (r : WriteReply) → (write C B N (at w dest) (request_of wd)).1 ≡ ok r → ⊥
      answered r e =
          let (key, kept, _) =
            >>=-eq-ok (store C.sum256 B (write_schema N) (at w dest).db (request_of wd)).1 _ e in
          store_refuses C.sum256 B L (write_schema N) (at w dest).db (request_of wd) (request_of wd)
            key held.kept kept
