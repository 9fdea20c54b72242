-- ===== src/Central/Simulation/Rounds.antt =====
-- `runDecrypt` and `runMicrobenchmark` get back what they wrote.
use calypso_experiments.Base.{◌≡◌, refl, sym, ap, ◌∙◌, List, [], ◌∷◌, Result, ok, All, map}
use mathlib.Core.Path.{ap₂}
use calypso_experiments.Base.Bytes.{Bytes}
use calypso_experiments.Base.Calls.{Call, ◌>>=◌, lift, each, zip}
use calypso_experiments.Base.Calls.Succeed.{
  Gives, Gives-lift, Gives-weaken, Gives-bind, Both, Both-zip, Filled, each-Gives,
}
use calypso_experiments.Crypto.{Crypto, IsSound}
use calypso_experiments.Store.{Bolt, IsBolt, IsCodec}
use calypso_experiments.Util.Fresh.{AllNew}
use calypso_experiments.Util.{WriteData}
use calypso_experiments.Util.RoundTrip.{IsDrawn}
use calypso_experiments.Workload.{Item}
use calypso_experiments.Central.{Codec, write_schema, Service, Transport}
use calypso_experiments.Central.Recovery.{Delivers}
use calypso_experiments.Central.Simulation.{
  Batch, write_txn, read_txn, create_all, recover_all, decrypt_round, microbenchmark_round,
}
use calypso_experiments.Central.Simulation.Batches.{IsWorking}
use calypso_experiments.Central.Simulation.Reads.{
  IsReady, AllReady, Opens, create_all_lem, writes-Give, read_txn-Gives, IsReady-moves,
}

abbrev pub contents : {C : Crypto} → List (Item C) → List Bytes
contents items = map (λ item. item.content) items

module _ (C : Crypto) (B : Bolt) (N : Codec C) (L : IsBolt B) (K : IsCodec (write_schema N))
    (S : IsSound C) (T : Transport C) (at : T.World → T.Server → Service C B N)
    (D : Delivers C B N T at) (dest : T.Server) (rest : List T.Server) where
  -- The pairs still to be read are ready.
  abbrev Reading : C.Scalar → C.Scalar → List (WriteData C × Item C) → T.World → Type 0
  Reading sk reader_sk pairs w =
      All
        (λ (p : WriteData C × Item C). IsReady C B N L K S T at D dest rest sk reader_sk p.0 p.1 w)
        pairs

  Reading-moves :
      (sk reader_sk : C.Scalar) (pairs : List (WriteData C × Item C)) (w w' : T.World)
      → at w' dest ≡ at w dest
      → Reading sk reader_sk pairs w
      → Reading sk reader_sk pairs w'
  Reading-moves sk reader_sk [] w w' e h = tt
  Reading-moves sk reader_sk (p ∷ pairs) w w' e (r, h) = (
    IsReady-moves C B N L K S T at D dest rest sk reader_sk p.0 p.1 w w' e r,
    Reading-moves sk reader_sk pairs w w' e h,
  )

  abbrev Fresh : T.World → C.Scalar → Batch C → Type 0
  Fresh w sk b =
      (wds : List (WriteData C))
      → create_all C T (dest ∷ rest) (C.mul_base b.reader_sk) (C.mul_base sk) b.items ≡ ok wds
      → AllNew C B (at w dest).db wds

  -- That a program gives back the contents of a batch.
  abbrev GivesBack : Call T.World (List Bytes) → T.World → Batch C → Type 0
  GivesBack call w b = Gives call w (λ w' datas. datas ≡ contents b.items)

  -- The first two loops of both rounds, and what comes after them.
  round-Gives :
      IsWorking C B N L K S T at D dest rest
      → (w : T.World) (b : Batch C) (next : List (WriteData C) → Call T.World (List Bytes))
      → All (λ (item : Item C). IsDrawn item.draws) b.items
      → Fresh w (at w dest).private b
      → ((w' : T.World) (txns : List (WriteData C))
          → AllReady C B N L K S T at D dest rest (at w dest).private b.reader_sk b.items w' txns
          → GivesBack (next txns) w' b)
      → GivesBack
          (lift (
              create_all C T
                (dest ∷ rest)
                (C.mul_base b.reader_sk)
                (C.mul_base (at w dest).private)
                b.items)
            >>= λ wds. each (write_txn C T (dest ∷ rest)) wds >>= next)
          w
          b
  round-Gives W w b next drawn fresh after =
      let sk = (at w dest).private in
      let (wds, made, sealed, hashed) =
        create_all_lem C B N L K S T at D dest rest sk b.reader_sk w b.items drawn in
      rw made (
        Gives-bind (each (write_txn C T (dest ∷ rest)) wds) next w
          (writes-Give C B N L K S T at D dest rest W sk b.reader_sk b.items wds w refl sealed
            hashed (fresh wds made))
          after)

  abbrev Opened : C.Scalar → WriteData C × Item C → C.Point × C.Point → T.World → Type 0
  Opened reader_sk p points w = Opens C B N L K S T at D dest rest reader_sk p points w

  -- The loop that reads.
  reads-Give :
      IsWorking C B N L K S T at D dest rest
      → (sk reader_sk : C.Scalar) (pairs : List (WriteData C × Item C)) (w : T.World)
      → Reading sk reader_sk pairs w
      → Gives
          (each
            (λ (p : WriteData C × Item C).
              read_txn C T (dest ∷ rest) p.0.stored_key reader_sk p.1.seed)
            pairs)
          w
          (Filled (Reading sk reader_sk) (Opened reader_sk) pairs)
  reads-Give W sk reader_sk pairs w ready =
      each-Gives (Reading sk reader_sk) (Opened reader_sk) _
        (λ p more v (r, h).
          Gives-weaken _ v
            (read_txn-Gives C B N L K S T at D dest rest W sk reader_sk p.0 p.1 p.1.seed v r)
            (λ v' points (same, opens).
              (Reading-moves sk reader_sk more v v' same h, opens, λ a b kept. kept)))
        pairs w ready

  recover_all_lem :
      (sk reader_sk : C.Scalar) (w v : T.World) (txns : List (WriteData C)) (items : List (Item C))
      (points : List (C.Point × C.Point))
      → AllReady C B N L K S T at D dest rest sk reader_sk items w txns
      → Both (Opened reader_sk) v (zip txns items) points
      → recover_all C T (dest ∷ rest) reader_sk (zip txns points) ≡ ok (contents items)
  unfolding recover_all
  recover_all_lem sk reader_sk w v [] [] [] ready opens = refl
  recover_all_lem sk reader_sk w v [] [] (_ ∷ _) ready opens = absurd opens
  recover_all_lem sk reader_sk w v [] (_ ∷ _) points ready opens = absurd ready
  recover_all_lem sk reader_sk w v (_ ∷ _) [] points ready opens = absurd ready
  recover_all_lem sk reader_sk w v (_ ∷ _) (_ ∷ _) [] ready opens = absurd opens
  recover_all_lem sk reader_sk w v (txn ∷ txns) (item ∷ items) (p ∷ points) (r, ready) (o, opens) =
      rw (o, recover_all_lem sk reader_sk w v txns items points ready opens) refl

  decrypt_round-Gives :
      IsWorking C B N L K S T at D dest rest
      → (w : T.World) (b : Batch C) → All (λ (item : Item C). IsDrawn item.draws) b.items
      → Fresh w (at w dest).private b
      → GivesBack (decrypt_round C T (dest ∷ rest) (C.mul_base (at w dest).private) b) w b
  unfolding decrypt_round
  decrypt_round-Gives W w b drawn fresh =
      let sk = (at w dest).private in
      round-Gives W w b _ drawn fresh (λ w' txns ready.
        Gives-bind _ _ w'
          (reads-Give W sk b.reader_sk (zip txns b.items) w'
            (Both-zip (IsReady C B N L K S T at D dest rest sk b.reader_sk) w' txns b.items ready))
          (λ v points filled.
            Gives-lift _ (contents b.items) v
              (recover_all_lem sk b.reader_sk w' v txns b.items points ready filled.1) refl))

  -- A round of `runDecrypt` against a server that works and whose transport delivers, with room in its
  -- database and with keys, for AES-128, and nonces that could be drawn: if the keys of the write data
  -- differ and are new to the server, the round ends without an error and recovers exactly the
  -- contents, in their order.
  pub decrypt_round-recovers :
      IsWorking C B N L K S T at D dest rest
      → (w : T.World) (b : Batch C) → All (λ (item : Item C). IsDrawn item.draws) b.items
      → Fresh w (at w dest).private b
      → (decrypt_round C T (dest ∷ rest) (C.mul_base (at w dest).private) b w).1
        ≡ ok (contents b.items)
  decrypt_round-recovers W w b drawn fresh =
      let g = decrypt_round-Gives W w b drawn fresh in
      ap (λ (x : T.World × Result (List Bytes)). x.1) g.runs ∙ ap ok g.holds

  -- What the loop of `runMicrobenchmark` recovers.
  abbrev Recovered : WriteData C × Item C → Bytes → T.World → Type 0
  Recovered p recovered w = recovered ≡ p.1.content

  contents_lem :
      (sk reader_sk : C.Scalar) (w w' : T.World) (txns : List (WriteData C)) (items : List (Item C))
      (datas : List Bytes)
      → AllReady C B N L K S T at D dest rest sk reader_sk items w txns
      → Both Recovered w' (zip txns items) datas
      → datas ≡ contents items
  contents_lem sk reader_sk w w' [] [] [] ready all = refl
  contents_lem sk reader_sk w w' [] [] (_ ∷ _) ready all = absurd all
  contents_lem sk reader_sk w w' [] (_ ∷ _) datas ready all = absurd ready
  contents_lem sk reader_sk w w' (_ ∷ _) [] datas ready all = absurd ready
  contents_lem sk reader_sk w w' (_ ∷ _) (_ ∷ _) [] ready all = absurd all
  contents_lem sk reader_sk w w' (txn ∷ txns) (item ∷ items) (d ∷ datas) (r, ready) (e, all) =
      ap₂ (λ (x : Bytes) (xs : List Bytes). x ∷ xs) e
        (contents_lem sk reader_sk w w' txns items datas ready all)

  microbenchmark_round-Gives :
      IsWorking C B N L K S T at D dest rest
      → (w : T.World) (b : Batch C) → All (λ (item : Item C). IsDrawn item.draws) b.items
      → Fresh w (at w dest).private b
      → GivesBack (microbenchmark_round C T (dest ∷ rest) (C.mul_base (at w dest).private) b) w b
  unfolding microbenchmark_round
  microbenchmark_round-Gives W w b drawn fresh =
      let sk = (at w dest).private in
      round-Gives W w b _ drawn fresh (λ w' txns ready.
        Gives-weaken _ w'
          (each-Gives (Reading sk b.reader_sk) Recovered _
            (λ p more v (r, h).
              Gives-bind _ _ v
                (read_txn-Gives C B N L K S T at D dest rest W sk b.reader_sk p.0 p.1 p.1.seed v r)
                (λ v' points (same, opens).
                  Gives-lift _ p.1.content v' opens
                    (Reading-moves sk b.reader_sk more v v' same h, refl, λ a c kept. kept)))
            (zip txns b.items) w'
            (Both-zip (IsReady C B N L K S T at D dest rest sk b.reader_sk) w' txns b.items ready))
          (λ v datas filled. contents_lem sk b.reader_sk w' v txns b.items datas ready filled.1))

  -- Under the same conditions, a round of `runMicrobenchmark`, which recovers the data of each write
  -- as soon as it is read, ends as a round of `runDecrypt` does: with the same data.
  pub microbenchmark_round-decrypt_round :
      IsWorking C B N L K S T at D dest rest
      → (w : T.World) (b : Batch C) → All (λ (item : Item C). IsDrawn item.draws) b.items
      → Fresh w (at w dest).private b
      → (microbenchmark_round C T (dest ∷ rest) (C.mul_base (at w dest).private) b w).1
        ≡ (decrypt_round C T (dest ∷ rest) (C.mul_base (at w dest).private) b w).1
  microbenchmark_round-decrypt_round W w b drawn fresh =
      let g = microbenchmark_round-Gives W w b drawn fresh in
      ap (λ (x : T.World × Result (List Bytes)). x.1) g.runs
      ∙ ap ok g.holds
      ∙ sym (decrypt_round-recovers W w b drawn fresh)
