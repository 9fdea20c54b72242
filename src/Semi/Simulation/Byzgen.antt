-- ===== src/Semi/Simulation/Byzgen.antt =====
-- A round of `runByzgenSimulation`, on a server and a ledger that work.
use calypso_experiments.Base.{ℕ, ◌≡◌, ◌≤◌, sym, ◌∙◌, List, ◌++◌, ok, All, length}
use calypso_experiments.Base.Bytes.{Bytes}
use calypso_experiments.Base.Calls.{Call, lift, ◌>>=◌, zip}
use calypso_experiments.Base.Calls.Succeed.{
  Gives, Gives-known, Gives-bind, Both-length, Both-length-zip,
}
use calypso_experiments.Crypto.{Crypto, IsSound}
use calypso_experiments.Byzcoin.{Byzcoin}
use calypso_experiments.Store.{Bolt, IsBolt, IsCodec}
use calypso_experiments.Util.{WriteData}
use calypso_experiments.Util.Fresh.{AllNew}
use calypso_experiments.Util.RoundTrip.{IsDrawn}
use calypso_experiments.Workload.{Item}
use calypso_experiments.Sharing.Blocks.{Counters, run_rounds, no_counts}
use calypso_experiments.Sharing.Blocks.Laws.{writes_in, reads_in, Fits}
use calypso_experiments.Sharing.Blocks.Ends.{Counted}
use calypso_experiments.Semi.{SemiWrite, Ledger, Codec, store_schema, Service}
use calypso_experiments.Semi.Client.{Transport}
use calypso_experiments.Semi.Holds.{Delivers}
use calypso_experiments.Semi.Simulation.{
  SetUp, sharing, create_all, write_all, byzgen_next, run_byzgen,
}
use calypso_experiments.Semi.Simulation.Running.{IsLasting, round-Counted}
use calypso_experiments.Semi.Simulation.Readers.{IsLedger, Serves}
use calypso_experiments.Semi.Simulation.Added.{TakesWrites}
use calypso_experiments.Semi.Simulation.Writes.{Accepts, IsSealed, create_all_lem}
use calypso_experiments.Semi.Simulation.Rounds.{IsReady, write_all-later}

module _ (C : Crypto) (G : Ledger C) (B : Bolt) (N : Codec) (L : IsBolt B)
    (K : IsCodec (store_schema N)) (S : IsSound C) (T : Transport G)
    (at : T.World → T.Server → Service C G B N) (D : Delivers C G B N T at) (dest : T.Server)
    (rest : List T.Server) (Y : Byzcoin) (U : SetUp G T Y) (sk : C.Scalar) (reader_bytes : Bytes)
    (Wrote : Y.World → SemiWrite C → Bytes → Type 0) (W : TakesWrites Y U Wrote)
    (A : Accepts C G B N L K S T at D dest rest Y U sk reader_bytes)
    (marshalled : C.marshal_binary (C.mul_base U.reader_sk) ≡ ok reader_bytes)
    (Asked : Y.World → Y.Proof → Bytes → Type 0) (R : IsLedger Y U Asked)
    (V : Serves C G B N L K S T at D dest rest Y U sk) (E : IsLasting Y U Wrote Asked) where
  -- On a server with room that serves and a ledger that accepts and proves everything and forgets
  -- nothing, with ten fixed items, with blocks that take the transactions of the file, with no fewer
  -- items than it has writes, with lists long enough for its reads, with keys, for AES-128, and nonces
  -- that could be drawn, and with write data whose keys all differ and are new to the server: one round
  -- of `runByzgenSimulation` ends without an error, without an index out of range and without a nil
  -- reply, and the counters are the numbers of the transactions, of the writes and of the other
  -- transactions of the file.
  pub run_byzgen-Counted :
      (num_reads : ℕ) (fixed_items items : List (Item C)) (txns sizes : List ℕ)
      (w : T.World × Y.World)
      → All (λ (item : Item C). IsDrawn item.draws) fixed_items
      → All (λ (item : Item C). IsDrawn item.draws) items
      → (at w.0 dest).private ≡ sk
      → ((fixed_wds wds : List (WriteData C))
          → create_all C G T Y U (C.mul_base sk) fixed_items ≡ ok fixed_wds
          → create_all C G T Y U (C.mul_base sk) items ≡ ok wds
          → AllNew C B (at w.0 dest).db (fixed_wds ++ wds))
      → length fixed_items ≡ 10
      → Fits sizes (length txns)
      → writes_in txns ≤ length items
      → reads_in txns ≤ num_reads
      → Gives
          (run_byzgen C G T Y U 1 num_reads (C.mul_base sk) fixed_items items txns sizes)
          w
          (λ w' c. Counted txns c)
  unfolding run_byzgen
  run_byzgen-Counted num_reads fixed_items items txns sizes w fixed_drawn drawn owner fresh ten fits
        enough enough_reads =
      let H = sharing C G T Y U in
      let n = length items in
      let loop : List ((WriteData C × Item C) × Y.Proof)
          → List (WriteData C)
          → Call (T.World × Y.World) (Counters (List (WriteData C))) =
        λ written wds.
          run_rounds H written (byzgen_next C G T Y U) 1 (length txns) txns sizes (λ state. state)
            (no_counts H written (byzgen_next C G T Y U) n num_reads wds) in
      let Re = IsReady C G B N L K S T at D dest rest Y U sk reader_bytes in
      let (wds, made, sealed, hashed) =
        create_all_lem C G B N L K S T at D dest rest Y U sk reader_bytes w items marshalled
          drawn in
      let size : length wds ≡ n =
        Both-length (IsSealed C G B N L K S T at D dest rest Y U sk reader_bytes) w items wds
          sealed in
      Gives-bind (write_all C G T Y U 3 (C.mul_base sk) fixed_items)
        (λ written. lift (create_all C G T Y U (C.mul_base sk) items) >>= loop written) w
        (write_all-later C G B N L K S T at D dest rest Y U sk reader_bytes Wrote W A marshalled 3
          fixed_items wds w fixed_drawn owner hashed
          (λ fixed_wds done. fresh fixed_wds wds done made))
        (λ v written (waiting, (fixed_wds, proofs, e, ready, stored)).
          let pairs = zip fixed_wds fixed_items in
          let all_ten : length pairs ≡ 10 =
            Both-length-zip Re v fixed_wds fixed_items ready
            ∙ sym (Both-length Re v fixed_wds fixed_items ready)
            ∙ ten in
          Gives-known (create_all C G T Y U (C.mul_base sk) items) wds (loop written) v made (
            round-Counted C G B N L K S T at D dest rest Y U sk reader_bytes Wrote W A marshalled
              Asked R V E n num_reads txns sizes wds pairs proofs written v fits enough enough_reads
              e all_ten stored (waiting, size)))
