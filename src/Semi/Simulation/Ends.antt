-- ===== src/Semi/Simulation/Ends.antt =====
-- `runMultiClientSimulation` and `runMicrobenchmark`, from the write data to the recovered texts.
use calypso_experiments.Base.{ℕ, ◌≡◌, ◌≤◌, ◌<◌, refl, sym, ap, ◌∙◌, List, ok, All, length, arith}
use mathlib.Core.Path.{subst}
use calypso_experiments.Base.Bytes.{Bytes}
use calypso_experiments.Base.Calls.{zip}
use calypso_experiments.Base.Calls.Succeed.{
  Gives, Gives-runs, Gives-bind, Both, Both-zip, Both-length, Both-length-zip, Both-second,
}
use calypso_experiments.Crypto.{Crypto, IsSound}
use calypso_experiments.Byzcoin.{Byzcoin}
use calypso_experiments.Store.{Bolt, IsBolt, IsCodec}
use calypso_experiments.Util.{WriteData}
use calypso_experiments.Util.RoundTrip.{IsDrawn}
use calypso_experiments.Workload.{Item}
use calypso_experiments.Sharing.{Goroutine, ended, run_schedule, spawn_all}
use calypso_experiments.Sharing.Schedules.{turns_in, all_ended}
use calypso_experiments.Sharing.Ended.{IsDone, all_ended-zip}
use calypso_experiments.Semi.{SemiWrite, Ledger, Codec, store_schema, Service}
use calypso_experiments.Semi.Client.{Transport}
use calypso_experiments.Semi.Holds.{Delivers}
use calypso_experiments.Semi.Simulation.{SetUp, sharing, multi_client_round}
use calypso_experiments.Semi.Simulation.Readers.{IsLedger, Serves, readers_end}
use calypso_experiments.Semi.Simulation.Rounds.{IsReady, Stored, Fresh, write_all-Gives}
use calypso_experiments.Semi.Simulation.Added.{TakesWrites}
use calypso_experiments.Semi.Simulation.Writes.{Accepts}

module _ (C : Crypto) (G : Ledger C) (B : Bolt) (N : Codec) (L : IsBolt B)
    (K : IsCodec (store_schema N)) (S : IsSound C) (T : Transport G)
    (at : T.World → T.Server → Service C G B N) (D : Delivers C G B N T at) (dest : T.Server)
    (rest : List T.Server) (Y : Byzcoin) (U : SetUp G T Y) (sk : C.Scalar) (reader_bytes : Bytes)
    (Wrote : Y.World → SemiWrite C → Bytes → Type 0) (W : TakesWrites Y U Wrote)
    (A : Accepts C G B N L K S T at D dest rest Y U sk reader_bytes)
    (marshalled : C.marshal_binary (C.mul_base U.reader_sk) ≡ ok reader_bytes)
    (Asked : Y.World → Y.Proof → Bytes → Type 0) (R : IsLedger Y U Asked)
    (V : Serves C G B N L K S T at D dest rest Y U sk) where
  -- The goroutine has the item, and has ended without an error.
  abbrev pub HasEnded : Item C → Goroutine (sharing C G T Y U) → T.World × Y.World → Type 0
  HasEnded item g w = ((g.item).1 ≡ item) × (g.stage ≡ ended (ok tt))

  -- A round of `runMultiClientSimulation` on a server with room that serves, whose transport delivers,
  -- and on a ledger that accepts and proves every write and every read, with keys, for AES-128, and
  -- nonces that could be drawn, and write data whose keys differ and are new to the server: under any
  -- schedule that gives at least three turns to each goroutine, the round ends without an error. There
  -- is one goroutine for each item, in order, and each has ended without an error, so that it has
  -- recovered the content of its own item.
  pub multi_client_round-ends :
      (wait : ℕ) (schedule : List ℕ) (items : List (Item C)) (w : T.World × Y.World)
      → All (λ (item : Item C). IsDrawn item.draws) items
      → (at w.0 dest).private ≡ sk
      → Fresh C G B N L K S T at D dest rest Y U sk reader_bytes w items
      → ((i : ℕ) → i < length items → 3 ≤ turns_in schedule i)
      → Gives
          (multi_client_round C G T Y U wait schedule (C.mul_base sk) items)
          w
          (λ w' readers. Both HasEnded w' items readers)
  unfolding multi_client_round
  multi_client_round-ends wait schedule items w drawn owner fresh fair =
      Gives-bind _ _ w
        (write_all-Gives C G B N L K S T at D dest rest Y U sk reader_bytes Wrote W A marshalled
          wait items w drawn owner fresh)
        (λ v written (wds, proofs, e, ready, stored).
          let H = sharing C G T Y U in
          let state = run_schedule H wait schedule (v, spawn_all H written) in
          let St = Stored C G B N L K S T at D dest rest Y U sk reader_bytes in
          let Re = IsReady C G B N L K S T at D dest rest Y U sk reader_bytes in
          let size : length written ≡ length items =
            ap length e
            ∙ Both-length-zip St v (zip wds items) proofs stored
            ∙ Both-length-zip Re v wds items ready
            ∙ sym (Both-length Re v wds items ready) in
          let all_done : state.1 ≡ all_ended written =
            readers_end C G B N L K S T at D dest rest Y U sk Asked R V wait schedule written v
              (subst (All (λ (p : (WriteData C × Item C) × Y.Proof). St p.0 p.1 v)) (sym e)
                (Both-zip St v (zip wds items) proofs stored))
              (λ i lt. fair i (omega (arith, size, lt))) in
          Gives-runs _ state.1 v state.0 refl (
            subst (λ readers. Both HasEnded state.0 items readers)
              (ap all_ended (sym e) ∙ sym all_done)
              (Both-second Re (IsDone {S = H}) HasEnded v state.0
                (λ wd item g done. (ap (λ (x : WriteData C × Item C). x.1) done.0, done.1)) wds
                items (all_ended {S = H} (zip (zip wds items) proofs)) ready
                (all_ended-zip H St v state.0 (zip wds items) proofs stored))))
