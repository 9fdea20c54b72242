-- ===== src/Semi/Simulation/Running.antt =====
-- The calls of a round of `runByzgenSimulation`, on a server and a ledger that work: each keeps what the
-- later ones need.
use calypso_experiments.Base.{
  ℕ, suc, ◌≡◌, ◌≤◌, ◌<◌, refl, sym, ap, ◌∙◌, List, ok, Result, drop, length, drop_total, arith,
}
use mathlib.Core.Path.{subst}
use calypso_experiments.Base.Bytes.{Bytes}
use calypso_experiments.Base.Calls.{zip}
use calypso_experiments.Base.Calls.Succeed.{Gives, Gives-runs, Gives-weaken, Both}
use calypso_experiments.Hex.{encode_to_string}
use calypso_experiments.Crypto.{Crypto, IsSound}
use calypso_experiments.Byzcoin.{Byzcoin, TransactionReply}
use calypso_experiments.Store.{Bolt, IsBolt, IsCodec}
use calypso_experiments.Util.{WriteData}
use calypso_experiments.Workload.{Item, set_elem, at_index-drop, drop-set_elem}
use calypso_experiments.Sharing.Blocks.{run_rounds, no_counts}
use calypso_experiments.Sharing.Blocks.Laws.{writes_in, reads_in, Fits, IsRunning, Later, Still}
use calypso_experiments.Sharing.Blocks.Steps.{length-set_elem}
use calypso_experiments.Sharing.Blocks.Ends.{Counted, TenShared-zip, run_round-Counted}
use calypso_experiments.Semi.{SemiWrite, Ledger, Codec, store_schema, Service}
use calypso_experiments.Semi.Client.{
  Transport, semi_write_of, add_write_transaction, add_read_transaction,
}
use calypso_experiments.Semi.Holds.{Delivers}
use calypso_experiments.Semi.Simulation.{SetUp, sharing, add_one, byzgen_next}
use calypso_experiments.Semi.Simulation.Readers.{
  IsLedger, Serves, IsStored, IsOf, opened, IsStored-Holds, IsStored-moves,
}
use calypso_experiments.Semi.Simulation.Added.{TakesWrites}
use calypso_experiments.Semi.Simulation.Writes.{Accepts, Storing, Storing-moves, store_one-ledger}

-- A ledger that forgets neither writes nor reads.
pub record IsLasting {C : Crypto} {G : Ledger C} {T : Transport G} (Y : Byzcoin) (U : SetUp G T Y)
    (Wrote : Y.World → SemiWrite C → Bytes → Type 0) (Asked : Y.World → Y.Proof → Bytes → Type 0)
    : Type 0 where
  pub write_keeps :
      (y : Y.World) (wd : WriteData C) (wait : ℕ) (p : Y.Proof) (id : Bytes)
      → Asked y p id
      → Asked (add_write_transaction Y U.zero_nonce U.encode_write y wd U.writer U.darc wait).0 p id
  pub read_keeps :
      (y : Y.World) (q : Y.Proof) (wait : ℕ) (s : SemiWrite C) (id : Bytes)
      → Wrote y s id
      → Wrote (add_read_transaction Y U.zero_nonce U.encode_read y q U.reader U.darc wait).0 s id
  pub proof_keeps :
      (y : Y.World) (i : Bytes) (p : Y.Proof) (id : Bytes)
      → Asked y p id
      → Asked (Y.get_proof y i).0 p id
  pub proof_keeps_writes :
      (y : Y.World) (i : Bytes) (s : SemiWrite C) (id : Bytes)
      → Wrote y s id
      → Wrote (Y.get_proof y i).0 s id

module _ (C : Crypto) (G : Ledger C) (B : Bolt) (N : Codec) (L : IsBolt B)
    (K : IsCodec (store_schema N)) (S : IsSound C) (T : Transport G)
    (at : T.World → T.Server → Service C G B N) (D : Delivers C G B N T at) (dest : T.Server)
    (rest : List T.Server) (Y : Byzcoin) (U : SetUp G T Y) (sk : C.Scalar) (reader_bytes : Bytes)
    (Wrote : Y.World → SemiWrite C → Bytes → Type 0) (W : TakesWrites Y U Wrote)
    (A : Accepts C G B N L K S T at D dest rest Y U sk reader_bytes)
    (marshalled : C.marshal_binary (C.mul_base U.reader_sk) ≡ ok reader_bytes)
    (Asked : Y.World → Y.Proof → Bytes → Type 0) (R : IsLedger Y U Asked)
    (V : Serves C G B N L K S T at D dest rest Y U sk) (E : IsLasting Y U Wrote Asked) where
  -- What the writes of the round change, and what they need.
  abbrev pub IsShared : WriteData C × Item C → Y.Proof → T.World × Y.World → Type 0
  IsShared written p w = IsStored C G B N L K S T at D dest rest Y U sk written p w

  abbrev pub HasAsked : Y.Proof → Bytes → T.World × Y.World → Type 0
  HasAsked p id w = Asked w.1 p id

  abbrev pub IsRead : Y.Proof → Y.Proof → Type 0
  IsRead p q = IsOf C G B N L K S T at D dest rest Y U sk Asked R V p q

  abbrev pub IsWrite : Bytes → T.World × Y.World → Type 0
  IsWrite id w = (s : SemiWrite C) × Wrote w.1 s id

  abbrev pub Waiting : List (WriteData C) → T.World × Y.World → Type 0
  Waiting wds w = Storing C G B N L K S T at D dest rest Y U sk reader_bytes wds w

  abbrev pub Ready : ℕ → ℕ → List (WriteData C) → T.World × Y.World → Type 0
  Ready n i wds w = Waiting (drop i wds) w × (length wds ≡ n)

  abbrev AllLater : ℕ → T.World × Y.World → T.World × Y.World → Type 0
  AllLater n w w' = Later (sharing C G T Y U) IsShared HasAsked IsRead IsWrite (Ready n) w w'

  abbrev AllStill : ℕ → T.World × Y.World → T.World × Y.World → Type 0
  AllStill n w w' = Still (sharing C G T Y U) IsShared HasAsked IsRead IsWrite (Ready n) w w'

  -- Calls that leave the server as it is and the ledger what it had.
  still :
      (n : ℕ) (w w' : T.World × Y.World)
      → at w'.0 dest ≡ at w.0 dest
      → ((p : Y.Proof) (id : Bytes) → Asked w.1 p id → Asked w'.1 p id)
      → ((s : SemiWrite C) (id : Bytes) → Wrote w.1 s id → Wrote w'.1 s id)
      → AllStill n w w'
  still n w w' e asks writes = (
    (
      (
        λ written p s. IsStored-moves C G B N L K S T at D dest rest Y U sk written p w w' e s,
        asks,
      ),
      λ id (s, wrote). (s, writes s id wrote),
    ),
    λ i wds (waiting, size). (
      Storing-moves C G B N L K S T at D dest rest Y U sk reader_bytes (drop i wds) w w' e waiting,
      size,
    ),
  )

  next-Gives :
      (n i wait : ℕ) (wds : List (WriteData C)) (w : T.World × Y.World)
      → i < n
      → Ready n i wds w
      → Gives
          (byzgen_next C G T Y U i wait wds)
          w
          (λ w' r. Ready n (suc i) r.0 w' × IsWrite r.1 w' × AllLater n w w')
  unfolding byzgen_next add_one
  next-Gives n i wait wds w lt (waiting, size) =
      let (wd, more, at_i) = drop_total wds i (omega (arith, lt, size)) in
      let stored =
        store_one-ledger C G B N L K S T at D dest rest Y U sk reader_bytes A wd more w
          (subst (λ l. Waiting l w) at_i waiting) in
      let (ledger, (left, kept, keeps)) = stored.holds in
      let t = (stored.world).0 in
      let wd' = stored.value in
      let added = W.writes (stored.world).1 wd' wait in
      let w' : T.World × Y.World = (t, added.world) in
      let keyed : WriteData C → WriteData C =
        λ x. record x { stored_key = encode_to_string x.data_hash } in
      Gives-runs _ (set_elem wds i wd', (added.value).instance_id) w w'
        (rw (at_index-drop wds i wd more at_i, stored.runs, added.runs) refl)
        (
          (
            subst (λ l. Waiting l w') (sym (drop-set_elem wds i wd wd' more at_i))
                (Storing-moves C G B N L K S T at D dest rest Y U sk reader_bytes more stored.world
                  w' refl left),
            length-set_elem wds i wd' ∙ size,
          ),
          (semi_write_of wd', added.holds.0),
          (
            (
              λ written p s.
                  IsStored-Holds C G B N L K S T at D dest rest Y U sk written p w w'
                    (keeps written.0 (keyed written.0) (s.held, refl)).0 s,
              λ p id asked.
                  subst (λ (x : Y.World). Asked x p id)
                    (ap (λ (x : Y.World × Result (TransactionReply Y)). x.0) added.runs)
                    (E.write_keeps (stored.world).1 wd' wait p id
                      (subst (λ (x : Y.World). Asked x p id) (sym ledger) asked)),
            ),
            λ id (s, wrote).
                (s, added.holds.1 s id (subst (λ (x : Y.World). Wrote x s id) (sym ledger) wrote)),
          ),
        )

  semi-IsRunning :
      (n : ℕ)
      → IsRunning
          (sharing C G T Y U)
          IsShared
          HasAsked
          IsRead
          IsWrite
          (Ready n)
          n
          (byzgen_next C G T Y U)
  semi-IsRunning n = record {
    adds = λ i wait wds w lt ready. next-Gives n i wait wds w lt ready;
    writes_proved = λ id (t, y) (s, wrote).
        let r = W.proves y s id wrote in
        let (match, shown, proved, later) = r.holds in
        Gives-runs _ r.value (t, y) (t, r.world) (rw r.runs refl)
          (
            match,
            still n (t, y) (t, r.world) refl
                (λ p id' asked.
                  subst (λ (x : Y.World). Asked x p id')
                    (ap (λ (x : Y.World × Result Y.Proof). x.0) r.runs)
                    (E.proof_keeps y id p id' asked))
                later,
          );
    reads = λ written p wait (t, y) s.
        let r = R.reads y p wait in
        Gives-runs _ (r.value).instance_id (t, y) (t, r.world) (rw r.runs refl)
          (
            r.holds.0,
            still n (t, y) (t, r.world) refl r.holds.1
                (λ s' id wrote.
                  subst (λ (x : Y.World). Wrote x s' id)
                    (ap (λ (x : Y.World × Result (TransactionReply Y)). x.0) r.runs)
                    (E.read_keeps y p wait s' id wrote)),
          );
    proves = λ p id (t, y) asked.
        let r = R.proves y p id asked in
        let (match, is_read, proved, later) = r.holds in
        Gives-runs _ r.value (t, y) (t, r.world) (rw r.runs refl)
          (
            match,
            (is_read, proved),
            still n (t, y) (t, r.world) refl later
                (λ s' id' wrote.
                  subst (λ (x : Y.World). Wrote x s' id')
                    (ap (λ (x : Y.World × Result Y.Proof). x.0) r.runs)
                    (E.proof_keeps_writes y id s' id' wrote)),
          );
    opens = λ written p q w s of_it.
        Gives-weaken _ w
          (opened C G B N L K S T at D dest rest Y U sk Asked R V w written p q s of_it)
          (λ w' content (same, server, ledger).
            still n w w' server
              (λ p' id asked. subst (λ (x : Y.World). Asked x p' id) (sym ledger) asked)
              (λ s' id wrote. subst (λ (x : Y.World). Wrote x s' id) (sym ledger) wrote));
  }

  pub round-Counted :
      (n num_reads : ℕ) (txns sizes : List ℕ) (wds : List (WriteData C))
      (pairs : List (WriteData C × Item C)) (proofs : List Y.Proof)
      (fixed : List ((WriteData C × Item C) × Y.Proof)) (w : T.World × Y.World)
      → Fits sizes (length txns)
      → writes_in txns ≤ n
      → reads_in txns ≤ num_reads
      → fixed ≡ zip pairs proofs
      → length pairs ≡ 10
      → Both IsShared w pairs proofs
      → Ready n 0 wds w
      → Gives
          (run_rounds
            (sharing C G T Y U)
            fixed
            (byzgen_next C G T Y U)
            1
            (length txns)
            txns
            sizes
            (λ state. state)
            (no_counts (sharing C G T Y U) fixed (byzgen_next C G T Y U) n num_reads wds))
          w
          (λ w' c. Counted txns c)
  round-Counted n num_reads txns sizes wds pairs proofs fixed w fits enough enough_reads e ten both
        ready =
      let H = sharing C G T Y U in
      run_round-Counted H IsShared HasAsked IsRead IsWrite (Ready n) fixed (byzgen_next C G T Y U) n
        num_reads (semi-IsRunning n) txns enough enough_reads sizes wds w fits
        (TenShared-zip H IsShared HasAsked IsRead IsWrite (Ready n) w fixed pairs proofs e ten both)
        ready
