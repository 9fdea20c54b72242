-- ===== src/Central/Simulation/Transactions.antt =====
-- A transaction of `runCentralizedByzgen`: its counters and its indices.
use calypso_experiments.Base.{
  ℕ, zero, suc, ◌+◌, ◌-◌, ◌≡◌, refl, List, [], ◌∷◌, some, length, ◌≤◌, ◌==◌, ltb, if◌then◌else◌,
  drop, get_elem?, true, false, arith,
}
use calypso_experiments.Base.Calls.Succeed.{
  Gives, Gives-runs, Gives-give, Gives-bind, Both, Both-map,
}
use calypso_experiments.Crypto.{Crypto, IsSound}
use calypso_experiments.Store.{Bolt, IsBolt, IsCodec}
use calypso_experiments.Util.{WriteData}
use calypso_experiments.Workload.{
  Item, set_elem, drop-set_elem, get_elem?-set_elem, at_index-drop, at_index-get_elem?,
}
use calypso_experiments.Central.{Codec, write_schema, Service, Transport}
use calypso_experiments.Central.Recovery.{Delivers}
use calypso_experiments.Central.Simulation.{
  Progress, advance, byzgen_write, byzgen_read, byzgen_step, write_txn,
}
use calypso_experiments.Central.Simulation.Batches.{IsWorking, Writing, IsWritten, write_txn-Gives}
use calypso_experiments.Central.Simulation.Reads.{IsReady, IsSealed, read_txn-Gives, IsReady-moves}

-- How many of the transactions are writes, and how many are not.
abbrev pub num_writes : {A : Type 0} → List (ℕ × A) → ℕ
num_writes [] = 0
num_writes ((txn, _) ∷ txns) = if txn == 1 then suc (num_writes txns) else num_writes txns

abbrev pub num_reads : {A : Type 0} → List (ℕ × A) → ℕ
num_reads [] = 0
num_reads ((txn, _) ∷ txns) = if txn == 1 then num_reads txns else suc (num_reads txns)

module _ (C : Crypto) (B : Bolt) (N : Codec C) (L : IsBolt B) (K : IsCodec (write_schema N))
    (S : IsSound C) (T : Transport C) (at : T.World → T.Server → Service C B N)
    (D : Delivers C B N T at) (dest : T.Server) (rest : List T.Server)
    (sk reader_sk : C.Scalar) where
  -- Before a transaction: the write data from `write_idx` on is new to the server, and enough for the
  -- writes to come, as are the lists that the reads fill.
  pub record Going {A : Type 0} (reads : ℕ) (txns : List (ℕ × A)) (p : Progress C) (w : T.World)
      : Type 0 where
    pub pending : List (WriteData C)
    pub items : List (Item C)
    pub is_pending : drop p.write_idx p.wds ≡ pending
    pub sealed : Both (IsSealed C B N L K S T at D dest rest sk reader_sk) w items pending
    pub writing : Writing C B N L K S T at D dest rest sk pending w
    pub enough_wds : num_writes txns ≤ length pending
    pub enough_reads : p.read_idx + num_reads txns ≤ reads

  -- After the first write: the write before `write_idx` is the one that is read.
  pub record IsBehind (p : Progress C) (w : T.World) : Type 0 where
    pub last : suc p.last_write ≡ p.write_idx
    pub txn : WriteData C
    pub item : Item C
    pub found : get_elem? p.wds p.last_write ≡ some txn
    pub ready : IsReady C B N L K S T at D dest rest sk reader_sk txn item w

  pub advance_after_write :
      (p : Progress C) (i : ℕ)
      → p.write_idx ≡ suc i
      → p.last_write ≡ i - 1
      → advance C T (dest ∷ rest) p ≡ record p { last_write = i }
  unfolding advance
  advance_after_write p zero e f = ground arith
  advance_after_write p (suc i) e f = ground arith

  pub advance_after_read :
      (p : Progress C) → suc p.last_write ≡ p.write_idx → advance C T (dest ∷ rest) p ≡ p
  unfolding advance
  advance_after_read p e = ground arith

  -- A write of the first write data that is pending.
  abbrev Wrote :
      Progress C → WriteData C → List (WriteData C) → T.World → T.World → Progress C → Type 0
  Wrote p wd wds w w' p' =
      (txn : WriteData C) × (p'
        ≡ record p { wds = set_elem p.wds p.write_idx txn; write_idx = suc p.write_idx })
      × Writing C B N L K S T at D dest rest sk wds w'
      × IsWritten C B N L K S T at D dest rest sk wd txn w'

  byzgen_write-Gives :
      IsWorking C B N L K S T at D dest rest
      → (p : Progress C) (wd : WriteData C) (wds : List (WriteData C)) (w : T.World)
      → drop p.write_idx p.wds ≡ wd ∷ wds
      → Writing C B N L K S T at D dest rest sk (wd ∷ wds) w
      → Gives (byzgen_write C T (dest ∷ rest) p) w (Wrote p wd wds w)
  unfolding byzgen_write
  byzgen_write-Gives W p wd wds w pending writing =
      rw (at_index-drop p.wds p.write_idx wd wds pending) (
        Gives-bind (write_txn C T (dest ∷ rest) wd) _ w
          (write_txn-Gives C B N L K S T at D dest rest W sk wd wds w writing)
          (λ v txn (writing', written, kept). Gives-give _ v (txn, refl, writing', written)))

  -- A read of the write data that was written last.
  byzgen_read-Gives :
      IsWorking C B N L K S T at D dest rest
      → (reads : ℕ) (seed : C.Seed) (p : Progress C) (w : T.World) → IsBehind p w
      → suc p.read_idx ≤ reads
      → Gives
          (byzgen_read C T (dest ∷ rest) reads reader_sk seed p)
          w
          (λ w' p'. (p' ≡ record p { read_idx = suc p.read_idx }) × (at w' dest ≡ at w dest))
  unfolding byzgen_read
  byzgen_read-Gives W reads seed p w behind fits =
      let found = at_index-get_elem? p.wds p.last_write behind.txn behind.found in
      let in_range : ltb p.read_idx reads ≡ true = ground arith in
      let read =
        read_txn-Gives C B N L K S T at D dest rest W sk reader_sk behind.txn behind.item seed w
          behind.ready in
      let (same, opens) = read.holds in
      Gives-runs _ (record p { read_idx = suc p.read_idx }) w read.world
        (rw (found, read.runs, in_range, opens) refl) (refl, same)

  pub sealed_later :
      (items : List (Item C)) (wds : List (WriteData C)) (w w' : T.World)
      → Both (IsSealed C B N L K S T at D dest rest sk reader_sk) w items wds
      → Both (IsSealed C B N L K S T at D dest rest sk reader_sk) w' items wds
  sealed_later items wds w w' =
      Both-map (IsSealed C B N L K S T at D dest rest sk reader_sk)
        (IsSealed C B N L K S T at D dest rest sk reader_sk) w w' (λ item wd h. h) items wds

  -- After a transaction, with `txns` to go.
  abbrev pub Stepped :
      {A : Type 0} → ℕ → ℕ → List (ℕ × A) → Progress C → T.World → Progress C → Type 0
  Stepped reads txn txns p w' p' =
      Going reads txns p' w'
      × IsBehind p' w'
      × (p'.write_idx ≡ (if txn == 1 then suc p.write_idx else p.write_idx))
      × (p'.read_idx ≡ (if txn == 1 then p.read_idx else suc p.read_idx))

  -- Where a write is next, there is write data for it.
  Going-cases :
      {A : Type 0} (reads : ℕ) (a : A) (txns : List (ℕ × A)) (p : Progress C) (w : T.World)
      → Going reads ((1, a) ∷ txns) p w
      → (wd : WriteData C) × (wds : List (WriteData C)) × (item : Item C) × (items : List (Item C))
        × (drop p.write_idx p.wds ≡ wd ∷ wds)
        × Both (IsSealed C B N L K S T at D dest rest sk reader_sk) w (item ∷ items) (wd ∷ wds)
        × Writing C B N L K S T at D dest rest sk (wd ∷ wds) w
        × (num_writes txns ≤ length wds)
  Going-cases reads a txns p w g =
      cases g.items g.pending g.is_pending g.sealed g.writing g.enough_wds
    where
      cases :
          (items : List (Item C)) (pending : List (WriteData C))
          → drop p.write_idx p.wds ≡ pending
          → Both (IsSealed C B N L K S T at D dest rest sk reader_sk) w items pending
          → Writing C B N L K S T at D dest rest sk pending w
          → suc (num_writes txns) ≤ length pending
          → (wd : WriteData C) × (wds : List (WriteData C)) × (item : Item C) × (items : List
              (Item C))
            × (drop p.write_idx p.wds ≡ wd ∷ wds)
            × Both (IsSealed C B N L K S T at D dest rest sk reader_sk) w (item ∷ items) (wd ∷ wds)
            × Writing C B N L K S T at D dest rest sk (wd ∷ wds) w
            × (num_writes txns ≤ length wds)
      cases items [] e sealed writing enough = absurd (omega arith)
      cases [] (wd ∷ wds) e sealed writing enough = absurd sealed
      cases (item ∷ items) (wd ∷ wds) e sealed writing enough =
          (wd, wds, item, items, e, sealed, writing, omega arith)

  pub step_write :
      IsWorking C B N L K S T at D dest rest
      → {A : Type 0} (reads : ℕ) (a : A) (seed : C.Seed) (txns : List (ℕ × A)) (p : Progress C)
        (w : T.World)
      → p.last_write ≡ p.write_idx - 1
      → Going reads ((1, a) ∷ txns) p w
      → Gives (byzgen_step C T (dest ∷ rest) reads reader_sk 1 seed p) w (Stepped reads 1 txns p)
  unfolding byzgen_step
  step_write W reads a seed txns p w behind g =
      let (wd, wds, item, items, pending, sealed, writing, enough) =
        Going-cases reads a txns p w g in
      let wrote = byzgen_write-Gives W p wd wds w pending writing in
      let (txn, e, writing', (held, written)) = wrote.holds in
      let p₁ = record p { wds = set_elem p.wds p.write_idx txn; write_idx = suc p.write_idx } in
      let p' = record p₁ { last_write = p.write_idx } in
      let (seals, fits) = sealed.0 in
      Gives-runs _ p' w wrote.world
        (rw (wrote.runs, e, advance_after_write p₁ p.write_idx refl behind) refl)
        (
          record {
            pending = wds;
            items = items;
            is_pending = drop-set_elem p.wds p.write_idx wd txn wds pending;
            sealed = sealed_later items wds w wrote.world sealed.1;
            writing = writing';
            enough_wds = enough;
            enough_reads = g.enough_reads;
          },
          record {
            last = refl;
            txn = txn;
            item = item;
            found = get_elem?-set_elem p.wds p.write_idx wd txn wds pending;
            ready = record {
              made = wd;
              seals = seals;
              fits = fits;
              held = held;
              written = written;
            };
          },
          refl,
          refl,
        )

  pub step_read :
      IsWorking C B N L K S T at D dest rest
      → {A : Type 0} (reads txn : ℕ) (a : A) (seed : C.Seed) (txns : List (ℕ × A)) (p : Progress C)
        (w : T.World)
      → (txn == 1) ≡ false
      → IsBehind p w
      → Going reads ((txn, a) ∷ txns) p w
      → Gives
          (byzgen_step C T (dest ∷ rest) reads reader_sk txn seed p)
          w
          (Stepped reads txn txns p)
  unfolding byzgen_step
  step_read W reads txn a seed txns p w other behind g =
      let enough = rw other at g.enough_reads in
      let fits : suc p.read_idx ≤ reads = omega (arith, enough) in
      let read = byzgen_read-Gives W reads seed p w behind fits in
      let (e, same) = read.holds in
      let p' = record p { read_idx = suc p.read_idx } in
      Gives-runs _ p' w read.world
        (rw (other, read.runs, e, advance_after_read p' behind.last) refl)
        (
          record {
            pending = g.pending;
            items = g.items;
            is_pending = g.is_pending;
            sealed = sealed_later g.items g.pending w read.world g.sealed;
            writing = record {
              owner = rw same g.writing.owner;
              hashed = g.writing.hashed;
              new = rw same g.writing.new;
            };
            enough_wds = rw other at g.enough_wds;
            enough_reads = omega (arith, enough);
          },
          record {
            last = behind.last;
            txn = behind.txn;
            item = behind.item;
            found = behind.found;
            ready =
                IsReady-moves C B N L K S T at D dest rest sk reader_sk behind.txn behind.item w
                  read.world same behind.ready;
          },
          rw other refl,
          rw other refl,
        )
