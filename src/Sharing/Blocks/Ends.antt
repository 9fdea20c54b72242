-- ===== src/Sharing/Blocks/Ends.antt =====
-- The rounds of `runByzgenSimulation` end.
use calypso_experiments.Base.{
  ℕ, zero, suc, ◌+◌, ◌≡◌, ◌<◌, ◌≤◌, refl, ap, ◌∙◌, sym, List, [], ◌∷◌, true, false, none, some,
  get_elem?, length-replicate, drop, ltb, length, arith,
}
use mathlib.Core.Path.{subst}
use calypso_experiments.Base.Bytes.{Bytes}
use calypso_experiments.Base.Calls.{Call, give, zip}
use calypso_experiments.Base.Calls.Succeed.{
  Gives, Both, Gives-lift, Gives-give, Gives-bind, Gives-weaken,
}
use calypso_experiments.Sharing.{Sharing}
use calypso_experiments.Sharing.Blocks.{
  Counters, block_txns, run_block, run_blocks, run_rounds, no_counts,
}
use calypso_experiments.Sharing.Blocks.Laws.{
  writes_in, reads_in, Fits, Still, IsRunning, TenShared, Going, AllWrites-Later, AllReads-Later,
  TenShared-Later,
}
use calypso_experiments.Sharing.Blocks.Steps.{block_txns-Gives}
use calypso_experiments.Sharing.Blocks.Checks.{check_writes-Gives, open_reads-Gives}

-- The counters after all the transactions.
pub record Counted {A : Type 0} (txns : List ℕ) (c : Counters A) : Type 0 where
  pub all_txns : c.txn_idx ≡ length txns
  pub writes : c.write_idx ≡ writes_in txns
  pub reads : c.read_idx ≡ reads_in txns

length-drop : {A : Type 0} (n k : ℕ) (l : List A) → n + k ≡ length l → length (drop n l) ≡ k
length-drop zero k l e = omega (arith, e)
length-drop (suc n) k [] e = absurd (omega arith)
length-drop (suc n) k (x ∷ xs) e = length-drop n k xs (omega (arith, e))

-- Ten items with their proofs.
pub TenShared-zip :
    (S : Sharing) {A : Type 0} (P : S.Item → S.Proof → S.World → Type 0)
    (HasRead : S.Proof → Bytes → S.World → Type 0) (IsOf : S.Proof → S.Proof → Type 0)
    (IsWrite : Bytes → S.World → Type 0) (Ready : ℕ → A → S.World → Type 0) (w : S.World)
    (fixed : List (S.Item × S.Proof)) (items : List S.Item) (proofs : List S.Proof)
    → fixed ≡ zip items proofs
    → length items ≡ 10
    → Both P w items proofs
    → TenShared S P HasRead IsOf IsWrite Ready fixed w
TenShared-zip S P HasRead IsOf IsWrite Ready w fixed items proofs e ten both i lt =
    let (job, at, shared) = found items proofs i (omega (arith, ten)) both in
    (job, ap (λ l. get_elem? l i) e ∙ at, shared)
  where
    found :
        (items : List S.Item) (proofs : List S.Proof) (i : ℕ)
        → i < length items
        → Both P w items proofs
        → (job : S.Item × S.Proof) × (get_elem? (zip items proofs) i ≡ some job) × P job.0 job.1 w
    found [] proofs i lt h = absurd (omega arith)
    found (a ∷ items) [] i lt h = absurd h
    found (a ∷ items) (b ∷ proofs) zero lt (p, h) = ((a, b), refl, p)
    found (a ∷ items) (b ∷ proofs) (suc i) lt (p, h) = found items proofs i (omega (arith, lt)) h

module _ (S : Sharing) {A : Type 0} (IsShared : S.Item → S.Proof → S.World → Type 0)
    (HasRead : S.Proof → Bytes → S.World → Type 0) (IsOf : S.Proof → S.Proof → Type 0)
    (IsWrite : Bytes → S.World → Type 0) (Ready : ℕ → A → S.World → Type 0)
    (fixed : List (S.Item × S.Proof)) (add_next : ℕ → ℕ → A → Call S.World (A × Bytes))
    (num_writes num_reads : ℕ)
    (R : IsRunning S IsShared HasRead IsOf IsWrite Ready num_writes add_next) (txns : List ℕ)
    (enough : writes_in txns ≤ num_writes) (enough_reads : reads_in txns ≤ num_reads) where
  abbrev On : List ℕ → Counters A → S.World → Type 0
  On rest c w = Going S IsShared HasRead IsOf IsWrite Ready fixed txns num_writes num_reads rest c w

  On-Still :
      (rest : List ℕ) (c : Counters A) (w w' : S.World)
      → Still S IsShared HasRead IsOf IsWrite Ready w w'
      → On rest c w
      → On rest c w'
  On-Still rest c w w' still g = record {
    to_go = g.to_go;
    at_txn = g.at_txn;
    shared = TenShared-Later S IsShared HasRead IsOf IsWrite Ready fixed w w' still.0 g.shared;
    ready = still.1 c.write_idx c.state g.ready;
    wrote =
        AllWrites-Later S IsShared HasRead IsOf IsWrite Ready c.write_ids c.write_idx w w' still.0
          g.wrote;
    did_read =
        AllReads-Later S IsShared HasRead IsOf IsWrite Ready fixed c.read_ids c.read_idx w w'
          still.0 g.did_read;
    write_size = g.write_size;
    read_size = g.read_size;
    writes_left = g.writes_left;
    reads_left = g.reads_left;
  }

  -- A block starts with counts of 0.
  On-zero :
      (rest : List ℕ) (c : Counters A) (w : S.World)
      → On rest c w
      → On rest (record c { write_cnt = 0; read_cnt = 0 }) w
  On-zero rest c w g = record {
    to_go = g.to_go;
    at_txn = g.at_txn;
    shared = g.shared;
    ready = g.ready;
    wrote = g.wrote;
    did_read = g.did_read;
    write_size = g.write_size;
    read_size = g.read_size;
    writes_left = g.writes_left;
    reads_left = g.reads_left;
  }

  run_block-Gives :
      (size : ℕ) (rest : List ℕ) (c : Counters A) (w : S.World)
      → size ≤ length rest
      → On rest c w
      → Gives (run_block S fixed add_next txns size c) w (λ w' c'. On (drop size rest) c' w')
  unfolding run_block
  run_block-Gives size rest c w le g =
      Gives-bind (block_txns S fixed add_next txns size (record c { write_cnt = 0; read_cnt = 0 }))
        _ w
        (block_txns-Gives S IsShared HasRead IsOf IsWrite Ready fixed add_next num_writes num_reads
          R txns enough enough_reads size rest _ w le
          (On-zero rest c w g, (omega arith, omega arith)))
        (λ v c' (g', (writes_le, reads_le)).
          Gives-bind _ _ v
            (check_writes-Gives S IsShared HasRead IsOf IsWrite Ready fixed add_next num_writes R
              c'.write_ids c'.write_cnt c'.write_idx v writes_le g'.wrote)
            (λ u done still.
              let g₂ = On-Still (drop size rest) c' v u still g' in
              Gives-bind _ _ u
                (open_reads-Gives S IsShared HasRead IsOf IsWrite Ready fixed add_next num_writes R
                  c'.read_ids c'.read_cnt c'.read_idx u reads_le g₂.shared g₂.did_read)
                (λ t opened still'. Gives-give c' t (On-Still (drop size rest) c' u t still' g₂))))

  run_blocks-Gives :
      (sizes : List ℕ) (rest : List ℕ) (c : Counters A) (w : S.World)
      → Fits sizes (length rest)
      → On rest c w
      → Gives (run_blocks S fixed add_next (length txns) txns sizes c) w (λ w' c'. On [] c' w')
  unfolding run_blocks
  run_blocks-Gives [] [] c w fits g =
      let done : ltb c.txn_idx (length txns) ≡ false = ground (arith, g.at_txn) in
      Gives-lift _ c w (rw done refl) g
  run_blocks-Gives [] (txn ∷ rest) c w fits g = absurd (omega (arith, fits))
  run_blocks-Gives (size ∷ sizes) [] c w fits g =
      let done : ltb c.txn_idx (length txns) ≡ false = ground (arith, g.at_txn) in
      rw (done, run_blocks) (Gives-give c w g)
  run_blocks-Gives (size ∷ sizes) (txn ∷ rest) c w (k, e, fits) g =
      let more : ltb c.txn_idx (length txns) ≡ true = ground (arith, g.at_txn) in
      rw (more, run_blocks)
        (Gives-bind (run_block S fixed add_next txns size c)
          (run_blocks S fixed add_next (length txns) txns sizes) w
          (run_block-Gives size (txn ∷ rest) c w (omega (arith, e)) g)
          (λ v c' g'.
            run_blocks-Gives sizes (drop size (txn ∷ rest)) c' v
              (subst (Fits sizes) (sym (length-drop size k (txn ∷ rest) e)) fits) g'))

  -- The next round starts from what the last one left.
  On-restart :
      (reset : A → A)
      → (rest : List ℕ) (c : Counters A) (w : S.World) → Ready 0 (reset c.state) w
      → On rest c w
      → On txns (record c { txn_idx = 0; write_idx = 0; read_idx = 0; state = reset c.state }) w
  On-restart reset rest c w ready g = record {
    to_go = refl;
    at_txn = omega arith;
    shared = g.shared;
    ready = ready;
    wrote = λ i lt. absurd (omega (arith, lt));
    did_read = λ i lt. absurd (omega (arith, lt));
    write_size = g.write_size;
    read_size = g.read_size;
    writes_left = omega arith;
    reads_left = omega arith;
  }

  run_rounds-Gives :
      (reset : A → A)
      → ((i : ℕ) (a : A) (w : S.World) → Ready i a w → Ready 0 (reset a) w)
      → (rounds : ℕ) (sizes rest : List ℕ) (c : Counters A) (w : S.World) → Fits sizes (length txns)
      → On rest c w
      → Gives
          (run_rounds S fixed add_next (suc rounds) (length txns) txns sizes reset c)
          w
          (λ w' c'. On [] c' w')
  unfolding run_rounds
  run_rounds-Gives reset resets zero sizes rest c w fits g =
      Gives-bind _ give w
        (run_blocks-Gives sizes txns _ w fits
          (On-restart reset rest c w (resets c.write_idx c.state w g.ready) g))
        (λ v c' g'. Gives-give c' v g')
  run_rounds-Gives reset resets (suc rounds) sizes rest c w fits g =
      Gives-bind _ (run_rounds S fixed add_next (suc rounds) (length txns) txns sizes reset) w
        (run_blocks-Gives sizes txns _ w fits
          (On-restart reset rest c w (resets c.write_idx c.state w g.ready) g))
        (λ v c' g'. run_rounds-Gives reset resets rounds sizes [] c' v fits g')

  -- The counters before the first round.
  On-no_counts :
      (state : A) (w : S.World)
      → TenShared S IsShared HasRead IsOf IsWrite Ready fixed w
      → Ready 0 state w
      → On txns (no_counts S fixed add_next num_writes num_reads state) w
  unfolding no_counts
  On-no_counts state w ten ready = record {
    to_go = refl;
    at_txn = omega arith;
    shared = ten;
    ready = ready;
    wrote = λ i lt. absurd (omega (arith, lt));
    did_read = λ i lt. absurd (omega (arith, lt));
    write_size = length-replicate num_writes none;
    read_size = length-replicate num_reads none;
    writes_left = omega arith;
    reads_left = omega arith;
  }

  On-Counted : (c : Counters A) (w : S.World) → On [] c w → Counted txns c
  On-Counted c w g = record {
    all_txns = omega (arith, g.at_txn);
    writes = omega (arith, g.writes_left);
    reads = omega (arith, g.reads_left);
  }

  -- With a client that works, ten shared writes, blocks that take the transactions of the file, and as
  -- many writes and reads as it has: any rounds end without an error, without an index out of range and
  -- without a nil reply, and the counters are those of the file.
  pub run_rounds-Counted :
      (reset : A → A)
      → ((i : ℕ) (a : A) (w : S.World) → Ready i a w → Ready 0 (reset a) w)
      → (rounds : ℕ) (sizes : List ℕ) (state : A) (w : S.World) → Fits sizes (length txns)
      → TenShared S IsShared HasRead IsOf IsWrite Ready fixed w
      → Ready 0 state w
      → Gives
          (run_rounds S fixed add_next
            (suc rounds)
            (length txns)
            txns
            sizes
            reset
            (no_counts S fixed add_next num_writes num_reads state))
          w
          (λ w' c. Counted txns c)
  run_rounds-Counted reset resets rounds sizes state w fits ten ready =
      Gives-weaken _ w
        (run_rounds-Gives reset resets rounds sizes txns _ w fits (On-no_counts state w ten ready))
        (λ w' c g. On-Counted c w' g)

  -- One round, which starts with the state that the writes start with.
  pub run_round-Counted :
      (sizes : List ℕ) (state : A) (w : S.World)
      → Fits sizes (length txns)
      → TenShared S IsShared HasRead IsOf IsWrite Ready fixed w
      → Ready 0 state w
      → Gives
          (run_rounds S fixed add_next 1
            (length txns)
            txns
            sizes
            (λ a. a)
            (no_counts S fixed add_next num_writes num_reads state))
          w
          (λ w' c. Counted txns c)
  unfolding run_rounds no_counts
  run_round-Counted sizes state w fits ten ready =
      Gives-bind _ give w
        (run_blocks-Gives sizes txns _ w fits (
          On-restart (λ a. a) txns (no_counts S fixed add_next num_writes num_reads state) w ready
            (On-no_counts state w ten ready)))
        (λ v c g. Gives-give c v (On-Counted c v g))
