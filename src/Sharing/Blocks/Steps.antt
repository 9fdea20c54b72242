-- ===== src/Sharing/Blocks/Steps.antt =====
-- The transactions of a block: no index is out of range, and all of them succeed.
use calypso_experiments.Base.{
  ℕ, zero, suc, ◌+◌, ◌%◌, ◌≡◌, ◌<◌, ◌≤◌, refl, sym, ap, ◌∙◌, List, [], ◌∷◌, true, false, Bool,
  Bool-cases, inl, inr, Option, some, ok, get_elem?, drop, ◌==◌, ltb, if◌then◌else◌, length, arith,
}
use calypso_experiments.Base.Bytes.{Bytes}
use calypso_experiments.Base.Calls.{Call}
use calypso_experiments.Base.Calls.Succeed.{Gives, Gives-runs, Gives-give, Gives-known, Gives-bind}
use calypso_experiments.Workload.{
  set_elem, at_index, into, at_index-drop, at_index-get_elem?, get_elem?-set_elem_other,
}
use calypso_experiments.Sharing.{Sharing}
use calypso_experiments.Sharing.Blocks.{Counters, block_txn, block_txns}
use calypso_experiments.Sharing.Blocks.Laws.{
  writes_in, reads_in, IsRunning, AllWrites, AllReads, IsCounting, Going, AllWrites-Later,
  AllReads-Later, TenShared-Later,
}

module _ {A : Type 0} where
  pub length-set_elem : (l : List A) (i : ℕ) (a : A) → length (set_elem l i a) ≡ length l
  length-set_elem [] i a = refl
  length-set_elem (x ∷ xs) zero a = refl
  length-set_elem (x ∷ xs) (suc i) a = ap suc (length-set_elem xs i a)

  get_elem?-set_elem_lt :
      (l : List A) (i : ℕ) (a : A) → i < length l → get_elem? (set_elem l i a) i ≡ some a
  get_elem?-set_elem_lt [] i a lt = absurd (omega arith)
  get_elem?-set_elem_lt (x ∷ xs) zero a lt = refl
  get_elem?-set_elem_lt (x ∷ xs) (suc i) a lt = get_elem?-set_elem_lt xs i a (omega arith)

  drop-suc :
      (l : List A) (i : ℕ) (a : A) (rest : List A) → drop i l ≡ a ∷ rest → drop (suc i) l ≡ rest
  drop-suc [] zero a rest e = absurd (cc)
  drop-suc [] (suc i) a rest e = absurd (cc)
  drop-suc (x ∷ xs) zero a rest e = cc
  drop-suc (x ∷ xs) (suc i) a rest e = drop-suc xs i a rest e

Gives-into :
    {W A : Type 0} {Q : W → A → Type 0} (in_range : Bool) (call : Call W A) (w : W)
    → in_range ≡ true
    → Gives call w Q
    → Gives (into in_range call) w Q
Gives-into in_range call w e g = Gives-runs _ g.value w g.world (rw (g.runs, e) refl) g.holds

module _ (S : Sharing) {A : Type 0} (IsShared : S.Item → S.Proof → S.World → Type 0)
    (HasRead : S.Proof → Bytes → S.World → Type 0) (IsOf : S.Proof → S.Proof → Type 0)
    (IsWrite : Bytes → S.World → Type 0) (Ready : ℕ → A → S.World → Type 0)
    (fixed : List (S.Item × S.Proof)) (add_next : ℕ → ℕ → A → Call S.World (A × Bytes))
    (num_writes num_reads : ℕ)
    (R : IsRunning S IsShared HasRead IsOf IsWrite Ready num_writes add_next) (txns : List ℕ)
    (enough : writes_in txns ≤ num_writes) (enough_reads : reads_in txns ≤ num_reads) where
  AllWrites-set_elem :
      (ids : List (Option Bytes)) (n : ℕ) (id : Bytes) (w : S.World)
      → n < length ids
      → IsWrite id w
      → AllWrites S IsShared HasRead IsOf IsWrite Ready ids n w
      → AllWrites S IsShared HasRead IsOf IsWrite Ready (set_elem ids n (some id)) (suc n) w
  AllWrites-set_elem ids n id w lt is_write h i i_lt = elim (Bool-cases (n == i)) [
    | inl e ↦
        let same : n ≡ i = ground arith in
        (id, rw (sym same) (get_elem?-set_elem_lt ids n (some id) lt), is_write)
    | inr e ↦
        let (id', found, is_write') = h i (ground arith) in
        (id', get_elem?-set_elem_other ids i n (some id) e ∙ found, is_write')
  ]

  AllReads-set_elem :
      (ids : List (Option Bytes)) (n : ℕ) (id : Bytes) (job : S.Item × S.Proof) (w : S.World)
      → n < length ids
      → get_elem? fixed (n % 10) ≡ some job
      → HasRead job.1 id w
      → AllReads S IsShared HasRead IsOf IsWrite Ready fixed ids n w
      → AllReads S IsShared HasRead IsOf IsWrite Ready fixed (set_elem ids n (some id)) (suc n) w
  AllReads-set_elem ids n id job w lt at_n has h i i_lt = elim (Bool-cases (n == i)) [
    | inl e ↦
        let same : n ≡ i = ground arith in
        (id, job, rw (sym same) (get_elem?-set_elem_lt ids n (some id) lt), rw (sym same) at_n, has)
    | inr e ↦
        let (id', job', found, at_i, has') = h i (ground arith) in
        (id', job', get_elem?-set_elem_other ids i n (some id) e ∙ found, at_i, has')
  ]

  abbrev pub Goes : List ℕ → Counters A → S.World → Type 0
  Goes rest c w =
      Going S IsShared HasRead IsOf IsWrite Ready fixed txns num_writes num_reads rest c w
      × IsCounting c

  write_txn-Gives :
      (txn : ℕ) (rest : List ℕ) (wait : ℕ) (c : Counters A) (w : S.World)
      → (txn == 1) ≡ true
      → Goes (txn ∷ rest) c w
      → Gives (block_txn S fixed add_next txns wait c) w (λ w' c'. Goes rest c' w')
  unfolding block_txn
  write_txn-Gives txn rest wait c w one (g, (writes_le, reads_le)) =
      let left : c.write_idx + suc (writes_in rest) ≡ writes_in txns = rw one at g.writes_left in
      let read_left : c.read_idx + reads_in rest ≡ reads_in txns = rw one at g.reads_left in
      let here : at_index txns c.txn_idx ≡ ok txn = at_index-drop txns c.txn_idx txn rest g.to_go in
      let lt : c.write_idx < length c.write_ids = omega (arith, left, g.write_size, enough) in
      Gives-known _ txn _ w here (
        rw one (
          Gives-bind _ _ w
            (Gives-into (ltb c.write_idx (length c.write_ids)) _ w (ground arith)
              (R.adds c.write_idx wait c.state w (omega (arith, left, enough)) g.ready))
            (λ v next (ready, is_write, later).
              let c' : Counters A = record c {
                state = next.0;
                write_ids = set_elem c.write_ids c.write_idx (some next.1);
                write_cnt = suc c.write_cnt;
                write_idx = suc c.write_idx;
                txn_idx = suc c.txn_idx;
              } in
              Gives-give c' v (
                record {
                  to_go = drop-suc txns c.txn_idx txn rest g.to_go;
                  at_txn = omega (arith, g.at_txn);
                  shared =
                      TenShared-Later S IsShared HasRead IsOf IsWrite Ready fixed w v later
                        g.shared;
                  ready = ready;
                  wrote = AllWrites-set_elem c.write_ids c.write_idx next.1 v lt is_write (
                      AllWrites-Later S IsShared HasRead IsOf IsWrite Ready c.write_ids c.write_idx
                        w v later g.wrote);
                  did_read =
                      AllReads-Later S IsShared HasRead IsOf IsWrite Ready fixed c.read_ids
                        c.read_idx w v later g.did_read;
                  write_size = length-set_elem c.write_ids c.write_idx (some next.1) ∙ g.write_size;
                  read_size = g.read_size;
                  writes_left = omega (arith, left);
                  reads_left = read_left;
                },
                (omega (arith, writes_le), reads_le),
              ))))

  read_txn-Gives :
      (txn : ℕ) (rest : List ℕ) (wait : ℕ) (c : Counters A) (w : S.World)
      → (txn == 1) ≡ false
      → Goes (txn ∷ rest) c w
      → Gives (block_txn S fixed add_next txns wait c) w (λ w' c'. Goes rest c' w')
  unfolding block_txn
  read_txn-Gives txn rest wait c w other (g, (writes_le, reads_le)) =
      let left : c.write_idx + writes_in rest ≡ writes_in txns = rw other at g.writes_left in
      let read_left : c.read_idx + suc (reads_in rest) ≡ reads_in txns = rw other at g.reads_left in
      let here : at_index txns c.txn_idx ≡ ok txn = at_index-drop txns c.txn_idx txn rest g.to_go in
      let lt : c.read_idx < length c.read_ids =
        omega (arith, read_left, g.read_size, enough_reads) in
      let (job, found, s) = g.shared (c.read_idx % 10) (omega arith) in
      let that : at_index fixed (c.read_idx % 10) ≡ ok job =
        at_index-get_elem? fixed (c.read_idx % 10) job found in
      Gives-known _ txn _ w here (
        rw other (
          Gives-known _ job _ w that (
            Gives-bind _ _ w
              (Gives-into (ltb c.read_idx (length c.read_ids)) _ w (ground arith)
                (R.reads job.0 job.1 wait w s))
              (λ v id (has, still).
                let c' : Counters A = record c {
                  read_ids = set_elem c.read_ids c.read_idx (some id);
                  read_cnt = suc c.read_cnt;
                  read_idx = suc c.read_idx;
                  txn_idx = suc c.txn_idx;
                } in
                Gives-give c' v (
                  record {
                    to_go = drop-suc txns c.txn_idx txn rest g.to_go;
                    at_txn = omega (arith, g.at_txn);
                    shared =
                        TenShared-Later S IsShared HasRead IsOf IsWrite Ready fixed w v still.0
                          g.shared;
                    ready = still.1 c.write_idx c.state g.ready;
                    wrote =
                        AllWrites-Later S IsShared HasRead IsOf IsWrite Ready c.write_ids
                          c.write_idx w v still.0 g.wrote;
                    did_read = AllReads-set_elem c.read_ids c.read_idx id job v lt found has (
                        AllReads-Later S IsShared HasRead IsOf IsWrite Ready fixed c.read_ids
                          c.read_idx w v still.0 g.did_read);
                    write_size = g.write_size;
                    read_size = length-set_elem c.read_ids c.read_idx (some id) ∙ g.read_size;
                    writes_left = left;
                    reads_left = omega (arith, read_left);
                  },
                  (writes_le, omega (arith, reads_le)),
                )))))

  pub block_txns-Gives :
      (n : ℕ) (rest : List ℕ) (c : Counters A) (w : S.World)
      → n ≤ length rest
      → Goes rest c w
      → Gives (block_txns S fixed add_next txns n c) w (λ w' c'. Goes (drop n rest) c' w')
  unfolding block_txns
  block_txns-Gives zero rest c w le g = Gives-give c w g
  block_txns-Gives (suc n) [] c w le g = absurd (omega arith)
  block_txns-Gives (suc n) (txn ∷ rest) c w le g =
      Gives-bind (block_txn S fixed add_next txns (if n == 0 then 3 else 0) c) _ w
        (elim (Bool-cases (txn == 1)) [
          | inl e ↦ write_txn-Gives txn rest (if n == 0 then 3 else 0) c w e g
          | inr e ↦ read_txn-Gives txn rest (if n == 0 then 3 else 0) c w e g
        ])
        (λ v c' g'. block_txns-Gives n rest c' v (omega (arith, le)) g')
