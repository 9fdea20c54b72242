-- ===== src/Central/Simulation/Byzgen.antt =====
-- A round of `runCentralizedByzgen`, from its first transaction to its last.
use calypso_experiments.Base.{
  ℕ, suc, ◌+◌, ◌≡◌, ◌≢◌, refl, ok-injective, sym, ◌∙◌, List, [], ◌∷◌, Result-cases, ok, length, ◌≤◌,
  All, ◌==◌, Bool-cases, inl, inr, arith,
}
use mathlib.Core.Path.{subst}
use calypso_experiments.Base.Calls.Succeed.{
  Gives, Gives-give, Gives-weaken, Gives-bind, Both-length,
}
use calypso_experiments.Crypto.{Crypto, IsSound}
use calypso_experiments.Store.{Bolt, IsBolt, IsCodec}
use calypso_experiments.Util.Fresh.{AllNew}
use calypso_experiments.Util.{WriteData}
use calypso_experiments.Util.RoundTrip.{IsDrawn}
use calypso_experiments.Workload.{Item}
use calypso_experiments.Central.{Codec, write_schema, Service, Transport}
use calypso_experiments.Central.Recovery.{Delivers, Holds}
use calypso_experiments.Central.Simulation.{
  Progress, create_all, byzgen_write, byzgen_step, byzgen_loop, write_txn,
}
use calypso_experiments.Central.Simulation.Batches.{IsWorking}
use calypso_experiments.Central.Simulation.Reads.{IsSealed, create_all_lem, write_txn-refused}
use calypso_experiments.Central.Simulation.Transactions.{
  num_writes, num_reads, Going, IsBehind, Stepped, step_write, step_read,
}

-- The counters after transactions that started at those of `p`.
pub record Counted {C : Crypto} {A : Type 0} (txns : List (ℕ × A)) (p p' : Progress C)
    : Type 0 where
  pub writes : p'.write_idx ≡ p.write_idx + num_writes txns
  pub reads : p'.read_idx ≡ p.read_idx + num_reads txns
  pub last : suc p'.last_write ≡ p'.write_idx

-- The counters at the start of a round.
abbrev pub start : {C : Crypto} → List (WriteData C) → Progress C
start wds = record { wds = wds; last_write = 0; write_idx = 0; read_idx = 0 }

module _ (C : Crypto) (B : Bolt) (N : Codec C) (L : IsBolt B) (K : IsCodec (write_schema N))
    (S : IsSound C) (T : Transport C) (at : T.World → T.Server → Service C B N)
    (D : Delivers C B N T at) (dest : T.Server) (rest : List T.Server)
    (sk reader_sk : C.Scalar) where
  step :
      IsWorking C B N L K S T at D dest rest
      → {A : Type 0} (reads txn : ℕ) (a : A) (seed : C.Seed) (txns : List (ℕ × A)) (p : Progress C)
        (w : T.World)
      → IsBehind C B N L K S T at D dest rest sk reader_sk p w
      → Going C B N L K S T at D dest rest sk reader_sk reads ((txn, a) ∷ txns) p w
      → Gives
          (byzgen_step C T (dest ∷ rest) reads reader_sk txn seed p)
          w
          (Stepped C B N L K S T at D dest rest sk reader_sk reads txn txns p)
  step W reads txn a seed txns p w behind g = elim (Bool-cases (txn == 1)) [
    | inr other ↦
        step_read C B N L K S T at D dest rest sk reader_sk W reads txn a seed txns p w other behind
          g
    | inl one ↦
        let is_one : 1 ≡ txn = ground arith in
        subst
          (λ t.
            Going C B N L K S T at D dest rest sk reader_sk reads ((t, a) ∷ txns) p w
            → Gives (byzgen_step C T (dest ∷ rest) reads reader_sk t seed p) w
                (Stepped C B N L K S T at D dest rest sk reader_sk reads t txns p))
          is_one
          (step_write C B N L K S T at D dest rest sk reader_sk W reads a seed txns p w
            (omega (arith, behind.last)))
          g
  ]

  loop :
      IsWorking C B N L K S T at D dest rest
      → (reads : ℕ) (txns : List (ℕ × C.Seed)) (p : Progress C) (w : T.World)
      → IsBehind C B N L K S T at D dest rest sk reader_sk p w
      → Going C B N L K S T at D dest rest sk reader_sk reads txns p w
      → Gives (byzgen_loop C T (dest ∷ rest) reads reader_sk txns p) w (λ w' p'. Counted txns p p')
  unfolding byzgen_loop
  loop W reads [] p w behind g =
      Gives-give p w (record { writes = omega arith; reads = omega arith; last = behind.last })
  loop W reads ((txn, seed) ∷ txns) p w behind g =
      Gives-bind (byzgen_step C T (dest ∷ rest) reads reader_sk txn seed p) _ w
        (step W reads txn seed seed txns p w behind g)
        (λ v p₁ (g', behind', wrote, did_read).
          Gives-weaken _ v (loop W reads txns p₁ v behind' g') (λ v' p' c. record {
            writes = elim (Bool-cases (txn == 1)) [
              | inl e ↦ rw e (omega (arith, c.writes, rw e at wrote))
              | inr e ↦ rw e (omega (arith, c.writes, rw e at wrote))
            ];
            reads = elim (Bool-cases (txn == 1)) [
              | inl e ↦ rw e (omega (arith, c.reads, rw e at did_read))
              | inr e ↦ rw e (omega (arith, c.reads, rw e at did_read))
            ];
            last = c.last;
          }))

  -- A round of `runCentralizedByzgen` whose first transaction is a write, with write data from
  -- `CreateWriteData` that is new to a server that works, for no more writes than it has write data and
  -- no more reads than the lists of points have elements, ends without an error and without an index
  -- out of range. Its counters are then the numbers of the writes and of the other transactions, and
  -- the index that is read from is that of the last write.
  pub byzgen_loop-Counted :
      IsWorking C B N L K S T at D dest rest
      → (reads : ℕ) (seed : C.Seed) (txns : List (ℕ × C.Seed)) (items : List (Item C))
        (wds : List (WriteData C)) (w : T.World)
      → (at w dest).private ≡ sk
      → All (λ (item : Item C). IsDrawn item.draws) items
      → create_all C T (dest ∷ rest) (C.mul_base reader_sk) (C.mul_base sk) items ≡ ok wds
      → AllNew C B (at w dest).db wds
      → num_writes ((1, seed) ∷ txns) ≤ length items
      → num_reads ((1, seed) ∷ txns) ≤ reads
      → Gives
          (byzgen_loop C T (dest ∷ rest) reads reader_sk ((1, seed) ∷ txns) (start wds))
          w
          (λ w' p. Counted ((1, seed) ∷ txns) (start wds) p)
  unfolding byzgen_loop
  byzgen_loop-Counted W reads seed txns items wds w owner drawn created new enough enough_reads =
      let (wds₁, made, sealed, hashed) =
        create_all_lem C B N L K S T at D dest rest sk reader_sk w items drawn in
      let same : wds₁ ≡ wds = ok-injective (sym made ∙ created) in
      let g : Going C B N L K S T at D dest rest sk reader_sk reads ((1, seed) ∷ txns) (start wds)
          w =
        record {
          pending = wds;
          items = items;
          is_pending = refl;
          sealed = rw same at sealed;
          writing = record { owner = owner; hashed = rw same at hashed; new = new };
          enough_wds =
              subst (λ n. num_writes ((1, seed) ∷ txns) ≤ n)
                (sym (
                  Both-length (IsSealed C B N L K S T at D dest rest sk reader_sk) w items wds
                    (rw same at sealed)))
                enough;
          enough_reads = omega (arith, enough_reads);
        } in
      Gives-bind (byzgen_step C T (dest ∷ rest) reads reader_sk 1 seed (start wds)) _ w
        (step_write C B N L K S T at D dest rest sk reader_sk W reads seed seed txns (start wds) w
          refl g)
        (λ v p₁ (g', behind', wrote, did_read).
          Gives-weaken _ v (loop W reads txns p₁ v behind' g') (λ v' p' c. record {
            writes = omega (arith, c.writes, wrote);
            reads = omega (arith, c.reads, did_read);
            last = c.last;
          }))

  -- A round that starts with a write of what the server has under the same key does not end with a
  -- value, as in a second round of `runCentralizedByzgen` over the same write data.
  pub byzgen_loop-held :
      (reads : ℕ) (seed : C.Seed) (txns : List (ℕ × C.Seed)) (wd : WriteData C)
      (wds : List (WriteData C)) (w : T.World)
      → Holds C B N (at w dest) sk wd
      → (p : Progress C)
      → (byzgen_loop C T (dest ∷ rest) reads reader_sk ((1, seed) ∷ txns) (start (wd ∷ wds)) w).1
        ≢ ok p
  unfolding byzgen_loop byzgen_step byzgen_write
  byzgen_loop-held reads seed txns wd wds w held p ended =
      elim (Result-cases (write_txn C T (dest ∷ rest) wd w).1) [
        | inl (wd', e) ↦ absurd (write_txn-refused C B N L K S T at D dest rest sk wd wd' w held e)
        | inr (inl (x, e)) ↦ (let h = rw e at ended in absurd (cc))
        | inr (inr e) ↦ (let h = rw e at ended in absurd (cc))
      ]
