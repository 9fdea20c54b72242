-- ===== src/Sharing/Blocks/Checks.antt =====
-- The proofs and the openings at the end of a block: no instance is nil, and all of them succeed.
use calypso_experiments.Base.{
  ℕ, zero, suc, ◌-◌, ◌%◌, ◌≡◌, ◌≤◌, refl, sym, ◌∙◌, List, true, Error, Option, some, ok, get_elem?,
  arith,
}
use mathlib.Core.Path.{subst}
use mathlib.Core.Option.{some-injective}
use calypso_experiments.Base.Bytes.{Bytes}
use calypso_experiments.Base.Calls.{Call, ◌>>=◌, ◌>>◌, lift}
use calypso_experiments.Base.Calls.Succeed.{
  Gives, Gives-runs, Gives-give, Gives-known, Gives-bind, Gives-weaken,
}
use calypso_experiments.Workload.{at_index, at_index-get_elem?}
use calypso_experiments.Sharing.{Sharing, proof_of}
use calypso_experiments.Sharing.Blocks.{instance_at, check_writes, open_reads}
use calypso_experiments.Sharing.Blocks.Laws.{
  Still, IsRunning, AllWrites, AllReads, TenShared, AllWrites-Later, AllReads-Later,
  TenShared-Later, Still-refl, Still-trans,
}

instance_at_lem :
    (ids : List (Option Bytes)) (i : ℕ) (id : Bytes)
    → get_elem? ids i ≡ some (some id)
    → instance_at ids i ≡ ok id
instance_at_lem ids i id e = rw (e, instance_at, at_index) refl

module _ (S : Sharing) {A : Type 0} (IsShared : S.Item → S.Proof → S.World → Type 0)
    (HasRead : S.Proof → Bytes → S.World → Type 0) (IsOf : S.Proof → S.Proof → Type 0)
    (IsWrite : Bytes → S.World → Type 0) (Ready : ℕ → A → S.World → Type 0)
    (fixed : List (S.Item × S.Proof)) (add_next : ℕ → ℕ → A → Call S.World (A × Bytes))
    (num_writes : ℕ) (R : IsRunning S IsShared HasRead IsOf IsWrite Ready num_writes add_next) where
  abbrev pub Stays : S.World → S.World → Type 0
  Stays w w' = Still S IsShared HasRead IsOf IsWrite Ready w w'

  proof_of-Gives :
      {Q : S.World → S.Proof → Type 0} (text : Error) (id : Bytes) (w : S.World)
      → Gives (S.get_proof id) w (λ w' q. (S.is_match q ≡ true) × Q w' q)
      → Gives (proof_of S text id) w Q
  unfolding proof_of
  proof_of-Gives text id w g =
      Gives-runs _ g.value w g.world (rw (g.runs, g.holds.0) refl) g.holds.1

  pub check_writes-Gives :
      (ids : List (Option Bytes)) (n i : ℕ) (w : S.World)
      → n ≤ i
      → AllWrites S IsShared HasRead IsOf IsWrite Ready ids i w
      → Gives (check_writes S fixed add_next ids i n) w (λ w' done. Stays w w')
  unfolding check_writes
  check_writes-Gives ids zero i w le h =
      Gives-give tt w (Still-refl S IsShared HasRead IsOf IsWrite Ready w)
  check_writes-Gives ids (suc n) i w le h =
      let (id, found, is_write) = h (i - 1) (omega (arith, le)) in
      rw (instance_at_lem ids (i - 1) id found) (
        Gives-bind _ _ w
          (proof_of-Gives "Write inclusion proof does not match" id w
            (R.writes_proved id w is_write))
          (λ v q still.
            Gives-weaken _ v
              (check_writes-Gives ids n (i - 1) v (omega (arith, le)) (λ j lt.
                AllWrites-Later S IsShared HasRead IsOf IsWrite Ready ids i w v still.0 h j
                  (omega (arith, lt))))
              (λ w' done still'. Still-trans S IsShared HasRead IsOf IsWrite Ready still still')))

  open_one-Gives :
      {Q : S.World → Unit {0} → Type 0} (idx : ℕ) (id : Bytes) (job : S.Item × S.Proof)
      (next : Call S.World (Unit {0})) (w : S.World)
      → at_index fixed idx ≡ ok job
      → IsShared job.0 job.1 w
      → HasRead job.1 id w
      → ((v : S.World) → Stays w v → Gives next v Q)
      → Gives
          (proof_of S "Read inclusion proof does not match" id >>= λ r_proof.
            lift (at_index fixed idx) >>= λ written.
            S.open_item written.0 written.1 r_proof >> next)
          w
          Q
  open_one-Gives idx id job next w here shared has after =
      Gives-bind (proof_of S "Read inclusion proof does not match" id) _ w
        (proof_of-Gives {Q = λ v q. IsOf job.1 q × Stays w v} "Read inclusion proof does not match"
          id w
          (Gives-weaken _ w (R.proves job.1 id w has)
            (λ v q (match, of_it, still). (match, (of_it, still)))))
        (λ v q (of_it, still).
          Gives-known (at_index fixed idx) job
            (λ written. S.open_item written.0 written.1 q >> next) v here
            (Gives-bind (S.open_item job.0 job.1 q) (λ opened. next) v
              (R.opens job.0 job.1 q v (((still.0).0).0 job.0 job.1 shared) of_it)
              (λ u opened still'.
                after u (Still-trans S IsShared HasRead IsOf IsWrite Ready still still'))))

  pub open_reads-Gives :
      (ids : List (Option Bytes)) (n i : ℕ) (w : S.World)
      → n ≤ i
      → TenShared S IsShared HasRead IsOf IsWrite Ready fixed w
      → AllReads S IsShared HasRead IsOf IsWrite Ready fixed ids i w
      → Gives (open_reads S fixed add_next ids i n) w (λ w' done. Stays w w')
  unfolding open_reads
  open_reads-Gives ids zero i w le ten h =
      Gives-give tt w (Still-refl S IsShared HasRead IsOf IsWrite Ready w)
  open_reads-Gives ids (suc n) i w le ten h =
      let (id, job, found, at_i, has) = h (i - 1) (omega (arith, le)) in
      let (job', at_j, shared) = ten ((i - 1) % 10) (omega arith) in
      Gives-known (instance_at ids (i - 1)) id _ w (instance_at_lem ids (i - 1) id found) (
        open_one-Gives ((i - 1) % 10) id job (open_reads S fixed add_next ids (i - 1) n) w
          (at_index-get_elem? fixed ((i - 1) % 10) job at_i)
          (subst (λ (x : S.Item × S.Proof). IsShared x.0 x.1 w)
            (some-injective _ _ (sym at_j ∙ at_i)) shared)
          has
          (λ v still.
            Gives-weaken _ v
              (open_reads-Gives ids n (i - 1) v (omega (arith, le))
                (TenShared-Later S IsShared HasRead IsOf IsWrite Ready fixed w v still.0 ten)
                (λ j lt.
                  AllReads-Later S IsShared HasRead IsOf IsWrite Ready fixed ids i w v still.0 h j
                    (omega (arith, lt))))
              (λ w' done rest. Still-trans S IsShared HasRead IsOf IsWrite Ready still rest)))
