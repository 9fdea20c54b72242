-- ===== src/Lottery/Multiple/Polling.antt =====
-- That the polling ends.
use calypso_experiments.Base.{ℕ, zero, suc, ◌<◌, ◌≡◌, refl, true, false, some, ok, arith}
use calypso_experiments.Base.Bytes.{Bytes}
use calypso_experiments.Base.Calls.Succeed.{Gives, Gives-runs}
use calypso_experiments.Lottery.{Calypso}
use calypso_experiments.Lottery.Multiple.{poll_proof}

module _ (K : Calypso) (Awaits : K.World → Bytes → ℕ → Type 0) where
  -- A ledger on which a transaction that is awaited for `n` more calls of `GetProof` has a proof that
  -- does not match for `n` of them, and then one that does.
  pub record IsSettling : Type 0 where
    pub settles :
        (w : K.World) (id : Bytes)
        → Awaits w id 0
        → Gives (λ v. K.get_proof v id) w (λ w' p. K.is_match p ≡ true)
    pub waits :
        (w : K.World) (id : Bytes) (n : ℕ)
        → Awaits w id (suc n)
        → Gives (λ v. K.get_proof v id) w (λ w' p. (K.is_match p ≡ false) × Awaits w' id n)

  -- The loop that polls for a transaction which is awaited for `n` more calls ends after them with a
  -- proof that matches, with any fuel above `n`, and its end does not depend on the fuel.
  pub poll_proof-ends :
      IsSettling
      → (fuel n : ℕ) (id : Bytes) (w : K.World) → n < fuel
      → Awaits w id n
      → Gives (poll_proof K fuel id) w (λ w' found.
        (p : K.Proof) × (found ≡ some p)
        × (K.is_match p ≡ true)
        × (poll_proof K (suc n) id w ≡ (w', ok found)))
  unfolding poll_proof
  poll_proof-ends Z zero n id w enough awaited = absurd (omega arith)
  poll_proof-ends Z (suc fuel) zero id w enough awaited =
      let g = Z.settles w id awaited in
      Gives-runs _ (some g.value) w g.world (rw (g.runs, g.holds) refl)
        (g.value, refl, g.holds, rw (g.runs, g.holds) refl)
  poll_proof-ends Z (suc fuel) (suc n) id w enough awaited =
      let g = Z.waits w id n awaited in
      let (differs, later) = g.holds in
      let more = poll_proof-ends Z fuel n id g.world (omega (arith, enough)) later in
      let (p, is, match, same) = more.holds in
      Gives-runs _ more.value w more.world (rw (g.runs, differs) more.runs)
        (p, is, match, rw (g.runs, differs) same)
