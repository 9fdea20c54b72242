-- ===== src/Sharing.antt =====
-- What the simulations of semi_centralized and of calypso_simulation have in common: readers that ask
-- a ledger for a read, get its proof and open what they read, one after the other or as goroutines
-- (`decrypt`, `runMultiClientSimulation`, `runMultiClientCalypso`). A client is a record of calls.
pub mod Alone
pub mod Goroutines
pub mod Schedules
pub mod Ended
pub mod Blocks
use calypso_experiments.Base.{
  ℕ, zero, suc, ◌+◌, List, [], ◌∷◌, Bool, Result, ok, err, panic, Error, Option, none, some,
  get_elem?,
}
use calypso_experiments.Base.Bytes.{Bytes, eq_bytes}
use calypso_experiments.Base.Calls.{Call, ◌>>=◌, ◌>>◌, give, demand, each, each_waiting}
use calypso_experiments.Workload.{set_elem}

-- The calls of a client, for items that are shared through it. `open_item` takes the proof of the write
-- and that of the read; `expected` is what the simulation put in.
pub record Sharing : Type 1 where
  pub World : Type 0
  pub Item : Type 0
  pub Proof : Type 0
  pub add_read : Proof → ℕ → Call World Bytes
  pub get_proof : Bytes → Call World Proof
  -- `proof.InclusionProof.Match()`
  pub is_match : Proof → Bool
  pub open_item : Item → Proof → Proof → Call World Bytes
  pub expected : Item → Bytes
  pub mismatch : Error

-- Where a reader stands: before its read transaction, before its proof, before it opens, at its end.
pub data Stage (S : Sharing) : Type 0 where
  start : Stage S
  asked : Bytes → Stage S
  proved : S.Proof → Stage S
  ended : Result (Unit {0}) → Stage S

-- A goroutine, with what it is started on.
pub record Goroutine (S : Sharing) : Type 0 where
  pub item : S.Item
  pub wr_proof : S.Proof
  pub stage : Stage S

module _ (S : Sharing) where
  -- The loops over `GetProof`.
  unfoldable pub proof_of : Error → Bytes → Call S.World S.Proof
  proof_of text id = do proof ← S.get_proof id; demand (S.is_match proof) text; give proof

  unfoldable pub get_proofs : Error → List Bytes → Call S.World (List S.Proof)
  unfolding proof_of
  get_proofs text ids = each (proof_of text) ids

  -- The loop over `AddRead`, whose last call waits.
  unfoldable pub add_reads : ℕ → List S.Proof → Call S.World (List Bytes)
  add_reads wait proofs = each_waiting wait (λ n proof. S.add_read proof n) proofs

  -- `DecryptKey` or `Decrypt`, with what follows them, and the comparison at the end of `decrypt`.
  unfoldable pub open_and_compare : S.Item → S.Proof → S.Proof → Call S.World (Unit {0})
  open_and_compare item wr_proof r_proof = do
    opened ← S.open_item item wr_proof r_proof
    demand (eq_bytes opened (S.expected item)) S.mismatch

  -- `decrypt`, when nothing else runs.
  unfoldable pub decrypt : ℕ → S.Item → S.Proof → Call S.World (Unit {0})
  unfolding proof_of open_and_compare
  decrypt wait item wr_proof = do
    id ← S.add_read wr_proof wait
    r_proof ← proof_of "Read inclusion proof does not match" id
    open_and_compare item wr_proof r_proof

  -- What a call leads to.
  abbrev pub lead : {A : Type 0} → (A → Stage S) → S.World × Result A → S.World × Stage S
  lead next (w, ok a) = (w, next a)
  lead next (w, err e) = (w, ended (err e))
  lead next (w, panic) = (w, ended panic)

  -- One call of a goroutine, up to the next one. Between two of them, others may run.
  unfoldable pub turn : ℕ → S.Item → S.Proof → Stage S → S.World → S.World × Stage S
  unfolding proof_of open_and_compare
  turn wait item wr_proof start w = lead asked (S.add_read wr_proof wait w)
  turn wait item wr_proof (asked id) w =
      lead proved (proof_of "Read inclusion proof does not match" id w)
  turn wait item wr_proof (proved r_proof) w =
      lead (λ done. ended (ok done)) (open_and_compare item wr_proof r_proof w)
  turn wait item wr_proof (ended r) w = (w, ended r)

  -- A turn of the goroutine with the given index.
  unfoldable pub turn_of : ℕ → ℕ → S.World × List (Goroutine S) → S.World × List (Goroutine S)
  unfolding turn
  turn_of wait i (w, readers) = elim (get_elem? readers i) [
    | none ↦ (w, readers)
    | some g ↦
        let (w', stage) = turn wait g.item g.wr_proof g.stage w in
        (w', set_elem readers i (record g { stage = stage }))
  ]

  -- The goroutines under a scheduler that gives turns to those of `schedule`, in this order.
  unfoldable pub run_schedule :
      ℕ → List ℕ → S.World × List (Goroutine S) → S.World × List (Goroutine S)
  unfolding turn_of
  run_schedule wait [] state = state
  run_schedule wait (i ∷ schedule) state = run_schedule wait schedule (turn_of wait i state)

  -- `go func(...)` for each item with the proof of its write.
  unfoldable pub spawn_all : List (S.Item × S.Proof) → List (Goroutine S)
  spawn_all [] = []
  spawn_all ((item, wr_proof) ∷ rest) =
      record { item = item; wr_proof = wr_proof; stage = start } ∷ spawn_all rest
