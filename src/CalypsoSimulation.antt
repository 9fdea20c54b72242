-- ===== src/CalypsoSimulation.antt =====
-- calypso_simulation/service.go: what the simulation does with the client of Calypso, from the writes on;
-- the ledger, the darcs and the signers are set up before. The keys that it draws are given.
pub mod Serving
pub mod Rounds
pub mod Runs
pub mod Fixed
pub mod Byzgen
pub mod Whole
use calypso_experiments.Base.{
  ℕ, zero, suc, ◌+◌, ◌%◌, List, [], ◌∷◌, ◌>>=◌ as ◌and_then◌, Bool, true, false, Option, none, some,
  length, Result, ok, err, panic, ◌==◌, if◌then◌else◌, map,
}
use calypso_experiments.Base.Bytes.{Bytes}
use calypso_experiments.Base.Calls.{Call, ◌>>=◌, ◌>>◌, lift, give, demand, each, each_waiting, zip}
use calypso_experiments.Workload.{at_index}
use calypso_experiments.Sharing.{
  Sharing, Goroutine, proof_of, get_proofs, add_reads, run_schedule, spawn_all,
}
use calypso_experiments.Sharing.Blocks.{Counters, run_rounds, no_counts}
use calypso_experiments.Lottery.{Calypso}

-- `countTransactions`: the writes and the other transactions among `sz` from `base` on.
unfoldable pub count_transactions : List ℕ → ℕ → ℕ → Result (ℕ × ℕ)
count_transactions txns base zero = ok (0, 0)
count_transactions txns base (suc sz) = at_index txns base and_then λ txn.
    count_transactions txns (suc base) sz and_then λ counts.
    ok (if txn == 1 then (suc counts.0, counts.1) else (counts.0, suc counts.1))

-- What a run is set up with.
pub record SetUp (K : Calypso) : Type 0 where
  pub lts : K.Lts
  pub writer : K.Signer
  pub reader : K.Signer
  pub darc : K.Darc

module _ (K : Calypso) (U : SetUp K) where
  -- `DecryptKey` and `DecodeKey`; all but `decrypt` compare the points in between.
  unfoldable pub open_key : Bool → K.Proof → K.Proof → Call K.World Bytes
  open_key compares wr_proof r_proof = do
    dk ← (λ w. K.decrypt_key w r_proof wr_proof)
    demand (if compares then K.same_point dk U.lts else true) "Points not same"
    lift (K.decode_key U.lts dk U.reader)

  -- The client, as its readers use it: an item is the key that was written.
  abbrev pub sharing : Bool → Sharing
  sharing compares = record {
    World = K.World;
    Item = Bytes;
    Proof = K.Proof;
    add_read = λ proof wait w. K.add_read w proof U.reader U.darc wait;
    get_proof = λ id w. K.get_proof w id;
    is_match = K.is_match;
    open_item = λ key. open_key compares;
    expected = λ key. key;
    mismatch = "Keys don't match";
  }

  unfoldable pub add_key : ℕ → Bytes → Call K.World Bytes
  add_key wait key w = K.add_write w (K.new_write U.lts U.darc key) U.writer U.darc wait

  -- The loops that write, up to the proofs of the writes.
  unfoldable pub write_keys : ℕ → List Bytes → Call K.World (List (Bytes × K.Proof))
  unfolding add_key get_proofs
  write_keys wait keys = do
    ids ← each_waiting wait add_key keys
    proofs ← get_proofs (sharing false) "Write inclusion proof does not match" ids
    give (zip keys proofs)

  -- A round of `runMicrobenchmark`, with the keys that it decodes.
  unfoldable pub key_benchmark_round : List Bytes → Call K.World (List Bytes)
  unfolding write_keys add_reads get_proofs open_key
  key_benchmark_round keys = do
    written ← write_keys 3 keys
    ids ← add_reads (sharing true) 3 (map (λ p. p.1) written)
    r_proofs ← get_proofs (sharing true) "Read inclusion proof does not match" ids
    each (λ (p : (Bytes × K.Proof) × K.Proof). open_key true p.0.1 p.1) (zip written r_proofs)

  -- A round of `runMultiClientCalypso`, in which the scheduler gives turns to the goroutines of
  -- `schedule`, in this order, until all have ended.
  unfoldable pub multi_client_calypso :
      ℕ → List ℕ → List Bytes → Call K.World (List (Goroutine (sharing false)))
  unfolding write_keys run_schedule spawn_all
  multi_client_calypso wait schedule keys = write_keys wait keys >>= λ written w.
      let (w', readers) =
        run_schedule (sharing false) wait schedule (w, spawn_all (sharing false) written) in
      (w', ok readers)

  -- The loop of `runByzgenSimulation` that writes the fixed keys: the error of `AddWrite` is lost, and
  -- the reply is then nil.
  unfoldable pub add_unchecked : ℕ → Bytes → Call K.World (Option Bytes)
  unfolding add_key
  add_unchecked wait key w =
      let (w', r) = add_key wait key w in
      (w', elim r [ ok id ↦ ok (some id) | err e ↦ ok none | panic ↦ panic ])

  unfoldable pub write_fixed : List Bytes → Call K.World (List (Bytes × K.Proof))
  unfolding add_unchecked proof_of
  write_fixed keys = do
    replies ← each_waiting 3 add_unchecked keys
    proofs ←
        each
          (λ (reply : Option Bytes).
            lift (elim reply [ none ↦ panic | some id ↦ ok id ])
            >>= proof_of (sharing true) "Write inclusion proof does not match")
          replies
    give (zip keys proofs)

  -- A write of `runByzgenSimulation`, which writes the fixed keys again, by `fixedIdx`.
  unfoldable pub next_fixed : List Bytes → ℕ → ℕ → ℕ → Call K.World (ℕ × Bytes)
  unfolding add_key
  next_fixed keys i wait fixed_idx = do
    key ← lift (at_index keys (fixed_idx % 10))
    id ← add_key wait key
    give (suc fixed_idx, id)

  -- `runByzgenSimulation`, with the transactions and the sizes of the blocks that the files give.
  unfoldable pub run_byzgen_calypso :
      ℕ → ℕ → ℕ → List Bytes → List ℕ → List ℕ → Call K.World (Counters ℕ)
  unfolding write_fixed next_fixed run_rounds no_counts
  run_byzgen_calypso rounds num_writes num_reads keys txns sizes = do
    fixed ← write_fixed keys
    run_rounds (sharing true) fixed (next_fixed keys) rounds (length txns) txns sizes (λ i. 0)
        (no_counts (sharing true) fixed (next_fixed keys) num_writes num_reads 0)
