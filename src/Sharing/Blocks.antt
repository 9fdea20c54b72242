-- ===== src/Sharing/Blocks.antt =====
-- `runByzgenSimulation` of semi_centralized and of calypso_simulation: transactions that are sent block
-- by block, as the files say, after which the proofs of the block's writes are checked and its reads
-- are opened. The reads are of writes that were made before.
pub mod Laws
pub mod Steps
pub mod Checks
pub mod Ends
use calypso_experiments.Base.{
  ℕ, zero, suc, ◌-◌, ◌%◌, List, [], ◌∷◌, true, false, Result, ok, panic, Option, none, some, ◌==◌,
  ltb, if◌then◌else◌, length, replicate, ◌>>=◌ as ◌and_then◌,
}
use calypso_experiments.Base.Bytes.{Bytes}
use calypso_experiments.Base.Calls.{Call, ◌>>=◌, ◌>>◌, lift, give}
use calypso_experiments.Workload.{set_elem, at_index, into}
use calypso_experiments.Sharing.{Sharing, proof_of}

-- The counters of a round, the instances in `writeTxnList` and `readTxnList`, whose elements are nil
-- at first, and what the writes change.
pub record Counters (A : Type 0) : Type 0 where
  pub txn_idx : ℕ
  pub write_idx : ℕ
  pub read_idx : ℕ
  pub write_cnt : ℕ
  pub read_cnt : ℕ
  pub write_ids : List (Option Bytes)
  pub read_ids : List (Option Bytes)
  pub state : A

-- `list[i].InstanceID`, of a pointer that may be nil.
abbrev pub instance_at : List (Option Bytes) → ℕ → Result Bytes
instance_at ids i = at_index ids i and_then λ id. elim id [ none ↦ panic | some b ↦ ok b ]

-- `fixed` are the writes made before, with their proofs; `add_next` makes the next write.
module _ (S : Sharing) {A : Type 0} (fixed : List (S.Item × S.Proof))
    (add_next : ℕ → ℕ → A → Call S.World (A × Bytes)) where
  unfoldable pub block_txn : List ℕ → ℕ → Counters A → Call S.World (Counters A)
  block_txn txns wait c = do
    txn ← lift (at_index txns c.txn_idx)
    (if txn == 1
        then (do
          next ← into (ltb c.write_idx (length c.write_ids)) (add_next c.write_idx wait c.state)
          give (record c {
            state = next.0;
            write_ids = set_elem c.write_ids c.write_idx (some next.1);
            write_cnt = suc c.write_cnt;
            write_idx = suc c.write_idx;
            txn_idx = suc c.txn_idx;
          }))
        else (do
          written ← lift (at_index fixed (c.read_idx % 10))
          id ← into (ltb c.read_idx (length c.read_ids)) (S.add_read written.1 wait)
          give (record c {
            read_ids = set_elem c.read_ids c.read_idx (some id);
            read_cnt = suc c.read_cnt;
            read_idx = suc c.read_idx;
            txn_idx = suc c.txn_idx;
          })))

  -- The transactions of a block, of which the last one waits for 3 blocks.
  unfoldable pub block_txns : List ℕ → ℕ → Counters A → Call S.World (Counters A)
  unfolding block_txn
  block_txns txns zero c = give c
  block_txns txns (suc left) c =
      block_txn txns (if left == 0 then 3 else 0) c >>= block_txns txns left

  -- The proofs of the last `n` writes before `i`, from the last one down.
  unfoldable pub check_writes : List (Option Bytes) → ℕ → ℕ → Call S.World (Unit {0})
  unfolding proof_of
  check_writes ids i zero = give tt
  check_writes ids i (suc n) = do
    id ← lift (instance_at ids (i - 1))
    proof_of S "Write inclusion proof does not match" id
    check_writes ids (i - 1) n

  -- The last `n` reads before `i`, from the last one down: their proofs, and what they open.
  unfoldable pub open_reads : List (Option Bytes) → ℕ → ℕ → Call S.World (Unit {0})
  unfolding proof_of
  open_reads ids i zero = give tt
  open_reads ids i (suc n) = do
    id ← lift (instance_at ids (i - 1))
    r_proof ← proof_of S "Read inclusion proof does not match" id
    written ← lift (at_index fixed ((i - 1) % 10))
    S.open_item written.0 written.1 r_proof
    open_reads ids (i - 1) n

  unfoldable pub run_block : List ℕ → ℕ → Counters A → Call S.World (Counters A)
  unfolding block_txns check_writes open_reads
  run_block txns size c = do
    c' ← block_txns txns size (record c { write_cnt = 0; read_cnt = 0 })
    check_writes c'.write_ids c'.write_idx c'.write_cnt
    open_reads c'.read_ids c'.read_idx c'.read_cnt
    give c'

  -- `for txnIdx < s.NumTransactions`, where each block takes the next of the sizes.
  unfoldable pub run_blocks : ℕ → List ℕ → List ℕ → Counters A → Call S.World (Counters A)
  unfolding run_block
  run_blocks num_txns txns [] c = lift (if ltb c.txn_idx num_txns then panic else ok c)
  run_blocks num_txns txns (size ∷ sizes) c = elim (ltb c.txn_idx num_txns) [
    | false ↦ give c
    | true ↦ run_block txns size c >>= run_blocks num_txns txns sizes
  ]

  -- The rounds: the counters start again, the lists are those of the round before.
  unfoldable pub run_rounds :
      ℕ → ℕ → List ℕ → List ℕ → (A → A) → Counters A → Call S.World (Counters A)
  unfolding run_blocks
  run_rounds zero num_txns txns sizes reset c = give c
  run_rounds (suc rounds) num_txns txns sizes reset c =
      run_blocks num_txns txns sizes
        (record c { txn_idx = 0; write_idx = 0; read_idx = 0; state = reset c.state })
      >>= run_rounds rounds num_txns txns sizes reset

  -- The counters before the first round.
  unfoldable pub no_counts : ℕ → ℕ → A → Counters A
  no_counts num_writes num_reads state = record {
    txn_idx = 0;
    write_idx = 0;
    read_idx = 0;
    write_cnt = 0;
    read_cnt = 0;
    write_ids = replicate num_writes none;
    read_ids = replicate num_reads none;
    state = state;
  }
