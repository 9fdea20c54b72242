-- ===== src/Central/Simulation.antt =====
-- fully_centralized/simulation/service.go: what the simulation does with the client of the service.
-- What is random in a run is given: the key of the reader and, for each write, an `Item`.
pub mod Batches
pub mod Reads
pub mod Rounds
pub mod Transactions
pub mod Byzgen
use calypso_experiments.Base.{
  ℕ, zero, suc, ◌+◌, ◌>>=◌ as ◌and_then◌, List, [], ◌∷◌, false, Option, none, some, Result, ok, err,
  panic, Error, ◌==◌, ltb, if◌then◌else◌,
}
use calypso_experiments.Base.Calls.{Call, ◌>>=◌, lift, give, each, zip}
use calypso_experiments.Base.Bytes.{Bytes}
use calypso_experiments.Crypto.{Crypto}
use calypso_experiments.Hex.{Text}
use calypso_experiments.Util.{WriteData, Draws, create_write_data, recover_data}
use calypso_experiments.Workload.{Item, set_elem, at_index, into}
use calypso_experiments.Central.{Transport, create_write_txn, create_read_txn}

-- A round of `runDecrypt` or of `runMicrobenchmark`.
pub record Batch (C : Crypto) : Type 0 where
  pub reader_sk : C.Scalar
  pub items : List (Item C)

-- The counters of a round of `runCentralizedByzgen`, and `wdList`, into whose elements
-- `CreateWriteTxn` writes the key.
pub record Progress (C : Crypto) : Type 0 where
  pub wds : List (WriteData C)
  pub last_write : ℕ
  pub write_idx : ℕ
  pub read_idx : ℕ

module _ (C : Crypto) (T : Transport C) (roster : List T.Server) where
  -- `CreateWriteTxn` as a call that fails with its error.
  abbrev pub reply_of : Option (WriteData C × Option Error) → Result (WriteData C)
  reply_of none = panic
  reply_of (some (wd, none)) = ok wd
  reply_of (some (wd, some e)) = err e

  unfoldable pub write_txn : WriteData C → Call T.World (WriteData C)
  write_txn wd w = let (w', reply) = create_write_txn C T w roster wd in (w', reply_of reply)

  unfoldable pub read_txn : Text → C.Scalar → C.Seed → Call T.World (C.Point × C.Point)
  read_txn write_id sk seed w = create_read_txn C T w roster write_id sk seed

  -- The loop that creates the write data.
  unfoldable pub create_all : C.Point → C.Point → List (Item C) → Result (List (WriteData C))
  create_all reader server_pk [] = ok []
  create_all reader server_pk (item ∷ items) =
      create_write_data C item.draws item.content reader server_pk false and_then λ wd.
      create_all reader server_pk items and_then λ wds. ok (wd ∷ wds)

  -- The loop that recovers the data.
  unfoldable pub recover_all :
      C.Scalar → List (WriteData C × (C.Point × C.Point)) → Result (List Bytes)
  recover_all sk [] = ok []
  recover_all sk ((wd, points) ∷ rest) =
      recover_data C wd.content sk points.0 points.1 and_then λ recovered.
      recover_all sk rest and_then λ more. ok (recovered ∷ more)

  -- A round of `runDecrypt`, with the data that it recovers. `CreateWriteTxn` writes the key into the
  -- write data that it is given, so that the later loops read it there.
  unfoldable pub decrypt_round : C.Point → Batch C → Call T.World (List Bytes)
  unfolding write_txn read_txn create_all recover_all
  decrypt_round server_pk b = do
    wds ← lift (create_all (C.mul_base b.reader_sk) server_pk b.items)
    txns ← each write_txn wds
    points ←
        each (λ (p : WriteData C × Item C). read_txn p.0.stored_key b.reader_sk p.1.seed)
          (zip txns b.items)
    lift (recover_all b.reader_sk (zip txns points))

  -- A round of `runMicrobenchmark`, which recovers right after each read.
  unfoldable pub microbenchmark_round : C.Point → Batch C → Call T.World (List Bytes)
  unfolding write_txn read_txn create_all
  microbenchmark_round server_pk b = do
    wds ← lift (create_all (C.mul_base b.reader_sk) server_pk b.items)
    txns ← each write_txn wds
    each
        (λ (p : WriteData C × Item C). read_txn p.0.stored_key b.reader_sk p.1.seed >>= λ points.
          lift (recover_data C p.0.content b.reader_sk points.0 points.1))
        (zip txns b.items)

  unfoldable pub run_decrypt : C.Point → List (Batch C) → Call T.World (List (List Bytes))
  unfolding decrypt_round
  run_decrypt server_pk rounds = each (decrypt_round server_pk) rounds

  -- What `Run` logs: it returns no error, also where `runDecrypt` has one.
  abbrev logged : {A : Type 0} → Result A → Result (Option Error)
  logged (ok a) = ok none
  logged (err e) = ok (some e)
  logged panic = panic

  -- `Run`
  unfoldable pub run_centralized : C.Point → List (Batch C) → Call T.World (Option Error)
  unfolding run_decrypt
  run_centralized server_pk rounds w =
      let (w', points) = run_decrypt server_pk rounds w in (w', logged points)

  unfoldable pub run_microbenchmark : C.Point → List (Batch C) → Call T.World (List (List Bytes))
  unfolding microbenchmark_round
  run_microbenchmark server_pk rounds = each (microbenchmark_round server_pk) rounds

  -- `if lastWriteIdx+1 < writeIdx { lastWriteIdx++ }`
  unfoldable pub advance : Progress C → Progress C
  advance p =
      if ltb (suc p.last_write) p.write_idx then record p { last_write = suc p.last_write } else p

  -- A write of `runCentralizedByzgen`: `wdList` and `writeTxnList` are of one length.
  unfoldable pub byzgen_write : Progress C → Call T.World (Progress C)
  unfolding write_txn
  byzgen_write p = do
    wd ← lift (at_index p.wds p.write_idx)
    wd' ← write_txn wd
    give (record p { wds = set_elem p.wds p.write_idx wd'; write_idx = suc p.write_idx })

  -- A read: the points go into lists of `num_reads` elements, whose index is checked at the assignment.
  unfoldable pub byzgen_read : ℕ → C.Scalar → C.Seed → Progress C → Call T.World (Progress C)
  unfolding read_txn
  byzgen_read num_reads sk seed p = do
    wd ← lift (at_index p.wds p.last_write)
    points ← into (ltb p.read_idx num_reads) (read_txn wd.stored_key sk seed)
    _ ← lift (recover_data C wd.content sk points.0 points.1)
    give (record p { read_idx = suc p.read_idx })

  -- One round of the loop over the transactions; `seed` is for the signature of a read.
  unfoldable pub byzgen_step : ℕ → C.Scalar → ℕ → C.Seed → Progress C → Call T.World (Progress C)
  unfolding byzgen_write byzgen_read advance
  byzgen_step num_reads sk txn seed p = do
    p' ← (if txn == 1 then byzgen_write p else byzgen_read num_reads sk seed p)
    give (advance p')

  unfoldable pub byzgen_loop :
      ℕ → C.Scalar → List (ℕ × C.Seed) → Progress C → Call T.World (Progress C)
  unfolding byzgen_step
  byzgen_loop num_reads sk [] p = give p
  byzgen_loop num_reads sk ((txn, seed) ∷ txns) p =
      byzgen_step num_reads sk txn seed p >>= byzgen_loop num_reads sk txns

  -- The rounds: the counters start again, and the write data is that of the round before.
  unfoldable pub byzgen_rounds :
      ℕ
      → C.Scalar
      → List (List (ℕ × C.Seed))
      → List (WriteData C)
      → Call T.World (List (WriteData C))
  unfolding byzgen_loop
  byzgen_rounds num_reads sk [] wds = give wds
  byzgen_rounds num_reads sk (txns ∷ rounds) wds =
      byzgen_loop num_reads sk txns
        (record { wds = wds; last_write = 0; write_idx = 0; read_idx = 0 })
      >>= λ p. byzgen_rounds num_reads sk rounds p.wds

  -- `runCentralizedByzgen` from the creation of the write data on. Each round reads the same
  -- transactions; only the random values for its signatures differ.
  unfoldable pub run_centralized_byzgen :
      ℕ
      → C.Point
      → C.Scalar
      → List (Item C)
      → List (List (ℕ × C.Seed))
      → Call T.World (List (WriteData C))
  unfolding create_all byzgen_rounds
  run_centralized_byzgen num_reads server_pk sk items rounds =
      lift (create_all (C.mul_base sk) server_pk items) >>= byzgen_rounds num_reads sk rounds
