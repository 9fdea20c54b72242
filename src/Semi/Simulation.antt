-- ===== src/Semi/Simulation.antt =====
-- semi_centralized/simulation/service.go: what the simulation does with the client, from the creation of
-- the write data on; the ledger, the darcs and the signers are set up before. What is random in a run
-- is given, as an `Item` for each write.
pub mod Readers
pub mod Writes
pub mod Runs
pub mod Ends
pub mod Byzgen
pub mod Running
pub mod Added
pub mod Rounds
use calypso_experiments.Base.{
  ℕ, List, [], ◌∷◌, ◌>>=◌ as ◌and_then◌, true, Bool, length, Result, ok, map,
}
use calypso_experiments.Base.Bytes.{Bytes, eq_bytes}
use calypso_experiments.Base.Calls.{Call, ◌>>=◌, lift, give, each, each_waiting, zip}
use calypso_experiments.Hex.{Text}
use calypso_experiments.Crypto.{Crypto}
use calypso_experiments.Byzcoin.{Byzcoin, TransactionReply}
use calypso_experiments.Util.{WriteData, create_write_data, recover_data}
use calypso_experiments.Workload.{Item, set_elem, at_index}
use calypso_experiments.Sharing.{Sharing, Goroutine, get_proofs, add_reads, run_schedule, spawn_all}
use calypso_experiments.Sharing.Blocks.{Counters, run_rounds, no_counts}
use calypso_experiments.Semi.{StoreReply, SemiWrite, CalypsoRead, Ledger, DecryptReply}
use calypso_experiments.Semi.Client.{
  Transport, client_store_data, client_decrypt, add_write_transaction, add_read_transaction,
}

-- What a run is set up with: the servers, the ledger's id, the signers, the darc, the reader's key and
-- what `protobuf` and the types of the two views of a proof are.
pub record SetUp {C : Crypto} (G : Ledger C) (T : Transport G) (Y : Byzcoin) : Type 0 where
  pub roster : List T.Server
  pub sc_id : G.SkipBlockId
  pub writer : Y.Signer
  pub reader : Y.Signer
  pub darc : Y.Darc
  pub reader_sk : C.Scalar
  pub zero_nonce : Bytes
  pub encode_write : SemiWrite C → Result Bytes
  pub encode_read : CalypsoRead → Y.Signer → Result Bytes
  pub as_proof : Y.Proof → G.Proof

module _ (C : Crypto) (G : Ledger C) (T : Transport G) (Y : Byzcoin) (U : SetUp G T Y) where
  -- The services and the ledger.
  abbrev pub World : Type 0
  World = T.World × Y.World

  abbrev pub on_services : {A : Type 0} → (T.World → T.World × Result A) → Call World A
  on_services call (t, y) = let (t', r) = call t in ((t', y), r)

  abbrev pub on_ledger : {A : Type 0} → (Y.World → Y.World × Result A) → Call World A
  on_ledger call (t, y) = let (y', r) = call y in ((t, y'), r)

  abbrev pub store_call : WriteData C → Call World StoreReply
  store_call wd = on_services (λ t. client_store_data G T t U.roster wd.content wd.data_hash)

  abbrev pub decrypt_call : Y.Proof → Y.Proof → Text → C.Seed → Call World (DecryptReply C)
  decrypt_call wr_proof r_proof key seed = on_services (λ t.
      client_decrypt G T t U.roster U.sc_id (U.as_proof wr_proof) (U.as_proof r_proof) key
        U.reader_sk seed)

  abbrev pub add_write_call : WriteData C → ℕ → Call World (TransactionReply Y)
  add_write_call wd wait =
      on_ledger (λ y. add_write_transaction Y U.zero_nonce U.encode_write y wd U.writer U.darc wait)

  abbrev pub add_read_call : Y.Proof → ℕ → Call World (TransactionReply Y)
  add_read_call proof wait =
      on_ledger
        (λ y. add_read_transaction Y U.zero_nonce U.encode_read y proof U.reader U.darc wait)

  -- `Decrypt` and `RecoverData`.
  unfoldable pub open_written : WriteData C × Item C → Y.Proof → Y.Proof → Call World Bytes
  open_written (wd, item) wr_proof r_proof = do
    dr ← decrypt_call wr_proof r_proof wd.stored_key item.seed
    lift (recover_data C dr.content U.reader_sk dr.k dr.c)

  -- The client, as its readers use it.
  abbrev pub sharing : Sharing
  sharing = record {
    World = World;
    Item = WriteData C × Item C;
    Proof = Y.Proof;
    add_read = λ proof wait. add_read_call proof wait >>= λ reply. give reply.instance_id;
    get_proof = λ id. on_ledger (λ y. Y.get_proof y id);
    is_match = Y.is_match;
    open_item = open_written;
    expected = λ written. (written.1).content;
    mismatch = "Incorrect decryption";
  }

  unfoldable pub create_all : C.Point → List (Item C) → Result (List (WriteData C))
  create_all server_pk [] = ok []
  create_all server_pk (item ∷ items) =
      create_write_data C item.draws item.content (C.mul_base U.reader_sk) server_pk true
      and_then λ wd. create_all server_pk items and_then λ wds. ok (wd ∷ wds)

  -- `StoreData`, whose key goes into the write data.
  unfoldable pub store_one : WriteData C → Call World (WriteData C)
  store_one wd = do reply ← store_call wd; give (record wd { stored_key = reply.stored_key })

  unfoldable pub add_one : ℕ → WriteData C → Call World Bytes
  add_one wait wd = add_write_call wd wait >>= λ reply. give reply.instance_id

  -- The loops that write, up to the proofs of the writes.
  unfoldable pub write_all :
      ℕ → C.Point → List (Item C) → Call World (List ((WriteData C × Item C) × Y.Proof))
  unfolding create_all store_one add_one get_proofs
  write_all wait server_pk items = do
    created ← lift (create_all server_pk items)
    wds ← each store_one created
    ids ← each_waiting wait add_one wds
    proofs ← get_proofs sharing "Write inclusion proof does not match" ids
    give (zip (zip wds items) proofs)

  -- A round of `runMicrobenchmark`, with what it logs: whether each recovered text is the written one.
  unfoldable pub microbenchmark_round : C.Point → List (Item C) → Call World (List Bool)
  unfolding write_all add_reads get_proofs open_written
  microbenchmark_round server_pk items = do
    written ← write_all 3 server_pk items
    ids ← add_reads sharing 3 (map (λ p. p.1) written)
    r_proofs ← get_proofs sharing "Read inclusion proof does not match" ids
    each
        (λ (p : ((WriteData C × Item C) × Y.Proof) × Y.Proof).
          open_written p.0.0 p.0.1 p.1 >>= λ recovered.
          give (eq_bytes recovered ((p.0.0).1).content))
        (zip written r_proofs)

  -- A round of `runMultiClientSimulation`, in which the scheduler gives turns to the goroutines of
  -- `schedule`, in this order, until all have ended.
  unfoldable pub multi_client_round :
      ℕ → List ℕ → C.Point → List (Item C) → Call World (List (Goroutine sharing))
  unfolding write_all run_schedule spawn_all
  multi_client_round wait schedule server_pk items = write_all wait server_pk items >>= λ written w.
      let (w', readers) = run_schedule sharing wait schedule (w, spawn_all sharing written) in
      (w', ok readers)

  -- A write of `runByzgenSimulation`: `StoreData` and `AddWriteTransaction` of the next write data.
  unfoldable pub byzgen_next : ℕ → ℕ → List (WriteData C) → Call World (List (WriteData C) × Bytes)
  unfolding store_one add_one
  byzgen_next i wait wds = do
    wd ← lift (at_index wds i)
    wd' ← store_one wd
    id ← add_one wait wd'
    give (set_elem wds i wd', id)

  -- `runByzgenSimulation`, with the transactions and the sizes of the blocks that the files give; the 10
  -- writes of `fixed_items` come before.
  unfoldable pub run_byzgen :
      ℕ
      → ℕ
      → C.Point
      → List (Item C)
      → List (Item C)
      → List ℕ
      → List ℕ
      → Call World (Counters (List (WriteData C)))
  unfolding write_all create_all byzgen_next run_rounds no_counts
  run_byzgen rounds num_reads server_pk fixed_items items txns sizes = do
    fixed ← write_all 3 server_pk fixed_items
    wds ← lift (create_all server_pk items)
    run_rounds sharing fixed byzgen_next rounds (length txns) txns sizes (λ state. state)
        (no_counts sharing fixed byzgen_next (length items) num_reads wds)
