-- ===== src/CalypsoSimulation/Byzgen.antt =====
-- `runByzgenSimulation` on a Calypso that works.
use calypso_experiments.Base.{ℕ, suc, ◌%◌, ◌≡◌, ◌≤◌, refl, List, true, length, arith}
use calypso_experiments.Base.Bytes.{Bytes}
use calypso_experiments.Base.Calls.Succeed.{
  Gives, Gives-runs, Gives-known, Gives-weaken, Gives-bind,
}
use calypso_experiments.Workload.{at_index, get_elem?_total, at_index-get_elem?}
use calypso_experiments.Sharing.Blocks.Laws.{writes_in, reads_in, Fits, IsRunning, Still}
use calypso_experiments.Sharing.Blocks.Ends.{Counted, TenShared-zip, run_rounds-Counted}
use calypso_experiments.Lottery.{Calypso}
use calypso_experiments.CalypsoSimulation.Serving.{IsServing, Later, same_world}
use calypso_experiments.CalypsoSimulation.{
  SetUp, open_key, sharing, add_key, write_fixed, next_fixed, run_byzgen_calypso,
}
use calypso_experiments.CalypsoSimulation.Fixed.{write_fixed-Gives}
use calypso_experiments.CalypsoSimulation.Rounds.{
  IsShared, HasRead, IsOf, read-Gives, read_proof-Gives,
}

module _ (K : Calypso) (U : SetUp K) (Up : K.World → Type 0)
    (Has : K.World → Bytes → Bytes → Type 0) (Shows : K.Proof → Bytes → Type 0)
    (W : IsServing K U Up Has Shows) where
  -- The writes of the rounds: any instance that stands for a key.
  abbrev IsWrite : Bytes → K.World → Type 0
  IsWrite id w = Up w × (key : Bytes) × Has w id key

  abbrev Ready : ℕ → ℕ → K.World → Type 0
  Ready i fixed_idx w = Up w

  still :
      (w w' : K.World)
      → Later Up Has w w'
      → Still
          (sharing K U true)
          (IsShared K U Up Has Shows W)
          (HasRead K U Up Has Shows W)
          (IsOf K U Up Has Shows W)
          IsWrite
          Ready
          w
          w'
  still w w' (up, later) = (
    (
      (
        λ key p (here, shown). (up here, shown),
        λ p id (here, shown, has). (up here, shown, λ key shows. later id key (has key shows)),
      ),
      λ id (here, key, has). (up here, key, later id key has),
    ),
    λ i a here. up here,
  )

  next_fixed-Gives :
      (keys : List Bytes)
      → length keys ≡ 10
      → (i wait fixed_idx : ℕ) (w : K.World) → Up w
      → Gives (next_fixed K U keys i wait fixed_idx) w (λ w' r. IsWrite r.1 w' × Later Up Has w w')
  unfolding next_fixed add_key
  next_fixed-Gives keys ten i wait fixed_idx w up =
      let (key, found) = get_elem?_total keys (fixed_idx % 10) (omega (arith, ten)) in
      let (w', id, e, has, later) = W.writes w key wait up in
      Gives-known (at_index keys (fixed_idx % 10)) key _ w
        (at_index-get_elem? keys (fixed_idx % 10) key found)
        (Gives-runs _ (suc fixed_idx, id) w w' (rw e refl) ((later.0 up, key, has), later))

  calypso-IsRunning :
      (num_writes : ℕ) (keys : List Bytes)
      → length keys ≡ 10
      → IsRunning
          (sharing K U true)
          (IsShared K U Up Has Shows W)
          (HasRead K U Up Has Shows W)
          (IsOf K U Up Has Shows W)
          IsWrite
          Ready
          num_writes
          (next_fixed K U keys)
  unfolding open_key next_fixed
  calypso-IsRunning num_writes keys ten = record {
    adds = λ i wait a w lt ready.
        Gives-weaken _ w (next_fixed-Gives keys ten i wait a w ready)
          (λ w' r (is_write, later). (later.0 ready, is_write, (still w w' later).0));
    writes_proved = λ id w (up, key, has).
        let (p, e, match, shows) = W.proves w id key up has in
        Gives-runs _ p w w e (match, still w w (same_world Up Has w));
    reads = λ key p wait w shown.
        Gives-weaken _ w (read-Gives K U Up Has Shows W true key p wait w shown)
          (λ w' id (has, later). (has, still w w' later));
    proves = λ p id w h.
        Gives-weaken _ w (read_proof-Gives K U Up Has Shows W true p id w h)
          (λ w' q (match, of_it, later). (match, of_it, still w w' later));
    opens = λ key p q w (up, shown) of_it.
        let (dk, e, same, decoded) = W.decrypts w q p key up (of_it key shown) shown in
        Gives-runs _ key w w (rw (e, same, decoded) refl) (still w w (same_world Up Has w));
  }

  -- Rounds of `runByzgenSimulation` on a Calypso that works, with ten keys, with blocks that take the
  -- transactions of the file, and with lists as long as it has writes and reads: after the fixed
  -- writes, any number of rounds but none end without an error, without an index out of range and
  -- without a nil reply, and the counters are then the numbers of the transactions, of the writes and
  -- of the other transactions of the file.
  pub run_byzgen_calypso-Counted :
      (rounds num_writes num_reads : ℕ) (keys : List Bytes) (txns sizes : List ℕ) (w : K.World)
      → Up w
      → length keys ≡ 10
      → Fits sizes (length txns)
      → writes_in txns ≤ num_writes
      → reads_in txns ≤ num_reads
      → Gives
          (run_byzgen_calypso K U (suc rounds) num_writes num_reads keys txns sizes)
          w
          (λ w' c. Counted txns c)
  unfolding run_byzgen_calypso
  run_byzgen_calypso-Counted rounds num_writes num_reads keys txns sizes w up ten fits enough
        enough_reads =
      let H = sharing K U true in
      let Sh = IsShared K U Up Has Shows W in
      let Re = HasRead K U Up Has Shows W in
      let Of = IsOf K U Up Has Shows W in
      Gives-bind (write_fixed K U keys) _ w (write_fixed-Gives K U Up Has Shows W keys w up)
        (λ v written (here, proofs, e, shown).
          run_rounds-Counted H Sh Re Of IsWrite Ready written (next_fixed K U keys) num_writes
            num_reads (calypso-IsRunning num_writes keys ten) txns enough enough_reads (λ i. 0)
            (λ i a u ready. ready) rounds sizes 0 v fits
            (TenShared-zip H Sh Re Of IsWrite Ready v written keys proofs e ten shown) here)
