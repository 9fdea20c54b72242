-- ===== src/Sharing/Blocks/Laws.antt =====
-- What the rounds of `runByzgenSimulation` rely on, and what holds between their transactions.
use calypso_experiments.Base.{
  ℕ, zero, suc, ◌+◌, ◌%◌, ◌≡◌, ◌<◌, ◌≤◌, List, [], ◌∷◌, true, Option, some, get_elem?, drop, ◌==◌,
  if◌then◌else◌, length,
}
use calypso_experiments.Base.Bytes.{Bytes}
use calypso_experiments.Base.Calls.{Call}
use calypso_experiments.Base.Calls.Succeed.{Gives}
use calypso_experiments.Sharing.{Sharing}
use calypso_experiments.Sharing.Goroutines.{Keeps}
use calypso_experiments.Sharing.Blocks.{Counters}

-- The writes and the reads among the transactions of the file.
abbrev pub writes_in : List ℕ → ℕ
writes_in [] = 0
writes_in (txn ∷ txns) = if txn == 1 then suc (writes_in txns) else writes_in txns

abbrev pub reads_in : List ℕ → ℕ
reads_in [] = 0
reads_in (txn ∷ txns) = if txn == 1 then reads_in txns else suc (reads_in txns)

-- Blocks of these sizes, from the first one on, take exactly `n` transactions.
abbrev pub Fits : List ℕ → ℕ → Type 0
Fits [] n = n ≡ 0
Fits (size ∷ sizes) zero = Unit
Fits (size ∷ sizes) (suc n) = (k : ℕ) × (size + k ≡ suc n) × Fits sizes k

-- The writes and the reads of the block are among those of the round.
abbrev pub IsCounting : {A : Type 0} → Counters A → Type 0
IsCounting c = (c.write_cnt ≤ c.write_idx) × (c.read_cnt ≤ c.read_idx)

module _ (S : Sharing) {A : Type 0} (IsShared : S.Item → S.Proof → S.World → Type 0)
    (HasRead : S.Proof → Bytes → S.World → Type 0) (IsOf : S.Proof → S.Proof → Type 0)
    (IsWrite : Bytes → S.World → Type 0) (Ready : ℕ → A → S.World → Type 0) where
  -- What the calls leave as it is: all but the next write, or all.
  abbrev pub Later : S.World → S.World → Type 0
  Later w w' = Keeps S IsShared HasRead w w' × ((id : Bytes) → IsWrite id w → IsWrite id w')

  abbrev pub Still : S.World → S.World → Type 0
  Still w w' = Later w w' × ((i : ℕ) (a : A) → Ready i a w → Ready i a w')

  -- A client that works, and whose writes are made by `add_next`: `IsWrite` says of an instance that it
  -- is a write, and `Ready i` of what the writes change that the write with the index `i` can be made.
  pub record IsRunning (num_writes : ℕ) (add_next : ℕ → ℕ → A → Call S.World (A × Bytes))
      : Type 0 where
    pub adds :
        (i wait : ℕ) (a : A) (w : S.World)
        → i < num_writes
        → Ready i a w
        → Gives (add_next i wait a) w (λ w' r. Ready (suc i) r.0 w' × IsWrite r.1 w' × Later w w')
    pub writes_proved :
        (id : Bytes) (w : S.World)
        → IsWrite id w
        → Gives (S.get_proof id) w (λ w' q. (S.is_match q ≡ true) × Still w w')
    pub reads :
        (item : S.Item) (p : S.Proof) (wait : ℕ) (w : S.World)
        → IsShared item p w
        → Gives (S.add_read p wait) w (λ w' id. HasRead p id w' × Still w w')
    pub proves :
        (p : S.Proof) (id : Bytes) (w : S.World)
        → HasRead p id w
        → Gives (S.get_proof id) w (λ w' q. (S.is_match q ≡ true) × IsOf p q × Still w w')
    pub opens :
        (item : S.Item) (p q : S.Proof) (w : S.World)
        → IsShared item p w
        → IsOf p q
        → Gives (S.open_item item p q) w (λ w' opened. Still w w')

  -- All the instances below `i` are writes, or reads of the fixed writes in their turn.
  abbrev pub AllWrites : List (Option Bytes) → ℕ → S.World → Type 0
  AllWrites ids n w =
      (i : ℕ) → i < n → (id : Bytes) × (get_elem? ids i ≡ some (some id)) × IsWrite id w

  abbrev pub AllReads : List (S.Item × S.Proof) → List (Option Bytes) → ℕ → S.World → Type 0
  AllReads fixed ids n w =
      (i : ℕ)
      → i < n
      → (id : Bytes) × (job : S.Item × S.Proof) × (get_elem? ids i ≡ some (some id))
        × (get_elem? fixed (i % 10) ≡ some job)
        × HasRead job.1 id w

  -- Ten writes are shared.
  abbrev pub TenShared : List (S.Item × S.Proof) → S.World → Type 0
  TenShared fixed w =
      (i : ℕ)
      → i < 10
      → (job : S.Item × S.Proof) × (get_elem? fixed i ≡ some job) × IsShared job.0 job.1 w

  -- Before the transactions `rest` of `txns`, in a round for so many writes and reads.
  pub record Going (fixed : List (S.Item × S.Proof)) (txns : List ℕ) (num_writes num_reads : ℕ)
      (rest : List ℕ) (c : Counters A) (w : S.World) : Type 0 where
    pub to_go : drop c.txn_idx txns ≡ rest
    pub at_txn : c.txn_idx + length rest ≡ length txns
    pub shared : TenShared fixed w
    pub ready : Ready c.write_idx c.state w
    pub wrote : AllWrites c.write_ids c.write_idx w
    pub did_read : AllReads fixed c.read_ids c.read_idx w
    pub write_size : length c.write_ids ≡ num_writes
    pub read_size : length c.read_ids ≡ num_reads
    pub writes_left : c.write_idx + writes_in rest ≡ writes_in txns
    pub reads_left : c.read_idx + reads_in rest ≡ reads_in txns

  pub AllWrites-Later :
      (ids : List (Option Bytes)) (n : ℕ) (w w' : S.World)
      → Later w w'
      → AllWrites ids n w
      → AllWrites ids n w'
  AllWrites-Later ids n w w' later h i lt =
      let (id, e, is_write) = h i lt in (id, e, later.1 id is_write)

  pub AllReads-Later :
      (fixed : List (S.Item × S.Proof)) (ids : List (Option Bytes)) (n : ℕ) (w w' : S.World)
      → Later w w'
      → AllReads fixed ids n w
      → AllReads fixed ids n w'
  AllReads-Later fixed ids n w w' later h i lt =
      let (id, job, e, found, has) = h i lt in (id, job, e, found, (later.0).1 job.1 id has)

  pub TenShared-Later :
      (fixed : List (S.Item × S.Proof)) (w w' : S.World)
      → Later w w'
      → TenShared fixed w
      → TenShared fixed w'
  TenShared-Later fixed w w' later h i lt =
      let (job, found, s) = h i lt in (job, found, (later.0).0 job.0 job.1 s)

  pub Later-refl : (w : S.World) → Later w w
  Later-refl w = ((λ item p h. h, λ p id h. h), λ id h. h)

  pub Still-refl : (w : S.World) → Still w w
  Still-refl w = (Later-refl w, λ i a h. h)

  pub Later-trans : {w w' w'' : S.World} → Later w w' → Later w' w'' → Later w w''
  Later-trans ((s, r), k) ((s', r'), k') =
      ((λ item p h. s' item p (s item p h), λ p id h. r' p id (r p id h)), λ id h. k' id (k id h))

  pub Still-trans : {w w' w'' : S.World} → Still w w' → Still w' w'' → Still w w''
  Still-trans (l, r) (l', r') = (Later-trans l l', λ i a h. r' i a (r i a h))
