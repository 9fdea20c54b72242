-- ===== src/Lottery/Multiple.antt =====
-- `runMultipleLottery` of calypso_lottery/simulation/service.go, from the writes on: it does not wait for
-- blocks, but asks for the proof of its last transaction until there is one.
pub mod Polling
pub mod Blocks
use calypso_experiments.Base.{
  ℕ, zero, suc, List, [], ◌∷◌, Bool, true, false, Option, none, some, Result, ok, panic, Error,
  length, ◌>>=◌ as ◌and_then◌,
}
use calypso_experiments.Base.Bytes.{Bytes}
use calypso_experiments.Base.Calls.{Call, ◌>>=◌, ◌>>◌, lift, give, demand}
use calypso_experiments.Lottery.{
  Calypso, Participant, add_writes, add_reads, decrypt_all, last_digit, winner_of,
}

-- `writeTxnList[numTransactions-1].InstanceID`
abbrev pub last_id : List Bytes → Result Bytes
last_id [] = panic
last_id (id ∷ []) = ok id
last_id (id ∷ (next ∷ ids)) = last_id (next ∷ ids)

module _ (K : Calypso) where
  -- `for writeProofReady == false`: at most `fuel` times, and `none` where that is not enough.
  unfoldable pub poll_proof : ℕ → Bytes → Call K.World (Option K.Proof)
  poll_proof zero id = give none
  poll_proof (suc fuel) id = (λ w. K.get_proof w id) >>= λ proof. elim (K.is_match proof) [
    | true ↦ give (some proof)
    | false ↦ poll_proof fuel id
  ]

  -- The loop over the transactions before the last one, with the last proof behind.
  unfoldable pub proofs_before : Error → List Bytes → K.Proof → Call K.World (List K.Proof)
  proofs_before mismatch [] last = give []
  proofs_before mismatch (id ∷ []) last = give (last ∷ [])
  proofs_before mismatch (id ∷ (next ∷ ids)) last = do
    proof ← (λ w. K.get_proof w id)
    demand (K.is_match proof) mismatch
    proofs ← proofs_before mismatch (next ∷ ids) last
    give (proof ∷ proofs)

  -- The proofs of all the transactions, that of the last one first.
  unfoldable pub poll_proofs : ℕ → Error → List Bytes → Call K.World (Option (List K.Proof))
  unfolding poll_proof proofs_before
  poll_proofs fuel mismatch ids = do
    id ← lift (last_id ids)
    found ← poll_proof fuel id
    elim found [
      | none ↦ give none
      | some last ↦ proofs_before mismatch ids last >>= λ proofs. give (some proofs)
    ]

  -- From the proofs of the reads on: the winner.
  unfoldable pub draw :
      K.Lts
      → K.Signer
      → List (Participant K)
      → List K.Proof
      → List K.Proof
      → Call K.World (Option ℕ)
  draw lts reader ps write_proofs read_proofs = do
    secrets ← (λ w. decrypt_all K true lts reader w read_proofs write_proofs)
    winner ← lift (last_digit secrets and_then λ digit. winner_of digit (length ps))
    give (some winner)

  unfoldable pub run_multiple_lottery :
      ℕ → K.Lts → K.Signer → List (Participant K) → Call K.World (Option ℕ)
  unfolding poll_proofs draw
  run_multiple_lottery fuel lts reader ps = do
    write_ids ← (λ w. add_writes K 0 lts w ps)
    written ← poll_proofs fuel "Write inclusion proof does not match" write_ids
    elim written [
      | none ↦ give none
      | some write_proofs ↦ (λ w. add_reads K 0 reader w write_proofs ps) >>= λ read_ids.
          poll_proofs fuel "Read inclusion proof does not match" read_ids >>= λ read. elim read [
            | none ↦ give none
            | some read_proofs ↦ draw lts reader ps write_proofs read_proofs
          ]
    ]
