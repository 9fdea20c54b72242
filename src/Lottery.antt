-- ===== src/Lottery.antt =====
-- calypso_lottery: a lottery whose secrets are written encrypted to Calypso and decrypted after
-- everyone has written (api.go; simulation/service.go, `runCalypsoLottery` and `runBatchedLottery`;
-- client/main.go, `runCalypsoLottery`). The client of Calypso and the ledger are parameters.
pub mod Runs
pub mod Winner
pub mod Working
pub mod Multiple
use calypso_experiments.Base.{
  ℕ, ◌%◌, String, List, [], ◌∷◌, Bool, true, false, Result, ok, err, panic, Error, ◌>>=◌, ◌==◌,
  if◌then◌else◌, length, replicate,
}
use calypso_experiments.Base.Bytes.{Bytes}
use calypso_experiments.Base.Steps.{◌then_do◌}
use calypso_experiments.Xor.{safe_xor_bytes}
use calypso_experiments.Tournament.{last_byte}

-- `calypso.Client`, with what the lottery uses of `calypso.NewWrite` and `calypso.DecodeKey`, over the
-- state of all that a call can change.
pub record Calypso : Type 1 where
  pub World : Type 0
  pub Lts : Type 0
  pub Signer : Type 0
  pub Darc : Type 0
  pub Write : Type 0
  pub Proof : Type 0
  pub DecryptKeyReply : Type 0
  pub new_write : Lts → Darc → Bytes → Write
  pub add_write : World → Write → Signer → Darc → ℕ → World × Result Bytes
  pub get_proof : World → Bytes → World × Result Proof
  pub is_match : Proof → Bool
  pub add_read : World → Proof → Signer → Darc → ℕ → World × Result Bytes
  -- the proofs with their darcs, read by one signer in one transaction
  pub add_read_batch : World → List (Proof × Darc) → Signer → ℕ → World × Result (List Bytes)
  -- the proofs of the read and of the write
  pub decrypt_key : World → Proof → Proof → World × Result DecryptKeyReply
  pub decrypt_key_batch : World → List (Proof × Proof) → World × Result (List DecryptKeyReply)
  -- `dk.X.Equal(ltsReply.X)`
  pub same_point : DecryptKeyReply → Lts → Bool
  pub decode_key : Lts → DecryptKeyReply → Signer → Result Bytes

-- The loop that joins the secrets: `SafeXORBytes(result, result, secret)`.
unfoldable pub xor_all : Bytes → List Bytes → Result Bytes
xor_all result [] = ok result
xor_all result (secret ∷ secrets) = do
  written ← safe_xor_bytes result result secret
  xor_all written.1 secrets

-- The last byte of all secrets joined.
unfoldable pub last_digit : List Bytes → Result ℕ
unfolding xor_all last_byte
last_digit secrets = do result ← xor_all (replicate 32 0) secrets; last_byte result

-- `lastDigit%numParticipant` panics for no participants.
unfoldable pub winner_of : ℕ → ℕ → Result ℕ
winner_of digit n = if n == 0 then panic else ok (digit % n)

module _ (K : Calypso) where
  -- A participant: its keys, its darc and the secret that it drew.
  pub record Participant : Type 0 where
    pub writer : K.Signer
    pub darc : K.Darc
    pub secret : Bytes

  -- What a loop over the participants waits for: its last call waits.
  abbrev pub wait_of : {A : Type 0} → ℕ → List A → ℕ
  wait_of block_wait [] = block_wait
  wait_of block_wait (_ ∷ _) = 0

  unfoldable pub add_writes : ℕ → K.Lts → K.World → List Participant → K.World × Result (List Bytes)
  add_writes block_wait lts w [] = (w, ok [])
  add_writes block_wait lts w (p ∷ ps) =
      K.add_write w (K.new_write lts p.darc p.secret) p.writer p.darc (wait_of block_wait ps)
      then_do λ w₁ id. add_writes block_wait lts w₁ ps then_do λ w₂ ids. (w₂, ok (id ∷ ids))

  unfoldable pub get_proofs : Error → K.World → List Bytes → K.World × Result (List K.Proof)
  get_proofs mismatch w [] = (w, ok [])
  get_proofs mismatch w (id ∷ ids) = K.get_proof w id then_do λ w₁ proof.
      (w₁, if K.is_match proof then ok proof else err mismatch) then_do λ w₂ proof'.
      get_proofs mismatch w₂ ids then_do λ w₃ proofs. (w₃, ok (proof' ∷ proofs))

  -- There is a proof for each participant.
  unfoldable pub add_reads :
      ℕ → K.Signer → K.World → List K.Proof → List Participant → K.World × Result (List Bytes)
  add_reads block_wait reader w proofs [] = (w, ok [])
  add_reads block_wait reader w [] (p ∷ ps) = (w, panic)
  add_reads block_wait reader w (proof ∷ proofs) (p ∷ ps) =
      K.add_read w proof reader p.darc (wait_of block_wait ps) then_do λ w₁ id.
      add_reads block_wait reader w₁ proofs ps then_do λ w₂ ids. (w₂, ok (id ∷ ids))

  -- The client compares the points before it decodes the key; in the simulation the test is commented
  -- out.
  unfoldable pub decrypt_all :
      Bool
      → K.Lts
      → K.Signer
      → K.World
      → List K.Proof
      → List K.Proof
      → K.World × Result (List Bytes)
  decrypt_all compares lts reader w [] writes = (w, ok [])
  decrypt_all compares lts reader w (r ∷ reads) [] = (w, panic)
  decrypt_all compares lts reader w (r ∷ reads) (v ∷ writes) = K.decrypt_key w r v then_do λ w₁ dk.
      (
        w₁,
        if compares then (if K.same_point dk lts then ok dk else err "Points not same") else ok dk,
      )
      then_do λ w₂ dk'. (w₂, K.decode_key lts dk' reader) then_do λ w₃ secret.
          decrypt_all compares lts reader w₃ reads writes then_do λ w₄ secrets.
          (w₄, ok (secret ∷ secrets))

  -- From the writes to the decoded secrets.
  unfoldable pub collect_secrets :
      Bool → ℕ → K.Lts → K.Signer → K.World → List Participant → K.World × Result (List Bytes)
  unfolding add_writes get_proofs add_reads decrypt_all
  collect_secrets compares block_wait lts reader w ps =
      add_writes block_wait lts w ps then_do λ w₁ write_ids.
      get_proofs "Write inclusion proof does not match" w₁ write_ids then_do λ w₂ write_proofs.
      add_reads block_wait reader w₂ write_proofs ps then_do λ w₃ read_ids.
      get_proofs "Read inclusion proof does not match" w₃ read_ids then_do λ w₄ read_proofs.
      decrypt_all compares lts reader w₄ read_proofs write_proofs

  -- One round of the simulation, once the darcs are spawned: the last byte.
  unfoldable pub run_calypso_lottery :
      ℕ → K.Lts → K.Signer → K.World → List Participant → K.World × Result ℕ
  unfolding collect_secrets last_digit
  run_calypso_lottery block_wait lts reader w ps =
      collect_secrets false block_wait lts reader w ps then_do λ w' secrets.
      (w', last_digit secrets)

  -- The run of the client, which waits 3 blocks: the winner.
  unfoldable pub run_client : K.Lts → K.Signer → K.World → List Participant → K.World × Result ℕ
  unfolding collect_secrets last_digit winner_of
  run_client lts reader w ps = collect_secrets true 3 lts reader w ps then_do λ w' secrets.
      (w', last_digit secrets >>= λ digit. winner_of digit (length ps))

  unfoldable pub batch_of : List K.Proof → List Participant → Result (List (K.Proof × K.Darc))
  batch_of proofs [] = ok []
  batch_of [] (p ∷ ps) = panic
  batch_of (proof ∷ proofs) (p ∷ ps) = do rest ← batch_of proofs ps; ok ((proof, p.darc) ∷ rest)

  unfoldable pub pairs_of : List K.Proof → List K.Proof → Result (List (K.Proof × K.Proof))
  pairs_of [] writes = ok []
  pairs_of (r ∷ reads) [] = panic
  pairs_of (r ∷ reads) (v ∷ writes) = do rest ← pairs_of reads writes; ok ((r, v) ∷ rest)

  -- The loops over the replies to a batch count the participants, and panic where a reply is missing.
  unfoldable pub get_batch_proofs :
      K.World → List Bytes → List Participant → K.World × Result (List K.Proof)
  get_batch_proofs w ids [] = (w, ok [])
  get_batch_proofs w [] (p ∷ ps) = (w, panic)
  get_batch_proofs w (id ∷ ids) (p ∷ ps) = K.get_proof w id then_do λ w₁ proof.
      (w₁, if K.is_match proof then ok proof else err "Read inclusion proof does not match")
      then_do λ w₂ proof'.
          get_batch_proofs w₂ ids ps then_do λ w₃ proofs. (w₃, ok (proof' ∷ proofs))

  unfoldable pub decode_all :
      K.Lts → K.Signer → List K.DecryptKeyReply → List Participant → Result (List Bytes)
  decode_all lts reader dks [] = ok []
  decode_all lts reader [] (p ∷ ps) = panic
  decode_all lts reader (dk ∷ dks) (p ∷ ps) = do
    secret ← K.decode_key lts dk reader
    secrets ← decode_all lts reader dks ps
    ok (secret ∷ secrets)

  -- One round with the reads and the decryptions in one call each.
  unfoldable pub run_batched_lottery :
      ℕ → K.Lts → K.Signer → K.World → List Participant → K.World × Result ℕ
  unfolding add_writes get_proofs get_batch_proofs batch_of pairs_of decode_all last_digit
  run_batched_lottery block_wait lts reader w ps =
      add_writes block_wait lts w ps then_do λ w₁ write_ids.
      get_proofs "Write inclusion proof does not match" w₁ write_ids then_do λ w₂ write_proofs.
      (w₂, batch_of write_proofs ps) then_do λ w₃ batch.
      K.add_read_batch w₃ batch reader block_wait then_do λ w₄ read_ids.
      get_batch_proofs w₄ read_ids ps then_do λ w₅ read_proofs.
      (w₅, pairs_of read_proofs write_proofs) then_do λ w₆ pairs.
      K.decrypt_key_batch w₆ pairs then_do λ w₇ dks.
      (w₇, decode_all lts reader dks ps >>= last_digit)
