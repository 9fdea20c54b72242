-- ===== src/Lottery/Working.antt =====
-- The lottery on a Calypso that works: the winner is drawn from everyone's secrets.
use calypso_experiments.Base.{ℕ, ◌≡◌, refl, List, [], ◌∷◌, Bool, true, false, ok, Error, map, All}
use calypso_experiments.Base.Bytes.{Bytes}
use calypso_experiments.Lottery.{
  Calypso, Participant, wait_of, add_writes, get_proofs, add_reads, decrypt_all, collect_secrets,
  run_calypso_lottery,
}
use calypso_experiments.Lottery.Winner.{IsSecret, joined, last_digit_lem}

module _ (K : Calypso) (lts : K.Lts) (reader : K.Signer) where
  -- Every instance goes on standing for its secret.
  abbrev pub Later : (K.World → Bytes → Bytes → Type 0) → K.World → K.World → Type 0
  Later Has w w' = (i s : Bytes) → Has w i s → Has w' i s

  -- A proof of a read and one of the write, of one secret, give a key that decodes to the secret.
  abbrev pub Decrypts : (K.Proof → Bytes → Type 0) → Type 0
  Decrypts Shows =
      (w : K.World) (r v : K.Proof) (s : Bytes)
      → Shows r s
      → Shows v s
      → (dk : K.DecryptKeyReply) × (K.decrypt_key w r v ≡ (w, ok dk))
        × (K.same_point dk lts ≡ true)
        × (K.decode_key lts dk reader ≡ ok s)

  -- A Calypso that accepts and proves every write and read, and whose keys decode to the secrets.
  -- `Has w id s` says that the instance `id` is a write or a read of the secret `s`, and `Shows p s`
  -- that `p` is a proof of one.
  pub record IsWorking (Has : K.World → Bytes → Bytes → Type 0) (Shows : K.Proof → Bytes → Type 0)
      : Type 0 where
    pub writes :
        (w : K.World) (s : Bytes) (writer : K.Signer) (darc : K.Darc) (wait : ℕ)
        → (w' : K.World) × (id : Bytes) × (K.add_write w (K.new_write lts darc s) writer darc wait
            ≡ (w', ok id))
          × Has w' id s
          × Later Has w w'
    pub proves :
        (w : K.World) (id s : Bytes)
        → Has w id s
        → (p : K.Proof) × (K.get_proof w id ≡ (w, ok p)) × (K.is_match p ≡ true) × Shows p s
    pub reads :
        (w : K.World) (p : K.Proof) (s : Bytes) (darc : K.Darc) (wait : ℕ)
        → Shows p s
        → (w' : K.World) × (id : Bytes) × (K.add_read w p reader darc wait ≡ (w', ok id))
          × Has w' id s
          × Later Has w w'
    pub decrypts : Decrypts Shows

module _ (K : Calypso) where
  abbrev pub AllHave :
      (K.World → Bytes → Bytes → Type 0) → K.World → List Bytes → List (Participant K) → Type 0
  AllHave Has w [] [] = Unit
  AllHave Has w [] (p ∷ ps) = ⊥
  AllHave Has w (id ∷ ids) [] = ⊥
  AllHave Has w (id ∷ ids) (p ∷ ps) = Has w id p.secret × AllHave Has w ids ps

  abbrev pub AllShow : (K.Proof → Bytes → Type 0) → List K.Proof → List (Participant K) → Type 0
  AllShow Shows [] [] = Unit
  AllShow Shows [] (p ∷ ps) = ⊥
  AllShow Shows (q ∷ qs) [] = ⊥
  AllShow Shows (q ∷ qs) (p ∷ ps) = Shows q p.secret × AllShow Shows qs ps

  abbrev pub secrets_of : List (Participant K) → List Bytes
  secrets_of ps = map (λ (p : Participant K). p.secret) ps

module _ (K : Calypso) (lts : K.Lts) (reader : K.Signer) (Shows : K.Proof → Bytes → Type 0)
    (D : Decrypts K lts reader Shows) where
  pub decrypt_all_lem :
      (compares : Bool) (w : K.World) (rs vs : List K.Proof) (ps : List (Participant K))
      → AllShow K Shows rs ps
      → AllShow K Shows vs ps
      → decrypt_all K compares lts reader w rs vs ≡ (w, ok (secrets_of K ps))
  unfolding decrypt_all
  decrypt_all_lem compares w [] vs [] R V = refl
  decrypt_all_lem compares w [] vs (p ∷ ps) R V = absurd R
  decrypt_all_lem compares w (r ∷ rs) vs [] R V = absurd R
  decrypt_all_lem compares w (r ∷ rs) [] (p ∷ ps) R V = absurd V
  decrypt_all_lem true w (r ∷ rs) (v ∷ vs) (p ∷ ps) (r_is, R) (v_is, V) =
      let (dk, e, same, decoded) = D w r v p.secret r_is v_is in
      rw (e, same, decoded, decrypt_all_lem true w rs vs ps R V) refl
  decrypt_all_lem false w (r ∷ rs) (v ∷ vs) (p ∷ ps) (r_is, R) (v_is, V) =
      let (dk, e, same, decoded) = D w r v p.secret r_is v_is in
      rw (e, decoded, decrypt_all_lem false w rs vs ps R V) refl

module _ (K : Calypso) (lts : K.Lts) (reader : K.Signer) (Has : K.World → Bytes → Bytes → Type 0)
    (Shows : K.Proof → Bytes → Type 0) (W : IsWorking K lts reader Has Shows) where
  pub add_writes_lem :
      (block_wait : ℕ) (w : K.World) (ps : List (Participant K))
      → (w' : K.World) × (ids : List Bytes) × (add_writes K block_wait lts w ps ≡ (w', ok ids))
        × AllHave K Has w' ids ps
        × Later K lts reader Has w w'
  unfolding add_writes
  add_writes_lem block_wait w [] = (w, [], refl, tt, λ i s h. h)
  add_writes_lem block_wait w (p ∷ ps) =
      let (w₁, id, e, h, l) = W.writes w p.secret p.writer p.darc (wait_of K block_wait ps) in
      let (w₂, ids, e', hs, l') = add_writes_lem block_wait w₁ ps in
      (w₂, id ∷ ids, rw (e, e') refl, (l' id p.secret h, hs), λ i s k. l' i s (l i s k))

  get_proofs_lem :
      (mismatch : Error) (w : K.World) (ids : List Bytes) (ps : List (Participant K))
      → AllHave K Has w ids ps
      → (qs : List K.Proof) × (get_proofs K mismatch w ids ≡ (w, ok qs)) × AllShow K Shows qs ps
  unfolding get_proofs
  get_proofs_lem mismatch w [] [] H = ([], refl, tt)
  get_proofs_lem mismatch w [] (p ∷ ps) H = absurd H
  get_proofs_lem mismatch w (id ∷ ids) [] H = absurd H
  get_proofs_lem mismatch w (id ∷ ids) (p ∷ ps) (h, H) =
      let (q, e, matches, s) = W.proves w id p.secret h in
      let (qs, e', S) = get_proofs_lem mismatch w ids ps H in
      (q ∷ qs, rw (e, matches, e') refl, (s, S))

  pub add_reads_lem :
      (block_wait : ℕ) (w : K.World) (qs : List K.Proof) (ps : List (Participant K))
      → AllShow K Shows qs ps
      → (w' : K.World) × (ids : List Bytes) × (add_reads K block_wait reader w qs ps ≡ (w', ok ids))
        × AllHave K Has w' ids ps
        × Later K lts reader Has w w'
  unfolding add_reads
  add_reads_lem block_wait w [] [] S = (w, [], refl, tt, λ i s h. h)
  add_reads_lem block_wait w [] (p ∷ ps) S = absurd S
  add_reads_lem block_wait w (q ∷ qs) [] S = absurd S
  add_reads_lem block_wait w (q ∷ qs) (p ∷ ps) (s, S) =
      let (w₁, id, e, h, l) = W.reads w q p.secret p.darc (wait_of K block_wait ps) s in
      let (w₂, ids, e', hs, l') = add_reads_lem block_wait w₁ qs ps S in
      (w₂, id ∷ ids, rw (e, e') refl, (l' id p.secret h, hs), λ i x k. l' i x (l i x k))

  collect_secrets_lem :
      (compares : Bool) (block_wait : ℕ) (w : K.World) (ps : List (Participant K))
      → (w' : K.World) × (collect_secrets K compares block_wait lts reader w ps
          ≡ (w', ok (secrets_of K ps)))
  unfolding collect_secrets
  collect_secrets_lem compares block_wait w ps =
      let (w₁, ids, e₁, H₁, _) = add_writes_lem block_wait w ps in
      let (qs, e₂, S₂) = get_proofs_lem "Write inclusion proof does not match" w₁ ids ps H₁ in
      let (w₃, reads, e₃, H₃, _) = add_reads_lem block_wait w₁ qs ps S₂ in
      let (rs, e₄, S₄) = get_proofs_lem "Read inclusion proof does not match" w₃ reads ps H₃ in
      (
        w₃,
        rw (e₁, e₂, e₃, e₄)
            (decrypt_all_lem K lts reader Shows W.decrypts compares w₃ rs qs ps S₄ S₂),
      )

  -- A round of the simulation on a Calypso that works ends with the exclusive or of the last bytes of
  -- all the secrets, when they have 32 bytes.
  pub run_calypso_lottery_lem :
      (block_wait : ℕ) (w : K.World) (ps : List (Participant K))
      → All IsSecret (secrets_of K ps)
      → (w' : K.World) × (run_calypso_lottery K block_wait lts reader w ps
          ≡ (w', ok (joined 0 (secrets_of K ps))))
  unfolding run_calypso_lottery
  run_calypso_lottery_lem block_wait w ps h =
      let (w', e) = collect_secrets_lem false block_wait w ps in
      (w', rw (e, last_digit_lem (secrets_of K ps) h) refl)
