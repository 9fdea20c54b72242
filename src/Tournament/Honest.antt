-- ===== src/Tournament/Honest.antt =====
-- A round on a ledger that works: everyone reveals what it committed to.
use calypso_experiments.Base.{
  ℕ, String, ◌≡◌, refl, List, [], ◌∷◌, true, Bool-cases, inl, inr, Result, ok, Error, ◌==◌, map,
}
use calypso_experiments.Base.Bytes.{Bytes}
use calypso_experiments.Byzcoin.{Byzcoin, Instruction, TransactionReply}
use calypso_experiments.Tournament.{Reveal}
use calypso_experiments.Tournament.Ledger.{
  Player, ByzcoinData, store_instruction, send_store, add_store, add_secret_transaction,
  add_commit_transaction, add_all, get_proofs, read_revealed, collect,
}

-- What a player reveals.
abbrev pub reveal : Player → Reveal
reveal p = record { commit = p.lottery.digest; secret = p.lottery.secret }

module _ (Y : Byzcoin) (encode : Bytes → Result Bytes)
    (contract_value : Y.Proof → Result Bytes) where
  -- What a call that added a transaction has done: the instance `id` has the value `buf`, and every
  -- instance keeps its value.
  pub record Added (Has : Y.World → Bytes → Bytes → Type 0) (w : Y.World)
      (done : Y.World × Result Y.AddTxResponse) (id buf : Bytes) : Type 0 where
    pub response : Y.AddTxResponse
    pub accepted : done.1 ≡ ok response
    pub there : Has done.0 id buf
    pub kept : (i v : Bytes) → Has w i v → Has done.0 i v

  -- A ledger on which every transaction is accepted and then proved. `Has w id buf` says that the
  -- instance `id` has the value `buf`.
  pub record IsHonest (Has : Y.World → Bytes → Bytes → Type 0) : Type 0 where
    pub encodes : (d : Bytes) → (buf : Bytes) × (encode d ≡ ok buf)
    pub signs :
        (inst : Instruction) (id : Bytes) (signer : Y.Signer)
        → (signed : Instruction) × (Y.sign_by inst id signer ≡ ok signed)
          × (signed.args ≡ inst.args)
    pub adds :
        (w : Y.World) (signed : Instruction) (name : String) (buf : Bytes)
        → signed.args ≡ record { name = name; value = buf } ∷ []
        → Added Has w (Y.add_transaction w (signed ∷ [])) (Y.derive_id signed) buf
    pub adds_and_waits :
        (w : Y.World) (signed : Instruction) (wait : ℕ) (name : String) (buf : Bytes)
        → signed.args ≡ record { name = name; value = buf } ∷ []
        → Added Has w (Y.add_transaction_and_wait w (signed ∷ []) wait) (Y.derive_id signed) buf
    pub proves :
        (w : Y.World) (id buf d : Bytes)
        → Has w id buf
        → encode d ≡ ok buf
        → (p : Y.Proof) × (Y.get_proof w id ≡ (w, ok p))
          × (Y.is_match p ≡ true)
          × (contract_value p ≡ ok d)

module _ (Y : Byzcoin) (encode : Bytes → Result Bytes) (contract_value : Y.Proof → Result Bytes)
    (byzd : ByzcoinData Y) (Has : Y.World → Bytes → Bytes → Type 0)
    (H : IsHonest Y encode contract_value Has) where
  -- The instance has the data, encoded.
  record Keeps (w : Y.World) (id d : Bytes) : Type 0 where
    buf : Bytes
    encoded : encode d ≡ ok buf
    there : Has w id buf

  abbrev Later : Y.World → Y.World → Type 0
  Later w w' = (i v : Bytes) → Has w i v → Has w' i v

  send_store_lem :
      (w : Y.World) (signed : Instruction) (wait : ℕ) (name : String) (buf : Bytes)
      → signed.args ≡ record { name = name; value = buf } ∷ []
      → (w' : Y.World) × (reply : TransactionReply Y) × (send_store Y encode contract_value byzd w
            signed wait
          ≡ (w', ok reply))
        × Has w' reply.instance_id buf
        × Later w w'
  unfolding send_store
  send_store_lem w signed wait name buf e = elim (Bool-cases (wait == 0)) [
    | inl now ↦
        let A = H.adds w signed name buf e in
        (
          (Y.add_transaction w (signed ∷ [])).0,
          record { response = A.response; instance_id = Y.derive_id signed },
          rw (now, A.accepted) refl,
          A.there,
          A.kept,
        )
    | inr later ↦
        let A = H.adds_and_waits w signed wait name buf e in
        (
          (Y.add_transaction_and_wait w (signed ∷ []) wait).0,
          record { response = A.response; instance_id = Y.derive_id signed },
          rw (later, A.accepted) refl,
          A.there,
          A.kept,
        )
  ]

  abbrev Adds :
      (Y.World → Player → ℕ → Y.World × Result (TransactionReply Y)) → (Player → Bytes) → Type 0
  Adds add content =
      (w : Y.World) (p : Player) (wait : ℕ)
      → (w' : Y.World) × (reply : TransactionReply Y) × (add w p wait ≡ (w', ok reply))
        × Keeps w' reply.instance_id (content p)
        × Later w w'

  add_store_lem :
      (nonce content : Player → Bytes)
      → Adds
          (λ w p wait. add_store Y encode contract_value byzd w (nonce p) (content p) wait)
          content
  unfolding add_store store_instruction
  add_store_lem nonce content w p wait =
      let (buf, encoded) = H.encodes (content p) in
      let inst = store_instruction Y encode contract_value byzd (nonce p) buf in
      let (signed, by, args) = H.signs inst (Y.get_base_id byzd.g_darc) byzd.signer in
      let (w', reply, sent, there, kept) = send_store_lem w signed wait "store" buf args in
      (
        w',
        reply,
        rw (encoded, by) sent,
        record { buf = buf; encoded = encoded; there = there },
        kept,
      )

  -- Each transaction keeps the data of its player.
  abbrev AllKept : (Player → Bytes) → Y.World → List (TransactionReply Y) → List Player → Type 0
  AllKept content w [] [] = Unit
  AllKept content w [] (p ∷ ps) = ⊥
  AllKept content w (r ∷ rs) [] = ⊥
  AllKept content w (r ∷ rs) (p ∷ ps) = Keeps w r.instance_id (content p) × AllKept content w rs ps

  Keeps-Later : (w w' : Y.World) (id d : Bytes) → Later w w' → Keeps w id d → Keeps w' id d
  Keeps-Later w w' id d l k = record {
    buf = k.buf;
    encoded = k.encoded;
    there = l id k.buf k.there;
  }

  add_all_lem :
      (add : Y.World → Player → ℕ → Y.World × Result (TransactionReply Y))
      (content : Player → Bytes) (block_wait : ℕ) (w : Y.World) (players : List Player)
      → Adds add content
      → (w' : Y.World) × (replies : List (TransactionReply Y)) × (add_all Y encode contract_value
            byzd add block_wait w players
          ≡ (w', ok replies))
        × AllKept content w' replies players
        × Later w w'
  unfolding add_all
  add_all_lem add content block_wait w [] A = (w, [], refl, tt, λ i v h. h)
  add_all_lem add content block_wait w (p ∷ players) A =
      let (w₁, reply, e, k, l) = A w p (elim players [ [] ↦ block_wait | _ ∷ _ ↦ 0 ]) in
      let (w₂, replies, e', ks, l') = add_all_lem add content block_wait w₁ players A in
      (
        w₂,
        reply ∷ replies,
        rw (e, e') refl,
        (Keeps-Later w₁ w₂ _ _ l' k, ks),
        λ i v h. l' i v (l i v h),
      )

  abbrev AllShown : (Player → Bytes) → List Y.Proof → List Player → Type 0
  AllShown content [] [] = Unit
  AllShown content [] (p ∷ ps) = ⊥
  AllShown content (q ∷ qs) [] = ⊥
  AllShown content (q ∷ qs) (p ∷ ps) = (contract_value q ≡ ok (content p)) × AllShown content qs ps

  get_proofs_lem :
      (mismatch : Error) (content : Player → Bytes) (w : Y.World)
      (replies : List (TransactionReply Y)) (players : List Player)
      → AllKept content w replies players
      → (proofs : List Y.Proof) × (get_proofs Y encode contract_value byzd mismatch w replies
          ≡ (w, ok proofs))
        × AllShown content proofs players
  unfolding get_proofs
  get_proofs_lem mismatch content w [] [] K = ([], refl, tt)
  get_proofs_lem mismatch content w [] (p ∷ ps) K = absurd K
  get_proofs_lem mismatch content w (r ∷ rs) [] K = absurd K
  get_proofs_lem mismatch content w (r ∷ rs) (p ∷ ps) (k, K) =
      let (q, e, matches, value) = H.proves w r.instance_id k.buf (content p) k.there k.encoded in
      let (qs, e', S) = get_proofs_lem mismatch content w rs ps K in
      (q ∷ qs, rw (e, matches, e') refl, (value, S))

  read_revealed_lem :
      (w : Y.World) (commits secrets : List Y.Proof) (players : List Player)
      → AllShown (λ p. p.lottery.digest) commits players
      → AllShown (λ p. p.lottery.secret) secrets players
      → read_revealed Y encode contract_value byzd w commits secrets ≡ (w, ok (map reveal players))
  unfolding read_revealed
  read_revealed_lem w [] secrets [] C S = refl
  read_revealed_lem w [] secrets (p ∷ ps) C S = absurd C
  read_revealed_lem w (c ∷ commits) secrets [] C S = absurd C
  read_revealed_lem w (c ∷ commits) [] (p ∷ ps) C S = absurd S
  read_revealed_lem w (c ∷ commits) (s ∷ secrets) (p ∷ ps) (c_is, C) (s_is, S) =
      rw (c_is, s_is, read_revealed_lem w commits secrets ps C S) refl

  -- On a ledger that accepts and proves every transaction, a round comes to the duels with what each
  -- player committed and revealed, in the order of the players.
  pub collect_lem :
      (block_wait : ℕ) (w : Y.World) (players : List Player)
      → (w' : Y.World) × (collect Y encode contract_value byzd block_wait w players
          ≡ (w', ok (map reveal players)))
  unfolding collect add_commit_transaction add_secret_transaction
  collect_lem block_wait w players =
      let (w₁, commits, e₁, K₁, _) =
        add_all_lem _ (λ p. p.lottery.digest) block_wait w players
          (add_store_lem (λ p. p.commit_nonce) (λ p. p.lottery.digest)) in
      let (commit_proofs, e₂, S₂) =
        get_proofs_lem "Commit inclusion proof does not match" (λ p. p.lottery.digest) w₁ commits
          players K₁ in
      let (w₃, secrets, e₃, K₃, _) =
        add_all_lem _ (λ p. p.lottery.secret) block_wait w₁ players
          (add_store_lem (λ p. p.secret_nonce) (λ p. p.lottery.secret)) in
      let (secret_proofs, e₄, S₄) =
        get_proofs_lem "Secret inclusion proof does not match" (λ p. p.lottery.secret) w₃ secrets
          players K₃ in
      (w₃, rw (e₁, e₂, e₃, e₄) (read_revealed_lem w₃ commit_proofs secret_proofs players S₂ S₄))
