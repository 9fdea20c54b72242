-- ===== src/CalypsoSimulation/Fixed.antt =====
-- The writes that `runByzgenSimulation` starts with, on a Calypso that works.
use calypso_experiments.Base.{
  ◌≡◌, refl, sym, ◌∙◌, List, [], ◌∷◌, true, Option, none, some, ok, panic,
}
use mathlib.Core.Option.{some-injective}
use calypso_experiments.Base.Bytes.{Bytes}
use calypso_experiments.Base.Calls.{◌>>=◌, lift, each, each_waiting, zip}
use calypso_experiments.Base.Calls.Succeed.{
  Gives, Gives-runs, Gives-give, Gives-known, Gives-weaken, Gives-bind, Both, Both-flip,
  Both-compose, each_waiting-Gives, each-Gives,
}
use calypso_experiments.Sharing.{proof_of}
use calypso_experiments.Lottery.{Calypso}
use calypso_experiments.CalypsoSimulation.Serving.{IsServing}
use calypso_experiments.CalypsoSimulation.{SetUp, sharing, add_key, add_unchecked, write_fixed}
use calypso_experiments.CalypsoSimulation.Rounds.{Shown, proof_of-Gives}

module _ (K : Calypso) (U : SetUp K) (Up : K.World → Type 0)
    (Has : K.World → Bytes → Bytes → Type 0) (Shows : K.Proof → Bytes → Type 0)
    (W : IsServing K U Up Has Shows) where
  -- The reply is the instance for the key.
  abbrev Replied : Bytes → Option Bytes → K.World → Type 0
  Replied key reply w = (id : Bytes) × (reply ≡ some id) × Has w id key

  fixed_writes-Give :
      (keys : List Bytes) (w : K.World)
      → Up w
      → Gives
          (each_waiting 3 (add_unchecked K U) keys)
          w
          (λ w' replies. Up w' × Both Replied w' keys replies)
  unfolding add_unchecked add_key
  fixed_writes-Give keys w up =
      Gives-weaken _ w
        (each_waiting-Gives (λ rest v. Up v) Replied 3 (add_unchecked K U)
          (λ n key rest v inv.
            let (v', id, e, has, later) = W.writes v key n inv in
            Gives-runs _ (some id) v v' (rw e refl) (
              later.0 inv,
              (id, refl, has),
              λ key' reply (id', e', had). (id', e', later.1 id' key' had),
            ))
          keys w up)
        (λ w' replies filled. filled)

  -- The loop over the proofs changes nothing.
  abbrev AreReplies : K.World → List (Option Bytes) → Type 0
  AreReplies w [] = Unit
  AreReplies w (reply ∷ replies) = ((key : Bytes) × Replied key reply w) × AreReplies w replies

  AreReplies-Both :
      (w : K.World) (keys : List Bytes) (replies : List (Option Bytes))
      → Both Replied w keys replies
      → AreReplies w replies
  AreReplies-Both w [] [] h = tt
  AreReplies-Both w [] (_ ∷ _) h = absurd h
  AreReplies-Both w (_ ∷ _) [] h = absurd h
  AreReplies-Both w (key ∷ keys) (reply ∷ replies) (r, h) =
      ((key, r), AreReplies-Both w keys replies h)

  abbrev Proving : K.World → List (Option Bytes) → K.World → Type 0
  Proving w₀ replies w = (w ≡ w₀) × Up w × AreReplies w₀ replies

  abbrev ProvedReply : K.World → Option Bytes → K.Proof → K.World → Type 0
  ProvedReply w₀ reply p w = (id key : Bytes) → reply ≡ some id → Has w₀ id key → Shows p key

  reply_proof-Gives :
      (w : K.World) (reply : Option Bytes) (key : Bytes)
      → Up w
      → Replied key reply w
      → Gives
          (lift (elim reply [ none ↦ panic | some id ↦ ok id ])
            >>= proof_of (sharing K U true) "Write inclusion proof does not match")
          w
          (λ w' p. (w' ≡ w) × ProvedReply w reply p w')
  reply_proof-Gives w reply key up (id, e, has) =
      Gives-known _ id (proof_of (sharing K U true) "Write inclusion proof does not match") w
        (rw e refl)
        (Gives-weaken _ w
          (proof_of-Gives K U Up Has Shows W true "Write inclusion proof does not match" w id key up
            has)
          (λ v p (same, shows).
            (same, λ id' key' e' had. shows key' (rw (some-injective _ _ (sym e ∙ e')) had))))

  fixed_proofs-Give :
      (replies : List (Option Bytes)) (w : K.World)
      → Up w
      → AreReplies w replies
      → Gives
          (each
            (λ (reply : Option Bytes).
              lift (elim reply [ none ↦ panic | some id ↦ ok id ])
              >>= proof_of (sharing K U true) "Write inclusion proof does not match")
            replies)
          w
          (λ w' proofs. Up w' × Both (ProvedReply w) w' replies proofs)
  fixed_proofs-Give replies w up all =
      Gives-weaken _ w
        (each-Gives (Proving w) (ProvedReply w) _
          (λ reply rest v (same, here, ((key, r), more)).
            Gives-weaken _ v (reply_proof-Gives v reply key here (rw same r))
              (λ v' p (same', proved). (
                (same' ∙ same, rw same' here, more),
                (λ id' key' e had. proved id' key' e (rw same had)),
                λ a b h. h,
              )))
          replies w (refl, up, all))
        (λ w' proofs ((same, here, done), filled). (here, filled))

  pub write_fixed-Gives :
      (keys : List Bytes) (w : K.World)
      → Up w
      → Gives (write_fixed K U keys) w (λ w' written.
        Up w'
        × (proofs : List K.Proof) × (written ≡ zip keys proofs)
        × Both (Shown K U Up Has Shows W) w' keys proofs)
  unfolding write_fixed
  write_fixed-Gives keys w up =
      Gives-bind (each_waiting 3 (add_unchecked K U) keys) _ w (fixed_writes-Give keys w up)
        (λ v replies (up', replied).
          Gives-bind _ _ v
            (fixed_proofs-Give replies v up' (AreReplies-Both v keys replies replied))
            (λ v' proofs (up'', proved). Gives-give (zip keys proofs) v' (
              up'',
              proofs,
              refl,
              Both-flip (λ (p : K.Proof) (key : Bytes) (u : K.World). Up u × Shows p key) v' proofs
                  keys
                  (Both-compose Replied (ProvedReply v) (λ p key u. Up u × Shows p key) v v'
                    (λ key reply p (id, e, has) shows. (up'', shows id key e has)) keys replies
                    proofs replied proved),
            )))
