-- ===== src/CalypsoSimulation/Rounds.antt =====
-- The simulation on a Calypso that works.
use calypso_experiments.Base.{
  ℕ, ◌≡◌, ◌≤◌, ◌<◌, refl, sym, ap, ◌∙◌, List, [], ◌∷◌, Bool, true, false, Result, Error, ok,
  ok-injective, All, length, arith,
}
use mathlib.Core.Path.{subst, subst₂}
use calypso_experiments.Base.Bytes.{Bytes}
use calypso_experiments.Base.Calls.{each_waiting, zip}
use calypso_experiments.Base.Calls.Succeed.{
  Gives, Gives-runs, Gives-give, Gives-weaken, Gives-bind, Both, Both-zip, Both-flip,
  Both-length-zip, Both-compose, each_waiting-Gives, each-Gives,
}
use calypso_experiments.Sharing.{proof_of, get_proofs, run_schedule, spawn_all}
use calypso_experiments.Sharing.Goroutines
use calypso_experiments.Sharing.Goroutines.{Keeps}
use calypso_experiments.Sharing.Schedules.{turns_in, all_ended, run_schedule-ends}
use calypso_experiments.Sharing.Ended.{IsDone, all_ended-zip}
use calypso_experiments.Lottery.{Calypso}
use calypso_experiments.CalypsoSimulation.Serving.{IsServing, Later, same_world}
use calypso_experiments.CalypsoSimulation.{
  SetUp, open_key, sharing, add_key, write_keys, multi_client_calypso,
}

module _ (K : Calypso) (U : SetUp K) (Up : K.World → Type 0)
    (Has : K.World → Bytes → Bytes → Type 0) (Shows : K.Proof → Bytes → Type 0)
    (W : IsServing K U Up Has Shows) where
  abbrev pub IsShared : Bytes → K.Proof → K.World → Type 0
  IsShared key p w = Up w × Shows p key

  abbrev pub HasRead : K.Proof → Bytes → K.World → Type 0
  HasRead p id w =
      Up w × ((key : Bytes) × Shows p key) × ((key : Bytes) → Shows p key → Has w id key)

  abbrev pub IsOf : K.Proof → K.Proof → Type 0
  IsOf p q = (key : Bytes) → Shows p key → Shows q key

  keeps : (w w' : K.World) → Later Up Has w w' → Keeps (sharing K U false) IsShared HasRead w w'
  keeps w w' (up, later) = (
    λ key p (here, shown). (up here, shown),
    λ p id (here, shown, has). (up here, shown, λ key shows. later id key (has key shows)),
  )

  pub read-Gives :
      (compares : Bool) (key : Bytes) (p : K.Proof) (wait : ℕ) (w : K.World)
      → IsShared key p w
      → Gives
          ((sharing K U compares).add_read p wait)
          w
          (λ w' id. HasRead p id w' × Later Up Has w w')
  read-Gives compares key p wait w (up, shown) =
      let (w', id, e, has, later) = W.reads w p key wait up shown in
      Gives-runs _ id w w' e (
        (
          later.0 up,
          (key, shown),
          λ key' shown'.
              let (w'', id', e', has', later') = W.reads w p key' wait up shown' in
              let same : (w'', ok id') ≡ (w', ok id) = sym e' ∙ e in
              subst₂ (λ v i. Has v i key') (ap (λ (x : K.World × Result Bytes). x.0) same)
                (ok-injective (ap (λ (x : K.World × Result Bytes). x.1) same)) has',
        ),
        later,
      )

  pub read_proof-Gives :
      (compares : Bool) (p : K.Proof) (id : Bytes) (w : K.World)
      → HasRead p id w
      → Gives
          ((sharing K U compares).get_proof id)
          w
          (λ w' q. (K.is_match q ≡ true) × IsOf p q × Later Up Has w w')
  read_proof-Gives compares p id w (up, (key, shown), has) =
      let (q, e, match, shows) = W.proves w id key up (has key shown) in
      Gives-runs _ q w w e (
        match,
        (λ key' shown'.
            let (q', e', match', shows') = W.proves w id key' up (has key' shown') in
            let same : (w, ok q') ≡ (w, ok q) = sym e' ∙ e in
            subst (λ x. Shows x key')
              (ok-injective (ap (λ (x : K.World × Result K.Proof). x.1) same)) shows'),
        same_world Up Has w,
      )

  -- Such a Calypso is a client that works for its readers.
  pub sharing-IsWorking : Goroutines.IsWorking (sharing K U false) IsShared HasRead IsOf
  unfolding open_key
  sharing-IsWorking = record {
    reads = λ w key p wait shown.
        Gives-weaken _ w (read-Gives false key p wait w shown)
          (λ w' id (has, later). (has, keeps w w' later));
    proves = λ w p id h.
        Gives-weaken _ w (read_proof-Gives false p id w h)
          (λ w' q (match, of_it, later). (match, of_it, keeps w w' later));
    opens = λ w key p q (up, shown) of_it.
        let (dk, e, same, decoded) = W.decrypts w q p key up (of_it key shown) shown in
        Gives-runs _ key w w (rw (e, decoded) refl) (refl, keeps w w (same_world Up Has w));
  }

  -- The instance stands for the key.
  abbrev pub Wrote : Bytes → Bytes → K.World → Type 0
  Wrote key id w = Has w id key

  writes-Give :
      (wait : ℕ) (keys : List Bytes) (w : K.World)
      → Up w
      → Gives (each_waiting wait (add_key K U) keys) w (λ w' ids. Up w' × Both Wrote w' keys ids)
  unfolding add_key
  writes-Give wait keys w up =
      Gives-weaken _ w
        (each_waiting-Gives (λ rest v. Up v) Wrote wait (add_key K U)
          (λ n key rest v inv.
            let (v', id, e, has, later) = W.writes v key n inv in
            Gives-runs _ id v v' e (later.0 inv, has, λ key' id' had. later.1 id' key' had))
          keys w up)
        (λ w' ids filled. filled)

  -- The loop over the proofs changes nothing.
  abbrev Proving : K.World → List Bytes → K.World → Type 0
  Proving w₀ ids w = (w ≡ w₀) × Up w × All (λ id. (key : Bytes) × Has w₀ id key) ids

  abbrev pub Proved : K.World → Bytes → K.Proof → K.World → Type 0
  Proved w₀ id p w = (key : Bytes) → Has w₀ id key → Shows p key

  pub proof_of-Gives :
      (compares : Bool) (text : Error) (w : K.World) (id : Bytes) (key : Bytes)
      → Up w
      → Has w id key
      → Gives (proof_of (sharing K U compares) text id) w (λ w' p. (w' ≡ w) × Proved w id p w')
  unfolding proof_of
  proof_of-Gives compares text w id key up has =
      let (p, e, match, shows) = W.proves w id key up has in
      Gives-runs _ p w w (rw (e, match) refl) (
        refl,
        λ key' has'.
            let (p', e', match', shows') = W.proves w id key' up has' in
            subst (λ x. Shows x key')
              (ok-injective (ap (λ (x : K.World × Result K.Proof). x.1) (sym e' ∙ e))) shows',
      )

  proofs-Give :
      (text : Error) (ids : List Bytes) (w : K.World)
      → Up w
      → All (λ id. (key : Bytes) × Has w id key) ids
      → Gives
          (get_proofs (sharing K U false) text ids)
          w
          (λ w' proofs. Up w' × Both (Proved w) w' ids proofs)
  unfolding get_proofs
  proofs-Give text ids w up all =
      Gives-weaken _ w
        (each-Gives (Proving w) (Proved w) (proof_of (sharing K U false) text)
          (λ id rest v (same, here, ((key, has), more)).
            Gives-weaken _ v (proof_of-Gives false text v id key here (rw same has))
              (λ v' p (same', proved). (
                (same' ∙ same, rw same' here, more),
                (λ key' has'. proved key' (rw same has')),
                λ a b h. h,
              )))
          ids w (refl, up, all))
        (λ w' proofs ((same, here, done), filled). (here, filled))

  -- The loops that write: a proof of its write for each key.
  abbrev pub Shown : Bytes → K.Proof → K.World → Type 0
  Shown key p w = Up w × Shows p key

  All-Has :
      (w : K.World) (keys ids : List Bytes)
      → Both Wrote w keys ids
      → All (λ id. (key : Bytes) × Has w id key) ids
  All-Has w [] [] h = tt
  All-Has w [] (_ ∷ _) h = absurd h
  All-Has w (_ ∷ _) [] h = absurd h
  All-Has w (key ∷ keys) (id ∷ ids) (has, h) = ((key, has), All-Has w keys ids h)

  pub write_keys-Gives :
      (wait : ℕ) (keys : List Bytes) (w : K.World)
      → Up w
      → Gives (write_keys K U wait keys) w (λ w' written.
        (proofs : List K.Proof) × (written ≡ zip keys proofs) × Both Shown w' keys proofs)
  unfolding write_keys
  write_keys-Gives wait keys w up =
      Gives-bind (each_waiting wait (add_key K U) keys) _ w (writes-Give wait keys w up)
        (λ v ids (up', had).
          Gives-bind (get_proofs (sharing K U false) "Write inclusion proof does not match" ids) _ v
            (proofs-Give "Write inclusion proof does not match" ids v up' (All-Has v keys ids had))
            (λ v' proofs (up'', proved). Gives-give (zip keys proofs) v' (
              proofs,
              refl,
              Both-flip (λ (p : K.Proof) (key : Bytes) (u : K.World). Up u × Shows p key) v' proofs
                  keys
                  (Both-compose Wrote (Proved v) (λ p key u. Up u × Shows p key) v v'
                    (λ key id p has shows. (up'', shows key has)) keys ids proofs had proved),
            )))

  -- A round of `runMultiClientCalypso` on a Calypso that works, under any schedule that gives at least
  -- three turns to each goroutine, ends without an error: there is one goroutine for each key, in
  -- order, and each has ended without an error, having decoded its own key.
  pub multi_client_calypso-ends :
      (wait : ℕ) (schedule : List ℕ) (keys : List Bytes) (w : K.World)
      → Up w
      → ((i : ℕ) → i < length keys → 3 ≤ turns_in schedule i)
      → Gives
          (multi_client_calypso K U wait schedule keys)
          w
          (λ w' readers. Both (IsDone {S = sharing K U false}) w' keys readers)
  unfolding multi_client_calypso
  multi_client_calypso-ends wait schedule keys w up fair =
      Gives-bind (write_keys K U wait keys) _ w (write_keys-Gives wait keys w up)
        (λ v written (proofs, e, shown).
          let S = sharing K U false in
          let state = run_schedule S wait schedule (v, spawn_all S written) in
          let size : length written ≡ length keys =
            ap length e ∙ Both-length-zip Shown v keys proofs shown in
          let ended_all : state.1 ≡ all_ended written =
            run_schedule-ends S IsShared HasRead IsOf sharing-IsWorking wait schedule written v
              (subst (All (λ (job : Bytes × K.Proof). Up v × Shows job.1 job.0)) (sym e)
                (Both-zip Shown v keys proofs shown))
              (λ i lt. fair i (omega (arith, size, lt))) in
          Gives-runs _ state.1 v state.0 refl (
            subst (λ readers. Both (IsDone {S = sharing K U false}) state.0 keys readers)
              (ap all_ended (sym e) ∙ sym ended_all)
              (all_ended-zip S Shown v state.0 keys proofs shown)))
