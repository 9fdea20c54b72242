-- ===== src/Samples/Witnesses/Clients.antt =====
-- Readers that run at the same time, against the Calypso that accepts everything.
use calypso_experiments.Base.{
  ok, err, Result, Option, none, ap, true, ◌-◌, ◌+◌, some, ℕ, suc, zero, ◌≡◌, ◌↔◌, ◌<◌, ◌≤◌, refl,
  List, [], ◌∷◌, false, replicate, arith,
}
use calypso_experiments.Base.Bytes.{Bytes}
use calypso_experiments.Base.Calls.Succeed.{Gives, Gives-runs}
use calypso_experiments.Sharing.{run_schedule, spawn_all, ended}
use calypso_experiments.Sharing.Alone.{Reads, turns-eq-ok}
use calypso_experiments.Sharing.Schedules.{turns_in, all_ended, run_schedule-ends}
use calypso_experiments.CalypsoSimulation.{SetUp, sharing}
use calypso_experiments.CalypsoSimulation.Serving.{IsServing}
use calypso_experiments.CalypsoSimulation.Rounds.{sharing-IsWorking}
use calypso_experiments.Samples.Witnesses.Ledgers.{calypso, Names, Is}
use calypso_experiments.Lottery.{Calypso, Participant}
use calypso_experiments.Lottery.Multiple.{poll_proof}
use calypso_experiments.Lottery.Multiple.Polling.{IsSettling, poll_proof-ends}

abbrev set_up : SetUp calypso
set_up = record { lts = tt; writer = tt; reader = tt; darc = tt }

-- The second of two goroutines starts before the first one ends.
abbrev schedule : List ℕ
schedule = 0 ∷ 1 ∷ 0 ∷ 1 ∷ 1 ∷ 0 ∷ []

abbrev keys : List Bytes
keys = replicate 16 1 ∷ replicate 16 2 ∷ []

schedule-is_fair : (i : ℕ) → i < 2 → 3 ≤ turns_in schedule i
schedule-is_fair zero h = omega arith
schedule-is_fair (suc zero) h = omega arith
schedule-is_fair (suc (suc i)) h = absurd (omega arith)

turns-eq-ok_example :
    (run_schedule
        (sharing calypso set_up false)
        3
        (0 ∷ 0 ∷ 0 ∷ [])
        (0, spawn_all (sharing calypso set_up false) ((replicate 16 1, replicate 16 1) ∷ []))
      ≡ (
        1,
        record { item = replicate 16 1; wr_proof = replicate 16 1; stage = ended (ok tt) } ∷ [],
      ))
    ↔ Reads (sharing calypso set_up false) 3 (replicate 16 1) (replicate 16 1) 0 1
turns-eq-ok_example =
    turns-eq-ok (sharing calypso set_up false) 3 (replicate 16 1) (replicate 16 1) 0 1

abbrev Running : ℕ → Type 0
Running w = Unit

set_up-IsServing : IsServing calypso set_up Running Names Is
set_up-IsServing = record {
  writes = λ w s wait up. (w + 1, s, refl, refl, ((λ u. u), λ i x h. h));
  proves = λ w id s up h. (id, refl, refl, h);
  reads = λ w p s wait up h. (w + 1, p, refl, h, ((λ u. u), λ i x k. k));
  decrypts = λ w r v s up r_is v_is. (r, refl, refl, ap (λ (b : Bytes). ok b) r_is);
}

run_schedule-ends_example :
    (run_schedule (sharing calypso set_up false) 3 schedule (
      0,
      spawn_all
          (sharing calypso set_up false)
          ((replicate 16 1, replicate 16 1) ∷ (replicate 16 2, replicate 16 2) ∷ []),
    )).1
    ≡ all_ended ((replicate 16 1, replicate 16 1) ∷ (replicate 16 2, replicate 16 2) ∷ [])
run_schedule-ends_example =
    run_schedule-ends (sharing calypso set_up false) _ _ _
      (sharing-IsWorking calypso set_up Running Names Is set_up-IsServing) 3 schedule
      ((replicate 16 1, replicate 16 1) ∷ (replicate 16 2, replicate 16 2) ∷ []) 0
      ((tt, refl), ((tt, refl), tt)) schedule-is_fair

-- The proof of an instance that a ledger shows which makes one wait for `w` calls.
abbrev proof_in : ℕ → Bytes → Option Bytes
proof_in zero id = some id
proof_in (suc w) id = none

abbrev result_of : Option Bytes → Result Bytes
result_of none = err "no proof"
result_of (some b) = ok b

-- A ledger whose world counts down the calls that get no matching proof: two after each transaction. An
-- instance is the secret itself.
abbrev slow : Calypso
slow = record {
  World = ℕ;
  Lts = Unit {0};
  Signer = Unit {0};
  Darc = Unit {0};
  Write = Bytes;
  Proof = Option Bytes;
  DecryptKeyReply = Bytes;
  new_write = λ lts darc s. s;
  add_write = λ w t writer darc wait. (2, ok t);
  get_proof = λ w id. (w - 1, ok (proof_in w id));
  is_match = λ p. elim p [ none ↦ false | some id ↦ true ];
  add_read = λ w p reader darc wait. (2, result_of p);
  add_read_batch = λ w batch reader wait. (w, ok []);
  decrypt_key = λ w r v. (w, result_of r);
  decrypt_key_batch = λ w pairs. (w, ok []);
  same_point = λ dk lts. true;
  decode_key = λ lts dk reader. ok dk;
}

abbrev Awaits : ℕ → Bytes → ℕ → Type 0
Awaits w id n = w ≡ n

slow-IsSettling : IsSettling slow Awaits
slow-IsSettling = record {
  settles = λ w id e. Gives-runs _ (some id) w (w - 1) (rw e refl) refl;
  waits = λ w id n e. Gives-runs _ none w (w - 1) (rw e refl) (refl, omega (arith, e));
}

poll_proof-ends_example : Gives (poll_proof slow 5 (1 ∷ [])) 2 (λ w' found.
    (p : Option Bytes) × (found ≡ some p)
    × (slow.is_match p ≡ true)
    × (poll_proof slow 3 (1 ∷ []) 2 ≡ (w', ok found)))
poll_proof-ends_example =
    poll_proof-ends slow Awaits slow-IsSettling 5 2 (1 ∷ []) 2 (omega arith) refl

abbrev Stands : ℕ → Bytes → Bytes → Type 0
Stands w id s = id ≡ s

abbrev Proves : Option Bytes → Bytes → Type 0
Proves p s = p ≡ some s

abbrev drawing : ℕ → Participant slow
drawing n = record { writer = tt; darc = tt; secret = replicate 32 n }
