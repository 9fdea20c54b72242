-- ===== src/Samples/Witnesses/Ledgers.antt =====
-- The lotteries on a ledger: a byzcoin and a Calypso on which everything is accepted at once.
use calypso_experiments.Base.{
  ℕ, zero, suc, ◌+◌, ◌<◌, ◌≡◌, ◌≢◌, ◌⊎◌, refl, ap, All, List, [], ◌∷◌, true, none, some, Result, ok,
  Error, String, map, replicate, length, length-replicate, arith,
}
use calypso_experiments.Base.Bytes.{Bytes, IsBytes}
use calypso_experiments.Byzcoin.{Byzcoin, Instruction, Argument}
use calypso_experiments.Contracts
use calypso_experiments.Tournament.Ledger.{Player, ByzcoinData, collect, contract_lottery_store_id}
use calypso_experiments.Tournament.Honest.{IsHonest, reveal, collect_lem}
use calypso_experiments.Tournament.Contract.{
  contract_lottery_store, refuse, StoresOrRefuses, contract_lottery_store_lem,
}
use calypso_experiments.Lottery.{Calypso, Participant, last_digit}
use calypso_experiments.Tournament.{run_simulation}
use calypso_experiments.Tournament.Rounds.{players_from}
use calypso_experiments.Tournament.Run.{knock_outs}
use calypso_experiments.Tournament.Fair.{Draws32, revealed_by, collected, run_simulation-collect}
use calypso_experiments.Samples.Suite.{suite}
use calypso_experiments.Lottery as L
use calypso_experiments.Lottery.Winner.{swap, last_digit-IsReordered}
use calypso_experiments.Lottery.Working.{IsWorking}

-- The value of the first argument names the instance.
abbrev first_value : List Argument → Bytes
first_value [] = []
first_value (a ∷ args) = a.value

abbrev chain : Byzcoin
chain = record {
  Signer = Unit {0};
  Darc = Unit {0};
  World = ℕ;
  Proof = Bytes;
  AddTxResponse = Unit {0};
  contract_darc_id = "darc";
  contract_semi_write_id = "semiWrite";
  contract_read_id = "read";
  get_base_id = λ d. 1 ∷ [];
  get_id = λ d. 1 ∷ [];
  to_proto = λ d. ok [];
  new_instance_id = λ id. id;
  sign_by = λ inst id signer. ok inst;
  derive_id = λ inst. first_value inst.args;
  add_transaction = λ w txn. (w + 1, ok tt);
  add_transaction_and_wait = λ w txn wait. (w + 1, ok tt);
  get_proof = λ w id. (w, ok id);
  is_match = λ p. true;
  inclusion_key = λ p. p;
}

abbrev pub Names : ℕ → Bytes → Bytes → Type 0
Names w id buf = id ≡ buf

same_value :
    (inst : Instruction) (name : String) (buf : Bytes)
    → inst.args ≡ record { name = name; value = buf } ∷ []
    → first_value inst.args ≡ buf
same_value inst name buf e = rw e refl

abbrev encoded : Bytes → Result Bytes
encoded d = ok d

abbrev shown : Bytes → Result Bytes
shown p = ok p

chain-IsHonest : IsHonest chain encoded shown Names
chain-IsHonest = record {
  encodes = λ d. (d, refl);
  signs = λ inst id signer. (inst, refl, refl);
  adds = λ w signed name buf e. record {
    response = tt;
    accepted = refl;
    there = same_value signed name buf e;
    kept = λ i v h. h;
  };
  adds_and_waits = λ w signed wait name buf e. record {
    response = tt;
    accepted = refl;
    there = same_value signed name buf e;
    kept = λ i v h. h;
  };
  proves = λ w id buf d h e. (id, refl, refl, by_name id buf d h e);
}
  where
    by_name : (id buf d : Bytes) → id ≡ buf → ok d ≡ ok buf → ok id ≡ ok d
    by_name id buf d h e = cc

abbrev byzd : ByzcoinData chain
byzd = record { signer = tt; g_darc = tt }

abbrev player : ℕ → Player
player n = record {
  lottery = record { secret = replicate 32 n; digest = n ∷ [] };
  commit_nonce = 1 ∷ [];
  secret_nonce = 2 ∷ [];
}

collect_lem_example :
    (w' : ℕ) × (collect chain encoded shown byzd 5 0 (player 7 ∷ player 8 ∷ [])
      ≡ (w', ok (map reveal (player 7 ∷ player 8 ∷ []))))
collect_lem_example =
    collect_lem chain encoded shown byzd Names chain-IsHonest 5 0 (player 7 ∷ player 8 ∷ [])

abbrev schedule : ℕ → ℕ → List Player
schedule k m = replicate m (player 7)

length-schedule : (k m : ℕ) → length (schedule k m) ≡ m
length-schedule k m = length-replicate m (player 7)

schedule-Draws32 : (k m : ℕ) → All Draws32 (schedule k m)
schedule-Draws32 k zero = tt
schedule-Draws32 k (suc m) = (refl, schedule-Draws32 k m)

run_simulation-collect_example :
    (w : ℕ) × (run_simulation suite.sum256
        (collected chain encoded shown byzd Names chain-IsHonest 5 (λ k. k) schedule)
        (λ n. 2)
        3
      ≡ ok (some w))
    × (knock_outs suite.sum256 (revealed_by schedule 2 3) (players_from 0 3) ≡ w ∷ [])
    × (w < 3)
run_simulation-collect_example =
    run_simulation-collect chain encoded shown byzd Names chain-IsHonest 5 suite.sum256 (λ k. k)
      schedule (λ n. 2) 3 (omega arith) (omega arith) length-schedule schedule-Draws32

abbrev state : Contracts.Collection
state = record {
  View = Unit {0};
  Coin = ℕ;
  verify_darc_signature = λ inst cdb. none;
  get_values = λ cdb id. ok ([], "darc", 7 ∷ []);
}

abbrev instruction : Contracts.Instruction
instruction = record {
  instance_id = 1 ∷ [];
  kind =
      Contracts.Kind.spawn contract_lottery_store_id
        (record { name = "store"; value = 4 ∷ [] } ∷ []);
  derived = 2 ∷ [];
}

abbrev searched : List Argument → String → Bytes
searched args name = first_value args

contract_lottery_store_lem_example :
    (o : Contracts.Outcome state) × (contract_lottery_store state searched tt instruction (5 ∷ [])
      ≡ some o)
    × (((e : Error) × (o ≡ refuse state searched e))
        ⊎ ((v : Bytes) × (id : String) × (darc_id : Bytes) × (state.verify_darc_signature
                instruction tt
              ≡ none)
            × (state.get_values tt instruction.instance_id ≡ ok (v, id, darc_id))
            × StoresOrRefuses state searched instruction (5 ∷ []) darc_id instruction.kind o))
contract_lottery_store_lem_example =
    contract_lottery_store_lem state searched tt instruction (5 ∷ []) known
  where
    known : state.get_values tt instruction.instance_id ≢ Result.panic
    known h = absurd (cc)

-- An instance and a proof are the secret itself.
abbrev pub calypso : Calypso
calypso = record {
  World = ℕ;
  Lts = Unit {0};
  Signer = Unit {0};
  Darc = Unit {0};
  Write = Bytes;
  Proof = Bytes;
  DecryptKeyReply = Bytes;
  new_write = λ lts darc s. s;
  add_write = λ w t writer darc wait. (w + 1, ok t);
  get_proof = λ w id. (w, ok id);
  is_match = λ p. true;
  add_read = λ w p reader darc wait. (w + 1, ok p);
  add_read_batch = λ w batch reader wait. (w + 1, ok []);
  decrypt_key = λ w r v. (w, ok r);
  decrypt_key_batch = λ w pairs. (w, ok []);
  same_point = λ dk lts. true;
  decode_key = λ lts dk reader. ok dk;
}

abbrev pub Is : Bytes → Bytes → Type 0
Is p s = p ≡ s

pub calypso-IsWorking : IsWorking calypso tt tt Names Is
calypso-IsWorking = record {
  writes = λ w s writer darc wait. (w + 1, s, refl, refl, λ i x h. h);
  proves = λ w id s h. (id, refl, refl, h);
  reads = λ w p s darc wait h. (w + 1, p, refl, h, λ i x k. k);
  decrypts = λ w r v s hr hv. (r, refl, refl, ap ok hr);
}

abbrev participant : ℕ → Participant calypso
participant n = record { writer = tt; darc = tt; secret = replicate 32 n }

pub small : (n : ℕ) → n < 256 → IsBytes (replicate 32 n)
small n h = repeated 32
  where
    repeated : (k : ℕ) → IsBytes (replicate k n)
    repeated zero = tt
    repeated (suc k) = (h, repeated k)

abbrev pub two : List (Participant calypso)
two = participant 7 ∷ participant 12 ∷ []

last_digit-IsReordered_example :
    last_digit (replicate 32 7 ∷ replicate 32 12 ∷ [])
    ≡ last_digit (replicate 32 12 ∷ replicate 32 7 ∷ [])
last_digit-IsReordered_example =
    last_digit-IsReordered (replicate 32 7 ∷ replicate 32 12 ∷ [])
      (replicate 32 12 ∷ replicate 32 7 ∷ []) (swap (replicate 32 7) (replicate 32 12) [])
      (refl, (refl, tt))
