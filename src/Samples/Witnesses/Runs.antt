-- ===== src/Samples/Witnesses/Runs.antt =====
-- Whole runs of the simulation of Calypso, on servers that set everything up.
use calypso_experiments.Base.{
  ℕ, suc, zero, ◌≡◌, ◌<◌, ◌++◌, ◌&&◌, ◌==◌, ltb, Bool, true, false, if◌then◌else◌, Result, err,
  String, List, [], ◌∷◌, ok, replicate,
}
use Prim.Native.String.{[] as no_letters, ◌∷◌ as ◌letter◌}
use calypso_experiments.Base.Bytes.{Bytes, eq_bytes}
use calypso_experiments.SetUp.{DarcRules}
use calypso_experiments.Lottery.{Calypso}
use calypso_experiments.CalypsoSimulation.{SetUp}
use calypso_experiments.CalypsoSimulation.Runs.{Config, Cothority, Signers}

-- A name with as many letters as the number of the signer, and back.
abbrev name_of : ℕ → String
name_of zero = ""
name_of (suc n) = "x" letter name_of n

abbrev number_of : String → ℕ
number_of no_letters = 0
number_of (c letter s) = suc (number_of s)

-- The rules are those who may write and read, in the order in which they were added.
abbrev rules : DarcRules
rules = record {
  Signer = ℕ;
  Rules = List ℕ;
  Expr = ℕ;
  identity = name_of;
  init_rules = λ owners signers. [];
  add_rule = λ rules action expr. ok (rules ++ expr ∷ []);
  or_expr = number_of;
}

abbrev writer_of : List ℕ → ℕ
writer_of [] = 0
writer_of (n ∷ rest) = n

abbrev reader_of : List ℕ → ℕ
reader_of [] = 0
reader_of (n ∷ rest) = writer_of rest

abbrev allowed : {A : Type 0} → Bool → A → Result A
allowed test a = if test then ok a else err "not allowed"

-- The LTS, the reader and the secret of a read that is decrypted.
abbrev decoded : ℕ → Bytes → ℕ → Result Bytes
decoded lts [] reader = err "no key"
decoded lts (l ∷ []) reader = err "no key"
decoded lts (l ∷ (r ∷ s)) reader = allowed ((l == lts) && (r == reader)) s

-- The world counts the LTS that were made. An instance names its LTS and the reader that its darc lets
-- read, before the secret; only the writer and the reader of the darc may write and read, and only that
-- reader decodes.
abbrev calypso : Calypso
calypso = record {
  World = ℕ;
  Lts = ℕ;
  Signer = ℕ;
  Darc = List ℕ;
  Write = ℕ × Bytes;
  Proof = Bytes;
  DecryptKeyReply = Bytes;
  new_write = λ lts darc s. (lts, lts ∷ reader_of darc ∷ s);
  add_write = λ w t writer darc wait. (w, allowed (ltb t.0 w && (writer_of darc == writer)) t.1);
  get_proof = λ w id. (w, ok id);
  is_match = λ p. true;
  add_read = λ w p reader darc wait. (w, allowed (reader_of darc == reader) p);
  add_read_batch = λ w batch reader wait. (w, ok []);
  decrypt_key = λ w r v. (w, allowed (eq_bytes r v) r);
  decrypt_key_batch = λ w pairs. (w, ok []);
  same_point = λ dk lts. elim dk [ [] ↦ false | l ∷ rest ↦ l == lts ];
  decode_key = decoded;
}

abbrev cothority : Cothority calypso rules
cothority = record {
  Roster = Unit {0};
  Message = Unit {0};
  Client = Unit {0};
  Darc = Unit {0};
  second = 1000;
  write_id = "calypsoWrite";
  read_id = "calypsoRead";
  default_genesis_msg = λ roster rules admin. ok tt;
  set_interval = λ msg interval. msg;
  genesis_darc = λ msg. tt;
  new_ledger = λ w msg. (w, ok tt);
  create_lts = λ client w. (suc w, ok w);
  spawn_darc = λ client admin genesis darc wait w. (w, ok tt);
  new_darc = λ rules. rules;
  as_signer = λ signer. signer;
}

abbrev Started : ℕ → Unit {0} → ℕ → Unit {0} → Type 0
Started w client admin genesis = Unit

abbrev Made : ℕ → Unit {0} → ℕ → Type 0
Made w client lts = lts < w

abbrev Up : SetUp calypso → ℕ → Type 0
Up U w = (U.lts < w) × (writer_of U.darc ≡ U.writer) × (reader_of U.darc ≡ U.reader)

abbrev Has : SetUp calypso → ℕ → Bytes → Bytes → Type 0
Has U w id s = id ≡ U.lts ∷ U.reader ∷ s

abbrev Shows : SetUp calypso → Bytes → Bytes → Type 0
Shows U p s = p ≡ U.lts ∷ U.reader ∷ s

abbrev config : Config
config = record {
  rounds = 2;
  num_transactions = 3;
  num_write_transactions = 2;
  num_read_transactions = 1;
  num_blocks = 2;
  block_interval = 5;
  block_wait = 3;
}

abbrev signers : Signers rules
signers = record { admin = 1; writer = 2; reader = 3 }

-- The signers of another round.
abbrev others : Signers rules
others = record { admin = 1; writer = 4; reader = 5 }

-- Two rounds with other signers, in each of which the second goroutine starts before the first one
-- ends.
abbrev keys : List Bytes
keys = replicate 16 1 ∷ replicate 16 2 ∷ []

abbrev schedule : List ℕ
schedule = 0 ∷ 1 ∷ 0 ∷ 1 ∷ 1 ∷ 0 ∷ []
