-- ===== src/Samples/Witnesses/Readers.antt =====
-- The simulation of the semi-centralized service, with two writes and a ledger that accepts and proves
-- everything.
use calypso_experiments.Base.{
  ℕ, suc, zero, ◌≡◌, ◌<◌, ◌≤◌, ◌∙◌, refl, ap, List, [], ◌∷◌, true, ok, ok-injective, arith,
}
use mathlib.Core.Path.{subst}
use calypso_experiments.Base.Bytes.{Bytes}
use calypso_experiments.Base.Calls.Succeed.{Gives, Gives-runs, Both}
use calypso_experiments.Byzcoin.{Byzcoin, Argument}
use calypso_experiments.Util.{create_write_data, aead_seal, el_gamal_encrypt}
use calypso_experiments.Util.Fresh.{AllNew}
use calypso_experiments.Workload.{Item}
use calypso_experiments.Sharing.Schedules.{turns_in}
use calypso_experiments.Semi
use calypso_experiments.Semi.Client.{
  semi_write_of, add_read_transaction, add_write_transaction, send_signed, spawn_instruction,
}
use calypso_experiments.Semi.Simulation.{SetUp, create_all, multi_client_round}
use calypso_experiments.Semi.Simulation.Readers.{IsLedger, Serves}
use calypso_experiments.Semi.Simulation.Writes.{Accepts}
use calypso_experiments.Semi.Simulation.Added.{TakesWrites}
use calypso_experiments.Semi.Simulation.Rounds.{Fresh}
use calypso_experiments.Semi.Simulation.Ends.{HasEnded, multi_client_round-ends}
use calypso_experiments.Samples.Suite.{suite, suite-IsSound, draws, draws-IsDrawn}
use calypso_experiments.Samples.Encoding.{encode_semi, decode_semi, decode_semi-encode_semi}
use calypso_experiments.Samples.Database.{bolt, bolt-IsBolt, semi_codec, semi_codec-IsCodec}
use calypso_experiments.Samples.Services.{
  semi, semi_transport, semi_at, semi-Delivers, semi-HasRoom, ledger,
}

abbrev first_value : List Argument → Bytes
first_value [] = []
first_value (arg ∷ args) = arg.value

-- The instance of a transaction is the value of its argument, and a proof of an instance shows what the
-- instance encodes.
abbrev pub byzcoin : Byzcoin
byzcoin = record {
  Signer = Unit {0};
  Darc = Unit {0};
  World = Unit {0};
  Proof = Semi.SemiWrite suite × Bytes;
  AddTxResponse = Unit {0};
  contract_darc_id = "darc";
  contract_semi_write_id = "semiWrite";
  contract_read_id = "calypsoRead";
  get_base_id = λ d. [];
  get_id = λ d. [];
  to_proto = λ d. ok [];
  new_instance_id = λ id. id;
  sign_by = λ inst id signer. ok inst;
  derive_id = λ inst. first_value inst.args;
  add_transaction = λ w insts. (w, ok tt);
  add_transaction_and_wait = λ w insts wait. (w, ok tt);
  get_proof = λ w id. (w, ok (decode_semi id, id));
  is_match = λ p. true;
  inclusion_key = λ p. p.1;
}

abbrev pub set_up : SetUp ledger semi_transport byzcoin
set_up = record {
  roster = tt ∷ [];
  sc_id = 1;
  writer = tt;
  reader = tt;
  darc = tt;
  reader_sk = 9;
  zero_nonce = [];
  encode_write = λ w. ok (encode_semi w);
  encode_read = λ r signer. ok r.write;
  as_proof = λ p. p;
}

abbrev pub Asked : Unit {0} → Semi.SemiWrite suite × Bytes → Bytes → Type 0
Asked y p id = id ≡ p.1

pub byzcoin-IsLedger : IsLedger byzcoin set_up Asked
unfolding add_read_transaction send_signed spawn_instruction
byzcoin-IsLedger = record {
  reads = λ y p wait.
      Gives-runs _ (record { response = tt; instance_id = p.1 }) y y refl (refl, λ p' id h. h);
  proves = λ y p id asked.
      Gives-runs _ (decode_semi id, id) y y refl
        (refl, ap (λ (b : Bytes). ok (record { write = b })) asked, refl, λ p' id' h. h);
}

-- An instance is a write if it is the encoding of it.
abbrev pub Wrote : Unit {0} → Semi.SemiWrite suite → Bytes → Type 0
Wrote y s id = id ≡ encode_semi s

pub byzcoin-TakesWrites : TakesWrites byzcoin set_up Wrote
unfolding add_write_transaction send_signed spawn_instruction
byzcoin-TakesWrites = record {
  writes = λ y wd wait.
      Gives-runs _ (record { response = tt; instance_id = encode_semi (semi_write_of wd) }) y y refl
        (refl, λ s id h. h);
  proves = λ y s id wrote.
      Gives-runs _ (decode_semi id, id) y y refl
        (
          refl,
          ap (λ (b : Bytes). ok (decode_semi b)) wrote ∙ ap ok (decode_semi-encode_semi s),
          refl,
          λ s' id' h. h,
        );
}

pub semi-Accepts :
    Accepts suite ledger bolt semi_codec bolt-IsBolt semi_codec-IsCodec suite-IsSound semi_transport
      semi_at semi-Delivers tt [] byzcoin set_up 4
      (9 ∷ [])
semi-Accepts = record { roster_is = refl; has_room = semi-HasRoom; marshals = λ req. (_, refl) }

pub semi-Serves :
    Serves suite ledger bolt semi_codec bolt-IsBolt semi_codec-IsCodec suite-IsSound semi_transport
      semi_at semi-Delivers tt [] byzcoin set_up 4
semi-Serves = record {
  roster_is = refl;
  decrypts_keep = λ t req. refl;
  signs = λ m seed. (_, refl);
}

abbrev pub item : Bytes → Item suite
item content = record { content = content; draws = draws; seed = tt }

abbrev items : List (Item suite)
items = item (b'h' ∷ b'i' ∷ []) ∷ item (b'b' ∷ b'y' ∷ b'e' ∷ []) ∷ []

created-AllNew :
    Fresh suite ledger bolt semi_codec bolt-IsBolt semi_codec-IsCodec suite-IsSound semi_transport
      semi_at semi-Delivers tt [] byzcoin set_up 4
      (9 ∷ [])
      (semi, tt)
      items
unfolding create_all create_write_data aead_seal el_gamal_encrypt
created-AllNew wds e =
    subst (AllNew suite bolt []) (ok-injective e) (refl, ((λ same. cc), tt), (refl, tt, tt))

-- The second of two goroutines starts before the first one ends.
abbrev schedule : List ℕ
schedule = 0 ∷ 1 ∷ 0 ∷ 1 ∷ 1 ∷ 0 ∷ []

schedule-is_fair : (i : ℕ) → i < 2 → 3 ≤ turns_in schedule i
schedule-is_fair zero h = omega arith
schedule-is_fair (suc zero) h = omega arith
schedule-is_fair (suc (suc i)) h = absurd (omega arith)

multi_client_round-ends_example :
    Gives
      (multi_client_round suite ledger semi_transport byzcoin set_up 3 schedule
        (suite.mul_base 4)
        items)
      (semi, tt)
      (λ w' readers.
        Both
          (HasEnded suite ledger bolt semi_codec bolt-IsBolt semi_codec-IsCodec suite-IsSound
            semi_transport semi_at semi-Delivers tt [] byzcoin set_up 4
            (9 ∷ [])
            Wrote
            byzcoin-TakesWrites
            semi-Accepts
            refl
            Asked
            byzcoin-IsLedger
            semi-Serves)
          w'
          items
          readers)
multi_client_round-ends_example =
    multi_client_round-ends suite ledger bolt semi_codec bolt-IsBolt semi_codec-IsCodec
      suite-IsSound semi_transport semi_at semi-Delivers tt [] byzcoin set_up 4 (9 ∷ []) Wrote
      byzcoin-TakesWrites semi-Accepts refl Asked byzcoin-IsLedger semi-Serves 3 schedule items
      (semi, tt) (draws-IsDrawn, (draws-IsDrawn, tt)) refl created-AllNew schedule-is_fair
