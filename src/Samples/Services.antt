-- ===== src/Samples/Services.antt =====
-- Services over these, and transports whose world is the one service that there is.
use calypso_experiments.Base.{ℕ, refl, [], ◌∷◌, none, ok}
use calypso_experiments.Base.Bytes.{Bytes}
use calypso_experiments.Central
use calypso_experiments.Central.Recovery.{Delivers as CentralDelivers}
use calypso_experiments.Semi
use calypso_experiments.Semi.Client.{Transport as SemiTransport}
use calypso_experiments.Semi.Holds.{Delivers as SemiDelivers}
use calypso_experiments.Store.Laws.{HasRoom}
use calypso_experiments.Samples.Suite.{suite}
use calypso_experiments.Samples.Database.{bolt, bolt-IsBolt, central_codec, semi_codec}

abbrev pub CentralService : Type 0
CentralService = Central.Service suite bolt central_codec

abbrev pub central : CentralService
central = record { db = []; private = 4 }

abbrev pub central_transport : Central.Transport suite
central_transport = record {
  World = CentralService;
  Server = Unit {0};
  send_write = λ w d req. Central.write suite bolt central_codec w req;
  send_read = λ w d req.
      (w, Central.read suite bolt central_codec w req (record { seed = tt; ephemeral = 6 }));
}

abbrev pub central_at : CentralService → Unit {0} → CentralService
central_at w d = w

pub central-Delivers : CentralDelivers suite bolt central_codec central_transport central_at
central-Delivers = record {
  write_reply = λ w d req. refl;
  write_state = λ w d req. refl;
  read_reply = λ w d req. (record { seed = tt; ephemeral = 6 }, refl);
}

-- A proof is a write transaction and the key of its instance; every proof is valid.
abbrev pub ledger : Semi.Ledger suite
ledger = record {
  Proof = Semi.SemiWrite suite × Bytes;
  SkipBlockId = ℕ;
  read_value = λ p. ok (record { write = p.1 });
  write_value = λ p. ok p.0;
  inclusion_key = λ p. p.1;
  new_instance_id = λ id. id;
  verify_proof = λ p id. none;
}

abbrev pub SemiService : Type 0
SemiService = Semi.Service suite ledger bolt semi_codec

abbrev pub semi : SemiService
semi = record { db = []; private = 4 }

abbrev pub semi_transport : SemiTransport ledger
semi_transport = record {
  World = SemiService;
  Server = Unit {0};
  send_store = λ w d req. Semi.store_data suite ledger bolt semi_codec w req;
  send_decrypt = λ w d req.
      (w, Semi.decrypt suite ledger bolt semi_codec w req (record { seed = tt; ephemeral = 6 }));
}

abbrev pub semi_at : SemiService → Unit {0} → SemiService
semi_at w d = w

pub semi-Delivers : SemiDelivers suite ledger bolt semi_codec semi_transport semi_at
semi-Delivers = record {
  store_reply = λ w d req. refl;
  store_state = λ w d req. refl;
  decrypt_reply = λ w d req. (record { seed = tt; ephemeral = 6 }, refl);
}

pub central-HasRoom :
    (db : bolt.Bucket)
    → HasRoom suite.sum256 bolt bolt-IsBolt (Central.write_schema central_codec) db
central-HasRoom db = record { room = λ h v. (((h, v) ∷ db), refl); commits = λ f db' h. rw h refl }

pub semi-HasRoom :
    (db : bolt.Bucket) → HasRoom suite.sum256 bolt bolt-IsBolt (Semi.store_schema semi_codec) db
semi-HasRoom db = record { room = λ h v. (((h, v) ∷ db), refl); commits = λ f db' h. rw h refl }
