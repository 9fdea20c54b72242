-- ===== src/Samples/Witnesses/Paths.antt =====
-- Writing and reading through the two services.
use calypso_experiments.Base.{refl, [], ◌∷◌}
use calypso_experiments.Base.Bytes.{Bytes}
use calypso_experiments.Central.Recovery.{Recovers as CentralRecovers, central_recovery}
use calypso_experiments.Semi
use calypso_experiments.Central
use calypso_experiments.Semi.Client.{semi_write_of}
use calypso_experiments.Semi.Recovery.{Recovers as SemiRecovers, semi_recovery}
use calypso_experiments.Samples.Suite.{suite, suite-IsSound, draws, draws-IsDrawn}
use calypso_experiments.Samples.Database.{
  bolt, bolt-IsBolt, central_codec, central_codec-IsCodec, semi_codec, semi_codec-IsCodec,
}
use calypso_experiments.Samples.Services.{
  CentralService, central, central_transport, central_at, central-Delivers, central-HasRoom, ledger,
  SemiService, semi, semi_transport, semi_at, semi-Delivers, semi-HasRoom,
}

abbrev message : Bytes
message = b'h' ∷ b'i' ∷ []

-- Another writer's request.
abbrev another : Central.WriteRequest suite
another = record {
  enc_data = 1 ∷ 2 ∷ [];
  data_hash = 1 ∷ 2 ∷ [];
  k = (1, []);
  c = (2, []);
  reader = (3, []);
  enc_reader = [];
}

abbrev after_another : CentralService → CentralService
after_another w = (Central.write suite bolt central_codec w another).0

central_recovery_example :
    CentralRecovers suite bolt central_codec bolt-IsBolt central_codec-IsCodec suite-IsSound
      central_transport central_at central-Delivers after_another central tt [] draws message 9 tt
unfolding Central.serve
central_recovery_example =
    central_recovery suite bolt central_codec bolt-IsBolt central_codec-IsCodec suite-IsSound
      central_transport central_at central-Delivers central tt [] draws message 9 tt (another ∷ [])
      after_another draws-IsDrawn (central-HasRoom []) (λ wd made. refl) (λ req. (_, refl))
      (λ m. (_, refl)) (λ v. refl)

abbrev another_store : Semi.StoreRequest
another_store = record { content = 1 ∷ 2 ∷ []; data_hash = 1 ∷ 2 ∷ [] }

abbrev after_store : SemiService → SemiService
after_store w = (Semi.store_data suite ledger bolt semi_codec w another_store).0

semi_recovery_example :
    SemiRecovers suite ledger bolt semi_codec bolt-IsBolt semi_codec-IsCodec suite-IsSound
      semi_transport semi_at semi-Delivers after_store
      (λ wd. ((semi_write_of wd, 8 ∷ []), (semi_write_of wd, 8 ∷ [])))
      1
      semi
      tt
      []
      draws
      message
      9
      tt
unfolding Semi.serve
semi_recovery_example =
    semi_recovery suite ledger bolt semi_codec bolt-IsBolt semi_codec-IsCodec suite-IsSound
      semi_transport semi_at semi-Delivers semi tt [] draws message (9 ∷ []) 9 tt
      (another_store ∷ []) after_store 1
      (λ wd. ((semi_write_of wd, 8 ∷ []), (semi_write_of wd, 8 ∷ []))) draws-IsDrawn refl
      (semi-HasRoom []) (λ wd made. refl) (λ req. (_, refl)) (λ m. (_, refl)) (λ v. refl)
      (λ wd. record { is_write = refl; is_read = refl; write_proved = refl; read_proved = refl })
