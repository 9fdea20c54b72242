-- ===== src/Samples/Witnesses/Batches.antt =====
-- The simulation of the fully centralized service, with two writes.
use calypso_experiments.Base.{
  ℕ, ◌≡◌, ◌≢◌, refl, List, [], ◌∷◌, ◌++◌, replicate, some, ok, ok-injective, arith,
}
use mathlib.Core.Path.{subst}
use calypso_experiments.Base.Bytes.{Bytes}
use calypso_experiments.Base.Calls.Succeed.{Gives}
use calypso_experiments.Util.{
  WriteData, read_roster, get_server_key, create_write_data, aead_seal, el_gamal_encrypt,
}
use calypso_experiments.Workload.{Item}
use calypso_experiments.Central
use calypso_experiments.Central.Main.{Drawn, item_at, items_from, main}
use calypso_experiments.Central.Printed.{Made, main-texts}
use calypso_experiments.Central.Recovery.{Holds, create_write_txn-Holds}
use calypso_experiments.Central.Simulation.{Batch, create_all, byzgen_loop, decrypt_round}
use calypso_experiments.Central.Simulation.Batches.{IsWorking}
use calypso_experiments.Util.Fresh.{AllNew}
use calypso_experiments.Central.Simulation.Rounds.{contents, decrypt_round-recovers}
use calypso_experiments.Central.Simulation.Byzgen.{
  Counted, start, byzgen_loop-Counted, byzgen_loop-held,
}
use calypso_experiments.Samples.Suite.{suite, suite-IsSound, draws, draws-IsDrawn}
use calypso_experiments.Samples.Database.{bolt, bolt-IsBolt, central_codec, central_codec-IsCodec}
use calypso_experiments.Samples.Services.{
  CentralService, central, central_transport, central_at, central-Delivers, central-HasRoom,
}

abbrev item : Bytes → Item suite
item content = record { content = content; draws = draws; seed = tt }

abbrev hi : Bytes
hi = b'h' ∷ b'i' ∷ []

abbrev bye : Bytes
bye = b'b' ∷ b'y' ∷ b'e' ∷ []

abbrev batch : Batch suite
batch = record { reader_sk = 9; items = item hi ∷ item bye ∷ [] }

central-IsWorking :
    IsWorking suite bolt central_codec bolt-IsBolt central_codec-IsCodec suite-IsSound
      central_transport central_at central-Delivers tt []
central-IsWorking = record {
  has_room = central-HasRoom;
  reads_keep = λ w req. refl;
  marshals = λ req. (_, refl);
  signs = λ k m seed. (_, refl);
}

created-AllNew :
    (wds : List (WriteData suite))
    → create_all suite central_transport (tt ∷ []) (suite.mul_base 9) (suite.mul_base 4) batch.items
      ≡ ok wds
    → AllNew suite bolt [] wds
unfolding create_all create_write_data aead_seal el_gamal_encrypt
created-AllNew wds e =
    subst (AllNew suite bolt []) (ok-injective e) (refl, ((λ same. cc), tt), (refl, tt, tt))

decrypt_round-recovers_example :
    (decrypt_round suite central_transport (tt ∷ []) (suite.mul_base 4) batch central).1
    ≡ ok (contents batch.items)
decrypt_round-recovers_example =
    decrypt_round-recovers suite bolt central_codec bolt-IsBolt central_codec-IsCodec suite-IsSound
      central_transport central_at central-Delivers tt [] central-IsWorking central batch
      (draws-IsDrawn, (draws-IsDrawn, tt)) created-AllNew

-- The write data that the batch gives.
abbrev sealed : Bytes → WriteData suite
sealed content = record {
  content = content;
  data_hash = content;
  k = (5, []);
  c = (20, replicate 16 3);
  reader = (9, []);
  enc_reader = [];
  stored_key = [];
}

abbrev two : List (WriteData suite)
two = sealed (b'x' ∷ hi ++ replicate 12 7) ∷ sealed (b'x' ∷ bye ++ replicate 12 7) ∷ []

abbrev transactions : List (ℕ × Unit {0})
transactions = (0, tt) ∷ (1, tt) ∷ (0, tt) ∷ []

two-are-created :
    create_all suite central_transport (tt ∷ []) (suite.mul_base 9) (suite.mul_base 4) batch.items
    ≡ ok two
unfolding create_all create_write_data aead_seal el_gamal_encrypt
two-are-created = refl

byzgen_loop-Counted_example :
    Gives
      (byzgen_loop suite central_transport (tt ∷ []) 2 9 ((1, tt) ∷ transactions) (start two))
      central
      (λ w' p. Counted ((1, tt) ∷ transactions) (start two) p)
byzgen_loop-Counted_example =
    byzgen_loop-Counted suite bolt central_codec bolt-IsBolt central_codec-IsCodec suite-IsSound
      central_transport central_at central-Delivers tt [] 4 9 central-IsWorking 2 tt transactions
      batch.items two central refl (draws-IsDrawn, (draws-IsDrawn, tt)) two-are-created
      (created-AllNew two two-are-created) (omega arith) (omega arith)

-- The server after the first of them was written.
abbrev held : WriteData suite
held = sealed hi

abbrev used : CentralService
used = (Central.create_write_txn suite central_transport central (tt ∷ []) held).0

used-Holds : Holds suite bolt central_codec used 4 held
used-Holds =
    (create_write_txn-Holds suite bolt central_codec bolt-IsBolt central_codec-IsCodec suite-IsSound
      central_transport central_at central-Delivers central tt [] held _ (central-HasRoom []) refl
      refl refl).1

byzgen_loop-held_example :
    (byzgen_loop suite central_transport
      (tt ∷ [])
      2
      9
      ((1, tt) ∷ transactions)
      (start (held ∷ []))
      used).1
    ≢ ok (start [])
byzgen_loop-held_example =
    byzgen_loop-held suite bolt central_codec bolt-IsBolt central_codec-IsCodec suite-IsSound
      central_transport central_at central-Delivers tt [] 4 9 2 tt transactions held [] used
      used-Holds _

-- The program, with two runs.
abbrev drawn : Drawn suite
drawn = record { reader_sk = 9; draws = draws; seed = tt }

abbrev printed : List (WriteData suite)
printed =
    sealed (b'x' ∷ b'O' ∷ b'n' ∷ 1 ∷ replicate 12 7)
    ∷ sealed (b'x' ∷ b'O' ∷ b'n' ∷ 2 ∷ replicate 12 7)
    ∷ []

printed-AllNew : AllNew suite bolt [] printed
printed-AllNew = (refl, ((λ same. cc), tt), (refl, tt, tt))

printed-are-Made :
    Made suite bolt central_codec bolt-IsBolt central_codec-IsCodec suite-IsSound central_transport
      central_at central-Delivers tt [] central-IsWorking 4
      (items_from (λ n. n ∷ []) (b'O' ∷ b'n' ∷ []) 0 (drawn ∷ drawn ∷ []))
      printed
unfolding items_from item_at create_write_data aead_seal el_gamal_encrypt
printed-are-Made = (refl, (refl, tt))

server-is-read : read_roster (λ (file : Unit {0}). ok (tt ∷ [])) (ok tt) ≡ ok (some (tt ∷ []))
unfolding read_roster
server-is-read = refl

key-is-read : get_server_key suite (λ line. ok (4, [])) (ok ([] ∷ [])) ≡ ok (suite.mul_base 4)
unfolding get_server_key
key-is-read = refl

main-texts_example :
    (main suite central_transport
      (λ (file : Unit {0}). ok (tt ∷ []))
      (ok tt)
      (λ line. ok (4, []))
      (ok ([] ∷ []))
      (λ n. n ∷ [])
      (b'O' ∷ b'n' ∷ [])
      (drawn ∷ drawn ∷ [])
      central).1
    ≡ ok ((b'O' ∷ b'n' ∷ 1 ∷ []) ∷ (b'O' ∷ b'n' ∷ 2 ∷ []) ∷ [], ok tt)
unfolding items_from item_at
main-texts_example =
    main-texts suite bolt central_codec bolt-IsBolt central_codec-IsCodec suite-IsSound
      central_transport central_at central-Delivers tt [] central-IsWorking 4
      (λ (file : Unit {0}). ok (tt ∷ [])) (ok tt) (λ line. ok (4, [])) (ok ([] ∷ [])) (λ n. n ∷ [])
      (b'O' ∷ b'n' ∷ []) (drawn ∷ drawn ∷ []) printed central server-is-read key-is-read refl
      (draws-IsDrawn, (draws-IsDrawn, tt)) printed-are-Made printed-AllNew
