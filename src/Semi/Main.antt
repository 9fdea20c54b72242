-- ===== src/Semi/Main.antt =====
-- semi_centralized/client/main.go, `main` and the set-up that `runSemiCentralized` starts with. Where the
-- program exits, the model ends with the error.
use calypso_experiments.Base.{ℕ, List, Option, Result}
use calypso_experiments.Base.Bytes.{Bytes}
use calypso_experiments.Base.Calls.{Call, ◌>>=◌, lift}
use calypso_experiments.Hex.{Text}
use calypso_experiments.Crypto.{Crypto}
use calypso_experiments.Byzcoin.{Byzcoin}
use calypso_experiments.Util.{read_roster, get_server_key}
use calypso_experiments.Workload.{Item}
use calypso_experiments.SetUp.{DarcRules}
use calypso_experiments.CalypsoSimulation.Runs.{Signers}
use calypso_experiments.Semi.{Ledger}
use calypso_experiments.Semi.Client.{Transport}
use calypso_experiments.Semi.Program.{run_semi_centralized}
use calypso_experiments.Semi.Simulation.Runs.{Cothority, Servers, set_up_both}

module _ (C : Crypto) (G : Ledger C) (T : Transport G) (Y : Byzcoin) (R : DarcRules)
    (X : Cothority G T Y R) where
  -- `runSemiCentralized`, with the text that it prints.
  unfoldable pub set_up_and_run :
      X.Roster → C.Point → ℕ → Signers R → Item C → Call (Servers C G T Y R X) Bytes
  unfolding set_up_both run_semi_centralized
  set_up_and_run roster server_key interval signers item = do
    U ← set_up_both C G T Y R X interval roster signers 0
    run_semi_centralized G T Y U server_key item

  -- `main`, with the two files; `roster_of` makes onet's roster of the servers, if there are any. An error of the run is logged.
  unfoldable pub semi_main :
      {File : Type 0}
      → (File → Result (List T.Server))
      → Result File
      → (Option (List T.Server) → X.Roster)
      → (Text → Result C.Point)
      → Result (List Text)
      → ℕ
      → Signers R
      → Item C
      → Call (Servers C G T Y R X) Bytes
  unfolding read_roster get_server_key set_up_and_run
  semi_main read_group roster_file roster_of parse key_file interval signers item = do
    servers ← lift (read_roster read_group roster_file)
    server_key ← lift (get_server_key C parse key_file)
    set_up_and_run (roster_of servers) server_key interval signers item
