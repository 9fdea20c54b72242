-- ===== src/Central/Program.antt =====
-- fully_centralized/client/main.go: the program that writes a text and reads it back. Where it exits, the
-- model ends with the error.
use calypso_experiments.Base.{List, false}
use calypso_experiments.Base.Bytes.{Bytes}
use calypso_experiments.Base.Calls.{Call, ◌>>=◌, lift}
use calypso_experiments.Crypto.{Crypto}
use calypso_experiments.Util.{create_write_data, recover_data}
use calypso_experiments.Workload.{Item}
use calypso_experiments.Central.{Transport}
use calypso_experiments.Central.Simulation.{write_txn, read_txn}

module _ (C : Crypto) (T : Transport C) (roster : List T.Server) where
  -- The text that is printed at the end; the line before it, with the key of the write, is left out.
  unfoldable pub run_fully_centralized_calypso : C.Scalar → C.Point → Item C → Call T.World Bytes
  unfolding write_txn read_txn
  run_fully_centralized_calypso reader_sk server_key item = do
    wd ← lift (create_write_data C item.draws item.content (C.mul_base reader_sk) server_key false)
    wd' ← write_txn C T roster wd
    points ← read_txn C T roster wd'.stored_key reader_sk item.seed
    lift (recover_data C wd'.content reader_sk points.0 points.1)
