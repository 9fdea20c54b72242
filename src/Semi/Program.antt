-- ===== src/Semi/Program.antt =====
-- semi_centralized/client/main.go: the program that writes a text and reads it back, once the ledger, the
-- darcs and the signers are set up.
use calypso_experiments.Base.{true}
use calypso_experiments.Base.Bytes.{Bytes}
use calypso_experiments.Base.Calls.{Call, ◌>>=◌, lift}
use calypso_experiments.Crypto.{Crypto}
use calypso_experiments.Byzcoin.{Byzcoin}
use calypso_experiments.Util.{create_write_data}
use calypso_experiments.Workload.{Item}
use calypso_experiments.Sharing.{proof_of}
use calypso_experiments.Semi.{Ledger}
use calypso_experiments.Semi.Client.{Transport}
use calypso_experiments.Semi.Simulation.{
  SetUp, World, sharing, store_one, add_one, add_read_call, open_written,
}

module _ {C : Crypto} (G : Ledger C) (T : Transport G) (Y : Byzcoin) (U : SetUp G T Y) where
  -- The text that is printed. The two transactions wait for 5 blocks.
  unfoldable pub run_semi_centralized : C.Point → Item C → Call (World C G T Y U) Bytes
  unfolding store_one add_one proof_of open_written
  run_semi_centralized server_key item = do
    created ←
        lift (create_write_data C item.draws item.content (C.mul_base U.reader_sk) server_key true)
    wd ← store_one C G T Y U created
    write_id ← add_one C G T Y U 5 wd
    wr_proof ← proof_of (sharing C G T Y U) "Write inclusion proof does not match" write_id
    reply ← add_read_call C G T Y U wr_proof 5
    r_proof ← proof_of (sharing C G T Y U) "Read inclusion proof does not match" reply.instance_id
    open_written C G T Y U (wd, item) wr_proof r_proof
