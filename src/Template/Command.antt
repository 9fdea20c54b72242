-- ===== src/Template/Command.antt =====
-- The client of the template service (api.go) and its command line (app/app.go). onet's transport, and
-- what picks a server at random, are parameters; where the command exits, the model ends with the error.
use calypso_experiments.Base.{
  ℕ, List, [], ◌∷◌, Option, Result, ok, err, panic, Error, ◌>>=◌ as ◌and_then◌,
}
use Prim.Native.String.{◌++◌ as ◌<>◌}
use calypso_experiments.Base.Calls.{Call, ◌>>=◌, lift}

-- The reply to a call of `Clock`; the time is a float.
pub record ClockReply (Time : Type 0) : Type 0 where
  pub time : Time
  pub children : ℕ

-- `RandomServerIdentity`, which is nil for an empty roster, and `SendProtobuf` at the two requests.
pub record Onet : Type 1 where
  pub World : Type 0
  pub Server : Type 0
  pub Time : Type 0
  pub random_server : List Server → Option Server
  pub send_clock : World → Option Server → List Server → World × Result (ClockReply Time)
  pub send_count : World → Option Server → World × Result ℕ

-- `errors.New(prefix + err.Error())`
abbrev pub telling : {A : Type 0} → Error → Result A → Result A
telling p (ok a) = ok a
telling p (err e) = err (p <> e)
telling p panic = panic

-- `readGroup`, with the arguments of the command. `ErrFatalf` exits for an error only, so that a group
-- without servers is returned, since `err` is nil there.
unfoldable pub read_group :
    {Name : Type 0} {File : Type 0} {Server : Type 0}
    → (Name → Result File)
    → (File → Result (List Server))
    → List Name
    → Result (List Server)
read_group open_file read [] = err "Please give the group-file as argument"
read_group open_file read (name ∷ []) = open_file name and_then read
read_group open_file read (name ∷ _ ∷ _) = err "Please give the group-file as argument"

module _ (T : Onet) where
  -- `Clock` of the client.
  unfoldable pub client_clock : List T.Server → Call T.World (ClockReply T.Time)
  client_clock roster w = T.send_clock w (T.random_server roster) roster

  -- `Count` of the client.
  unfoldable pub client_count : Option T.Server → Call T.World ℕ
  client_count server w = T.send_count w server

  -- What `cmdTime` logs.
  unfoldable pub cmd_time : Result (List T.Server) → Call T.World (ClockReply T.Time)
  unfolding client_clock
  cmd_time group = lift group >>= λ roster w.
      let (w', reply) = client_clock roster w in (w', telling "When asking the time: " reply)

  -- What `cmdCounter` logs.
  unfoldable pub cmd_counter : Result (List T.Server) → Call T.World ℕ
  unfolding client_count
  cmd_counter group = lift group >>= λ roster w.
      let (w', counter) = client_count (T.random_server roster) w in
      (w', telling "When asking for counter: " counter)
