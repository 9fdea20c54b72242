-- ===== src/Central/Main.antt =====
-- fully_centralized/client/main.go, `main`: 70 texts, of which each is written and read back by a new
-- reader. A run that fails ends the program.
use calypso_experiments.Base.{
  ℕ, suc, List, [], ◌∷◌, ◌++◌, Option, none, some, Result, ok, err, panic,
}
use calypso_experiments.Base.Bytes.{Bytes}
use calypso_experiments.Base.Calls.{Call, ◌>>=◌, lift}
use calypso_experiments.Hex.{Text}
use calypso_experiments.Crypto.{Crypto}
use calypso_experiments.Util.{Draws, read_roster, get_server_key}
use calypso_experiments.Workload.{Item}
use calypso_experiments.Central.{Transport}
use calypso_experiments.Central.Program.{run_fully_centralized_calypso}

-- What a run draws: the reader's key, and what its write and its read need.
pub record Drawn (C : Crypto) : Type 0 where
  pub reader_sk : C.Scalar
  pub draws : Draws C
  pub seed : C.Seed

-- The text of the run `i + 1`; `itoa` is `strconv.Itoa`.
unfoldable pub item_at : {C : Crypto} → (ℕ → Bytes) → Bytes → ℕ → Drawn C → Item C
item_at itoa base i d = record { content = base ++ itoa (suc i); draws = d.draws; seed = d.seed }

-- The reader's key and the text of each run.
unfoldable pub items_from :
    {C : Crypto} → (ℕ → Bytes) → Bytes → ℕ → List (Drawn C) → List (C.Scalar × Item C)
unfolding item_at
items_from itoa base i [] = []
items_from itoa base i (d ∷ ds) =
    (d.reader_sk, item_at itoa base i d) ∷ items_from itoa base (suc i) ds

-- A roster that is nil has no servers: the call panics for both.
abbrev pub servers_of : {Server : Type 0} → Option (List Server) → List Server
servers_of none = []
servers_of (some servers) = servers

module _ (C : Crypto) (T : Transport C) where
  -- The loop over the runs: what is printed, and how it ended.
  unfoldable pub run_all :
      List T.Server
      → C.Point
      → List (C.Scalar × Item C)
      → T.World
      → T.World × (List Bytes × Result (Unit {0}))
  unfolding run_fully_centralized_calypso
  run_all roster server_key [] w = (w, ([], ok tt))
  run_all roster server_key ((reader_sk, item) ∷ items) w =
      let (w', r) = run_fully_centralized_calypso C T roster reader_sk server_key item w in
      elim r [
        | err e ↦ (w', ([], err e))
        | panic ↦ (w', ([], panic))
        | ok text ↦
            let (w'', (texts, end)) = run_all roster server_key items w' in
            (w'', (text ∷ texts, end))
      ]

  -- `main`, with the two files: for an error of theirs it exits.
  unfoldable pub main :
      {File : Type 0}
      → (File → Result (List T.Server))
      → Result File
      → (Text → Result C.Point)
      → Result (List Text)
      → (ℕ → Bytes)
      → Bytes
      → List (Drawn C)
      → Call T.World (List Bytes × Result (Unit {0}))
  unfolding read_roster get_server_key items_from run_all
  main read_group roster_file parse key_file itoa base drawn = do
    roster ← lift (read_roster read_group roster_file)
    server_key ← lift (get_server_key C parse key_file)
    (λ w.
        let (w', printed) =
          run_all (servers_of roster) server_key (items_from itoa base 0 drawn) w in
        (w', ok printed))
