-- ===== src/Template/Simulation.antt =====
-- simulation/protocol.go: rounds of the template protocol, each of which checks the count of the nodes.
use calypso_experiments.Base.{
  ℕ, ◌≡◌, refl, Result, ok, err, panic, ◌==◌, ==_iff, if◌then◌else◌, length, List, [], ◌∷◌, ◌>>=◌,
}
use calypso_experiments.Template.{Tree, handle_announce}
use calypso_experiments.Template.Count.{nodes, handle_announce_lem}

-- `Run`: `size` is `config.Tree.Size()`, and `created` what `CreateProtocol` does in each round. `Start`
-- runs beside the receive, so that the root alone can send, too. The number in the text of the error
-- is left out.
unfoldable pub run_template_rounds : ℕ → Tree → List (Result (Unit {0})) → Result (Unit {0})
unfolding handle_announce
run_template_rounds size tree [] = ok tt
run_template_rounds size tree (created ∷ rounds) = do
  started ← created
  if handle_announce tree == size
      then run_template_rounds size tree rounds
      else err "Didn't get the children"

abbrev first_failure : List (Result (Unit {0})) → Result (Unit {0})
first_failure [] = ok tt
first_failure (created ∷ rounds) = created >>= λ started. first_failure rounds

-- With the size of its tree, a run fails only where a protocol could not be created: no count is wrong.
pub run_template_rounds_lem :
    (tree : Tree) (rounds : List (Result (Unit {0})))
    → run_template_rounds (length (nodes tree)) tree rounds ≡ first_failure rounds
unfolding run_template_rounds
run_template_rounds_lem tree [] = refl
run_template_rounds_lem tree (ok u ∷ rounds) =
    rw ((==_iff _ _).1 (handle_announce_lem tree)) (run_template_rounds_lem tree rounds)
run_template_rounds_lem tree (err e ∷ rounds) = refl
run_template_rounds_lem tree (panic ∷ rounds) = refl
