-- ===== src/Template/ServiceSimulation.antt =====
-- simulation/service.go: rounds of calls of the template service, each of which checks its time.
use calypso_experiments.Base.{ℕ, zero, suc, ◌≡◌, Bool, false, List, err, if◌then◌else◌}
use calypso_experiments.Base.Calls.{Call, ◌>>=◌, lift, give}
use calypso_experiments.Base.Calls.Succeed.{Gives, Gives-give, Gives-runs}
use calypso_experiments.Template.Command.{Onet, client_clock}

-- `Run` of simulation/service.go. `not_positive` is the test of the time, and the program exits where a
-- call fails or took no time.
unfoldable pub run_template_service :
    (T : Onet) → (T.Time → Bool) → ℕ → List T.Server → Call T.World (Unit {0})
unfolding client_clock
run_template_service T not_positive zero roster = give tt
run_template_service T not_positive (suc rounds) roster = do
  reply ← client_clock T roster
  if not_positive reply.time
      then lift (err "0 time elapsed")
      else run_template_service T not_positive rounds roster

-- With servers that answer with times above zero, all rounds end.
pub run_template_service-Gives :
    (T : Onet) (not_positive : T.Time → Bool) (roster : List T.Server)
    → ((w : T.World)
        → Gives (client_clock T roster) w (λ w' reply. not_positive reply.time ≡ false))
    → (rounds : ℕ) (w : T.World)
    → Gives (run_template_service T not_positive rounds roster) w (λ w' u. Unit)
unfolding run_template_service
run_template_service-Gives T not_positive roster answers zero w = Gives-give tt w tt
run_template_service-Gives T not_positive roster answers (suc rounds) w =
    let first = answers w in
    let later = run_template_service-Gives T not_positive roster answers rounds first.world in
    Gives-runs _ tt w later.world (rw (first.runs, first.holds) later.runs) tt
