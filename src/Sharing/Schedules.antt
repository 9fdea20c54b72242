-- ===== src/Sharing/Schedules.antt =====
-- Readers under a scheduler.
use calypso_experiments.Base.{
  ℕ, zero, suc, ◌+◌, ◌≤◌, ◌<◌, length, ◌≡◌, refl, sym, ap, ◌∙◌, List, [], ◌∷◌, Bool-cases, inl, inr,
  ok, Option-cases, none, some, All, get_elem?, ◌==◌, ==_iff, if◌then◌else◌, arith,
}
use mathlib.Core.Path.{subst, ap₂}
use mathlib.Core.Option.{some-injective}
use calypso_experiments.Base.Bytes.{Bytes}
use calypso_experiments.Workload.{
  set_elem, get_elem?-set_elem_same, get_elem?-set_elem_other, get_elem?_lt,
}
use calypso_experiments.Sharing.{
  Sharing, Stage, Goroutine, ended, turn, turn_of, run_schedule, spawn_all,
}
use calypso_experiments.Sharing.Goroutines.{IsWorking, HasTurned, HasTurned-later, turn_lem}

-- How many turns a schedule gives to a goroutine.
abbrev pub turns_in : List ℕ → ℕ → ℕ
turns_in [] i = 0
turns_in (j ∷ schedule) i = if j == i then suc (turns_in schedule i) else turns_in schedule i

abbrev count_turn : ℕ → (ℕ → ℕ) → ℕ → ℕ
count_turn j turns i = if j == i then suc (turns i) else turns i

-- The goroutines at their ends, without an error.
abbrev pub all_ended : {S : Sharing} → List (S.Item × S.Proof) → List (Goroutine S)
all_ended [] = []
all_ended ((item, wr_proof) ∷ rest) =
    record { item = item; wr_proof = wr_proof; stage = ended (ok tt) } ∷ all_ended rest

-- What the goroutines work on.
abbrev jobs : {S : Sharing} → List (Goroutine S) → List (S.Item × S.Proof)
jobs [] = []
jobs (g ∷ gs) = (g.item, g.wr_proof) ∷ jobs gs

module _ (S : Sharing) where
  jobs-set_elem :
      (gs : List (Goroutine S)) (i : ℕ) (g : Goroutine S) (stage : Stage S)
      → get_elem? gs i ≡ some g
      → jobs (set_elem gs i (record g { stage = stage })) ≡ jobs gs
  jobs-set_elem [] i g stage e = refl
  jobs-set_elem (x ∷ xs) zero g stage e =
      let same : x ≡ g = cc in ap (λ (y : Goroutine S). (y.item, y.wr_proof) ∷ jobs xs) (sym same)
  jobs-set_elem (x ∷ xs) (suc i) g stage e =
      ap (λ (js : List (S.Item × S.Proof)). (x.item, x.wr_proof) ∷ js)
        (jobs-set_elem xs i g stage e)

  turn_of-some :
      (wait j : ℕ) (w : S.World) (gs : List (Goroutine S)) (g : Goroutine S)
      → get_elem? gs j ≡ some g
      → turn_of S wait j (w, gs) ≡ (
        (turn S wait g.item g.wr_proof g.stage w).0,
        set_elem gs j (record g { stage = (turn S wait g.item g.wr_proof g.stage w).1 }),
      )
  unfolding turn_of
  turn_of-some wait j w gs g e = rw (e, turn_of) refl

  turn_of-none :
      (wait j : ℕ) (w : S.World) (gs : List (Goroutine S))
      → get_elem? gs j ≡ none
      → turn_of S wait j (w, gs) ≡ (w, gs)
  unfolding turn_of
  turn_of-none wait j w gs e = rw (e, turn_of) refl

  jobs-turn_of :
      (wait j : ℕ) (w : S.World) (gs : List (Goroutine S))
      → jobs (turn_of S wait j (w, gs)).1 ≡ jobs gs
  jobs-turn_of wait j w gs = elim (Option-cases (get_elem? gs j)) [
    | inl e ↦ rw (turn_of-none wait j w gs e) refl
    | inr (g, e) ↦ rw (turn_of-some wait j w gs g e) (jobs-set_elem gs j g _ e)
  ]

  jobs-run_schedule :
      (wait : ℕ) (schedule : List ℕ) (w : S.World) (gs : List (Goroutine S))
      → jobs (run_schedule S wait schedule (w, gs)).1 ≡ jobs gs
  unfolding run_schedule
  jobs-run_schedule wait [] w gs = refl
  jobs-run_schedule wait (j ∷ schedule) w gs =
      let (w', gs') = turn_of S wait j (w, gs) in
      jobs-run_schedule wait schedule w' gs' ∙ jobs-turn_of wait j w gs

  jobs-spawn_all : (shared : List (S.Item × S.Proof)) → jobs (spawn_all S shared) ≡ shared
  unfolding spawn_all
  jobs-spawn_all [] = refl
  jobs-spawn_all (job ∷ shared) =
      ap (λ (js : List (S.Item × S.Proof)). job ∷ js) (jobs-spawn_all shared)

  all_ended-jobs :
      (gs : List (Goroutine S))
      → ((i : ℕ) (g : Goroutine S) → get_elem? gs i ≡ some g → g.stage ≡ ended (ok tt))
      → gs ≡ all_ended (jobs gs)
  all_ended-jobs [] h = refl
  all_ended-jobs (g ∷ gs) h =
      ap₂ (λ (x : Stage S) (xs : List (Goroutine S)). record g { stage = x } ∷ xs) (h 0 g refl)
        (all_ended-jobs gs (λ i g' e. h (suc i) g' e))

  length-jobs : (gs : List (Goroutine S)) → length (jobs gs) ≡ length gs
  length-jobs [] = refl
  length-jobs (g ∷ gs) = ap suc (length-jobs gs)

module _ (S : Sharing) (IsShared : S.Item → S.Proof → S.World → Type 0)
    (HasRead : S.Proof → Bytes → S.World → Type 0) (IsOf : S.Proof → S.Proof → Type 0)
    (W : IsWorking S IsShared HasRead IsOf) where
  abbrev Turned : ℕ → Goroutine S → S.World → Type 0
  Turned n g w = HasTurned S IsShared HasRead IsOf W n g w

  -- Every goroutine stands where its turns have brought it.
  abbrev AllTurned : (ℕ → ℕ) → S.World × List (Goroutine S) → Type 0
  AllTurned turns state =
      (i : ℕ) (g : Goroutine S) → get_elem? state.1 i ≡ some g → Turned (turns i) g state.0

  Turned-itself :
      (j n : ℕ) (gs : List (Goroutine S)) (g' g : Goroutine S) (stage : Stage S) (w : S.World)
      → get_elem? gs j ≡ some g'
      → Turned (suc n) (record g' { stage = stage }) w
      → get_elem? (set_elem gs j (record g' { stage = stage })) j ≡ some g
      → Turned (suc n) g w
  Turned-itself j n gs g' g stage w e turned found =
      subst (λ x. Turned (suc n) x w)
        (some-injective _ _
          (sym (get_elem?-set_elem_same gs j g' (record g' { stage = stage }) e) ∙ found))
        turned

  turn_of_lem :
      (wait j : ℕ) (turns : ℕ → ℕ) (w : S.World) (gs : List (Goroutine S))
      → AllTurned turns (w, gs)
      → AllTurned (count_turn j turns) (turn_of S wait j (w, gs))
  turn_of_lem wait j turns w gs all = elim (Option-cases (get_elem? gs j)) [
    | inl e ↦ rw (turn_of-none S wait j w gs e) (λ i g found. elim (Bool-cases (j == i)) [
      | inr other ↦ rw other (all i g found)
      | inl same ↦
          let e' : get_elem? gs i ≡ none =
            subst (λ k. get_elem? gs k ≡ none) ((==_iff j i).0 same) e in
          absurd (cc)
    ])
    | inr (g', e) ↦
        let (turned, keeps) = turn_lem S IsShared HasRead IsOf W wait (turns j) g' w (all j g' e) in
        rw (turn_of-some S wait j w gs g' e) (λ i g found. elim (Bool-cases (j == i)) [
          | inr other ↦ rw other (
              HasTurned-later S IsShared HasRead IsOf W (turns i) g w _ keeps
                (all i g (sym (get_elem?-set_elem_other gs i j _ other) ∙ found)))
          | inl same ↦ rw same (
              subst (λ k. Turned (suc (turns k)) g (turn S wait g'.item g'.wr_proof g'.stage w).0)
                ((==_iff j i).0 same)
                (Turned-itself j (turns j) gs g' g _ _ e turned (
                  subst
                    (λ k.
                      get_elem?
                        (set_elem gs j
                          (record g' { stage = (turn S wait g'.item g'.wr_proof g'.stage w).1 }))
                        k
                      ≡ some g)
                    (sym ((==_iff j i).0 same)) found)))
        ])
  ]

  run_schedule_lem :
      (wait : ℕ) (schedule : List ℕ) (turns : ℕ → ℕ) (w : S.World) (gs : List (Goroutine S))
      → AllTurned turns (w, gs)
      → AllTurned (λ i. turns i + turns_in schedule i) (run_schedule S wait schedule (w, gs))
  unfolding run_schedule
  run_schedule_lem wait [] turns w gs all i g found =
      subst (λ n. Turned n g w) (omega arith) (all i g found)
  run_schedule_lem wait (j ∷ schedule) turns w gs all i g found =
      let (w', gs') = turn_of S wait j (w, gs) in
      subst (λ n. Turned n g (run_schedule S wait schedule (w', gs')).0) (ground arith)
        (run_schedule_lem wait schedule (count_turn j turns) w' gs'
          (turn_of_lem wait j turns w gs all) i g found)

  spawned :
      (shared : List (S.Item × S.Proof)) (w : S.World)
      → All (λ (job : S.Item × S.Proof). IsShared job.0 job.1 w) shared
      → AllTurned (λ i. 0) (w, spawn_all S shared)
  unfolding spawn_all
  spawned [] w h i g found = absurd (cc)
  spawned ((item, p) ∷ shared) w (s, h) zero g found =
      subst (λ x. Turned 0 x w) (some-injective _ _ found) (refl, s)
  spawned ((item, p) ∷ shared) w (s, h) (suc i) g found = spawned shared w h i g found

  Turned-end :
      (n : ℕ) (g : Goroutine S) (w : S.World) → 3 ≤ n → Turned n g w → g.stage ≡ ended (ok tt)
  Turned-end zero g w h t = absurd (omega arith)
  Turned-end (suc zero) g w h t = absurd (omega arith)
  Turned-end (suc (suc zero)) g w h t = absurd (omega arith)
  Turned-end (suc (suc (suc n))) g w h t = t

  -- With a client that works, for items that are shared through it: under every schedule that gives
  -- at least three turns to each reader, all of them end without an error, in particular without the
  -- one for data that is not the expected one, in whatever order their calls come.
  pub run_schedule-ends :
      (wait : ℕ) (schedule : List ℕ) (shared : List (S.Item × S.Proof)) (w : S.World)
      → All (λ (job : S.Item × S.Proof). IsShared job.0 job.1 w) shared
      → ((i : ℕ) → i < length shared → 3 ≤ turns_in schedule i)
      → (run_schedule S wait schedule (w, spawn_all S shared)).1 ≡ all_ended shared
  run_schedule-ends wait schedule shared w h fair =
      let (w', gs) = run_schedule S wait schedule (w, spawn_all S shared) in
      let same : jobs gs ≡ shared =
        jobs-run_schedule S wait schedule w (spawn_all S shared) ∙ jobs-spawn_all S shared in
      let size : length gs ≡ length shared = sym (length-jobs S gs) ∙ ap length same in
      all_ended-jobs S gs (λ i g found.
        Turned-end (0 + turns_in schedule i) g w'
          (omega (arith, fair i (omega (arith, size, get_elem?_lt gs i g found))))
          (run_schedule_lem wait schedule (λ k. 0) w (spawn_all S shared) (spawned shared w h) i g
            found))
      ∙ ap all_ended same
