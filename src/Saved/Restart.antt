-- ===== src/Saved/Restart.antt =====
-- What a service that is started again has.
use calypso_experiments.Base.{
  ◌≡◌, ◌+◌, refl, ap, ◌∙◌, true, List, [], ◌∷◌, length, Option, some, Result, ok,
}
use calypso_experiments.Template.{Tree, Storage, clock, clocks, count_reply}
use calypso_experiments.Template.Count.{count_reply-clocks}
use calypso_experiments.Saved.{
  Context, right_type, save, try_load, new_service, new_template_service, clock_saved, clocks_saved,
}

-- A disk that keeps what was saved last.
pub record Keeps {A : Type 0} (X : Context A) : Type 0 where
  pub load-save :
      (disk : X.Disk) (storage : A)
      → X.load (X.save disk storage).0 ≡ ok (some (right_type storage))

module _ (X : Context Storage) (K : Keeps X) where
  -- The service at a moment: the disk has what it would load.
  abbrev IsSaved : Storage × X.Disk → Type 0
  IsSaved state = try_load X (record { count = 0 }) state.1 ≡ ok state.0

  clocks_saved_lem :
      (state : Storage × X.Disk) (calls : List (Option Tree × Result (Unit {0})))
      → IsSaved state
      → IsSaved (clocks_saved X state calls)
        × ((clocks_saved X state calls).0 ≡ clocks state.0 calls)
  unfolding clocks_saved clock_saved clocks save try_load
  clocks_saved_lem state [] h = (h, refl)
  clocks_saved_lem (s, disk) ((generated, created) ∷ calls) h =
      clocks_saved_lem (clock_saved X (s, disk) generated created).0 calls
        (rw (K.load-save disk (clock s generated created).0) refl)

  -- On a disk that keeps what was saved last, a template service that is stopped after any calls of
  -- `Clock`, failed ones included, and started again with its handlers registered, answers to `Count`
  -- the number of these calls more than it did before, as the service that went on would.
  pub new_template_service-clocks_saved :
      (s : Storage) (disk : X.Disk) (calls : List (Option Tree × Result (Unit {0})))
      → new_template_service X true disk ≡ ok s
      → (s' : Storage) × (new_template_service X true (clocks_saved X (s, disk) calls).1 ≡ ok s')
        × (s' ≡ (clocks_saved X (s, disk) calls).0)
        × (count_reply s' ≡ count_reply s + length calls)
  unfolding new_template_service new_service
  new_template_service-clocks_saved s disk calls started =
      let (saved, same) = clocks_saved_lem (s, disk) calls started in
      (
        (clocks_saved X (s, disk) calls).0,
        saved,
        refl,
        ap count_reply same ∙ count_reply-clocks s calls,
      )
