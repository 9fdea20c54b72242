-- ===== src/Sharing/Ended.antt =====
-- Goroutines that have ended, one for each item (`runMultiClientSimulation`, `runMultiClientCalypso`).
use calypso_experiments.Base.{◌≡◌, refl, List, [], ◌∷◌, ok}
use calypso_experiments.Base.Calls.{zip}
use calypso_experiments.Base.Calls.Succeed.{Both}
use calypso_experiments.Sharing.{Sharing, Goroutine, ended}
use calypso_experiments.Sharing.Schedules.{all_ended}

-- The goroutine works on the item, and has ended without an error.
abbrev pub IsDone : {S : Sharing} → S.Item → Goroutine S → S.World → Type 0
IsDone item g w = (g.item ≡ item) × (g.stage ≡ ended (ok tt))

module _ (S : Sharing) (P : S.Item → S.Proof → S.World → Type 0) where
  pub all_ended-zip :
      (w w' : S.World) (items : List S.Item) (proofs : List S.Proof)
      → Both P w items proofs
      → Both IsDone w' items (all_ended {S = S} (zip items proofs))
  all_ended-zip w w' [] [] h = tt
  all_ended-zip w w' [] (_ ∷ _) h = absurd h
  all_ended-zip w w' (_ ∷ _) [] h = absurd h
  all_ended-zip w w' (item ∷ items) (p ∷ proofs) (s, h) =
      ((refl, refl), all_ended-zip w w' items proofs h)
