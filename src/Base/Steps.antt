-- ===== src/Base/Steps.antt =====
-- Calls that change a state and may fail, one after the other: a failure ends the sequence with the
-- state as it is then.
use calypso_experiments.Base.Results.{Result, ok, err, panic}

infixl 5 ◌then_do◌
abbrev pub ◌then_do◌ {ℓ} : {W A B : Type ℓ} → W × Result A → (W → A → W × Result B) → W × Result B
(w, ok a) then_do next = next w a
(w, err e) then_do next = (w, err e)
(w, panic) then_do next = (w, panic)
