-- ===== src/Lottery/Multiple/Blocks.antt =====
-- That the lottery that polls finds the winner, on a ledger whose blocks come some calls later.
use calypso_experiments.Base.{ℕ, suc, ◌≤◌, ◌≡◌, List, true, false, ok}
use calypso_experiments.Base.Bytes.{Bytes}
use calypso_experiments.Lottery.{Calypso, Participant}
use calypso_experiments.Lottery.Working.{Later, Decrypts, AllHave}
use calypso_experiments.Lottery.Multiple.{last_id}

-- A Calypso whose ledger puts transactions into blocks some calls after they are sent. `Last w id n` says
-- that `id` was sent last, and that its block comes after `n` more calls of `GetProof`; with it the
-- blocks of all that was sent before are there. No block takes more than `delay` calls.
pub record IsBlocking (K : Calypso) (lts : K.Lts) (reader : K.Signer) (delay : ℕ)
    (Has : K.World → Bytes → Bytes → Type 0) (Shows : K.Proof → Bytes → Type 0)
    (Last : K.World → Bytes → ℕ → Type 0) : Type 0 where
  pub writes :
      (w : K.World) (s : Bytes) (writer : K.Signer) (darc : K.Darc) (wait : ℕ)
      → (w' : K.World) × (id : Bytes) × (n : ℕ) × (K.add_write w
            (K.new_write lts darc s)
            writer
            darc
            wait
          ≡ (w', ok id))
        × Has w' id s
        × Later K lts reader Has w w'
        × Last w' id n
        × (n ≤ delay)
  pub reads :
      (w : K.World) (p : K.Proof) (s : Bytes) (darc : K.Darc) (wait : ℕ)
      → Shows p s
      → (w' : K.World) × (id : Bytes) × (n : ℕ) × (K.add_read w p reader darc wait ≡ (w', ok id))
        × Has w' id s
        × Later K lts reader Has w w'
        × Last w' id n
        × (n ≤ delay)
  pub waits :
      (w : K.World) (id : Bytes) (n : ℕ)
      → Last w id (suc n)
      → (w' : K.World) × (p : K.Proof) × (K.get_proof w id ≡ (w', ok p))
        × (K.is_match p ≡ false)
        × Later K lts reader Has w w'
        × Last w' id n
  pub proves :
      (w : K.World) (last id s : Bytes)
      → Last w last 0
      → Has w id s
      → (p : K.Proof) × (K.get_proof w id ≡ (w, ok p)) × (K.is_match p ≡ true) × Shows p s
  pub decrypts : Decrypts K lts reader Shows

module _ (K : Calypso) (lts : K.Lts) (reader : K.Signer) (delay : ℕ)
    (Has : K.World → Bytes → Bytes → Type 0) (Shows : K.Proof → Bytes → Type 0)
    (Last : K.World → Bytes → ℕ → Type 0) (W : IsBlocking K lts reader delay Has Shows Last) where
  -- The transactions that were sent, and that the last one is awaited for no more calls than `delay`.
  abbrev IsSent : K.World → List Bytes → List (Participant K) → Type 0
  IsSent w ids ps =
      AllHave K Has w ids ps
      × (last : Bytes) × (n : ℕ) × (last_id ids ≡ ok last)
      × Last w last n
      × (n ≤ delay)
