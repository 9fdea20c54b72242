-- ===== src/CalypsoSimulation/Serving.antt =====
-- A Calypso that works for what a run has set up.
use calypso_experiments.Base.{ℕ, ◌≡◌, true, ok}
use calypso_experiments.Base.Bytes.{Bytes}
use calypso_experiments.Lottery.{Calypso}
use calypso_experiments.CalypsoSimulation.{SetUp}

-- The ledger goes on having the set-up, and the instances go on standing for their keys.
abbrev pub Later : {W : Type 0} → (W → Type 0) → (W → Bytes → Bytes → Type 0) → W → W → Type 0
Later Up Has w w' = (Up w → Up w') × ((i s : Bytes) → Has w i s → Has w' i s)

pub same_world :
    {W : Type 0} (Up : W → Type 0) (Has : W → Bytes → Bytes → Type 0) (w : W) → Later Up Has w w
same_world Up Has w = (λ up. up, λ i s has. has)

-- `Up w` says that the ledger of `w` has the LTS and the darc of the set-up, `Has w id s` that the instance
-- `id` is a write or a read of `s` under them, and `Shows p s` that `p` is a proof of one. There, the
-- writer may write and the reader may read, the ledger proves what it has, and what was written for
-- the LTS is decrypted for the reader.
pub record IsServing (K : Calypso) (U : SetUp K) (Up : K.World → Type 0)
    (Has : K.World → Bytes → Bytes → Type 0) (Shows : K.Proof → Bytes → Type 0) : Type 0 where
  pub writes :
      (w : K.World) (s : Bytes) (wait : ℕ)
      → Up w
      → (w' : K.World) × (id : Bytes) × (K.add_write w
            (K.new_write U.lts U.darc s)
            U.writer
            U.darc
            wait
          ≡ (w', ok id))
        × Has w' id s
        × Later Up Has w w'
  pub proves :
      (w : K.World) (id s : Bytes)
      → Up w
      → Has w id s
      → (p : K.Proof) × (K.get_proof w id ≡ (w, ok p)) × (K.is_match p ≡ true) × Shows p s
  pub reads :
      (w : K.World) (p : K.Proof) (s : Bytes) (wait : ℕ)
      → Up w
      → Shows p s
      → (w' : K.World) × (id : Bytes) × (K.add_read w p U.reader U.darc wait ≡ (w', ok id))
        × Has w' id s
        × Later Up Has w w'
  pub decrypts :
      (w : K.World) (r v : K.Proof) (s : Bytes)
      → Up w
      → Shows r s
      → Shows v s
      → (dk : K.DecryptKeyReply) × (K.decrypt_key w r v ≡ (w, ok dk))
        × (K.same_point dk U.lts ≡ true)
        × (K.decode_key U.lts dk U.reader ≡ ok s)
