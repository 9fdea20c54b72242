-- ===== src/Sharing/Goroutines.antt =====
-- Readers that run at the same time.
use calypso_experiments.Base.{ℕ, zero, suc, ◌≡◌, refl, true, ok}
use calypso_experiments.Base.Bytes.{Bytes, eq_bytes, eq_bytes_refl}
use calypso_experiments.Base.Calls.Succeed.{Gives}
use calypso_experiments.Sharing.{
  Sharing, Goroutine, start, asked, proved, ended, proof_of, open_and_compare, turn,
}

-- A client that works, as far as its readers see: what is shared can be read, a read is proved and
-- its proof opens what was read. `IsShared` says of an item that its write has the proof, `HasRead` of
-- a proof of a write that an instance is a read of it, and `IsOf` of a proof of a read whose it is.
module _ (S : Sharing) where
  abbrev pub Keeps :
      (S.Item → S.Proof → S.World → Type 0)
      → (S.Proof → Bytes → S.World → Type 0)
      → S.World
      → S.World
      → Type 0
  Keeps IsShared HasRead w w' =
      ((item : S.Item) (p : S.Proof) → IsShared item p w → IsShared item p w')
      × ((p : S.Proof) (id : Bytes) → HasRead p id w → HasRead p id w')

  pub record IsWorking (IsShared : S.Item → S.Proof → S.World → Type 0)
      (HasRead : S.Proof → Bytes → S.World → Type 0) (IsOf : S.Proof → S.Proof → Type 0)
      : Type 0 where
    pub reads :
        (w : S.World) (item : S.Item) (p : S.Proof) (wait : ℕ)
        → IsShared item p w
        → Gives (S.add_read p wait) w (λ w' id. HasRead p id w' × Keeps IsShared HasRead w w')
    pub proves :
        (w : S.World) (p : S.Proof) (id : Bytes)
        → HasRead p id w
        → Gives
            (S.get_proof id)
            w
            (λ w' q. (S.is_match q ≡ true) × IsOf p q × Keeps IsShared HasRead w w')
    pub opens :
        (w : S.World) (item : S.Item) (p q : S.Proof)
        → IsShared item p w
        → IsOf p q
        → Gives
            (S.open_item item p q)
            w
            (λ w' opened. (opened ≡ S.expected item) × Keeps IsShared HasRead w w')

module _ (S : Sharing) (IsShared : S.Item → S.Proof → S.World → Type 0)
    (HasRead : S.Proof → Bytes → S.World → Type 0) (IsOf : S.Proof → S.Proof → Type 0)
    (W : IsWorking S IsShared HasRead IsOf) where
  -- Where a goroutine stands after `n` turns.
  abbrev pub HasTurned : ℕ → Goroutine S → S.World → Type 0
  HasTurned zero g w = (g.stage ≡ start) × IsShared g.item g.wr_proof w
  HasTurned (suc zero) g w =
      (id : Bytes) × (g.stage ≡ asked id) × IsShared g.item g.wr_proof w × HasRead g.wr_proof id w
  HasTurned (suc (suc zero)) g w =
      (q : S.Proof) × (g.stage ≡ proved q) × IsShared g.item g.wr_proof w × IsOf g.wr_proof q
  HasTurned (suc (suc (suc n))) g w = g.stage ≡ ended (ok tt)

  pub HasTurned-later :
      (n : ℕ) (g : Goroutine S) (w w' : S.World)
      → Keeps S IsShared HasRead w w'
      → HasTurned n g w
      → HasTurned n g w'
  HasTurned-later zero g w w' k (e, s) = (e, k.0 g.item g.wr_proof s)
  HasTurned-later (suc zero) g w w' k (id, e, s, h) =
      (id, e, k.0 g.item g.wr_proof s, k.1 g.wr_proof id h)
  HasTurned-later (suc (suc zero)) g w w' k (q, e, s, o) = (q, e, k.0 g.item g.wr_proof s, o)
  HasTurned-later (suc (suc (suc n))) g w w' k e = e

  -- A turn moves a goroutine on by one, and leaves to the others what they need.
  pub turn_lem :
      (wait n : ℕ) (g : Goroutine S) (w : S.World)
      → HasTurned n g w
      → let (w', stage) = turn S wait g.item g.wr_proof g.stage w in
        HasTurned (suc n) (record g { stage = stage }) w' × Keeps S IsShared HasRead w w'
  unfolding turn proof_of open_and_compare
  turn_lem wait zero g w (e, s) =
      let r = W.reads w g.item g.wr_proof wait s in
      rw (e, r.runs) ((r.value, refl, (r.holds.1).0 g.item g.wr_proof s, r.holds.0), r.holds.1)
  turn_lem wait (suc zero) g w (id, e, s, h) =
      let r = W.proves w g.wr_proof id h in
      let (match, of_it, keeps) = r.holds in
      rw (e, r.runs, match) ((r.value, refl, keeps.0 g.item g.wr_proof s, of_it), keeps)
  turn_lem wait (suc (suc zero)) g w (q, e, s, o) =
      let r = W.opens w g.item g.wr_proof q s o in
      let (opened, keeps) = r.holds in
      let same : eq_bytes r.value (S.expected g.item) ≡ true =
        rw opened (eq_bytes_refl (S.expected g.item)) in
      rw (e, r.runs, same) (refl, keeps)
  turn_lem wait (suc (suc (suc n))) g w e = rw e (refl, (λ item p h. h, λ p id h. h))
