-- ===== src/Semi/Simulation/Added.antt =====
-- The loops of the simulation over `AddWriteTransaction` and `GetProof`, on a ledger that works.
use calypso_experiments.Base.{
  ℕ, ◌≡◌, refl, sym, ap, ◌∙◌, List, [], ◌∷◌, true, Error, ok, ok-injective, none, Result, All,
}
use mathlib.Core.Path.{subst}
use calypso_experiments.Base.Bytes.{Bytes}
use calypso_experiments.Base.Calls.{each_waiting}
use calypso_experiments.Base.Calls.Succeed.{
  Gives, Gives-runs, Gives-weaken, Both, each_waiting-Gives, each-Gives,
}
use calypso_experiments.Crypto.{Crypto}
use calypso_experiments.Byzcoin.{Byzcoin}
use calypso_experiments.Util.{WriteData}
use calypso_experiments.Sharing.{proof_of, get_proofs}
use calypso_experiments.Semi.{SemiWrite, Ledger}
use calypso_experiments.Semi.Client.{Transport, semi_write_of, add_write_transaction}
use calypso_experiments.Semi.Simulation.{SetUp, sharing, add_one}

-- A ledger that accepts every write and proves it. `Wrote y s id` says that the instance `id` is the
-- write `s`.
pub record TakesWrites {C : Crypto} {G : Ledger C} {T : Transport G} (Y : Byzcoin) (U : SetUp G T Y)
    (Wrote : Y.World → SemiWrite C → Bytes → Type 0) : Type 0 where
  pub writes :
      (y : Y.World) (wd : WriteData C) (wait : ℕ)
      → Gives
          (λ v. add_write_transaction Y U.zero_nonce U.encode_write v wd U.writer U.darc wait)
          y
          (λ y' reply.
            Wrote y' (semi_write_of wd) reply.instance_id
            × ((s : SemiWrite C) (id : Bytes) → Wrote y s id → Wrote y' s id))
  pub proves :
      (y : Y.World) (s : SemiWrite C) (id : Bytes)
      → Wrote y s id
      → Gives
          (λ v. Y.get_proof v id)
          y
          (λ y' p.
            (Y.is_match p ≡ true)
            × (G.write_value (U.as_proof p) ≡ ok s)
            × (G.verify_proof (U.as_proof p) U.sc_id ≡ none)
            × ((s' : SemiWrite C) (id' : Bytes) → Wrote y s' id' → Wrote y' s' id'))

module _ (C : Crypto) (G : Ledger C) (T : Transport G) (Y : Byzcoin) (U : SetUp G T Y) where
  -- The proof shows the write.
  abbrev pub Shows : SemiWrite C → Y.Proof → Type 0
  Shows s p = (G.write_value (U.as_proof p) ≡ ok s) × (G.verify_proof (U.as_proof p) U.sc_id ≡ none)

module _ (C : Crypto) (G : Ledger C) (T : Transport G) (Y : Byzcoin) (U : SetUp G T Y)
    (Wrote : Y.World → SemiWrite C → Bytes → Type 0) (W : TakesWrites Y U Wrote) where
  abbrev pub HasWritten : WriteData C → Bytes → T.World × Y.World → Type 0
  HasWritten wd id w = Wrote w.1 (semi_write_of wd) id

  -- The loop over `AddWriteTransaction`, which leaves the services alone.
  pub adds-Give :
      (wait : ℕ) (wds : List (WriteData C)) (w : T.World × Y.World)
      → Gives
          (each_waiting wait (add_one C G T Y U) wds)
          w
          (λ w' ids. (w'.0 ≡ w.0) × Both HasWritten w' wds ids)
  unfolding add_one
  adds-Give wait wds w =
      each_waiting-Gives (λ more v. v.0 ≡ w.0) HasWritten wait (add_one C G T Y U)
        (λ n wd more (t, y) same.
          let r = W.writes y wd n in
          Gives-runs _ (r.value).instance_id (t, y) (t, r.world) (rw r.runs refl)
            (same, r.holds.0, λ wd' id h. r.holds.1 (semi_write_of wd') id h))
        wds w refl

  -- What the proof of an instance shows, if that was a write in `y`.
  abbrev pub IsProof : Y.World → Bytes → Y.Proof → T.World × Y.World → Type 0
  IsProof y id p w = (s : SemiWrite C) → Wrote y s id → Shows C G T Y U s p

  abbrev pub AreWrites : Y.World → List Bytes → Type 0
  AreWrites y ids = All (λ id. (s : SemiWrite C) × Wrote y s id) ids

  abbrev Proving : T.World × Y.World → List Bytes → T.World × Y.World → Type 0
  Proving w ids v =
      (v.0 ≡ w.0)
      × ((s : SemiWrite C) (id : Bytes) → Wrote w.1 s id → Wrote v.1 s id)
      × AreWrites w.1 ids

  proof_of-Gives :
      (text : Error) (v : T.World × Y.World) (s : SemiWrite C) (id : Bytes)
      → Wrote v.1 s id
      → Gives (proof_of (sharing C G T Y U) text id) v (λ v' p.
        (v'.0 ≡ v.0)
        × ((s' : SemiWrite C) (id' : Bytes) → Wrote v.1 s' id' → Wrote v'.1 s' id')
        × IsProof v.1 id p v')
  unfolding proof_of
  proof_of-Gives text (t, y) s id wrote =
      let r = W.proves y s id wrote in
      let (match, shown, proved, later) = r.holds in
      Gives-runs _ r.value (t, y) (t, r.world) (rw (r.runs, match) refl)
        (
          refl,
          later,
          λ s' wrote'.
              let r' = W.proves y s' id wrote' in
              let (match', shown', proved', later') = r'.holds in
              subst (Shows C G T Y U s')
                (ok-injective (ap (λ (x : Y.World × Result Y.Proof). x.1) (sym r'.runs ∙ r.runs)))
                (shown', proved'),
        )

  pub proofs-Give :
      (text : Error) (ids : List Bytes) (w : T.World × Y.World)
      → AreWrites w.1 ids
      → Gives
          (get_proofs (sharing C G T Y U) text ids)
          w
          (λ w' proofs. (w'.0 ≡ w.0) × Both (IsProof w.1) w' ids proofs)
  unfolding get_proofs
  proofs-Give text ids w all =
      Gives-weaken _ w
        (each-Gives (Proving w) (IsProof w.1) (proof_of (sharing C G T Y U) text)
          (λ id more v (same, later, all).
            Gives-weaken _ v (proof_of-Gives text v all.0.0 id (later all.0.0 id all.0.1))
              (λ v' p (same', later', shows). (
                (same' ∙ same, (λ s' id' h. later' s' id' (later s' id' h)), all.1),
                (λ s' h. shows s' (later s' id h)),
                λ a b h. h,
              )))
          ids w (refl, (λ s id h. h), all))
        (λ w' proofs (inv, both). (inv.0, both))

  pub AreWrites-Both :
      (w : T.World × Y.World) (wds : List (WriteData C)) (ids : List Bytes)
      → Both HasWritten w wds ids
      → AreWrites w.1 ids
  AreWrites-Both w [] [] h = tt
  AreWrites-Both w [] (_ ∷ _) h = absurd h
  AreWrites-Both w (_ ∷ _) [] h = absurd h
  AreWrites-Both w (wd ∷ wds) (id ∷ ids) (wrote, h) =
      ((semi_write_of wd, wrote), AreWrites-Both w wds ids h)
