-- ===== src/Sharing/Alone.antt =====
-- A reader that runs alone: `decrypt`, and a goroutine that nothing interrupts.
use calypso_experiments.Base.{
  ℕ, ◌≡◌, ◌↔◌, ◌∙◌, refl, ap, List, [], ◌∷◌, true, false, Result, ok, err, panic, if-eq-ok,
  ok-injective, Bool, sym,
}
use mathlib.Core.Path.{ap₂}
use calypso_experiments.Base.Bytes.{Bytes, eq_bytes, eq_of_eq_bytes, eq_bytes_iff}
use calypso_experiments.Base.Calls.{follow, follow-eq-ok, pair-injective, ◌>>=◌, ◌>>◌, demand, give}
use calypso_experiments.Sharing.{
  Sharing, Stage, Goroutine, start, asked, proved, ended, proof_of, open_and_compare, decrypt, lead,
  turn, turn_of, run_schedule, spawn_all,
}

module _ (S : Sharing) (wait : ℕ) (item : S.Item) (wr_proof : S.Proof) where
  abbrev turn_on : S.World × Stage S → S.World × Stage S
  turn_on (w, stage) = turn S wait item wr_proof stage w

  abbrev end : S.World × Result (Unit {0}) → S.World × Stage S
  end (w, r) = (w, ended r)

  lead-end : (x : S.World × Result (Unit {0})) → lead S (λ done. ended (ok done)) x ≡ end x
  lead-end (w, ok tt) = refl
  lead-end (w, err e) = refl
  lead-end (w, panic) = refl

  last_turn :
      (x : S.World × Result S.Proof)
      → turn_on (lead S proved x) ≡ end (follow (open_and_compare S item wr_proof) x)
  unfolding turn
  last_turn (w, ok q) = lead-end (open_and_compare S item wr_proof q w)
  last_turn (w, err e) = refl
  last_turn (w, panic) = refl

  last_turns :
      (x : S.World × Result Bytes)
      → turn_on (turn_on (lead S asked x))
        ≡ end (
            follow
              (λ id.
                proof_of S "Read inclusion proof does not match" id
                >>= open_and_compare S item wr_proof)
              x)
  unfolding turn
  last_turns (w, ok id) = last_turn (proof_of S "Read inclusion proof does not match" id w)
  last_turns (w, err e) = refl
  last_turns (w, panic) = refl

  -- A goroutine that runs alone does what `decrypt` does: after three turns the world is the one that
  -- `decrypt` leaves, and the goroutine has ended with its result.
  turns-decrypt :
      (w : S.World)
      → run_schedule S wait (0 ∷ 0 ∷ 0 ∷ []) (w, spawn_all S ((item, wr_proof) ∷ [])) ≡ (
        (decrypt S wait item wr_proof w).0,
        record {
          item = item;
          wr_proof = wr_proof;
          stage = ended (decrypt S wait item wr_proof w).1;
        }
            ∷ [],
      )
  unfolding run_schedule turn_of turn decrypt spawn_all
  turns-decrypt w =
      ap
        (λ (x : S.World × Stage S).
          (x.0, record { item = item; wr_proof = wr_proof; stage = x.1 } ∷ []))
        (last_turns (S.add_read wr_proof wait w))

  -- What must come of the calls of a reader.
  abbrev pub Reads : S.World → S.World → Type 0
  Reads w w' =
      (w₁ : S.World) × (id : Bytes) × (w₂ : S.World) × (q : S.Proof) × (opened : Bytes)
      × (S.add_read wr_proof wait w ≡ (w₁, ok id))
      × (S.get_proof id w₁ ≡ (w₂, ok q))
      × (S.is_match q ≡ true)
      × (S.open_item item wr_proof q w₂ ≡ (w', ok opened))
      × (opened ≡ S.expected item)

  opens-eq-ok :
      (q : S.Proof) (w w' : S.World)
      → open_and_compare S item wr_proof q w ≡ (w', ok tt)
      → (opened : Bytes) × (S.open_item item wr_proof q w ≡ (w', ok opened))
        × (opened ≡ S.expected item)
  unfolding open_and_compare
  opens-eq-ok q w w' h =
      let (v, opened, e, rest) =
        follow-eq-ok (λ opened. demand (eq_bytes opened (S.expected item)) S.mismatch)
          (S.open_item item wr_proof q w) w' tt h in
      let (same, left) = pair-injective rest in
      let (equal, _) = if-eq-ok (eq_bytes opened (S.expected item)) (ok tt) S.mismatch left in
      (opened, e ∙ ap (λ x. (x, ok opened)) same, eq_of_eq_bytes opened (S.expected item) equal)

  matched :
      (b : Bool) (w w' : S.World) (p q : S.Proof)
      → (demand b "Read inclusion proof does not match" >> give p) w ≡ (w', ok q)
      → (b ≡ true) × (w ≡ w') × (p ≡ q)
  matched true w w' p q h = let (same, left) = pair-injective h in (refl, same, ok-injective left)
  matched false w w' p q h = absurd (cc)

  proof_of-eq-ok :
      (id : Bytes) (w w' : S.World) (q : S.Proof)
      → proof_of S "Read inclusion proof does not match" id w ≡ (w', ok q)
      → (S.get_proof id w ≡ (w', ok q)) × (S.is_match q ≡ true)
  unfolding proof_of
  proof_of-eq-ok id w w' q h =
      let (w₁, p, gets, rest) =
        follow-eq-ok (λ p. demand (S.is_match p) "Read inclusion proof does not match" >> give p)
          (S.get_proof id w) w' q h in
      let (match, same, same') = matched (S.is_match p) w₁ w' p q rest in
      (gets ∙ ap₂ (λ v r. (v, ok r)) same same', ap S.is_match (sym same') ∙ match)

  decrypt-eq-ok : (w w' : S.World) → (decrypt S wait item wr_proof w ≡ (w', ok tt)) ↔ Reads w w'
  unfolding decrypt proof_of open_and_compare
  decrypt-eq-ok w w' = (
    λ h.
        let (w₁, id, asks, more) =
          follow-eq-ok
            (λ id.
              proof_of S "Read inclusion proof does not match" id
              >>= open_and_compare S item wr_proof)
            (S.add_read wr_proof wait w) w' tt h in
        let (w₂, q, shows, last) =
          follow-eq-ok (open_and_compare S item wr_proof)
            (proof_of S "Read inclusion proof does not match" id w₁) w' tt more in
        let (gets, match) = proof_of-eq-ok id w₁ w₂ q shows in
        let (opened, opens, same) = opens-eq-ok q w₂ w' last in
        (w₁, id, w₂, q, opened, asks, gets, match, opens, same),
    λ (w₁, id, w₂, q, opened, asks, gets, match, opens, same).
        rw (asks, gets, match, opens, (eq_bytes_iff opened (S.expected item)).1 same) refl,
  )

  abbrev first_result : List (Goroutine S) → Result (Unit {0})
  first_result [] = panic
  first_result (g ∷ readers) = elim g.stage [
    | start ↦ panic
    | asked id ↦ panic
    | proved q ↦ panic
    | ended r ↦ r
  ]

  -- A goroutine that runs alone has ended without an error after three turns exactly when its read was
  -- added, the proof of the read was given and matches, what it opened with that proof and the one of
  -- the write was opened without an error, and it is what was put in.
  pub turns-eq-ok :
      (w w' : S.World)
      → (run_schedule S wait (0 ∷ 0 ∷ 0 ∷ []) (w, spawn_all S ((item, wr_proof) ∷ []))
          ≡ (w', record { item = item; wr_proof = wr_proof; stage = ended (ok tt) } ∷ []))
        ↔ Reads w w'
  turns-eq-ok w w' = (
    λ h.
        let same = sym (turns-decrypt w) ∙ h in
        (decrypt-eq-ok w w').0
          (ap (λ (x : S.World × List (Goroutine S)). (x.0, first_result x.1)) same),
    λ reads.
        turns-decrypt w
        ∙ ap
            (λ (x : S.World × Result (Unit {0})).
              (x.0, record { item = item; wr_proof = wr_proof; stage = ended x.1 } ∷ []))
            ((decrypt-eq-ok w w').1 reads),
  )
