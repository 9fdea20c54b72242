-- ===== src/Base/Calls/Succeed.antt =====
-- Total correctness: that a program runs to its end with a value, and what holds then.
use calypso_experiments.Base.Lists.{All, length}
use calypso_experiments.Base.Results.{Result, ok, Error}
use calypso_experiments.Base.Calls.{
  Call, follow, ◌>>=◌, lift, give, demand, wait_before, each_waiting, each, zip,
}
use Prim.Native.Nat.{ℕ, suc}
use mathlib.Core.Path.{◌≡◌, refl, ◌∙◌, ap}
use mathlib.Core.Bool.{Bool, true}
use mathlib.Core.List.{List, [], ◌∷◌}

-- The program, started in `w`, ends with a value, and `Q` holds of the world and the value then.
pub record Gives {W A : Type 0} (call : Call W A) (w : W) (Q : W → A → Type 0) : Type 0 where
  pub world : W
  pub value : A
  pub runs : call w ≡ (world, ok value)
  pub holds : Q world value

module _ {W A : Type 0} {Q : W → A → Type 0} where
  pub Gives-give : (a : A) (w : W) → Q w a → Gives (give a) w Q
  Gives-give a w q = record { world = w; value = a; runs = refl; holds = q }

  pub Gives-lift : (r : Result A) (a : A) (w : W) → r ≡ ok a → Q w a → Gives (lift r) w Q
  Gives-lift r a w e q = record {
    world = w;
    value = a;
    runs = ap (λ (x : Result A). (w, x)) e;
    holds = q;
  }

  pub Gives-runs :
      (call : Call W A) (a : A) (w w' : W) → call w ≡ (w', ok a) → Q w' a → Gives call w Q
  Gives-runs call a w w' e q = record { world = w'; value = a; runs = e; holds = q }

  pub Gives-weaken :
      {R : W → A → Type 0} (call : Call W A) (w : W)
      → Gives call w Q
      → ((w' : W) (a : A) → Q w' a → R w' a)
      → Gives call w R
  Gives-weaken call w g h = record {
    world = g.world;
    value = g.value;
    runs = g.runs;
    holds = h g.world g.value g.holds;
  }

pub Gives-demand :
    {W : Type 0} {Q : W → Unit {0} → Type 0} (test : Bool) (text : Error) (w : W)
    → test ≡ true
    → Q w tt
    → Gives (demand test text) w Q
Gives-demand test text w e q = record { world = w; value = tt; runs = rw e refl; holds = q }

-- A program after a computation with a known result.
pub Gives-known :
    {W A B : Type 0} {R : W → B → Type 0} (r : Result A) (a : A) (next : A → Call W B) (w : W)
    → r ≡ ok a
    → Gives (next a) w R
    → Gives (lift r >>= next) w R
Gives-known r a next w e g = record {
  world = g.world;
  value = g.value;
  runs = rw e g.runs;
  holds = g.holds;
}

-- One program after another.
pub Gives-bind :
    {W A B : Type 0} {Q : W → A → Type 0} {R : W → B → Type 0} (call : Call W A)
    (next : A → Call W B) (w : W)
    → Gives call w Q
    → ((w' : W) (a : A) → Q w' a → Gives (next a) w' R)
    → Gives (call >>= next) w R
Gives-bind call next w g h =
    let after = h g.world g.value g.holds in
    record {
      world = after.world;
      value = after.value;
      runs = ap (follow next) g.runs ∙ after.runs;
      holds = after.holds;
    }

-- Two lists of one length, related element by element.
abbrev pub Both : {W A B : Type 0} → (A → B → W → Type 0) → W → List A → List B → Type 0
Both Post w [] [] = Unit
Both Post w [] (b ∷ bs) = ⊥
Both Post w (a ∷ rest) [] = ⊥
Both Post w (a ∷ rest) (b ∷ bs) = Post a b w × Both Post w rest bs

pub Both-map :
    {W A B : Type 0} (P Q : A → B → W → Type 0) (v w : W)
    → ((a : A) (b : B) → P a b v → Q a b w)
    → (as' : List A) (bs : List B) → Both P v as' bs
    → Both Q w as' bs
Both-map P Q v w h [] [] H = tt
Both-map P Q v w h [] (b ∷ bs) H = absurd H
Both-map P Q v w h (a ∷ rest) [] H = absurd H
Both-map P Q v w h (a ∷ rest) (b ∷ bs) (p, H) = (h a b p, Both-map P Q v w h rest bs H)

-- What holds of two lists together holds of each pair.
pub Both-zip :
    {W A B : Type 0} (P : A → B → W → Type 0) (w : W) (as' : List A) (bs : List B)
    → Both P w as' bs
    → All (λ (p : A × B). P p.0 p.1 w) (zip as' bs)
Both-zip P w [] [] H = tt
Both-zip P w [] (b ∷ bs) H = absurd H
Both-zip P w (a ∷ rest) [] H = absurd H
Both-zip P w (a ∷ rest) (b ∷ bs) (p, H) = (p, Both-zip P w rest bs H)

pub Both-length :
    {W A B : Type 0} (P : A → B → W → Type 0) (w : W) (as' : List A) (bs : List B)
    → Both P w as' bs
    → length bs ≡ length as'
Both-length P w [] [] H = refl
Both-length P w [] (b ∷ bs) H = absurd H
Both-length P w (a ∷ rest) [] H = absurd H
Both-length P w (a ∷ rest) (b ∷ bs) (p, H) = ap suc (Both-length P w rest bs H)

pub Both-flip :
    {W A B : Type 0} (P : A → B → W → Type 0) (w : W) (as' : List A) (bs : List B)
    → Both P w as' bs
    → Both (λ b a v. P a b v) w bs as'
Both-flip P w [] [] H = tt
Both-flip P w [] (b ∷ bs) H = absurd H
Both-flip P w (a ∷ rest) [] H = absurd H
Both-flip P w (a ∷ rest) (b ∷ bs) (p, H) = (p, Both-flip P w rest bs H)

pub Both-length-zip :
    {W A B : Type 0} (P : A → B → W → Type 0) (w : W) (as' : List A) (bs : List B)
    → Both P w as' bs
    → length (zip as' bs) ≡ length as'
Both-length-zip P w [] [] H = refl
Both-length-zip P w [] (b ∷ bs) H = absurd H
Both-length-zip P w (a ∷ rest) [] H = absurd H
Both-length-zip P w (a ∷ rest) (b ∷ bs) (p, H) = ap suc (Both-length-zip P w rest bs H)

-- Three lists, of which the first is related to both others.
pub Both-zip_both :
    {W A B C : Type 0} (P : A → B → W → Type 0) (Q : A → C → W → Type 0)
    (R : A × B → C → W → Type 0) (w : W)
    → ((a : A) (b : B) (c : C) → P a b w → Q a c w → R (a, b) c w)
    → (as' : List A) (bs : List B) (cs : List C) → Both P w as' bs
    → Both Q w as' cs
    → Both R w (zip as' bs) cs
Both-zip_both P Q R w h [] [] [] p q = tt
Both-zip_both P Q R w h [] [] (c ∷ cs) p q = absurd q
Both-zip_both P Q R w h [] (b ∷ bs) cs p q = absurd p
Both-zip_both P Q R w h (a ∷ as') [] cs p q = absurd p
Both-zip_both P Q R w h (a ∷ as') (b ∷ bs) [] p q = absurd q
Both-zip_both P Q R w h (a ∷ as') (b ∷ bs) (c ∷ cs) (p, ps) (q, qs) =
    (h a b c p q, Both-zip_both P Q R w h as' bs cs ps qs)

-- What holds of pairs and a third list holds of the second components.
pub Both-second :
    {W A B C : Type 0} (P : A → B → W → Type 0) (Q : A × B → C → W → Type 0)
    (R : B → C → W → Type 0) (v w : W)
    → ((a : A) (b : B) (c : C) → Q (a, b) c w → R b c w)
    → (as' : List A) (bs : List B) (cs : List C) → Both P v as' bs
    → Both Q w (zip as' bs) cs
    → Both R w bs cs
Both-second P Q R v w h [] [] [] p q = tt
Both-second P Q R v w h [] [] (c ∷ cs) p q = absurd q
Both-second P Q R v w h [] (b ∷ bs) cs p q = absurd p
Both-second P Q R v w h (a ∷ as') [] cs p q = absurd p
Both-second P Q R v w h (a ∷ as') (b ∷ bs) [] p q = absurd q
Both-second P Q R v w h (a ∷ as') (b ∷ bs) (c ∷ cs) (p, ps) (q, qs) =
    (h a b c q, Both-second P Q R v w h as' bs cs ps qs)

-- Two relations that meet in a list, one after the other.
pub Both-compose :
    {W A B C : Type 0} (P : A → B → W → Type 0) (Q : B → C → W → Type 0) (R : C → A → W → Type 0)
    (v w : W)
    → ((a : A) (b : B) (c : C) → P a b v → Q b c w → R c a w)
    → (as' : List A) (bs : List B) (cs : List C) → Both P v as' bs
    → Both Q w bs cs
    → Both R w cs as'
Both-compose P Q R v w h [] [] [] p q = tt
Both-compose P Q R v w h [] [] (c ∷ cs) p q = absurd q
Both-compose P Q R v w h [] (b ∷ bs) cs p q = absurd p
Both-compose P Q R v w h (a ∷ as') [] cs p q = absurd p
Both-compose P Q R v w h (a ∷ as') (b ∷ bs) [] p q = absurd q
Both-compose P Q R v w h (a ∷ as') (b ∷ bs) (c ∷ cs) (p, ps) (q, qs) =
    (h a b c p q, Both-compose P Q R v w h as' bs cs ps qs)

-- The rule for loops. `Inv rest w` holds before a round with the elements `rest` to go, and `Post` of
-- an element, what the body gave for it, and every later world of the loop.
module _ {W A B : Type 0} (Inv : List A → W → Type 0) (Post : A → B → W → Type 0) where
  abbrev pub Filled : List A → W → List B → Type 0
  Filled as' w bs = Inv [] w × Both Post w as' bs

  abbrev pub Round : A → List A → W → W → B → Type 0
  Round a rest w w' b =
      Inv rest w' × Post a b w' × ((a' : A) (b' : B) → Post a' b' w → Post a' b' w')

  abbrev Keeps : W → W → Type 0
  Keeps w w' = (a' : A) (b' : B) → Post a' b' w → Post a' b' w'

  loop :
      (wait : ℕ) (body : ℕ → A → Call W B)
      → ((n : ℕ) (a : A) (rest : List A) (w : W)
          → Inv (a ∷ rest) w
          → Gives (body n a) w (Round a rest w))
      → (as' : List A) (w : W) → Inv as' w
      → Gives (each_waiting wait body as') w (λ w' bs. Filled as' w' bs × Keeps w w')
  unfolding each_waiting
  loop wait body step [] w inv = record {
    world = w;
    value = [];
    runs = refl;
    holds = ((inv, tt), λ a b h. h);
  }
  loop wait body step (a ∷ rest) w inv =
      let one = step (wait_before wait rest) a rest w inv in
      let (inv', p, kept) = one.holds in
      let more = loop wait body step rest one.world inv' in
      let ((end, both), kept') = more.holds in
      record {
        world = more.world;
        value = one.value ∷ more.value;
        runs = rw (one.runs, more.runs) refl;
        holds = ((end, (kept' a one.value p, both)), λ a' b' h. kept' a' b' (kept a' b' h));
      }

  pub each_waiting-Gives :
      (wait : ℕ) (body : ℕ → A → Call W B)
      → ((n : ℕ) (a : A) (rest : List A) (w : W)
          → Inv (a ∷ rest) w
          → Gives (body n a) w (Round a rest w))
      → (as' : List A) (w : W) → Inv as' w
      → Gives (each_waiting wait body as') w (Filled as')
  each_waiting-Gives wait body step as' w inv =
      Gives-weaken _ w (loop wait body step as' w inv) (λ w' bs h. h.0)

  pub each-Gives :
      (body : A → Call W B)
      → ((a : A) (rest : List A) (w : W) → Inv (a ∷ rest) w → Gives (body a) w (Round a rest w))
      → (as' : List A) (w : W) → Inv as' w
      → Gives (each body as') w (Filled as')
  unfolding each
  each-Gives body step as' w inv =
      each_waiting-Gives 0 (λ n a. body a) (λ n a rest v h. step a rest v h) as' w inv
