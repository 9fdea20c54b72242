-- ===== src/Central/Printed.antt =====
-- What the program of the fully centralized client prints.
use calypso_experiments.Base.{
  ℕ, suc, ◌≡◌, refl, sym, ap, ◌∙◌, List, [], ◌∷◌, false, some, Result, ok, ok-injective, All, map,
}
use mathlib.Core.Path.{subst}
use calypso_experiments.Base.Bytes.{Bytes}
use calypso_experiments.Base.Calls.Succeed.{Gives, Gives-known, Gives-lift, Gives-bind}
use calypso_experiments.Hex.{Text}
use calypso_experiments.Crypto.{Crypto, IsSound}
use calypso_experiments.Store.{Bolt, IsBolt, IsCodec}
use calypso_experiments.Util.{WriteData, create_write_data, read_roster, get_server_key}
use calypso_experiments.Util.Fresh.{AllNew}
use calypso_experiments.Util.RoundTrip.{IsDrawn, Seals, create_write_data-Seals}
use calypso_experiments.Workload.{Item}
use calypso_experiments.Central.{Codec, write_schema, Service, Transport}
use calypso_experiments.Central.Recovery.{Delivers}
use calypso_experiments.Central.Program.{run_fully_centralized_calypso}
use calypso_experiments.Central.Main.{Drawn, item_at, items_from, run_all, main}
use calypso_experiments.Central.Simulation.{write_txn, read_txn}
use calypso_experiments.Central.Simulation.Batches.{IsWorking, Writing, write_txn-Gives}
use calypso_experiments.Central.Simulation.Reads.{read_txn-Gives}

module _ (C : Crypto) (B : Bolt) (N : Codec C) (L : IsBolt B) (K : IsCodec (write_schema N))
    (S : IsSound C) (T : Transport C) (at : T.World → T.Server → Service C B N)
    (D : Delivers C B N T at) (dest : T.Server) (rest : List T.Server)
    (W : IsWorking C B N L K S T at D dest rest) (sk : C.Scalar) where
  -- The write data that the runs make, one after the other.
  abbrev pub Made : List (C.Scalar × Item C) → List (WriteData C) → Type 0
  Made [] [] = Unit
  Made [] (wd ∷ wds) = ⊥
  Made (p ∷ items) [] = ⊥
  Made (p ∷ items) (wd ∷ wds) =
      (create_write_data C (p.1).draws (p.1).content (C.mul_base p.0) (C.mul_base sk) false ≡ ok wd)
      × Made items wds

  Writing-moves :
      (wds : List (WriteData C)) (w w' : T.World)
      → at w' dest ≡ at w dest
      → Writing C B N L K S T at D dest rest sk wds w
      → Writing C B N L K S T at D dest rest sk wds w'
  Writing-moves wds w w' e inv = record {
    owner = ap (λ (s : Service C B N). s.private) e ∙ inv.owner;
    hashed = inv.hashed;
    new = subst (λ (s : Service C B N). AllNew C B s.db wds) (sym e) inv.new;
  }

  -- One run.
  run-Gives :
      (reader_sk : C.Scalar) (item : Item C) (wd : WriteData C) (wds : List (WriteData C))
      (w : T.World)
      → IsDrawn item.draws
      → create_write_data C item.draws item.content (C.mul_base reader_sk) (C.mul_base sk) false
        ≡ ok wd
      → Writing C B N L K S T at D dest rest sk (wd ∷ wds) w
      → Gives
          (run_fully_centralized_calypso C T (dest ∷ rest) reader_sk (C.mul_base sk) item)
          w
          (λ w' printed. (printed ≡ item.content) × Writing C B N L K S T at D dest rest sk wds w')
  unfolding run_fully_centralized_calypso
  run-Gives reader_sk item wd wds w d made inv =
      let (wd₁, created, seals₁, blank) =
        create_write_data-Seals C S item.draws d sk item.content (C.mul_base reader_sk) in
      let seals : Seals C wd sk (C.mul_base reader_sk) item.content item.draws.sym_key =
        subst
          (λ (x : WriteData C). Seals C x sk (C.mul_base reader_sk) item.content item.draws.sym_key)
          (ok-injective (sym created ∙ made)) seals₁ in
      Gives-known _ wd _ w made (
        Gives-bind (write_txn C T (dest ∷ rest) wd) _ w
          (write_txn-Gives C B N L K S T at D dest rest W sk wd wds w inv)
          (λ v wd' (inv', (held, keyed), kept).
            Gives-bind (read_txn C T (dest ∷ rest) wd'.stored_key reader_sk item.seed) _ v
              (read_txn-Gives C B N L K S T at D dest rest W sk reader_sk wd' item item.seed v
                (record { made = wd; seals = seals; fits = d.fits; held = held; written = keyed }))
              (λ u points (same, opens).
                Gives-lift _ item.content u opens (refl, Writing-moves wds v u same inv'))))

  Made-hashed :
      (items : List (C.Scalar × Item C)) (wds : List (WriteData C))
      → All (λ (p : C.Scalar × Item C). IsDrawn (p.1).draws) items
      → Made items wds
      → All (λ (wd : WriteData C). wd.data_hash ≡ C.sum256 wd.content) wds
  Made-hashed [] [] drawn made = tt
  Made-hashed [] (_ ∷ _) drawn made = absurd made
  Made-hashed (_ ∷ _) [] drawn made = absurd made
  Made-hashed ((reader_sk, item) ∷ items) (wd ∷ wds) (d, drawn) (made, mades) =
      let (wd₁, created, seals, blank) =
        create_write_data-Seals C S item.draws d sk item.content (C.mul_base reader_sk) in
      (
        subst (λ (x : WriteData C). x.data_hash ≡ C.sum256 x.content)
            (ok-injective (sym created ∙ made)) seals.hashed,
        Made-hashed items wds drawn mades,
      )

  items_from-IsDrawn :
      (itoa : ℕ → Bytes) (base : Bytes) (i : ℕ) (drawn : List (Drawn C))
      → All (λ (d : Drawn C). IsDrawn d.draws) drawn
      → All (λ (p : C.Scalar × Item C). IsDrawn (p.1).draws) (items_from itoa base i drawn)
  unfolding items_from item_at
  items_from-IsDrawn itoa base i [] all = tt
  items_from-IsDrawn itoa base i (d ∷ ds) (h, all) =
      (h, items_from-IsDrawn itoa base (suc i) ds all)

  -- The texts of the runs.
  abbrev pub texts : List (C.Scalar × Item C) → List Bytes
  texts items = map (λ (p : C.Scalar × Item C). (p.1).content) items

  run_all-texts :
      (items : List (C.Scalar × Item C)) (wds : List (WriteData C)) (w : T.World)
      → All (λ (p : C.Scalar × Item C). IsDrawn (p.1).draws) items
      → Made items wds
      → Writing C B N L K S T at D dest rest sk wds w
      → (run_all C T (dest ∷ rest) (C.mul_base sk) items w).1 ≡ (texts items, ok tt)
  unfolding run_all
  run_all-texts [] [] w drawn made inv = refl
  run_all-texts [] (_ ∷ _) w drawn made inv = absurd made
  run_all-texts (_ ∷ _) [] w drawn made inv = absurd made
  run_all-texts ((reader_sk, item) ∷ items) (wd ∷ wds) w (d, drawn) (made, mades) inv =
      let g = run-Gives reader_sk item wd wds w d made inv in
      let more = run_all-texts items wds g.world drawn mades g.holds.1 in
      rw (g.runs, run_all, g.runs, more, g.holds.0) refl

  -- On a server that works, with two files that give the roster and the server's key, with keys, for
  -- AES-128, and nonces that could be drawn, and write data whose keys differ and are new to the server:
  -- the program prints the text of each of its runs, in order, and
  -- ends without an error.
  pub main-texts :
      {File : Type 0} (read_group : File → Result (List T.Server)) (roster_file : Result File)
      (parse : Text → Result C.Point) (key_file : Result (List Text)) (itoa : ℕ → Bytes)
      (base : Bytes) (drawn : List (Drawn C)) (wds : List (WriteData C)) (w : T.World)
      → read_roster read_group roster_file ≡ ok (some (dest ∷ rest))
      → get_server_key C parse key_file ≡ ok (C.mul_base sk)
      → (at w dest).private ≡ sk
      → All (λ (d : Drawn C). IsDrawn d.draws) drawn
      → Made (items_from itoa base 0 drawn) wds
      → AllNew C B (at w dest).db wds
      → (main C T read_group roster_file parse key_file itoa base drawn w).1
        ≡ ok (texts (items_from itoa base 0 drawn), ok tt)
  unfolding main
  main-texts read_group roster_file parse key_file itoa base drawn wds w roster key owner all_drawn
        made new =
      let items = items_from itoa base 0 drawn in
      let items_drawn = items_from-IsDrawn itoa base 0 drawn all_drawn in
      let printed : (run_all C T (dest ∷ rest) (C.mul_base sk) items w).1 ≡ (texts items, ok tt) =
        run_all-texts items wds w items_drawn made
          (record { owner = owner; hashed = Made-hashed items wds items_drawn made; new = new }) in
      rw (roster, key, main) (ap ok printed)
