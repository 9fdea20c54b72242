-- ===== src/Semi/Simulation/Rounds.antt =====
-- Whole rounds of the simulation, on a server and a ledger that work.
use calypso_experiments.Base.{
  ℕ, ◌≡◌, refl, sym, ap, ◌∙◌, List, [], ◌++◌, ok, All, All-append, append_nil,
}
use mathlib.Core.Path.{subst}
use calypso_experiments.Base.Bytes.{Bytes}
use calypso_experiments.Base.Calls.{◌>>=◌, give, each, each_waiting, zip}
use calypso_experiments.Base.Calls.Succeed.{
  Gives, Gives-give, Gives-weaken, Gives-bind, Both, Both-map, Both-flip, Both-compose,
  Both-zip_both, each-Gives,
}
use calypso_experiments.Hex.{encode_to_string}
use calypso_experiments.Crypto.{Crypto, IsSound}
use calypso_experiments.Byzcoin.{Byzcoin}
use calypso_experiments.Store.{Bolt, IsBolt, IsCodec}
use calypso_experiments.Util.{WriteData}
use calypso_experiments.Util.Fresh.{AllNew}
use calypso_experiments.Util.RoundTrip.{IsDrawn}
use calypso_experiments.Workload.{Item}
use calypso_experiments.Sharing.{get_proofs}
use calypso_experiments.Semi.{SemiWrite, Ledger, Codec, store_schema, Service}
use calypso_experiments.Semi.Client.{Transport, semi_write_of}
use calypso_experiments.Semi.Holds.{Delivers, Holds}
use calypso_experiments.Semi.Simulation.{SetUp, sharing, create_all, store_one, add_one, write_all}
use calypso_experiments.Semi.Simulation.Readers.{IsStored}
use calypso_experiments.Semi.Simulation.Added.{
  TakesWrites, HasWritten, Shows, IsProof, adds-Give, proofs-Give, AreWrites-Both,
}
use calypso_experiments.Semi.Simulation.Writes.{
  Accepts, IsSealed, IsKept, Storing, Storing-moves, create_all_lem, store_one-Gives,
}

module _ (C : Crypto) (G : Ledger C) (B : Bolt) (N : Codec) (L : IsBolt B)
    (K : IsCodec (store_schema N)) (S : IsSound C) (T : Transport G)
    (at : T.World → T.Server → Service C G B N) (D : Delivers C G B N T at) (dest : T.Server)
    (rest : List T.Server) (Y : Byzcoin) (U : SetUp G T Y) (sk : C.Scalar)
    (reader_bytes : Bytes) where
  -- Write data that the server holds, as its readers get it.
  pub record IsReady (wd : WriteData C) (item : Item C) (w : T.World × Y.World) : Type 0 where
    pub made : WriteData C
    pub sealed : IsSealed C G B N L K S T at D dest rest Y U sk reader_bytes item made w
    pub kept : IsKept C G B N L K S T at D dest rest Y U sk reader_bytes made wd w

  IsReady-moves :
      (wd : WriteData C) (item : Item C) (w w' : T.World × Y.World)
      → w'.0 ≡ w.0
      → IsReady wd item w
      → IsReady wd item w'
  IsReady-moves wd item w w' e r = record {
    made = r.made;
    sealed = r.sealed;
    kept =
        (subst (λ (t : T.World). Holds C G B N (at t dest) sk r.made) (sym e) r.kept.0, r.kept.1);
  }

  -- With a proof of its write, it is what a reader needs.
  IsReady-IsStored :
      C.marshal_binary (C.mul_base U.reader_sk) ≡ ok reader_bytes
      → (wd : WriteData C) (item : Item C) (p : Y.Proof) (w : T.World × Y.World) → IsReady wd item w
      → Shows C G T Y U (semi_write_of wd) p
      → IsStored C G B N L K S T at D dest rest Y U sk (wd, item) p w
  IsReady-IsStored marshalled wd item p w r shown =
      let (seals, fits, unsealed) = r.sealed in
      let wd' : WriteData C = record (r.made) { stored_key = encode_to_string r.made.data_hash } in
      subst (λ (x : WriteData C). IsStored C G B N L K S T at D dest rest Y U sk (x, item) p w)
        (sym r.kept.1)
        (record {
          held = record { owner = (r.kept.0).owner; kept = (r.kept.0).kept };
          sym_key = item.draws.sym_key;
          fits = fits;
          seals = record {
            hashed = seals.hashed;
            addressed = seals.addressed;
            key_opens = seals.key_opens;
            content_opens = seals.content_opens;
          };
          reader_bytes = reader_bytes;
          unsealed = unsealed;
          marshalled = marshalled;
          keyed = refl;
          is_write = shown.0 ∙ ap (λ (x : WriteData C). ok (semi_write_of x)) r.kept.1;
          write_proved = shown.1;
        })

  stores-Give :
      Accepts C G B N L K S T at D dest rest Y U sk reader_bytes
      → (items : List (Item C)) (wds later : List (WriteData C)) (w : T.World × Y.World)
      → Both (IsSealed C G B N L K S T at D dest rest Y U sk reader_bytes) w items wds
      → Storing C G B N L K S T at D dest rest Y U sk reader_bytes (wds ++ later) w
      → Gives (each (store_one C G T Y U) wds) w (λ w' stored.
        Storing C G B N L K S T at D dest rest Y U sk reader_bytes later w'
        × Both IsReady w' stored items)
  stores-Give A items wds later w sealed inv =
      Gives-weaken _ w
        (each-Gives
          (λ more v. Storing C G B N L K S T at D dest rest Y U sk reader_bytes (more ++ later) v)
          (IsKept C G B N L K S T at D dest rest Y U sk reader_bytes) (store_one C G T Y U)
          (λ wd more v h.
            store_one-Gives C G B N L K S T at D dest rest Y U sk reader_bytes A wd (more ++ later)
              v h)
          wds w inv)
        (λ w' stored filled. (
          filled.0,
          Both-compose (IsSealed C G B N L K S T at D dest rest Y U sk reader_bytes)
              (IsKept C G B N L K S T at D dest rest Y U sk reader_bytes) IsReady w w'
              (λ item wd wd' p q. record { made = wd; sealed = p; kept = q }) items wds stored
              sealed filled.1,
        ))

  -- The keys of the write data are new to the server, and differ.
  abbrev pub Fresh : T.World × Y.World → List (Item C) → Type 0
  Fresh w items =
      (wds : List (WriteData C))
      → create_all C G T Y U (C.mul_base sk) items ≡ ok wds
      → AllNew C B (at w.0 dest).db wds

  abbrev pub Stored : WriteData C × Item C → Y.Proof → T.World × Y.World → Type 0
  Stored p q w = IsStored C G B N L K S T at D dest rest Y U sk p q w

  -- What the loops that write end with.
  abbrev pub Written :
      List (Item C) → T.World × Y.World → List ((WriteData C × Item C) × Y.Proof) → Type 0
  Written items w written =
      (wds : List (WriteData C)) × (proofs : List Y.Proof) × (written ≡ zip (zip wds items) proofs)
      × Both IsReady w wds items
      × Both Stored w (zip wds items) proofs

  module _ (Wrote : Y.World → SemiWrite C → Bytes → Type 0) (W : TakesWrites Y U Wrote)
      (A : Accepts C G B N L K S T at D dest rest Y U sk reader_bytes)
      (marshalled : C.marshal_binary (C.mul_base U.reader_sk) ≡ ok reader_bytes) where
    -- The last two of the loops.
    proved-Give :
        (wait : ℕ) (items : List (Item C)) (wds : List (WriteData C)) (w : T.World × Y.World)
        → Both IsReady w wds items
        → Gives
            (each_waiting wait (add_one C G T Y U) wds >>= λ ids.
              get_proofs (sharing C G T Y U) "Write inclusion proof does not match" ids
              >>= λ proofs. give (zip (zip wds items) proofs))
            w
            (λ w' written. (w'.0 ≡ w.0) × Written items w' written)
    proved-Give wait items wds w ready =
        Gives-bind _ _ w (adds-Give C G T Y U Wrote W wait wds w) (λ v ids (same, added).
          Gives-bind _ _ v
            (proofs-Give C G T Y U Wrote W "Write inclusion proof does not match" ids v
              (AreWrites-Both C G T Y U Wrote W v wds ids added))
            (λ v' proofs (same', proved).
              let ready' : Both IsReady v' wds items =
                Both-map IsReady IsReady w v'
                  (λ wd item r. IsReady-moves wd item w v' (same' ∙ same) r) wds items ready in
              let shown : Both (λ wd p u. Shows C G T Y U (semi_write_of wd) p) v' wds proofs =
                Both-flip (λ p wd u. Shows C G T Y U (semi_write_of wd) p) v' proofs wds
                  (Both-compose (HasWritten C G T Y U Wrote W) (IsProof C G T Y U Wrote W v.1)
                    (λ p wd u. Shows C G T Y U (semi_write_of wd) p) v v'
                    (λ wd id p added' shows. shows (semi_write_of wd) added') wds ids proofs added
                    proved) in
              Gives-give (zip (zip wds items) proofs) v' (
                same' ∙ same,
                (
                  wds,
                  proofs,
                  refl,
                  ready',
                  Both-zip_both IsReady (λ wd p u. Shows C G T Y U (semi_write_of wd) p) Stored v'
                      (λ wd item p r s. IsReady-IsStored marshalled wd item p v' r s) wds items
                      proofs ready' shown,
                ),
              )))

    -- The fixed writes leave the keys of later write data new.
    pub write_all-later :
        (wait : ℕ) (items : List (Item C)) (later : List (WriteData C)) (w : T.World × Y.World)
        → All (λ (item : Item C). IsDrawn item.draws) items
        → (at w.0 dest).private ≡ sk
        → All (λ (wd : WriteData C). wd.data_hash ≡ C.sum256 wd.content) later
        → ((wds : List (WriteData C))
            → create_all C G T Y U (C.mul_base sk) items ≡ ok wds
            → AllNew C B (at w.0 dest).db (wds ++ later))
        → Gives (write_all C G T Y U wait (C.mul_base sk) items) w (λ w' written.
          Storing C G B N L K S T at D dest rest Y U sk reader_bytes later w'
          × Written items w' written)
    unfolding write_all
    write_all-later wait items later w drawn owner later_hashed fresh =
        let (wds, made, sealed, hashed) =
          create_all_lem C G B N L K S T at D dest rest Y U sk reader_bytes w items marshalled
            drawn in
        rw made (
          Gives-bind _ _ w
            (stores-Give A items wds later w sealed (record {
              owner = owner;
              hashed =
                  All-append (λ (wd : WriteData C). wd.data_hash ≡ C.sum256 wd.content) wds later
                    hashed later_hashed;
              new = fresh wds made;
            }))
            (λ v stored (left, ready).
              Gives-weaken _ v (proved-Give wait items stored v ready) (λ v' written (same, done). (
                Storing-moves C G B N L K S T at D dest rest Y U sk reader_bytes later v v'
                    (ap (λ (t : T.World). at t dest) same) left,
                done,
              ))))

    pub write_all-Gives :
        (wait : ℕ) (items : List (Item C)) (w : T.World × Y.World)
        → All (λ (item : Item C). IsDrawn item.draws) items
        → (at w.0 dest).private ≡ sk
        → Fresh w items
        → Gives (write_all C G T Y U wait (C.mul_base sk) items) w (Written items)
    write_all-Gives wait items w drawn owner fresh =
        Gives-weaken _ w
          (write_all-later wait items [] w drawn owner tt (λ wds made.
            subst (AllNew C B (at w.0 dest).db) (sym (append_nil wds)) (fresh wds made)))
          (λ w' written h. h.1)
