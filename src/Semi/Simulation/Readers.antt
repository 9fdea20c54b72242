-- ===== src/Semi/Simulation/Readers.antt =====
-- The readers of the simulation, against a server that holds their data and a ledger that works.
use calypso_experiments.Base.{
  ℕ, ◌≡◌, ◌≤◌, ◌<◌, refl, sym, List, ◌∷◌, true, Result-cases, inl, inr, none, ok, All, length,
}
use mathlib.Core.Path.{subst}
use calypso_experiments.Base.Bytes.{Bytes}
use calypso_experiments.Base.Calls.Succeed.{Gives, Gives-runs, Gives-weaken}
use calypso_experiments.Hex.{Text, encode_to_string}
use calypso_experiments.Crypto.{Crypto, IsSound}
use calypso_experiments.Byzcoin.{Byzcoin}
use calypso_experiments.Store.{Bolt, IsBolt, IsCodec}
use calypso_experiments.Util.{WriteData, aead_open}
use calypso_experiments.Util.RoundTrip.{Seals}
use calypso_experiments.Workload.{Item}
use calypso_experiments.Sharing.{run_schedule, spawn_all}
use calypso_experiments.Sharing.Goroutines.{IsWorking}
use calypso_experiments.Sharing.Schedules.{turns_in, all_ended, run_schedule-ends}
use calypso_experiments.Semi.{Ledger, Codec, store_schema, Service, DecryptRequest}
use calypso_experiments.Semi.Client.{
  Transport, client_decrypt, sign_decrypt, semi_write_of, add_read_transaction,
}
use calypso_experiments.Semi.Holds.{Delivers, Holds}
use calypso_experiments.Semi.Recovery.{client_decrypt-recovers}
use calypso_experiments.Semi.Simulation.{SetUp, sharing, open_written}

-- A ledger that accepts every read and proves it. `Asked y p id` says that the instance `id` is a read
-- of the write that `p` proves.
pub record IsLedger {C : Crypto} {G : Ledger C} {T : Transport G} (Y : Byzcoin) (U : SetUp G T Y)
    (Asked : Y.World → Y.Proof → Bytes → Type 0) : Type 0 where
  pub reads :
      (y : Y.World) (p : Y.Proof) (wait : ℕ)
      → Gives
          (λ v. add_read_transaction Y U.zero_nonce U.encode_read v p U.reader U.darc wait)
          y
          (λ y' reply.
            Asked y' p reply.instance_id
            × ((p' : Y.Proof) (id : Bytes) → Asked y p' id → Asked y' p' id))
  pub proves :
      (y : Y.World) (p : Y.Proof) (id : Bytes)
      → Asked y p id
      → Gives
          (λ v. Y.get_proof v id)
          y
          (λ y' q.
            (Y.is_match q ≡ true)
            × (G.read_value (U.as_proof q)
                ≡ ok (record { write = G.new_instance_id (G.inclusion_key (U.as_proof p)) }))
            × (G.verify_proof (U.as_proof q) U.sc_id ≡ none)
            × ((p' : Y.Proof) (id' : Bytes) → Asked y p' id' → Asked y' p' id'))

module _ (C : Crypto) (G : Ledger C) (B : Bolt) (N : Codec) (L : IsBolt B)
    (K : IsCodec (store_schema N)) (S : IsSound C) (T : Transport G)
    (at : T.World → T.Server → Service C G B N) (D : Delivers C G B N T at) (dest : T.Server)
    (rest : List T.Server) (Y : Byzcoin) (U : SetUp G T Y) (sk : C.Scalar) where
  -- What the readers rely on: the first server of the roster, to which a request for decryption does
  -- nothing, and keys that sign.
  pub record Serves : Type 0 where
    pub roster_is : U.roster ≡ dest ∷ rest
    pub decrypts_keep :
        (t : T.World) (req : DecryptRequest G) → at (T.send_decrypt t dest req).0 dest ≡ at t dest
    pub signs : (m : Bytes) (seed : C.Seed) → (sig : Bytes) × (C.sign U.reader_sk m seed ≡ ok sig)

  -- Data for the reader that the server holds, with a proof of its write.
  pub record IsStored (written : WriteData C × Item C) (p : Y.Proof) (w : T.World × Y.World)
      : Type 0 where
    pub held : Holds C G B N (at w.0 dest) sk written.0
    pub sym_key : Bytes
    pub fits : length sym_key ≤ C.embed_len
    pub seals : Seals C written.0 sk (C.mul_base U.reader_sk) (written.1).content sym_key
    pub reader_bytes : Bytes
    pub unsealed : aead_open C sym_key (written.0).enc_reader ≡ ok reader_bytes
    pub marshalled : C.marshal_binary (C.mul_base U.reader_sk) ≡ ok reader_bytes
    pub keyed : (written.0).stored_key ≡ encode_to_string (written.0).data_hash
    pub is_write : G.write_value (U.as_proof p) ≡ ok (semi_write_of written.0)
    pub write_proved : G.verify_proof (U.as_proof p) U.sc_id ≡ none

  client_decrypt-state :
      Serves
      → (t : T.World) (p q : G.Proof) (key : Text) (seed : C.Seed)
      → at (client_decrypt G T t (dest ∷ rest) U.sc_id p q key U.reader_sk seed).0 dest ≡ at t dest
  unfolding client_decrypt
  client_decrypt-state V t p q key seed =
      elim (Result-cases (sign_decrypt G T p q key U.sc_id U.reader_sk seed)) [
        | inl (dr, e) ↦ rw (e, client_decrypt) (V.decrypts_keep t dr)
        | inr (inl (x, e)) ↦ rw (e, client_decrypt) refl
        | inr (inr e) ↦ rw (e, client_decrypt) refl
      ]

  -- It goes on being that while the server holds the data.
  pub IsStored-Holds :
      (written : WriteData C × Item C) (p : Y.Proof) (w w' : T.World × Y.World)
      → Holds C G B N (at w'.0 dest) sk written.0
      → IsStored written p w
      → IsStored written p w'
  IsStored-Holds written p w w' held s = record {
    held = held;
    sym_key = s.sym_key;
    fits = s.fits;
    seals = s.seals;
    reader_bytes = s.reader_bytes;
    unsealed = s.unsealed;
    marshalled = s.marshalled;
    keyed = s.keyed;
    is_write = s.is_write;
    write_proved = s.write_proved;
  }

  pub IsStored-moves :
      (written : WriteData C × Item C) (p : Y.Proof) (w w' : T.World × Y.World)
      → at w'.0 dest ≡ at w.0 dest
      → IsStored written p w
      → IsStored written p w'
  IsStored-moves written p w w' e s =
      IsStored-Holds written p w w'
        (subst (λ (x : Service C G B N). Holds C G B N x sk written.0) (sym e) s.held) s

  module _ (Asked : Y.World → Y.Proof → Bytes → Type 0) (A : IsLedger Y U Asked) (V : Serves) where
    abbrev pub HasRead : Y.Proof → Bytes → T.World × Y.World → Type 0
    HasRead p id w = Asked w.1 p id

    abbrev pub IsOf : Y.Proof → Y.Proof → Type 0
    IsOf p q =
        (G.read_value (U.as_proof q)
          ≡ ok (record { write = G.new_instance_id (G.inclusion_key (U.as_proof p)) }))
        × (G.verify_proof (U.as_proof q) U.sc_id ≡ none)

    pub opened :
        (w : T.World × Y.World) (written : WriteData C × Item C) (p q : Y.Proof)
        → IsStored written p w
        → IsOf p q
        → Gives (open_written C G T Y U written p q) w (λ w' content.
          (content ≡ (written.1).content) × (at w'.0 dest ≡ at w.0 dest) × (w'.1 ≡ w.1))
    unfolding open_written
    opened (t, y) (wd, item) p q s (is_read, read_proved) =
        let (sig, signed) = V.signs wd.data_hash item.seed in
        let (reply, answered, opens) =
          client_decrypt-recovers C G B N L K S T at D t dest rest U.sc_id (U.as_proof p)
            (U.as_proof q) wd sk U.reader_sk item.content s.sym_key s.reader_bytes sig item.seed
            s.fits s.held s.seals s.unsealed s.marshalled
            (record {
              is_write = s.is_write;
              is_read = is_read;
              write_proved = s.write_proved;
              read_proved = read_proved;
            })
            signed in
        let key = encode_to_string wd.data_hash in
        let t' =
          (client_decrypt G T t (dest ∷ rest) U.sc_id (U.as_proof p) (U.as_proof q) key U.reader_sk
            item.seed).0 in
        Gives-runs _ item.content (t, y) (t', y) (rw (V.roster_is, s.keyed, answered, opens) refl)
          (refl, client_decrypt-state V t (U.as_proof p) (U.as_proof q) key item.seed, refl)

    -- The server and the ledger make a client that works for its readers.
    pub sharing-IsWorking : IsWorking (sharing C G T Y U) IsStored HasRead IsOf
    sharing-IsWorking = record {
      reads = λ (t, y) written p wait s.
          let r = A.reads y p wait in
          Gives-runs _ (r.value).instance_id (t, y) (t, r.world) (rw r.runs refl)
            (
              r.holds.0,
              (
                λ written' p' s'. IsStored-moves written' p' (t, y) (t, r.world) refl s',
                λ p' id h. r.holds.1 p' id h,
              ),
            );
      proves = λ (t, y) p id asked.
          let r = A.proves y p id asked in
          let (match, is_read, proved, later) = r.holds in
          Gives-runs _ r.value (t, y) (t, r.world) (rw r.runs refl)
            (
              match,
              (is_read, proved),
              (λ written' p' s'. IsStored-moves written' p' (t, y) (t, r.world) refl s', later),
            );
      opens = λ w written p q s of_it.
          Gives-weaken _ w (opened w written p q s of_it) (λ w' content (same, still, ledger). (
            same,
            (
              λ written' p' s'. IsStored-moves written' p' w w' still s',
              λ p' id h. subst (λ y. Asked y p' id) (sym ledger) h,
            ),
          ));
    }

    -- With a ledger that works, readers of data that a server holds for them: under every schedule that
    -- gives at least three turns to each, the goroutines of `runMultiClientSimulation` all end
    -- without an error, so that each has recovered the content that was written.
    pub readers_end :
        (wait : ℕ) (schedule : List ℕ) (written : List ((WriteData C × Item C) × Y.Proof))
        (w : T.World × Y.World)
        → All (λ (p : (WriteData C × Item C) × Y.Proof). IsStored p.0 p.1 w) written
        → ((i : ℕ) → i < length written → 3 ≤ turns_in schedule i)
        → (run_schedule
            (sharing C G T Y U)
            wait
            schedule
            (w, spawn_all (sharing C G T Y U) written)).1
          ≡ all_ended written
    readers_end wait schedule written w stored fair =
        run_schedule-ends (sharing C G T Y U) IsStored HasRead IsOf sharing-IsWorking wait schedule
          written w stored fair
