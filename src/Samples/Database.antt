-- ===== src/Samples/Database.antt =====
-- A bucket that is a list of keys and values, and codecs that write each field behind its length.
use calypso_experiments.Base.{
  ℕ, ◌≡◌, refl, sym, inl, List, [], ◌∷◌, ◌++◌, Option, none, some, Result, ok, err, panic, Error,
  if◌then◌else◌, length, take, drop, take-append, drop-append,
}
use calypso_experiments.Base.Bytes.{Bytes, eq_bytes}
use calypso_experiments.Store.{Bolt, IsBolt, IsCodec, stored}
use calypso_experiments.Central
use calypso_experiments.Semi
use calypso_experiments.Samples.Suite.{suite}

abbrev pub Entries : Type 0
Entries = List (Bytes × Bytes)

abbrev pub lookup : Entries → Bytes → Option Bytes
lookup [] j = none
lookup ((k, v) ∷ b) j = if eq_bytes k j then some v else lookup b j

abbrev pub run_update : Entries → Result Entries → Entries × Option Error
run_update b (ok b') = (b', none)
run_update b (err e) = (b, some e)
run_update b panic = (b, none)

abbrev pub bolt : Bolt
bolt = record {
  Bucket = Entries;
  get = lookup;
  put = λ b k v. some ((k, v) ∷ b);
  update = λ b f. run_update b (f b);
  view = λ b f. f b;
}

pub bolt-IsBolt : IsBolt bolt
bolt-IsBolt = record {
  get-put = λ b b' k v j h. put_lem b b' k v j h;
  update_failed = λ b f e h. rw h refl;
  update_done = λ b b' f h. inl (rw h refl);
  view_read = λ b f. refl;
}
  where
    put_lem :
        (b b' : Entries) (k v j : Bytes)
        → some ((k, v) ∷ b) ≡ some b'
        → lookup b' j ≡ (if eq_bytes k j then some v else lookup b j)
    put_lem b b' k v j h = let e : (k, v) ∷ b ≡ b' = cc in rw (sym e) refl

pub field : Bytes → Bytes → Bytes
field b rest = length b ∷ (b ++ rest)

pub unfield : Bytes → Bytes × Bytes
unfield [] = ([], [])
unfield (n ∷ l) = (take n l, drop n l)

unfield-field : (b rest : Bytes) → unfield (field b rest) ≡ (b, rest)
unfolding field unfield
unfield-field b rest =
    rw (take-append b rest (length b) refl, drop-append b rest (length b) refl) refl

abbrev pub point : Bytes → ℕ × Bytes
point [] = (0, [])
point (n ∷ l) = (n, l)

abbrev pub central_codec : Central.Codec suite
central_codec = record {
  marshal = λ r. ok (
      field r.enc_data (
        field r.data_hash (
          field (r.k.0 ∷ r.k.1)
            (field (r.c.0 ∷ r.c.1) (field (r.reader.0 ∷ r.reader.1) (field r.enc_reader []))))));
  unmarshal = λ v.
      let (enc_data, v₁) = unfield v in
      let (data_hash, v₂) = unfield v₁ in
      let (k, v₃) = unfield v₂ in
      let (c, v₄) = unfield v₃ in
      let (reader, v₅) = unfield v₄ in
      let (enc_reader, _) = unfield v₅ in
      ok (
        stored (record {
          enc_data = enc_data;
          data_hash = data_hash;
          k = point k;
          c = point c;
          reader = point reader;
          enc_reader = enc_reader;
        }));
}

abbrev pub semi_codec : Semi.Codec
semi_codec = record {
  marshal = λ r. ok (field r.content (field r.data_hash []));
  unmarshal = λ v.
      let (content, v₁) = unfield v in
      let (data_hash, _) = unfield v₁ in
      ok (stored (record { content = content; data_hash = data_hash }));
}

pub semi_codec-IsCodec : IsCodec (Semi.store_schema semi_codec)
semi_codec-IsCodec = record {
  unmarshal-marshal = λ r v h.
      let e : field r.content (field r.data_hash []) ≡ v = cc in
      rw (sym e, unfield-field r.content (field r.data_hash []), unfield-field r.data_hash []) refl;
}

pub central_codec-IsCodec : IsCodec (Central.write_schema central_codec)
central_codec-IsCodec = record {
  unmarshal-marshal = λ r v h.
      let f₅ = field r.enc_reader [] in
      let f₄ = field (r.reader.0 ∷ r.reader.1) f₅ in
      let f₃ = field (r.c.0 ∷ r.c.1) f₄ in
      let f₂ = field (r.k.0 ∷ r.k.1) f₃ in
      let f₁ = field r.data_hash f₂ in
      let e : field r.enc_data f₁ ≡ v = cc in
      rw
        (
          sym e,
          unfield-field r.enc_data f₁,
          unfield-field r.data_hash f₂,
          unfield-field (r.k.0 ∷ r.k.1) f₃,
          unfield-field (r.c.0 ∷ r.c.1) f₄,
          unfield-field (r.reader.0 ∷ r.reader.1) f₅,
          unfield-field r.enc_reader [],
        )
        refl;
}
