-- ===== src/Samples/Encoding.antt =====
-- An encoding of the write transactions: lists of numbers, each raised by one, with a zero behind.
use calypso_experiments.Base.{ℕ, zero, suc, ◌≡◌, refl, List, [], ◌∷◌}
use calypso_experiments.Base.Bytes.{Bytes}
use calypso_experiments.Semi.{SemiWrite}
use calypso_experiments.Samples.Suite.{suite}

abbrev pack : List ℕ → Bytes → Bytes
pack [] rest = 0 ∷ rest
pack (n ∷ ns) rest = suc n ∷ pack ns rest

abbrev push : ℕ → List ℕ × Bytes → List ℕ × Bytes
push n (ns, rest) = (n ∷ ns, rest)

abbrev unpack : Bytes → List ℕ × Bytes
unpack [] = ([], [])
unpack (zero ∷ rest) = ([], rest)
unpack (suc n ∷ rest) = push n (unpack rest)

unpack-pack : (ns : List ℕ) (rest : Bytes) → unpack (pack ns rest) ≡ (ns, rest)
unpack-pack [] rest = refl
unpack-pack (n ∷ ns) rest = rw (unpack-pack ns rest) refl

abbrev point : List ℕ → ℕ × Bytes
point [] = (0, [])
point (n ∷ ns) = (n, ns)

abbrev pub encode_semi : SemiWrite suite → Bytes
encode_semi s = pack s.data_hash (
    pack (s.k.0 ∷ s.k.1)
      (pack (s.c.0 ∷ s.c.1) (pack (s.reader.0 ∷ s.reader.1) (pack s.enc_reader []))))

abbrev pub decode_semi : Bytes → SemiWrite suite
decode_semi b =
    let data_hash = unpack b in
    let k = unpack data_hash.1 in
    let c = unpack k.1 in
    let reader = unpack c.1 in
    let enc_reader = unpack reader.1 in
    record {
      data_hash = data_hash.0;
      k = point k.0;
      c = point c.0;
      reader = point reader.0;
      enc_reader = enc_reader.0;
    }

pub decode_semi-encode_semi : (s : SemiWrite suite) → decode_semi (encode_semi s) ≡ s
decode_semi-encode_semi s =
    rw
      (
        unpack-pack s.data_hash (
            pack (s.k.0 ∷ s.k.1)
              (pack (s.c.0 ∷ s.c.1) (pack (s.reader.0 ∷ s.reader.1) (pack s.enc_reader [])))),
        unpack-pack s.k.1
            (pack (s.c.0 ∷ s.c.1) (pack (s.reader.0 ∷ s.reader.1) (pack s.enc_reader []))),
        unpack-pack s.c.1 (pack (s.reader.0 ∷ s.reader.1) (pack s.enc_reader [])),
        unpack-pack s.reader.1 (pack s.enc_reader []),
        unpack-pack s.enc_reader [],
      )
      refl
