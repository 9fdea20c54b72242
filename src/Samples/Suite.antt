-- ===== src/Samples/Suite.antt =====
-- A suite over the numbers: points are a multiple of the base with embedded data.
use calypso_experiments.Base.{
  ℕ, ◌+◌, ◌-◌, ◌*◌, ◌%◌, ◌≡◌, refl, sym, [], ◌∷◌, none, some, Result, ok, err, ◌==◌, if◌then◌else◌,
  length, take, replicate, arith,
}
use mathlib.Core.Path.{ap₂}
use calypso_experiments.Base.Bytes.{Bytes, IsBytes, eq_bytes, eq_bytes_refl}
use calypso_experiments.Crypto.{Crypto, IsSound}
use calypso_experiments.Util.{Draws}
use calypso_experiments.Util.RoundTrip.{IsDrawn}

abbrev pub low_bytes : Bytes → Bytes
low_bytes [] = []
low_bytes (b ∷ bs) = b % 256 ∷ low_bytes bs

pub low_bytes-IsBytes : (d : Bytes) → IsBytes (low_bytes d)
low_bytes-IsBytes [] = tt
low_bytes-IsBytes (b ∷ bs) = (omega arith, low_bytes-IsBytes bs)

abbrev pub unmark : Bytes → Result Bytes
unmark [] = err "cipher: message authentication failed"
unmark (b ∷ bs) = ok bs

abbrev pub suite : Crypto
suite = record {
  Scalar = ℕ;
  Point = ℕ × Bytes;
  mul_base = λ k. (k, []);
  mul = λ k p. (k * p.0, []);
  add = λ a b. (a.0 + b.0, b.1);
  sub = λ a b. (a.0 - b.0, a.1);
  Seed = Unit {0};
  embed = λ m r. (0, take 29 m);
  embed_len = 29;
  point_data = λ p. ok p.1;
  marshal_binary = λ p. ok (p.0 ∷ p.1);
  Block = Unit {0};
  Gcm = Unit {0};
  new_cipher = λ key. if length key == 16 then ok tt else err "crypto/aes: invalid key size";
  new_gcm = λ b. ok tt;
  seal = λ g nonce d. b'x' ∷ d;
  unseal = λ g nonce d. unmark d;
  sum256 = low_bytes;
  sign = λ k m r. ok (k ∷ m);
  verify = λ p m sig. if eq_bytes sig (p.0 ∷ m) then none else some "schnorr: invalid signature";
}

pub suite-IsSound : IsSound suite
suite-IsSound = record {
  sub-add = λ s m. ap₂ (λ (a : ℕ) (b : Bytes). (a, b)) (omega arith) refl;
  mul_comm = λ a b. ap₂ (λ (a : ℕ) (b : Bytes). (a, b)) (omega arith) refl;
  point_data-embed = λ m r. refl;
  new_cipher_sixteen = λ key h. (tt, rw h refl);
  new_gcm_total = λ b. (tt, refl);
  unseal-seal = λ g nonce d. refl;
  sum256-IsBytes = low_bytes-IsBytes;
  verify-sign = λ k m sig r h. sign_lem k m sig h;
}
  where
    sign_lem : (k : ℕ) (m sig : Bytes) → ok (k ∷ m) ≡ ok sig → suite.verify (k, []) m sig ≡ none
    sign_lem k m sig h = let e : k ∷ m ≡ sig = cc in rw (sym e, eq_bytes_refl (k ∷ m)) refl

abbrev pub nonce : Bytes
nonce = replicate 12 7

abbrev pub draws : Draws suite
draws = record {
  sym_key = replicate 16 3;
  data_nonce = ok nonce;
  key_seed = tt;
  ephemeral = 5;
  reader_nonce = ok nonce;
}

pub draws-IsDrawn : IsDrawn draws
draws-IsDrawn = record {
  fits = omega arith;
  key_length = refl;
  nonce = nonce;
  nonce_read = refl;
  nonce_length = refl;
  other_nonce = nonce;
  other_nonce_read = refl;
  other_nonce_length = refl;
}
