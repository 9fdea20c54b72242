-- ===== src/Crypto.antt =====
-- The cryptography that the program calls and does not implement: the suite of kyber, AES-GCM and
-- SHA-256 of Go's library, and Schnorr signatures. `Crypto` has the operations, `IsSound` what the
-- program relies on.
use calypso_experiments.Base.{ℕ, ◌≡◌, Option, none, length, take, Result, ok, Error}
use calypso_experiments.Base.Bytes.{Bytes, IsBytes}

pub record Crypto : Type 1 where
  -- kyber.Scalar and kyber.Point
  pub Scalar : Type 0
  pub Point : Type 0
  -- `Point().Mul(k, nil)`, `Point().Mul(k, p)`, `Point().Add(a, b)`, `Point().Sub(a, b)`
  pub mul_base : Scalar → Point
  pub mul : Scalar → Point → Point
  pub add : Point → Point → Point
  pub sub : Point → Point → Point
  -- what `random.New()` gives to one call of `Embed` or of `Sign`
  pub Seed : Type 0
  pub embed : Bytes → Seed → Point
  pub embed_len : ℕ
  pub point_data : Point → Result Bytes
  pub marshal_binary : Point → Result Bytes
  -- `aes.NewCipher`, `cipher.NewGCM`, `Seal(nil, nonce, data, nil)`, `Open(nil, nonce, data, nil)`
  pub Block : Type 0
  pub Gcm : Type 0
  pub new_cipher : Bytes → Result Block
  pub new_gcm : Block → Result Gcm
  pub seal : Gcm → Bytes → Bytes → Bytes
  pub unseal : Gcm → Bytes → Bytes → Result Bytes
  -- `sha256.Sum256`
  pub sum256 : Bytes → Bytes
  -- `schnorr.Sign` and `schnorr.Verify`
  pub sign : Scalar → Bytes → Seed → Result Bytes
  pub verify : Point → Bytes → Bytes → Option Error

pub record IsSound (C : Crypto) : Type 0 where
  -- a commutative group with an action of the scalars
  pub sub-add : (s m : C.Point) → C.sub (C.add s m) s ≡ m
  pub mul_comm : (a b : C.Scalar) → C.mul a (C.mul_base b) ≡ C.mul b (C.mul_base a)
  -- as much of the message as fits
  pub point_data-embed :
      (m : Bytes) (r : C.Seed) → C.point_data (C.embed m r) ≡ ok (take C.embed_len m)
  pub new_cipher_sixteen :
      (key : Bytes) → length key ≡ 16 → (b : C.Block) × (C.new_cipher key ≡ ok b)
  pub new_gcm_total : (b : C.Block) → (g : C.Gcm) × (C.new_gcm b ≡ ok g)
  pub unseal-seal : (g : C.Gcm) (nonce d : Bytes) → C.unseal g nonce (C.seal g nonce d) ≡ ok d
  pub sum256-IsBytes : (d : Bytes) → IsBytes (C.sum256 d)
  pub verify-sign :
      (k : C.Scalar) (m sig : Bytes) (r : C.Seed)
      → C.sign k m r ≡ ok sig
      → C.verify (C.mul_base k) m sig ≡ none
