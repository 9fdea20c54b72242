-- ===== src/Xor.antt =====
-- `SafeXORBytes` of tournament_lottery/api.go and calypso_lottery/api.go.
pub mod Laws
use Prim.Native.Nat.{bit_xor}
use calypso_experiments.Base.{
  ℕ, List, [], ◌∷◌, Result, ok, panic, ◌>>=◌, length, ltb, if◌then◌else◌,
}
use calypso_experiments.Base.Bytes.{Bytes}

-- The loop: `dst[i] = a[i] ^ b[i]` up to the end of the shorter of `a` and `b`. It panics where `dst`
-- ends before. `dst` may be `a`: each byte is read before it is written.
unfoldable pub xor_into : Bytes → Bytes → Bytes → Result Bytes
xor_into dst [] b = ok dst
xor_into dst (x ∷ a) [] = ok dst
xor_into [] (x ∷ a) (y ∷ b) = panic
xor_into (d ∷ dst) (x ∷ a) (y ∷ b) = do rest ← xor_into dst a b; ok (bit_xor x y ∷ rest)

-- The number of bytes written, and `dst`.
unfoldable pub safe_xor_bytes : Bytes → Bytes → Bytes → Result (ℕ × Bytes)
unfolding xor_into
safe_xor_bytes dst a b = do
  dst' ← xor_into dst a b
  ok (if ltb (length b) (length a) then length b else length a, dst')
