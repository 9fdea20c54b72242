-- ===== src/Hex.antt =====
-- Go's `encoding/hex`, as the two services use it for the keys that they hand out: `EncodeToString`
-- and `DecodeString` over the bytes of a string.
pub mod RoundTrip
use calypso_experiments.Base.{
  ℕ, ◌+◌, ◌-◌, ◌*◌, ◌/◌, ◌%◌, List, [], ◌∷◌, Bool, ◌&&◌, Result, ok, err, ◌>>=◌, leb, ltb,
  if◌then◌else◌,
}
use calypso_experiments.Base.Bytes.{Bytes}

-- A Go string, by its bytes.
abbrev pub Text : Type 0
Text = List ℕ

-- The digit of a number below 16.
unfoldable pub hex_digit : ℕ → ℕ
hex_digit n = if ltb n 10 then n + b'0' else n - 10 + b'a'

-- `hex.EncodeToString`
unfoldable pub encode_to_string : Bytes → Text
unfolding hex_digit
encode_to_string [] = []
encode_to_string (b ∷ bs) = hex_digit (b / 16) ∷ hex_digit (b % 16) ∷ encode_to_string bs

between : ℕ → ℕ → ℕ → Bool
between lo hi c = leb lo c && leb c hi

unfoldable pub from_hex_char : ℕ → Result ℕ
unfolding between
from_hex_char c =
    if between b'0' b'9' c
    then ok (c - b'0')
    else if between b'a' b'f' c
    then ok (c - b'a' + 10)
    else if between b'A' b'F' c
    then ok (c - b'A' + 10)
    else err "encoding/hex: invalid byte"

-- `hex.DecodeString`
unfoldable pub decode_string : Text → Result Bytes
unfolding from_hex_char
decode_string [] = ok []
decode_string (c ∷ []) = do _ ← from_hex_char c; err "encoding/hex: odd length hex string"
decode_string (c ∷ d ∷ cs) = do
  hi ← from_hex_char c
  lo ← from_hex_char d
  rest ← decode_string cs
  ok ((hi * 16 + lo) ∷ rest)
