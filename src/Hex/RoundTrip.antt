-- ===== src/Hex/RoundTrip.antt =====
-- Decoding gives back what was encoded.
use calypso_experiments.Base.{ℕ, ◌<◌, ◌/◌, ◌%◌, ◌≡◌, refl, [], ◌∷◌, ok, arith}
use calypso_experiments.Base.Bytes.{Bytes, IsBytes}
use calypso_experiments.Hex.{hex_digit, from_hex_char, encode_to_string, decode_string}

from_hex_char-hex_digit : (n : ℕ) → n < 16 → from_hex_char (hex_digit n) ≡ ok n
unfolding from_hex_char hex_digit
from_hex_char-hex_digit n h = ground arith

pub decode_string-encode_to_string :
    (b : Bytes) → IsBytes b → decode_string (encode_to_string b) ≡ ok b
unfolding encode_to_string decode_string
decode_string-encode_to_string [] h = refl
decode_string-encode_to_string (x ∷ b) h = ground (
  arith,
  from_hex_char-hex_digit (x / 16) (omega arith),
  from_hex_char-hex_digit (x % 16) (omega arith),
  decode_string-encode_to_string b h.1,
)
