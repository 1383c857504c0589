-- ===== src/Utils/Hex.antt =====
-- The printers of knight/src/utils/utils.cpp.
pub mod Digits
pub mod RoundTrip
use Prim.Native.Nat.{bit_and}
use dex_knight.Prelude.{ℕ, ◌/◌, ◌^◌, Bytes, [], ◌∷◌}
use dex_knight.Prelude.Chars.{hex_digit, to_chars_hex}
use dex_knight.External.{External}

-- `hex_quantity(uint64_t)`: 16 digits are enough for 64 bits, and the buffer holds 18.
unfoldable pub hex_quantity : ℕ → Bytes
unfolding hex_digit to_chars_hex
hex_quantity value = b'0' ∷ b'x' ∷ to_chars_hex 15 value []

-- `byte >> 4` and `byte & 0x0f`.
high_nibble : ℕ → ℕ
high_nibble byte = bit_and (byte / 2 ^ 4) 0x0f

low_nibble : ℕ → ℕ
low_nibble byte = bit_and byte 0x0f

unfoldable pub digits_of : Bytes → Bytes
unfolding hex_digit high_nibble low_nibble
digits_of [] = []
digits_of (byte ∷ value) =
    hex_digit (high_nibble byte) ∷ hex_digit (low_nibble byte) ∷ digits_of value

unfoldable pub hex_data : Bytes → Bytes
unfolding digits_of
hex_data value = b'0' ∷ b'x' ∷ digits_of value

-- `hex_quantity(const intx::uint256&)`
unfoldable pub hex_quantity_256 : External → ℕ → Bytes
hex_quantity_256 x value = b'0' ∷ b'x' ∷ x.uint256_hex value
