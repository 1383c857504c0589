-- ===== src/Utils/Tests.antt =====
-- Runs of the square root and of the hexadecimal printer.
use dex_knight.Prelude.{◌+◌, ◌^◌, ◌≡◌, refl, arith, some}
use dex_knight.Utils.Sqrt.{integer_sqrt}
use dex_knight.Utils.Sqrt.Exact.{IsSqrt, integer_sqrt-IsSqrt}
use dex_knight.Utils.Fields.{parse_hex_quantity}
use dex_knight.Utils.Hex.{hex_quantity}
use dex_knight.Utils.Hex.RoundTrip.{parse_hex_quantity-hex_quantity}

integer_sqrt_2048 : integer_sqrt 2048 (10 ^ 40 + 5) ≡ 10 ^ 20
unfolding integer_sqrt
integer_sqrt_2048 = refl

integer_sqrt_256 : integer_sqrt 256 99 ≡ 9
unfolding integer_sqrt
integer_sqrt_256 = refl

integer_sqrt-IsSqrt_example : IsSqrt (10 ^ 40 + 5) (integer_sqrt 2048 (10 ^ 40 + 5))
integer_sqrt-IsSqrt_example = integer_sqrt-IsSqrt 1023 (10 ^ 40 + 5) (omega arith)

parse_hex_quantity-hex_quantity_example : parse_hex_quantity (hex_quantity 4095) ≡ some 4095
parse_hex_quantity-hex_quantity_example = parse_hex_quantity-hex_quantity 4095 (omega arith)
