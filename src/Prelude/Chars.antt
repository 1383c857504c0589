-- ===== src/Prelude/Chars.antt =====
-- `std::from_chars` and `std::to_chars` on unsigned integers, over the bytes of a text.
use Prim.Native.Nat.{ℕ, zero, suc, ◌+◌, ◌-◌, ◌*◌, ◌/◌, ◌%◌}
use Prim.Native.Char.{code}
use Prim.Native.String.{String}
use mathlib.Core.Bool.{◌&&◌}
use mathlib.Core.List.{[], ◌∷◌}
use mathlib.Core.Option.{Option, none, some}
use dex_knight.Prelude.Tests.{Bytes, ltb, leb, if◌then◌else◌}

-- The bytes of an ASCII literal.
abbrev pub codes : String → Bytes
codes String.[] = []
codes (String.◌∷◌ c s) = code c ∷ codes s

-- The value of a digit character, in a base up to 36.
unfoldable pub digit_value : ℕ → ℕ → Option ℕ
digit_value base c =
    let below = λ (d : ℕ). if ltb d base then some d else none in
    if leb b'0' c && leb c b'9'
    then below (c - b'0')
    else if leb b'a' c && leb c b'z'
    then below (c - b'a' + 10)
    else if leb b'A' c && leb c b'Z'
    then below (c - b'A' + 10)
    else none

-- The longest run of digits behind the value `n`, and the rest of the text.
unfoldable pub digit_run : ℕ → ℕ → Bytes → ℕ × Bytes
digit_run base n [] = (n, [])
digit_run base n (c ∷ s) = elim (digit_value base c) [
  | none ↦ (n, c ∷ s)
  | some d ↦ digit_run base (n * base + d) s
]

-- `from_chars` into an unsigned type of values below `limit`: none for its errors, otherwise the value
-- and the text from `ptr` on.
unfoldable pub from_chars : ℕ → ℕ → Bytes → Option (ℕ × Bytes)
unfolding digit_value digit_run
from_chars base limit [] = none
from_chars base limit (c ∷ s) = elim (digit_value base c) [
  | none ↦ none
  | some d ↦ let (n, rest) = digit_run base d s in if ltb n limit then some (n, rest) else none
]

-- The lower-case hexadecimal digit of a value below 16.
unfoldable pub hex_digit : ℕ → ℕ
hex_digit d = if ltb d 10 then b'0' + d else b'a' + (d - 10)

-- `to_chars(…, value, 16)`: at most `fuel` + 1 digits, put in front of `out`.
unfoldable pub to_chars_hex : ℕ → ℕ → Bytes → Bytes
to_chars_hex zero n out = hex_digit (n % 16) ∷ out
to_chars_hex (suc fuel) n out =
    let rest = to_chars_hex fuel (n / 16) (hex_digit (n % 16) ∷ out) in
    if ltb n 16 then hex_digit (n % 16) ∷ out else rest
