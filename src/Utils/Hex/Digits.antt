-- ===== src/Utils/Hex/Digits.antt =====
-- A reader of the pairs of digits that `hex_data` prints.
use dex_knight.Prelude.{
  both_true, ℕ, zero, suc, ◌+◌, ◌*◌, ◌<◌, ◌≡◌, refl, Bool, true, false, ◌&&◌, arith, Bytes, [], ◌∷◌,
  Option, none, some, All, ◌==◌, ◌>>=◌, Bool-cases, inl, inr, ap,
}
use dex_knight.Prelude.Chars.{digit_value, hex_digit}
use dex_knight.Utils.Hex.{digits_of, high_nibble, low_nibble}

byte_of : ℕ → ℕ → Option ℕ
byte_of a b = do high ← digit_value 16 a; low ← digit_value 16 b; some (high * 16 + low)

pub from_digits : Bytes → Option Bytes
unfolding byte_of
from_digits [] = some []
from_digits (a ∷ []) = none
from_digits (a ∷ b ∷ s) = do byte ← byte_of a b; rest ← from_digits s; some (byte ∷ rest)

-- Each of the bytes below `n` passes the test.
abbrev all_below : (ℕ → Bool) → ℕ → Bool
all_below test zero = true
all_below test (suc n) = test n && all_below test n

all_below-eq : (test : ℕ → Bool) (n k : ℕ) → all_below test n ≡ true → k < n → test k ≡ true
all_below-eq test zero k h l = absurd (omega arith)
all_below-eq test (suc n) k h l = elim (Bool-cases (k == n)) [
  | inl e ↦ let same : k ≡ n = ground arith in rw same (both_true (test n) (all_below test n) h).0
  | inr e ↦ all_below-eq test n k (both_true (test n) (all_below test n) h).1 (ground arith)
]

abbrev is_value : Option ℕ → ℕ → Bool
is_value none byte = false
is_value (some n) byte = n == byte

is_value-eq : (o : Option ℕ) (byte : ℕ) → is_value o byte ≡ true → o ≡ some byte
is_value-eq none byte h = cc
is_value-eq (some n) byte h = let e : n ≡ byte = ground arith in ap some e

is_read_back : ℕ → Bool
is_read_back byte =
    is_value (byte_of (hex_digit (high_nibble byte)) (hex_digit (low_nibble byte))) byte

all_read_back : all_below is_read_back 256 ≡ true
unfolding is_read_back byte_of digit_value hex_digit high_nibble low_nibble
all_read_back = refl

byte_read_back :
    (byte : ℕ)
    → byte < 256
    → byte_of (hex_digit (high_nibble byte)) (hex_digit (low_nibble byte)) ≡ some byte
unfolding is_read_back
byte_read_back byte l =
    is_value-eq (byte_of (hex_digit (high_nibble byte)) (hex_digit (low_nibble byte))) byte
      (all_below-eq is_read_back 256 byte all_read_back l)

-- Bytes are read back from their digits.
pub from_digits-digits_of : (b : Bytes) → All (λ a. a < 256) b → from_digits (digits_of b) ≡ some b
unfolding from_digits digits_of
from_digits-digits_of [] h = refl
from_digits-digits_of (a ∷ b) (l, h) = rw (byte_read_back a l) (rw (from_digits-digits_of b h) refl)
