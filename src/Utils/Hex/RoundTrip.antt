-- ===== src/Utils/Hex/RoundTrip.antt =====
-- `parse_hex_quantity` reads back what `hex_quantity` prints.
use native.Mathlib.Nat.{pow-suc}
use dex_knight.Prelude.{
  ℕ, zero, suc, ◌+◌, ◌*◌, ◌/◌, ◌%◌, ◌^◌, ◌<◌, ◌≡◌, refl, sym, ap, ◌∙◌, Bytes, [], ◌∷◌, some, arith,
  ltb, Bool-cases, inl, inr,
}
use dex_knight.Prelude.Chars.{digit_value, digit_run, from_chars, hex_digit, to_chars_hex}
use dex_knight.Utils.Fields.{parse_hex_quantity, has_hex_prefix}
use dex_knight.Utils.Hex.{hex_quantity}

pub digit_value-hex_digit : (d : ℕ) → d < 16 → digit_value 16 (hex_digit d) ≡ some d
unfolding digit_value hex_digit
digit_value-hex_digit d h = ground arith

digit_run-cons :
    (n d c : ℕ) (s : Bytes)
    → digit_value 16 c ≡ some d
    → digit_run 16 n (c ∷ s) ≡ digit_run 16 (n * 16 + d) s
unfolding digit_run
digit_run-cons n d c s h = rw (h, digit_run)

last_digit :
    (q m : ℕ) (out : Bytes)
    → q * 16 + m % 16 ≡ m
    → digit_run 16 q (hex_digit (m % 16) ∷ out) ≡ digit_run 16 m out
last_digit q m out e =
    digit_run-cons q (m % 16) _ out (digit_value-hex_digit (m % 16) (omega arith))
    ∙ ap (λ v. digit_run 16 v out) e

digit_run-to_chars_hex :
    (f m : ℕ) (out : Bytes)
    → m < 16 ^ suc f
    → digit_run 16 0 (to_chars_hex f m out) ≡ digit_run 16 m out
unfolding to_chars_hex
digit_run-to_chars_hex zero m out h = last_digit 0 m out (omega arith)
digit_run-to_chars_hex (suc f) m out h = elim (Bool-cases (ltb m 16)) [
  | inl one ↦ rw one (last_digit 0 m out (ground arith))
  | inr more ↦
      let fits : m / 16 < 16 ^ suc f = let h' = rw pow-suc at h in omega arith in
      rw more (
        digit_run-to_chars_hex f (m / 16) (hex_digit (m % 16) ∷ out) fits
        ∙ last_digit (m / 16) m out (omega arith))
]

-- A text that starts with a digit.
abbrev StartsWithDigit : Bytes → Type 0
StartsWithDigit s = (c : ℕ) × (r : Bytes) × (d : ℕ) × (s ≡ c ∷ r) × (digit_value 16 c ≡ some d)

to_chars_hex-StartsWithDigit : (f m : ℕ) (out : Bytes) → StartsWithDigit (to_chars_hex f m out)
unfolding to_chars_hex
to_chars_hex-StartsWithDigit zero m out =
    (hex_digit (m % 16), out, m % 16, refl, digit_value-hex_digit (m % 16) (omega arith))
to_chars_hex-StartsWithDigit (suc f) m out = elim (Bool-cases (ltb m 16)) [
  | inl one ↦
      rw one (hex_digit (m % 16), out, m % 16, refl, digit_value-hex_digit (m % 16) (omega arith))
  | inr more ↦ rw more (to_chars_hex-StartsWithDigit f (m / 16) (hex_digit (m % 16) ∷ out))
]

parse_digits :
    (s : Bytes) (n : ℕ)
    → StartsWithDigit s
    → digit_run 16 0 s ≡ (n, [])
    → n < 2 ^ 64
    → parse_hex_quantity (b'0' ∷ b'x' ∷ s) ≡ some n
unfolding parse_hex_quantity from_chars has_hex_prefix
parse_digits s n (c, r, d, e, digit) run fits =
    let zero_d : 0 * 16 + d ≡ d = omega arith in
    let first : digit_run 16 d r ≡ (n, []) =
      rw zero_d at (sym (digit_run-cons 0 d c r digit) ∙ rw e at run) in
    rw (e, parse_hex_quantity) (ground (arith, digit, first))

-- Every 64-bit number is read back from its hexadecimal print.
pub parse_hex_quantity-hex_quantity :
    (n : ℕ) → n < 2 ^ 64 → parse_hex_quantity (hex_quantity n) ≡ some n
unfolding hex_quantity digit_run
parse_hex_quantity-hex_quantity n fits =
    parse_digits (to_chars_hex 15 n []) n (to_chars_hex-StartsWithDigit 15 n [])
      (digit_run-to_chars_hex 15 n [] (omega arith)) fits
