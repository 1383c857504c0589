-- ===== src/Utils/Fields/Printed.antt =====
-- The readers of fields, on what the printers of knight/src/utils/utils.cpp put there.
use dex_knight.Prelude.{
  ℕ, zero, suc, ◌<◌, ◌^◌, ◌≡◌, ◌≢◌, refl, ap, true, false, arith, Bytes, [], ◌∷◌, Option, none,
  some, All, length, ltb, leb, ◌==◌, ◌/◌, ◌%◌, Bool-cases, inl, inr,
}
use Prim.Native.String.{String}
use dex_knight.Prelude.Chars.{hex_digit, to_chars_hex}
use dex_knight.External.{External}
use dex_knight.Utils.Fields.{
  c_str, has_hex_prefix, parse_hex_bytes, parse_hex_uint256, json_string, json_hex_uint64,
  json_hex_uint256, json_hex_bytes, json_hex_bytes_of_size, optional, json_optional_hex_uint64,
  json_optional_hex_uint256, json_optional_hex_bytes, json_optional_string,
}
use dex_knight.Utils.Hex.{hex_quantity, hex_data, hex_quantity_256, digits_of}
use dex_knight.Utils.Hex.RoundTrip.{parse_hex_quantity-hex_quantity}

-- Only bytes of text.
abbrev pub IsText : Bytes → Type 0
IsText s = All (λ a. a ≢ 0) s

-- What the libraries document of the texts that they print and read: a JSON value made from a text is a
-- text, no null and no integer, and hexadecimal digits read back as the bytes and the number that they were printed from.
pub record PrintsBack (x : External) : Type 0 where
  pub text_kept : (s : Bytes) → x.as_string (x.of_string s) ≡ some s
  pub text_not_null : (s : Bytes) → x.is_null (x.of_string s) ≡ false
  pub text_no_integer : (s : Bytes) → x.as_int64 (x.of_string s) ≡ none
  pub null_is_null : x.is_null x.null ≡ true
  pub bytes_read : (b : Bytes) → All (λ a. a < 256) b → x.from_hex (hex_data b) ≡ some b
  pub number_read : (n : ℕ) → n < 2 ^ 256 → x.uint256_from_string (hex_quantity_256 x n) ≡ some n
  pub number_text : (n : ℕ) → IsText (x.uint256_hex n)
  pub number_given : (n : ℕ) → 0 < length (x.uint256_hex n)

c_str_text : (s : Bytes) → IsText s → c_str s ≡ s
unfolding c_str
c_str_text [] h = refl
c_str_text (a ∷ s) (given, h) = ground (arith, c_str_text s h)

hex_digit_text : (d : ℕ) → hex_digit d ≢ 0
unfolding hex_digit
hex_digit_text d = ground arith

digits_of-IsText : (b : Bytes) → IsText (digits_of b)
unfolding digits_of
digits_of-IsText [] = tt
digits_of-IsText (a ∷ b) = (hex_digit_text _, (hex_digit_text _, digits_of-IsText b))

hex_data-IsText : (b : Bytes) → IsText (hex_data b)
unfolding hex_data
hex_data-IsText b = (λ e. omega arith, (λ e. omega arith, digits_of-IsText b))

pub c_str-hex_data : (b : Bytes) → c_str (hex_data b) ≡ hex_data b
c_str-hex_data b = c_str_text (hex_data b) (hex_data-IsText b)

to_chars_hex-IsText : (fuel n : ℕ) (out : Bytes) → IsText out → IsText (to_chars_hex fuel n out)
unfolding to_chars_hex
to_chars_hex-IsText zero n out h = (hex_digit_text (n % 16), h)
to_chars_hex-IsText (suc fuel) n out h = elim (Bool-cases (ltb n 16)) [
  | inl e ↦ rw e (hex_digit_text (n % 16), h)
  | inr e ↦
      rw e
        (to_chars_hex-IsText fuel (n / 16) (hex_digit (n % 16) ∷ out) (hex_digit_text (n % 16), h))
]

hex_quantity-IsText : (n : ℕ) → IsText (hex_quantity n)
unfolding hex_quantity
hex_quantity-IsText n = (λ e. omega arith, (λ e. omega arith, to_chars_hex-IsText 15 n [] tt))

pub same : {n k : ℕ} → n ≡ k → (n == k) ≡ true
same e = ground arith

two_at_least : (n : ℕ) → ltb (suc (suc n)) 2 ≡ false
two_at_least n = ground arith

three_at_least : (n : ℕ) → 0 < n → leb (suc (suc n)) 2 ≡ false
three_at_least n h = ground arith

module _ (x : External) (laws : PrintsBack x) where
  pub parse_hex_bytes-hex_data :
      (b : Bytes) → All (λ a. a < 256) b → parse_hex_bytes x (hex_data b) ≡ some b
  unfolding parse_hex_bytes has_hex_prefix hex_data
  parse_hex_bytes-hex_data b fits =
      rw (two_at_least (length (digits_of b))) (laws.bytes_read b fits)

  hex_quantity_256-IsText : (n : ℕ) → IsText (hex_quantity_256 x n)
  unfolding hex_quantity_256
  hex_quantity_256-IsText n = (λ e. omega arith, (λ e. omega arith, laws.number_text n))

  parse_hex_uint256-hex_quantity_256 :
      (n : ℕ) → n < 2 ^ 256 → parse_hex_uint256 x (hex_quantity_256 x n) ≡ some n
  unfolding parse_hex_uint256 has_hex_prefix hex_quantity_256
  parse_hex_uint256-hex_quantity_256 n fits =
      rw (three_at_least (length (x.uint256_hex n)) (laws.number_given n)) (laws.number_read n fits)

module _ (x : External) (laws : PrintsBack x) (o : x.Object) (field : String) where
  pub string_read :
      (s : Bytes)
      → x.if_contains o field ≡ some (x.of_string s)
      → IsText s
      → json_string x o field ≡ some s
  unfolding json_string
  string_read s held text = rw held (rw (laws.text_kept s) (ap some (c_str_text s text)))

  pub uint64_read :
      (n : ℕ)
      → x.if_contains o field ≡ some (x.of_string (hex_quantity n))
      → n < 2 ^ 64
      → json_hex_uint64 x o field ≡ some n
  unfolding json_hex_uint64
  uint64_read n held fits =
      rw (string_read (hex_quantity n) held (hex_quantity-IsText n))
        (parse_hex_quantity-hex_quantity n fits)

  pub bytes_read :
      (b : Bytes)
      → x.if_contains o field ≡ some (x.of_string (hex_data b))
      → All (λ a. a < 256) b
      → json_hex_bytes x o field ≡ some b
  unfolding json_hex_bytes
  bytes_read b held fits =
      rw (string_read (hex_data b) held (hex_data-IsText b))
        (parse_hex_bytes-hex_data x laws b fits)

  pub sized_bytes_read :
      (b : Bytes) (size : ℕ)
      → x.if_contains o field ≡ some (x.of_string (hex_data b))
      → All (λ a. a < 256) b
      → length b ≡ size
      → json_hex_bytes_of_size x o field size ≡ some b
  unfolding json_hex_bytes_of_size
  sized_bytes_read b size held fits e = rw (bytes_read b held fits) (rw (same e) refl)

  pub uint256_read :
      (n : ℕ)
      → x.if_contains o field ≡ some (x.of_string (hex_quantity_256 x n))
      → n < 2 ^ 256
      → json_hex_uint256 x o field ≡ some n
  unfolding json_hex_uint256
  uint256_read n held fits =
      rw (string_read (hex_quantity_256 x n) held (hex_quantity_256-IsText x laws n))
        (parse_hex_uint256-hex_quantity_256 x laws n fits)

-- The value that `object[field] = nullptr; if (value) object[field] = print(*value);` leaves.
abbrev pub printed {ℓ} : {A : Type ℓ} (x : External) → (A → Bytes) → Option A → x.Value
printed x print none = x.null
printed x print (some a) = x.of_string (print a)

-- The number, the bytes or the text that is given satisfies the predicate.
abbrev pub Given {ℓ κ} : {A : Type ℓ} → (A → Type κ) → Option A → Type κ
Given P none = Unit
Given P (some a) = P a

-- Bytes of that size.
abbrev pub IsSized : ℕ → Bytes → Type 0
IsSized size b = All (λ a. a < 256) b × (length b ≡ size)

module _ (x : External) (laws : PrintsBack x) (o : x.Object) (field : String) where
  optional_read {ℓ} :
      {A : Type ℓ} (print : A → Bytes) (v : Option A) (read : Option A)
      → x.if_contains o field ≡ some (printed x print v)
      → Given (λ a. read ≡ some a) v
      → optional x o field read ≡ some v
  unfolding optional
  optional_read print none read held done = rw (held, optional) (rw laws.null_is_null refl)
  optional_read print (some a) read held done =
      rw (held, optional) (rw (laws.text_not_null (print a)) (rw done refl))

  pub optional_uint64_read :
      (v : Option ℕ)
      → x.if_contains o field ≡ some (printed x hex_quantity v)
      → Given (λ n. n < 2 ^ 64) v
      → json_optional_hex_uint64 x o field ≡ some v
  unfolding json_optional_hex_uint64
  optional_uint64_read none held fits =
      optional_read hex_quantity none (json_hex_uint64 x o field) held tt
  optional_uint64_read (some n) held fits =
      optional_read hex_quantity (some n) (json_hex_uint64 x o field) held
        (uint64_read x laws o field n held fits)

  pub optional_uint256_read :
      (v : Option ℕ)
      → x.if_contains o field ≡ some (printed x (hex_quantity_256 x) v)
      → Given (λ n. n < 2 ^ 256) v
      → json_optional_hex_uint256 x o field ≡ some v
  unfolding json_optional_hex_uint256
  optional_uint256_read none held fits =
      optional_read (hex_quantity_256 x) none (json_hex_uint256 x o field) held tt
  optional_uint256_read (some n) held fits =
      optional_read (hex_quantity_256 x) (some n) (json_hex_uint256 x o field) held
        (uint256_read x laws o field n held fits)

  pub optional_bytes_read :
      (v : Option Bytes) (size : ℕ)
      → x.if_contains o field ≡ some (printed x hex_data v)
      → Given (IsSized size) v
      → json_optional_hex_bytes x o field size ≡ some v
  unfolding json_optional_hex_bytes
  optional_bytes_read none size held fits =
      optional_read hex_data none (json_hex_bytes_of_size x o field size) held tt
  optional_bytes_read (some b) size held (fits, e) =
      optional_read hex_data (some b) (json_hex_bytes_of_size x o field size) held
        (sized_bytes_read x laws o field b size held fits e)

  pub optional_string_read :
      (v : Option Bytes)
      → x.if_contains o field ≡ some (printed x (λ s. s) v)
      → Given IsText v
      → json_optional_string x o field ≡ some v
  unfolding json_optional_string
  optional_string_read none held text = optional_read (λ s. s) none (json_string x o field) held tt
  optional_string_read (some s) held text =
      optional_read (λ s. s) (some s) (json_string x o field) held
        (string_read x laws o field s held text)
