-- ===== src/Utils/Fields.antt =====
-- The field readers of knight/src/utils/utils.cpp.
pub mod Optional
pub mod Printed
pub mod InRange
use Prim.Native.String.{String}
use dex_knight.Prelude.{
  ℕ, ◌^◌, Bool, false, ◌||◌, ◌&&◌, not, Bytes, List, [], ◌∷◌, Option, none, some, length, leb, ltb,
  ◌==◌, if◌then◌else◌, ◌>>=◌,
}
use dex_knight.Prelude.Chars.{from_chars}
use dex_knight.External.{External, Int64, nonneg, negative}

-- `std::string(text.c_str())`: the bytes before the first zero.
unfoldable pub c_str : Bytes → Bytes
c_str [] = []
c_str (c ∷ s) = if c == 0 then [] else c ∷ c_str s

-- The text of at least `least` bytes starts with 0x or 0X.
unfoldable pub has_hex_prefix : Bytes → Bool
has_hex_prefix (a ∷ b ∷ s) = a == b'0' && (b == b'x' || b == b'X')
has_hex_prefix s = false

unfoldable pub parse_hex_quantity : Bytes → Option ℕ
unfolding has_hex_prefix
parse_hex_quantity (a ∷ b ∷ c ∷ s) =
    if has_hex_prefix (a ∷ b ∷ [])
    then (do
      (parsed, rest) ← from_chars 16 (2 ^ 64) (c ∷ s)
      elim rest [ [] ↦ some parsed | d ∷ r ↦ none ])
    else none
parse_hex_quantity s = none

module _ (x : External) where
  open x use {
    Value, Object, as_object, as_array, as_string, as_bool, as_int64, is_null, if_contains, parse,
    from_hex, uint256_from_string,
  }

  unfoldable pub parse_to_json : Bytes → Option Value
  parse_to_json s = parse s

  unfoldable pub parse_to_json_object : Bytes → Option Object
  parse_to_json_object s = do value ← parse s; as_object value

  unfoldable pub json_string : Object → String → Option Bytes
  json_string object field = do
    value ← if_contains object field
    s ← as_string value
    some (c_str s)

  unfoldable pub json_bool : Object → String → Option Bool
  json_bool object field = do value ← if_contains object field; as_bool value

  unfoldable pub json_int64 : Object → String → Option Int64
  json_int64 object field = do value ← if_contains object field; as_int64 value

  -- A negative value is refused.
  nonnegative : Int64 → Option ℕ
  nonnegative (nonneg n) = some n
  nonnegative (negative n) = none

  unfoldable pub json_uint64 : Object → String → Option ℕ
  unfolding nonnegative
  json_uint64 object field = do value ← json_int64 object field; nonnegative value

  unfoldable pub json_array : Object → String → Option (List Value)
  json_array object field = do value ← if_contains object field; as_array value

  unfoldable pub json_object : Object → String → Option Object
  json_object object field = do value ← if_contains object field; as_object value

  unfoldable pub parse_hex_uint256 : Bytes → Option ℕ
  parse_hex_uint256 value =
      if leb (length value) 2 || not (has_hex_prefix value) then none else uint256_from_string value

  unfoldable pub parse_hex_bytes : Bytes → Option Bytes
  parse_hex_bytes value =
      if ltb (length value) 2 || not (has_hex_prefix value) then none else from_hex value

  unfoldable pub json_hex_uint64 : Object → String → Option ℕ
  json_hex_uint64 object field = do raw ← json_string object field; parse_hex_quantity raw

  unfoldable pub json_hex_uint256 : Object → String → Option ℕ
  json_hex_uint256 object field = do raw ← json_string object field; parse_hex_uint256 raw

  unfoldable pub json_hex_bytes : Object → String → Option Bytes
  json_hex_bytes object field = do raw ← json_string object field; parse_hex_bytes raw

  -- The overload with an expected size.
  unfoldable pub json_hex_bytes_of_size : Object → String → ℕ → Option Bytes
  json_hex_bytes_of_size object field expected_size = do
    parsed ← json_hex_bytes object field
    if length parsed == expected_size then some parsed else none

  -- An absent field and a null are read as no value, and any other value by `read`.
  optional {ℓ} : {A : Type ℓ} → Object → String → Option A → Option (Option A)
  optional object field read = elim (if_contains object field) [
    | none ↦ some none
    | some value ↦ if is_null value then some none else (do parsed ← read; some (some parsed))
  ]

  unfoldable pub json_optional_hex_uint64 : Object → String → Option (Option ℕ)
  unfolding optional
  json_optional_hex_uint64 object field = optional object field (json_hex_uint64 object field)

  unfoldable pub json_optional_uint64 : Object → String → Option (Option ℕ)
  unfolding optional
  json_optional_uint64 object field = optional object field (json_uint64 object field)

  unfoldable pub json_optional_hex_uint256 : Object → String → Option (Option ℕ)
  unfolding optional
  json_optional_hex_uint256 object field = optional object field (json_hex_uint256 object field)

  unfoldable pub json_optional_hex_bytes : Object → String → ℕ → Option (Option Bytes)
  unfolding optional
  json_optional_hex_bytes object field expected_size =
      optional object field (json_hex_bytes_of_size object field expected_size)

  unfoldable pub json_optional_string : Object → String → Option (Option Bytes)
  unfolding optional
  json_optional_string object field = optional object field (json_string object field)
