-- ===== src/Utils/Fields/InRange.antt =====
-- The readers of fields return numbers that fit their types and bytes of the sizes asked for.
use dex_knight.Prelude.{
  ℕ, ◌<◌, ◌^◌, ◌≡◌, arith, Bytes, [], ◌∷◌, Option, none, some, All, Option-cases, inl, inr,
  >>=-eq-some,
}
use Prim.Native.String.{String}
use dex_knight.Prelude.Chars.{from_chars}
use dex_knight.External.{External}
use dex_knight.Utils.Fields.{
  parse_hex_quantity, parse_hex_bytes, parse_hex_uint256, json_string, json_hex_uint64,
  json_hex_uint256, json_hex_bytes, json_hex_bytes_of_size, optional, json_optional_hex_uint64,
  json_optional_hex_uint256, json_optional_hex_bytes,
}
use dex_knight.Utils.Fields.Printed.{Given, IsSized}

-- What the types of the libraries' results promise: bytes, and numbers of 256 bits.
pub record ReadsInRange (x : External) : Type 0 where
  pub bytes_fit : (s b : Bytes) → x.from_hex s ≡ some b → All (λ a. a < 256) b
  pub number_fits : (s : Bytes) (n : ℕ) → x.uint256_from_string s ≡ some n → n < 2 ^ 256

from_chars-lt :
    (base limit : ℕ) (s : Bytes) (n : ℕ) (rest : Bytes)
    → from_chars base limit s ≡ some (n, rest)
    → n < limit
unfolding from_chars
from_chars-lt base limit [] n rest e = cc
from_chars-lt base limit (c ∷ s) n rest e = ground arith

parse_hex_quantity-lt : (s : Bytes) (n : ℕ) → parse_hex_quantity s ≡ some n → n < 2 ^ 64
unfolding parse_hex_quantity
parse_hex_quantity-lt [] n e = cc
parse_hex_quantity-lt (a ∷ []) n e = cc
parse_hex_quantity-lt (a ∷ b ∷ []) n e = cc
parse_hex_quantity-lt (a ∷ b ∷ c ∷ s) n e = elim (Option-cases (from_chars 16 (2 ^ 64) (c ∷ s))) [
  | inl unread ↦ ground arith
  | inr ((parsed, rest), read) ↦
      let bound = from_chars-lt 16 (2 ^ 64) (c ∷ s) parsed rest read in ground arith
]

-- A value that a reader of an optional field gives is what its reader read.
optional-some {ℓ} :
    {A : Type ℓ} (x : External) (o : x.Object) (field : String) (read : Option A) (a : A)
    → optional x o field read ≡ some (some a)
    → read ≡ some a
unfolding optional
optional-some x o field none a e = ground arith
optional-some x o field (some b) a e = ground arith

optional-Given {ℓ} :
    {A : Type ℓ} (P : A → Type 0) (x : External) (o : x.Object) (field : String) (read : Option A)
    (v : Option A)
    → ((a : A) → read ≡ some a → P a)
    → optional x o field read ≡ some v
    → Given P v
optional-Given P x o field read none h e = tt
optional-Given P x o field read (some a) h e = h a (optional-some x o field read a e)

module _ (x : External) (laws : ReadsInRange x) (o : x.Object) (field : String) where
  pub json_hex_uint64-lt : (n : ℕ) → json_hex_uint64 x o field ≡ some n → n < 2 ^ 64
  unfolding json_hex_uint64
  json_hex_uint64-lt n e =
      let (raw, read, parsed) = >>=-eq-some (json_string x o field) _ e in
      parse_hex_quantity-lt raw n parsed

  pub json_hex_uint256-lt : (n : ℕ) → json_hex_uint256 x o field ≡ some n → n < 2 ^ 256
  unfolding json_hex_uint256 parse_hex_uint256
  json_hex_uint256-lt n e =
      let (raw, read, parsed) = >>=-eq-some (json_string x o field) _ e in
      ground (arith, laws.number_fits raw n)

  pub json_hex_bytes-All : (b : Bytes) → json_hex_bytes x o field ≡ some b → All (λ a. a < 256) b
  unfolding json_hex_bytes parse_hex_bytes
  json_hex_bytes-All b e =
      let (raw, read, parsed) = >>=-eq-some (json_string x o field) _ e in
      ground (arith, laws.bytes_fit raw b)

  pub json_hex_bytes_of_size-IsSized :
      (size : ℕ) (b : Bytes) → json_hex_bytes_of_size x o field size ≡ some b → IsSized size b
  unfolding json_hex_bytes_of_size
  json_hex_bytes_of_size-IsSized size b e =
      let (parsed, read, sized) = >>=-eq-some (json_hex_bytes x o field) _ e in
      ground (arith, json_hex_bytes-All parsed read)

  pub json_optional_hex_uint64-Given :
      (v : Option ℕ) → json_optional_hex_uint64 x o field ≡ some v → Given (λ n. n < 2 ^ 64) v
  unfolding json_optional_hex_uint64
  json_optional_hex_uint64-Given v e =
      optional-Given (λ n. n < 2 ^ 64) x o field (json_hex_uint64 x o field) v json_hex_uint64-lt e

  pub json_optional_hex_uint256-Given :
      (v : Option ℕ) → json_optional_hex_uint256 x o field ≡ some v → Given (λ n. n < 2 ^ 256) v
  unfolding json_optional_hex_uint256
  json_optional_hex_uint256-Given v e =
      optional-Given (λ n. n < 2 ^ 256) x o field (json_hex_uint256 x o field) v json_hex_uint256-lt
        e

  pub json_optional_hex_bytes-Given :
      (size : ℕ) (v : Option Bytes)
      → json_optional_hex_bytes x o field size ≡ some v
      → Given (IsSized size) v
  unfolding json_optional_hex_bytes
  json_optional_hex_bytes-Given size v e =
      optional-Given (IsSized size) x o field (json_hex_bytes_of_size x o field size) v
        (json_hex_bytes_of_size-IsSized size) e
