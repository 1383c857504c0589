-- ===== src/External.antt =====
-- What the bot takes from libraries: JSON values (boost::json), lower case (boost::algorithm),
-- hexadecimal text and ABI words (solabi), and the text and the big-endian bytes of 256-bit numbers
-- (intx). The model takes them as parameters.
pub mod Sample
use Prim.Native.String.{String}
use dex_knight.Prelude.{ℕ, Bool, Bytes, List, Option}

-- A JSON number that boost::json holds as an `int64_t`.
pub data Int64 : Type 0 where
  nonneg : ℕ → Int64
  negative : ℕ → Int64

pub record External : Type 1 where
  pub Value : Type 0
  pub Object : Type 0
  -- is_object() and as_object(), and so for the other kinds
  pub as_object : Value → Option Object
  pub as_array : Value → Option (List Value)
  pub as_string : Value → Option Bytes
  pub as_bool : Value → Option Bool
  pub as_int64 : Value → Option Int64
  pub is_null : Value → Bool
  pub if_contains : Object → String → Option Value
  -- the values that the program builds
  pub null : Value
  pub of_string : Bytes → Value
  pub of_bool : Bool → Value
  pub of_array : List Value → Value
  pub of_object : Object → Value
  pub no_fields : Object
  -- object[field] = value
  pub set_field : Object → String → Value → Object
  -- boost::json::parse and boost::json::serialize
  pub parse : Bytes → Option Value
  pub serialize : Object → Bytes
  -- boost::algorithm::to_lower
  pub lower : Bytes → Bytes
  -- solabi::from_hex, and solabi::decode of a pair of uint256
  pub from_hex : Bytes → Option Bytes
  pub decode_pair : Bytes → Option (ℕ × ℕ)
  -- intx::from_string<uint256>, intx::hex and intx::be::store
  pub uint256_from_string : Bytes → Option ℕ
  pub uint256_hex : ℕ → Bytes
  pub uint256_store : ℕ → Bytes
