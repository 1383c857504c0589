-- ===== src/External/Sample.antt =====
-- Concrete libraries for the tests. In `sample` every JSON value reads as `text`, as the empty array, as true and
-- as 0, and every pair decodes as (100000, 1).
use dex_knight.Utils.Hex.Digits.{from_digits}
use dex_knight.Prelude.{
  List, ◌==◌, ◌>>=◌, ℕ, suc, length, Bool, true, false, Bytes, [], ◌∷◌, Option, none, some,
  replicate, same_bytes, if◌then◌else◌,
}
use dex_knight.Prelude.Chars.{codes}
use dex_knight.External.{External, nonneg}

abbrev pub sample : Bytes → External
sample text = record {
  Value = Unit {0};
  Object = Unit {0};
  as_object = λ v. some tt;
  as_array = λ v. some [];
  as_string = λ v. some text;
  as_bool = λ v. some true;
  as_int64 = λ v. some (nonneg 0);
  is_null = λ v. false;
  if_contains = λ o f. some tt;
  null = tt;
  of_string = λ s. tt;
  of_bool = λ b. tt;
  of_array = λ vs. tt;
  of_object = λ o. tt;
  no_fields = tt;
  set_field = λ o f v. tt;
  parse = λ s. some tt;
  serialize = λ o. [];
  lower = λ s. s;
  from_hex = λ s. some [];
  decode_pair = λ s. some (100000, 1);
  uint256_from_string = λ s. some 0;
  uint256_hex = λ n. [];
  uint256_store = λ n. replicate 32 0;
}

-- A library of texts for the tests: a value is a text, an object has the text that `text` gives for a
-- field's name, a list has one object, every number is 1, and hexadecimal text reads as 20 bytes.
abbrev pub fields : (Bytes → Bytes) → External
fields text = record {
  Value = Bytes;
  Object = Unit {0};
  as_object = λ v. some tt;
  as_array = λ v. some ([] ∷ []);
  as_string = λ v. some v;
  as_bool = λ v. some true;
  as_int64 = λ v. some (nonneg 1);
  is_null = λ v. false;
  if_contains = λ o f. some (text (codes f));
  null = [];
  of_string = λ s. s;
  of_bool = λ b. [];
  of_array = λ vs. [];
  of_object = λ o. [];
  no_fields = tt;
  set_field = λ o f v. tt;
  parse = λ s. some s;
  serialize = λ o. [];
  lower = λ s. s;
  from_hex = λ s. some (replicate 20 0);
  decode_pair = λ s. none;
  uint256_from_string = λ s. some 0;
  uint256_hex = λ n. [];
  uint256_store = λ n. replicate 32 0;
}

-- A library of texts, objects and arrays for the tests. A number is printed as a text that is one byte
-- longer than it, and bytes in hexadecimal.
pub data Json : Type 0 where
  null_value no_field no_item : Json
  flag : Bool → Json
  text : Bytes → Json
  object : Json → Json
  field : Bytes → Json → Json → Json
  item : Json → Json → Json

abbrev json_text : Json → Option Bytes
json_text (text s) = some s
json_text v = none

abbrev json_flag : Json → Option Bool
json_flag (flag b) = some b
json_flag v = none

abbrev json_members : Json → Option Json
json_members (object o) = some o
json_members v = none

abbrev json_null : Json → Bool
json_null null_value = true
json_null v = false

abbrev json_field : Json → Bytes → Option Json
json_field (field name value rest) f = if same_bytes name f then some value else json_field rest f
json_field v f = none

abbrev json_items : Json → Option (List Json)
json_items no_item = some []
json_items (item v rest) = do vs ← json_items rest; some (v ∷ vs)
json_items v = none

abbrev of_items : List Json → Json
of_items [] = no_item
of_items (v ∷ vs) = item v (of_items vs)

-- A text without its prefix.
abbrev unprefixed : Bytes → Bytes
unprefixed (a ∷ b ∷ s) = s
unprefixed s = []

abbrev one_less : Bytes → Option ℕ
one_less [] = none
one_less (a ∷ s) = some (length s)

abbrev pub texts : External
texts = record {
  Value = Json;
  Object = Json;
  as_object = json_members;
  as_array = json_items;
  as_string = json_text;
  as_bool = json_flag;
  as_int64 = λ v. none;
  is_null = json_null;
  if_contains = λ o f. json_field o (codes f);
  null = null_value;
  of_string = text;
  of_bool = flag;
  of_array = of_items;
  of_object = object;
  no_fields = no_field;
  set_field = λ o f v. field (codes f) v o;
  parse = λ s. none;
  serialize = λ o. [];
  lower = λ s. s;
  from_hex = λ s. from_digits (unprefixed s);
  decode_pair = λ s. none;
  uint256_from_string = λ s. one_less (unprefixed s);
  uint256_hex = λ n. replicate (suc n) b'1';
  uint256_store = λ n. replicate 32 0;
}

-- A library for the tests in which the status of a bundle reads as `included`, a call of a swap has the
-- arguments (100000, 1), and every pool has a million of each token.
abbrev pub chain : External
chain =
    record (fields
      (λ name. if same_bytes name (codes "status") then codes "included" else codes "0x")) {
        as_array = λ v. some [];
        decode_pair = λ s. some (if length s == 1 then (100000, 1) else (1000000, 1000000));
      }
