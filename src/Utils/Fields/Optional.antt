-- ===== src/Utils/Fields/Optional.antt =====
-- The readers of fields that may be absent, on a field that holds a value.
use dex_knight.Prelude.{◌≡◌, refl, true, false, none, some}
use Prim.Native.String.{String}
use dex_knight.External.{External}
use dex_knight.Utils.Fields.{
  json_int64, json_uint64, json_optional_hex_uint64, json_optional_uint64, optional,
}

module _ (x : External) (object : x.Object) (field : String) (value : x.Value) where
  json_uint64_refuses :
      x.if_contains object field ≡ some value
      → x.as_int64 value ≡ none
      → json_uint64 x object field ≡ none
  unfolding json_uint64 json_int64
  json_uint64_refuses held refused = rw held (rw refused refl)

  -- A value that is no integer and not null is refused.
  pub json_optional_uint64_refuses :
      x.if_contains object field ≡ some value
      → x.is_null value ≡ false
      → x.as_int64 value ≡ none
      → json_optional_uint64 x object field ≡ none
  unfolding json_optional_uint64 optional
  json_optional_uint64_refuses held given refused =
      rw (held, optional) (rw given (rw (json_uint64_refuses held refused) refl))

  -- A null is no value.
  pub json_optional_uint64_null :
      x.if_contains object field ≡ some value
      → x.is_null value ≡ true
      → json_optional_uint64 x object field ≡ some none
  unfolding json_optional_uint64 optional
  json_optional_uint64_null held null = rw (held, optional) (rw null refl)

-- A field that is absent is no value.
pub json_optional_hex_uint64_absent :
    (x : External) (object : x.Object) (field : String)
    → x.if_contains object field ≡ none
    → json_optional_hex_uint64 x object field ≡ some none
unfolding json_optional_hex_uint64 optional
json_optional_hex_uint64_absent x object field absent = rw (absent, optional) refl
