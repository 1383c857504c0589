-- ===== src/Evm/Transaction.antt =====
-- knight/src/evm/transaction.h and transaction.cpp.
pub mod Fields
pub mod RoundTrip
pub mod Typed
use dex_knight.Prelude.{ℕ, Bytes, Option, none, some, ltb, if◌then◌else◌, ◌>>=◌, ◌>>◌}
use Prim.Native.String.{String}
use dex_knight.External.{External}
use dex_knight.Utils.Fields.{
  json_hex_bytes_of_size, json_hex_bytes, json_hex_uint64, json_optional_hex_uint256,
  json_optional_hex_uint64, json_optional_hex_bytes,
}
use dex_knight.Utils.Hex.{hex_quantity, hex_quantity_256, hex_data}

-- evm::Transaction
pub record Transaction : Type 0 where
  pub hash : Option Bytes
  pub input : Bytes
  pub from : Bytes
  pub chain_id : Option ℕ
  pub value : ℕ
  pub gas_price : Option ℕ
  pub gas : ℕ
  pub max_fee_per_gas : Option ℕ
  pub max_priority_fee_per_gas : Option ℕ
  pub nonce : ℕ
  pub tx_type : ℕ
  pub to : Option Bytes

-- kAddressLength
abbrev pub address_length : ℕ
address_length = 20

-- A number that was given, or the field's initial value.
abbrev pub value_or {ℓ} : {A : Type ℓ} → Option A → A → A
value_or none d = d
value_or (some a) d = a

-- The bound UINT8_MAX on an optional type.
abbrev pub fits_uint8 : Option ℕ → Option (Unit {0})
fits_uint8 none = some tt
fits_uint8 (some t) = if ltb 255 t then none else some tt

module _ (x : External) where
  open x use {Value, Object, as_object, null, of_string, no_fields, set_field}

  unfoldable pub transaction_from_json : Value → Option Transaction
  transaction_from_json value = do
    object ← as_object value
    from ← json_hex_bytes_of_size x object "from" address_length
    input ← json_hex_bytes x object "input"
    gas ← json_hex_uint64 x object "gas"
    nonce ← json_hex_uint64 x object "nonce"
    value_amount ← json_optional_hex_uint256 x object "value"
    chain_id ← json_optional_hex_uint64 x object "chainId"
    tx_type ← json_optional_hex_uint64 x object "type"
    fits_uint8 tx_type
    hash ← json_optional_hex_bytes x object "hash" 32
    to ← json_optional_hex_bytes x object "to" address_length
    gas_price ← json_optional_hex_uint256 x object "gasPrice"
    max_fee_per_gas ← json_optional_hex_uint256 x object "maxFeePerGas"
    max_priority_fee_per_gas ← json_optional_hex_uint256 x object "maxPriorityFeePerGas"
    some (record {
      hash = hash;
      input = input;
      from = from;
      chain_id = chain_id;
      value = value_or value_amount 0;
      gas_price = gas_price;
      gas = gas;
      max_fee_per_gas = max_fee_per_gas;
      max_priority_fee_per_gas = max_priority_fee_per_gas;
      nonce = nonce;
      tx_type = value_or tx_type 0;
      to = to;
    })

  -- `object[field] = nullptr; if (value) object[field] = print(*value);`
  unfoldable pub set_optional {ℓ} : {A : Type ℓ} → (A → Bytes) → String → Option A → Object → Object
  set_optional print field none object = set_field object field null
  set_optional print field (some a) object =
      set_field (set_field object field null) field (of_string (print a))

  -- `object[field] = text;`
  unfoldable pub set_text : String → Bytes → Object → Object
  set_text field text object = set_field object field (of_string text)

  pub transaction_to_json : Transaction → Object
  unfolding set_optional set_text
  transaction_to_json tx =
      let o = set_optional hex_data "hash" tx.hash no_fields in
      let o = set_text "type" (hex_quantity tx.tx_type) o in
      let o = set_optional hex_quantity "chainId" tx.chain_id o in
      let o = set_text "nonce" (hex_quantity tx.nonce) o in
      let o = set_text "from" (hex_data tx.from) o in
      let o = set_optional hex_data "to" tx.to o in
      let o = set_text "value" (hex_quantity_256 x tx.value) o in
      let o = set_text "gas" (hex_quantity tx.gas) o in
      let o = set_optional (hex_quantity_256 x) "gasPrice" tx.gas_price o in
      let o = set_optional (hex_quantity_256 x) "maxFeePerGas" tx.max_fee_per_gas o in
      let o =
        set_optional (hex_quantity_256 x) "maxPriorityFeePerGas" tx.max_priority_fee_per_gas o in
      set_text "input" (hex_data tx.input) o
