-- ===== src/Evm/Receipt.antt =====
-- knight/src/evm/receipt.h and receipt.cpp.
pub mod RoundTrip
use dex_knight.Prelude.{ℕ, Bytes, List, [], ◌∷◌, map, Option, some, ◌>>=◌, ◌>>◌}
use dex_knight.External.{External}
use dex_knight.Utils.Fields.{
  json_hex_uint64, json_hex_uint256, json_array, json_hex_bytes_of_size, json_optional_hex_bytes,
  json_optional_uint64,
}
use dex_knight.Utils.Hex.{hex_quantity, hex_quantity_256, hex_data}
use dex_knight.Evm.Log.{Log, log_from_json, log_to_json}
use dex_knight.Evm.Transaction.{address_length, fits_uint8, set_optional, set_text}

-- evm::Receipt
pub record Receipt : Type 0 where
  pub receipt_type : ℕ
  pub status : ℕ
  pub cumulative_gas_used : ℕ
  pub logs : List Log
  pub logs_bloom : Bytes
  pub transaction_hash : Bytes
  pub transaction_index : ℕ
  pub block_hash : Bytes
  pub block_number : ℕ
  pub gas_used : ℕ
  pub effective_gas_price : ℕ
  pub from : Bytes
  pub to : Option Bytes
  pub contract_address : Option Bytes
  pub block_timestamp : Option ℕ

module _ (x : External) where
  open x use {Value, Object, as_object, of_array, of_object, no_fields, set_field}

  -- The loop over the raw logs: one that cannot be read refuses the receipt.
  unfoldable pub logs_from_json : List Value → Option (List Log)
  logs_from_json [] = some []
  logs_from_json (raw_log ∷ rest) = do
    log ← log_from_json x raw_log
    logs ← logs_from_json rest
    some (log ∷ logs)

  unfoldable pub receipt_from_json : Value → Option Receipt
  receipt_from_json value = do
    object ← as_object value
    receipt_type ← json_hex_uint64 x object "type"
    fits_uint8 (some receipt_type)
    status ← json_hex_uint64 x object "status"
    cumulative_gas_used ← json_hex_uint64 x object "cumulativeGasUsed"
    raw_logs ← json_array x object "logs"
    logs_bloom ← json_hex_bytes_of_size x object "logsBloom" 256
    transaction_hash ← json_hex_bytes_of_size x object "transactionHash" 32
    transaction_index ← json_hex_uint64 x object "transactionIndex"
    block_hash ← json_hex_bytes_of_size x object "blockHash" 32
    block_number ← json_hex_uint64 x object "blockNumber"
    gas_used ← json_hex_uint64 x object "gasUsed"
    effective_gas_price ← json_hex_uint256 x object "effectiveGasPrice"
    from ← json_hex_bytes_of_size x object "from" address_length
    logs ← logs_from_json raw_logs
    to ← json_optional_hex_bytes x object "to" address_length
    contract_address ← json_optional_hex_bytes x object "contractAddress" address_length
    block_timestamp ← json_optional_uint64 x object "blockTimestamp"
    some (record {
      receipt_type = receipt_type;
      status = status;
      cumulative_gas_used = cumulative_gas_used;
      logs = logs;
      logs_bloom = logs_bloom;
      transaction_hash = transaction_hash;
      transaction_index = transaction_index;
      block_hash = block_hash;
      block_number = block_number;
      gas_used = gas_used;
      effective_gas_price = effective_gas_price;
      from = from;
      to = to;
      contract_address = contract_address;
      block_timestamp = block_timestamp;
    })

  unfoldable pub receipt_to_json : Receipt → Object
  receipt_to_json r =
      let o = set_text x "type" (hex_quantity r.receipt_type) no_fields in
      let o = set_text x "status" (hex_quantity r.status) o in
      let o = set_text x "cumulativeGasUsed" (hex_quantity r.cumulative_gas_used) o in
      let o = set_field o "logs" (of_array (map (λ log. of_object (log_to_json x log)) r.logs)) in
      let o = set_text x "logsBloom" (hex_data r.logs_bloom) o in
      let o = set_text x "transactionHash" (hex_data r.transaction_hash) o in
      let o = set_text x "transactionIndex" (hex_quantity r.transaction_index) o in
      let o = set_text x "blockHash" (hex_data r.block_hash) o in
      let o = set_text x "blockNumber" (hex_quantity r.block_number) o in
      let o = set_text x "gasUsed" (hex_quantity r.gas_used) o in
      let o = set_text x "effectiveGasPrice" (hex_quantity_256 x r.effective_gas_price) o in
      let o = set_text x "from" (hex_data r.from) o in
      let o = set_optional x hex_data "to" r.to o in
      let o = set_optional x hex_data "contractAddress" r.contract_address o in
      set_optional x hex_quantity "blockTimestamp" r.block_timestamp o
