-- ===== src/Builder/TxResult.antt =====
-- knight/src/builder/bundle_tx_result.h and bundle_tx_result.cpp.
pub mod RoundTrip
use dex_knight.Prelude.{ℕ, Bytes, Option, none, some, same_bytes, if◌then◌else◌, ◌>>=◌}
use dex_knight.Prelude.Chars.{codes}
use Prim.Native.String.{String}
use dex_knight.External.{External}
use dex_knight.Utils.Fields.{
  json_optional_string, json_hex_bytes_of_size, json_string, json_optional_hex_uint64,
}
use dex_knight.Utils.Hex.{hex_quantity, hex_data}
use dex_knight.Evm.Transaction.{set_optional, set_text}
use dex_knight.Evm.Receipt.{Receipt, receipt_from_json, receipt_to_json}

-- builder::BundleTxStatus
pub data BundleTxStatus : Type 0 where
  included reverted missing : BundleTxStatus

unfoldable pub bundle_tx_status_from_string : Bytes → Option BundleTxStatus
bundle_tx_status_from_string status =
    if same_bytes status (codes "included")
    then some included
    else if same_bytes status (codes "reverted")
    then some reverted
    else if same_bytes status (codes "missing")
    then some missing
    else none

unfoldable pub bundle_tx_status_to_string : BundleTxStatus → Bytes
bundle_tx_status_to_string included = codes "included"
bundle_tx_status_to_string reverted = codes "reverted"
bundle_tx_status_to_string missing = codes "missing"

-- builder::BundleTxResult
pub record BundleTxResult : Type 0 where
  pub mempool_tx_id : Option Bytes
  pub chain_tx_hash : Bytes
  pub status : BundleTxStatus
  pub block_number : Option ℕ
  pub transaction_index : Option ℕ
  pub receipt : Option Receipt

module _ (x : External) where
  open x use {Value, Object, as_object, if_contains, is_null, null, of_object, no_fields, set_field}

  -- A null is no receipt, and any other value has to be one.
  optional_receipt : Value → Option (Option Receipt)
  optional_receipt value =
      if is_null value
      then some none
      else (do receipt ← receipt_from_json x value; some (some receipt))

  unfoldable pub bundle_tx_result_from_json : Value → Option BundleTxResult
  unfolding optional_receipt
  bundle_tx_result_from_json value = do
    object ← as_object value
    mempool_tx_id ← json_optional_string x object "mempoolTxId"
    chain_tx_hash ← json_hex_bytes_of_size x object "chainTxHash" 32
    raw_status ← json_string x object "status"
    block_number ← json_optional_hex_uint64 x object "blockNumber"
    transaction_index ← json_optional_hex_uint64 x object "transactionIndex"
    status ← bundle_tx_status_from_string raw_status
    receipt_value ← if_contains object "receipt"
    receipt ← optional_receipt receipt_value
    some (record {
      mempool_tx_id = mempool_tx_id;
      chain_tx_hash = chain_tx_hash;
      status = status;
      block_number = block_number;
      transaction_index = transaction_index;
      receipt = receipt;
    })

  -- `if (value) object[field] = hex_quantity(*value);`
  set_if_given : String → Option ℕ → Object → Object
  set_if_given field none object = object
  set_if_given field (some n) object = set_text x field (hex_quantity n) object

  set_receipt : Option Receipt → Object → Object
  set_receipt none object = set_field object "receipt" null
  set_receipt (some receipt) object =
      set_field (set_field object "receipt" null) "receipt" (of_object (receipt_to_json x receipt))

  unfoldable pub bundle_tx_result_to_json : BundleTxResult → Object
  unfolding set_if_given set_receipt
  bundle_tx_result_to_json result =
      let o = set_optional x (λ id. id) "mempoolTxId" result.mempool_tx_id no_fields in
      let o = set_text x "chainTxHash" (hex_data result.chain_tx_hash) o in
      let o = set_text x "status" (bundle_tx_status_to_string result.status) o in
      let o = set_if_given "blockNumber" result.block_number o in
      let o = set_if_given "transactionIndex" result.transaction_index o in
      set_receipt result.receipt o
