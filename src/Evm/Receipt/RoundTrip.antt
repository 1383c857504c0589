-- ===== src/Evm/Receipt/RoundTrip.antt =====
-- A receipt that is printed and read again.
use dex_knight.Prelude.{
  ℕ, ◌<◌, ◌≤◌, ◌^◌, ◌≡◌, refl, ap, ◌∙◌, List, [], ◌∷◌, map, Option, none, some, All, same_bytes,
  ◌>>=◌,
}
use dex_knight.External.{External}
use dex_knight.Utils.Fields.{json_optional_uint64}
use dex_knight.Utils.Fields.Optional.{json_optional_uint64_refuses, json_optional_uint64_null}
use dex_knight.Utils.Fields.Printed.{
  PrintsBack, printed, Given, IsSized, uint64_read, uint256_read, sized_bytes_read,
  optional_bytes_read,
}
use dex_knight.Utils.Hex.{hex_quantity, hex_quantity_256, hex_data}
use dex_knight.Evm.Transaction.Fields.{
  KeepsFields, Fields, Holds, Holds-set_text, Holds-set_field, Holds-set_optional, array_read,
}
use dex_knight.Evm.Transaction.RoundTrip.{type_fits, type_bounded}
use dex_knight.Evm.Log.{Log, log_to_json}
use dex_knight.Evm.Log.RoundTrip.{IsLog, log_from_json-log_to_json}
use dex_knight.Evm.Receipt.{Receipt, logs_from_json, receipt_from_json, receipt_to_json}

-- The widths of the numbers, the sizes of the addresses and hashes, and the same of the logs.
pub record IsReceipt (r : Receipt) : Type 0 where
  pub receipt_type_fits : r.receipt_type ≤ 255
  pub status_fits : r.status < 2 ^ 64
  pub cumulative_gas_used_fits : r.cumulative_gas_used < 2 ^ 64
  pub logs_valid : All IsLog r.logs
  pub logs_bloom_sized : IsSized 256 r.logs_bloom
  pub transaction_hash_sized : IsSized 32 r.transaction_hash
  pub transaction_index_fits : r.transaction_index < 2 ^ 64
  pub block_hash_sized : IsSized 32 r.block_hash
  pub block_number_fits : r.block_number < 2 ^ 64
  pub gas_used_fits : r.gas_used < 2 ^ 64
  pub effective_gas_price_fits : r.effective_gas_price < 2 ^ 256
  pub from_sized : IsSized 20 r.from
  pub to_sized : Given (IsSized 20) r.to
  pub contract_address_sized : Given (IsSized 20) r.contract_address

-- A receipt without a timestamp, and none with one.
abbrev pub unless_stamped : Receipt → Option ℕ → Option Receipt
unless_stamped r none = some r
unless_stamped r (some timestamp) = none

module _ (x : External) (laws : PrintsBack x) (fields : KeepsFields x) where
  logs_read :
      (logs : List Log)
      → All IsLog logs
      → logs_from_json x (map (λ log. x.of_object (log_to_json x log)) logs) ≡ some logs
  unfolding logs_from_json
  logs_read [] h = refl
  logs_read (log ∷ logs) (l, h) =
      rw (log_from_json-log_to_json x laws fields log l) (rw (logs_read logs h) refl)

  -- What the reader of the timestamp finds: none is read back, and a timestamp is refused.
  abbrev stamp_read : Option ℕ → Option (Option ℕ)
  stamp_read none = some none
  stamp_read (some timestamp) = none

  timestamp_read :
      (o : x.Object) (v : Option ℕ)
      → x.if_contains o "blockTimestamp" ≡ some (printed x hex_quantity v)
      → json_optional_uint64 x o "blockTimestamp" ≡ stamp_read v
  timestamp_read o none held =
      json_optional_uint64_null x o "blockTimestamp" x.null held laws.null_is_null
  timestamp_read o (some t) held =
      json_optional_uint64_refuses x o "blockTimestamp" (x.of_string (hex_quantity t)) held
        (laws.text_not_null (hex_quantity t)) (laws.text_no_integer (hex_quantity t))

module _ (x : External) (laws : PrintsBack x) (fields : KeepsFields x) (r : Receipt)
    (valid : IsReceipt r) where
  abbrev log_values : List x.Value
  log_values = map (λ log. x.of_object (log_to_json x log)) r.logs

  abbrev receipt_fields : Fields x fields
  receipt_fields =
      ("blockTimestamp", printed x hex_quantity r.block_timestamp)
      ∷ ("contractAddress", printed x hex_data r.contract_address)
      ∷ ("to", printed x hex_data r.to)
      ∷ ("from", x.of_string (hex_data r.from))
      ∷ ("effectiveGasPrice", x.of_string (hex_quantity_256 x r.effective_gas_price))
      ∷ ("gasUsed", x.of_string (hex_quantity r.gas_used))
      ∷ ("blockNumber", x.of_string (hex_quantity r.block_number))
      ∷ ("blockHash", x.of_string (hex_data r.block_hash))
      ∷ ("transactionIndex", x.of_string (hex_quantity r.transaction_index))
      ∷ ("transactionHash", x.of_string (hex_data r.transaction_hash))
      ∷ ("logsBloom", x.of_string (hex_data r.logs_bloom))
      ∷ ("logs", x.of_array log_values)
      ∷ ("cumulativeGasUsed", x.of_string (hex_quantity r.cumulative_gas_used))
      ∷ ("status", x.of_string (hex_quantity r.status))
      ∷ ("type", x.of_string (hex_quantity r.receipt_type))
      ∷ []

  receipt_to_json-Holds : Holds x fields (receipt_to_json x r) receipt_fields x.no_fields
  unfolding receipt_to_json
  receipt_to_json-Holds =
      let h =
        Holds-set_text x fields "type" (hex_quantity r.receipt_type)
          (record { found = λ g. refl }) in
      let h = Holds-set_text x fields "status" (hex_quantity r.status) h in
      let h = Holds-set_text x fields "cumulativeGasUsed" (hex_quantity r.cumulative_gas_used) h in
      let h = Holds-set_field x fields "logs" (x.of_array log_values) h in
      let h = Holds-set_text x fields "logsBloom" (hex_data r.logs_bloom) h in
      let h = Holds-set_text x fields "transactionHash" (hex_data r.transaction_hash) h in
      let h = Holds-set_text x fields "transactionIndex" (hex_quantity r.transaction_index) h in
      let h = Holds-set_text x fields "blockHash" (hex_data r.block_hash) h in
      let h = Holds-set_text x fields "blockNumber" (hex_quantity r.block_number) h in
      let h = Holds-set_text x fields "gasUsed" (hex_quantity r.gas_used) h in
      let h =
        Holds-set_text x fields "effectiveGasPrice" (hex_quantity_256 x r.effective_gas_price) h in
      let h = Holds-set_text x fields "from" (hex_data r.from) h in
      let h = Holds-set_optional x fields hex_data "to" r.to h in
      let h = Holds-set_optional x fields hex_data "contractAddress" r.contract_address h in
      Holds-set_optional x fields hex_quantity "blockTimestamp" r.block_timestamp h

  -- The reader up to the timestamp.
  receipt_fields_read :
      (o : x.Object)
      → Holds x fields o receipt_fields x.no_fields
      → receipt_from_json x (x.of_object o) ≡ (
          stamp_read x laws fields r.block_timestamp >>= λ block_timestamp.
          some (record r { block_timestamp = block_timestamp }))
  unfolding receipt_from_json same_bytes
  receipt_fields_read o h =
      let receipt_type =
        uint64_read x laws o "type" r.receipt_type (h.found "type")
          (type_fits valid.receipt_type_fits) in
      let status = uint64_read x laws o "status" r.status (h.found "status") valid.status_fits in
      let cumulative =
        uint64_read x laws o "cumulativeGasUsed" r.cumulative_gas_used (h.found "cumulativeGasUsed")
          valid.cumulative_gas_used_fits in
      let raw_logs = array_read x fields o "logs" log_values (h.found "logs") in
      let (bloom_fits, bloom_size) = valid.logs_bloom_sized in
      let bloom =
        sized_bytes_read x laws o "logsBloom" r.logs_bloom 256 (h.found "logsBloom") bloom_fits
          bloom_size in
      let (hash_fits, hash_size) = valid.transaction_hash_sized in
      let hash =
        sized_bytes_read x laws o "transactionHash" r.transaction_hash 32
          (h.found "transactionHash") hash_fits hash_size in
      let index =
        uint64_read x laws o "transactionIndex" r.transaction_index (h.found "transactionIndex")
          valid.transaction_index_fits in
      let (block_fits, block_size) = valid.block_hash_sized in
      let block =
        sized_bytes_read x laws o "blockHash" r.block_hash 32 (h.found "blockHash") block_fits
          block_size in
      let number =
        uint64_read x laws o "blockNumber" r.block_number (h.found "blockNumber")
          valid.block_number_fits in
      let gas = uint64_read x laws o "gasUsed" r.gas_used (h.found "gasUsed") valid.gas_used_fits in
      let price =
        uint256_read x laws o "effectiveGasPrice" r.effective_gas_price
          (h.found "effectiveGasPrice") valid.effective_gas_price_fits in
      let (from_fits, from_size) = valid.from_sized in
      let from = sized_bytes_read x laws o "from" r.from 20 (h.found "from") from_fits from_size in
      let logs = logs_read x laws fields r.logs valid.logs_valid in
      let to = optional_bytes_read x laws o "to" r.to 20 (h.found "to") valid.to_sized in
      let contract =
        optional_bytes_read x laws o "contractAddress" r.contract_address 20
          (h.found "contractAddress") valid.contract_address_sized in
      let stamp = timestamp_read x laws fields o r.block_timestamp (h.found "blockTimestamp") in
      rw (fields.object_kept o) (
        rw receipt_type (
          rw (type_bounded valid.receipt_type_fits) (
            rw status (
              rw cumulative (
                rw raw_logs (
                  rw bloom (
                    rw hash (
                      rw index (
                        rw block (
                          rw number (
                            rw gas (
                              rw price (
                                rw from (rw logs (rw to (rw contract (rw stamp refl)))))))))))))))))

  stamp_last :
      (v : Option ℕ)
      → v ≡ r.block_timestamp
      → (stamp_read x laws fields v >>= λ block_timestamp.
          some (record r { block_timestamp = block_timestamp }))
        ≡ unless_stamped r v
  stamp_last none e = ap (λ b. some (record r { block_timestamp = b })) e
  stamp_last (some t) e = refl

  -- Over a JSON library that keeps fields and reads back what it printed, a receipt whose numbers fit
  -- their types and whose addresses, hashes and logs have their sizes is read back from what it was
  -- printed as where it has no timestamp, and is refused where it has one.
  pub receipt_from_json-receipt_to_json :
      receipt_from_json x (x.of_object (receipt_to_json x r)) ≡ unless_stamped r r.block_timestamp
  receipt_from_json-receipt_to_json =
      receipt_fields_read (receipt_to_json x r) receipt_to_json-Holds
      ∙ stamp_last r.block_timestamp refl
