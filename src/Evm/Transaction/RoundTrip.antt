-- ===== src/Evm/Transaction/RoundTrip.antt =====
-- A transaction that is printed and read again.
use dex_knight.Prelude.{ℕ, ◌<◌, ◌≤◌, ◌^◌, ◌≡◌, refl, arith, [], ◌∷◌, some, All, same_bytes}
use dex_knight.External.{External}
use dex_knight.Utils.Fields.Printed.{
  PrintsBack, printed, Given, IsSized, uint64_read, bytes_read, sized_bytes_read,
  optional_uint64_read, optional_uint256_read, optional_bytes_read,
}
use dex_knight.Evm.Transaction.Fields.{
  KeepsFields, Fields, Holds, Holds-set_text, Holds-set_optional,
}
use dex_knight.Utils.Hex.{hex_quantity, hex_quantity_256, hex_data}
use dex_knight.Evm.Transaction.{Transaction, transaction_from_json, transaction_to_json, fits_uint8}

-- The widths of the numbers, the sizes of the addresses and of the hash, and bytes below 256.
pub record IsTransaction (tx : Transaction) : Type 0 where
  pub hash_sized : Given (IsSized 32) tx.hash
  pub input_bytes : All (λ a. a < 256) tx.input
  pub from_sized : IsSized 20 tx.from
  pub chain_id_fits : Given (λ n. n < 2 ^ 64) tx.chain_id
  pub value_fits : tx.value < 2 ^ 256
  pub gas_price_fits : Given (λ n. n < 2 ^ 256) tx.gas_price
  pub gas_fits : tx.gas < 2 ^ 64
  pub max_fee_fits : Given (λ n. n < 2 ^ 256) tx.max_fee_per_gas
  pub max_priority_fee_fits : Given (λ n. n < 2 ^ 256) tx.max_priority_fee_per_gas
  pub nonce_fits : tx.nonce < 2 ^ 64
  pub tx_type_fits : tx.tx_type ≤ 255
  pub to_sized : Given (IsSized 20) tx.to

pub type_fits : {n : ℕ} → n ≤ 255 → n < 2 ^ 64
type_fits h = omega arith

pub type_bounded : {n : ℕ} → n ≤ 255 → fits_uint8 (some n) ≡ some tt
type_bounded h = ground arith

module _ (x : External) (fields : KeepsFields x) where
  -- The fields of a printed transaction, the last set first.
  abbrev fields_of : Transaction → Fields x fields
  fields_of tx =
      ("input", x.of_string (hex_data tx.input))
      ∷ ("maxPriorityFeePerGas", printed x (hex_quantity_256 x) tx.max_priority_fee_per_gas)
      ∷ ("maxFeePerGas", printed x (hex_quantity_256 x) tx.max_fee_per_gas)
      ∷ ("gasPrice", printed x (hex_quantity_256 x) tx.gas_price)
      ∷ ("gas", x.of_string (hex_quantity tx.gas))
      ∷ ("value", x.of_string (hex_quantity_256 x tx.value))
      ∷ ("to", printed x hex_data tx.to)
      ∷ ("from", x.of_string (hex_data tx.from))
      ∷ ("nonce", x.of_string (hex_quantity tx.nonce))
      ∷ ("chainId", printed x hex_quantity tx.chain_id)
      ∷ ("type", x.of_string (hex_quantity tx.tx_type))
      ∷ ("hash", printed x hex_data tx.hash)
      ∷ []

  transaction_to_json-Holds :
      (tx : Transaction) → Holds x fields (transaction_to_json x tx) (fields_of tx) x.no_fields
  unfolding transaction_to_json
  transaction_to_json-Holds tx =
      let h = Holds-set_optional x fields hex_data "hash" tx.hash (record { found = λ g. refl }) in
      let h = Holds-set_text x fields "type" (hex_quantity tx.tx_type) h in
      let h = Holds-set_optional x fields hex_quantity "chainId" tx.chain_id h in
      let h = Holds-set_text x fields "nonce" (hex_quantity tx.nonce) h in
      let h = Holds-set_text x fields "from" (hex_data tx.from) h in
      let h = Holds-set_optional x fields hex_data "to" tx.to h in
      let h = Holds-set_text x fields "value" (hex_quantity_256 x tx.value) h in
      let h = Holds-set_text x fields "gas" (hex_quantity tx.gas) h in
      let h = Holds-set_optional x fields (hex_quantity_256 x) "gasPrice" tx.gas_price h in
      let h =
        Holds-set_optional x fields (hex_quantity_256 x) "maxFeePerGas" tx.max_fee_per_gas h in
      let h =
        Holds-set_optional x fields (hex_quantity_256 x) "maxPriorityFeePerGas"
          tx.max_priority_fee_per_gas h in
      Holds-set_text x fields "input" (hex_data tx.input) h

module _ (x : External) (laws : PrintsBack x) (fields : KeepsFields x) (tx : Transaction)
    (valid : IsTransaction tx) where
  -- The reader on an object that holds the printed fields.
  fields_read :
      (o : x.Object)
      → Holds x fields o (fields_of x fields tx) x.no_fields
      → transaction_from_json x (x.of_object o) ≡ some tx
  unfolding transaction_from_json same_bytes
  fields_read o h =
      let from =
        sized_bytes_read x laws o "from" tx.from 20 (h.found "from") valid.from_sized.0
          valid.from_sized.1 in
      let input = bytes_read x laws o "input" tx.input (h.found "input") valid.input_bytes in
      let gas = uint64_read x laws o "gas" tx.gas (h.found "gas") valid.gas_fits in
      let nonce = uint64_read x laws o "nonce" tx.nonce (h.found "nonce") valid.nonce_fits in
      let value =
        optional_uint256_read x laws o "value" (some tx.value) (h.found "value") valid.value_fits in
      let chain_id =
        optional_uint64_read x laws o "chainId" tx.chain_id (h.found "chainId")
          valid.chain_id_fits in
      let tx_type =
        optional_uint64_read x laws o "type" (some tx.tx_type) (h.found "type")
          (type_fits valid.tx_type_fits) in
      let hash = optional_bytes_read x laws o "hash" tx.hash 32 (h.found "hash") valid.hash_sized in
      let to = optional_bytes_read x laws o "to" tx.to 20 (h.found "to") valid.to_sized in
      let gas_price =
        optional_uint256_read x laws o "gasPrice" tx.gas_price (h.found "gasPrice")
          valid.gas_price_fits in
      let max_fee =
        optional_uint256_read x laws o "maxFeePerGas" tx.max_fee_per_gas (h.found "maxFeePerGas")
          valid.max_fee_fits in
      let max_priority_fee =
        optional_uint256_read x laws o "maxPriorityFeePerGas" tx.max_priority_fee_per_gas
          (h.found "maxPriorityFeePerGas") valid.max_priority_fee_fits in
      rw (fields.object_kept o) (
        rw from (
          rw input (
            rw gas (
              rw nonce (
                rw value (
                  rw chain_id (
                    rw tx_type (
                      rw (type_bounded valid.tx_type_fits) (
                        rw hash
                          (rw to (rw gas_price (rw max_fee (rw max_priority_fee refl)))))))))))))

  -- Over a JSON library that keeps fields and reads back what it printed, a transaction whose numbers fit
  -- their types and whose addresses and hash have their sizes is read back from what it was printed as.
  pub transaction_from_json-transaction_to_json :
      transaction_from_json x (x.of_object (transaction_to_json x tx)) ≡ some tx
  transaction_from_json-transaction_to_json =
      fields_read (transaction_to_json x tx) (transaction_to_json-Holds x fields tx)
