-- ===== src/Evm/Tests.antt =====
-- A transaction and a receipt with a log, printed and read again.
use dex_knight.Prelude.{
  List, ℕ, zero, suc, ◌<◌, ◌≡◌, refl, arith, Bytes, [], ◌∷◌, none, some, All, replicate,
  length-replicate, ◌^◌, same_bytes, if◌then◌else◌, subst,
}
use dex_knight.Prelude.Chars.{codes, from_chars}
use dex_knight.Utils.Fields.{
  json_hex_bytes_of_size, json_hex_bytes, json_string, parse_hex_bytes, c_str, has_hex_prefix,
  json_hex_uint64, parse_hex_quantity, json_optional_hex_uint256, json_hex_uint256,
  parse_hex_uint256, json_optional_hex_uint64, json_optional_hex_bytes,
}
use dex_knight.External.{External}
use dex_knight.External.Sample.{texts, fields}
use dex_knight.Utils.Fields.InRange.{ReadsInRange}
use dex_knight.Evm.Transaction.Typed.{transaction_from_json-IsTransaction}
use dex_knight.Utils.Hex.{hex_data, hex_quantity_256}
use dex_knight.Utils.Hex.Digits.{from_digits-digits_of}
use dex_knight.Utils.Fields.Printed.{PrintsBack, IsText}
use dex_knight.Evm.Transaction.{Transaction, transaction_from_json, transaction_to_json}
use dex_knight.Evm.Receipt.{Receipt, receipt_from_json, receipt_to_json}
use dex_knight.Evm.Receipt.RoundTrip.{IsReceipt, unless_stamped, receipt_from_json-receipt_to_json}
use dex_knight.Evm.Transaction.Fields.{KeepsFields}
use dex_knight.Evm.Transaction.RoundTrip.{IsTransaction, transaction_from_json-transaction_to_json}

ones-IsText : (n : ℕ) → IsText (replicate n b'1')
ones-IsText zero = tt
ones-IsText (suc n) = (λ e. omega arith, ones-IsText n)

bytes_printed : (b : Bytes) → All (λ a. a < 256) b → texts.from_hex (hex_data b) ≡ some b
unfolding hex_data
bytes_printed b h = from_digits-digits_of b h

number_printed :
    (n : ℕ) → n < 2 ^ 256 → texts.uint256_from_string (hex_quantity_256 texts n) ≡ some n
unfolding hex_quantity_256
number_printed n h = rw (length-replicate {A = ℕ} n b'1') refl

pub texts-PrintsBack : PrintsBack texts
texts-PrintsBack = record {
  text_kept = λ s. refl;
  text_not_null = λ s. refl;
  text_no_integer = λ s. refl;
  null_is_null = refl;
  bytes_read = bytes_printed;
  number_read = number_printed;
  number_text = λ n. ones-IsText (suc n);
  number_given = λ n. omega arith;
}

arrays_kept : (vs : List texts.Value) → texts.as_array (texts.of_array vs) ≡ some vs
arrays_kept [] = refl
arrays_kept (v ∷ vs) = rw (arrays_kept vs) refl

pub texts-KeepsFields : KeepsFields texts
texts-KeepsFields = record {
  object_kept = λ o. refl;
  field_read = λ o f g v. refl;
  array_kept = arrays_kept;
}

pub bytes_of-All : (n : ℕ) → All (λ a. a < 256) (replicate n 17)
bytes_of-All zero = tt
bytes_of-All (suc n) = (omega arith, bytes_of-All n)

zeros-All : (n : ℕ) → All (λ a. a < 256) (replicate n 0)
zeros-All zero = tt
zeros-All (suc n) = (omega arith, zeros-All n)

some_eq {ℓ} : {A : Type ℓ} {a b : A} → some a ≡ some b → a ≡ b
some_eq e = cc e

abbrev transaction : Transaction
transaction = record {
  hash = some (replicate 32 17);
  input = 0x4c ∷ 0xab ∷ [];
  from = replicate 20 17;
  chain_id = some 1;
  value = 3;
  gas_price = none;
  gas = 700000;
  max_fee_per_gas = none;
  max_priority_fee_per_gas = some 1;
  nonce = 7;
  tx_type = 2;
  to = some (replicate 20 17);
}

transaction-IsTransaction : IsTransaction transaction
transaction-IsTransaction = record {
  hash_sized = (bytes_of-All 32, refl);
  input_bytes = (omega arith, (omega arith, tt));
  from_sized = (bytes_of-All 20, refl);
  chain_id_fits = omega arith;
  value_fits = omega arith;
  gas_price_fits = tt;
  gas_fits = omega arith;
  max_fee_fits = tt;
  max_priority_fee_fits = omega arith;
  nonce_fits = omega arith;
  tx_type_fits = omega arith;
  to_sized = (bytes_of-All 20, refl);
}

transaction_from_json-transaction_to_json_example :
    transaction_from_json texts (texts.of_object (transaction_to_json texts transaction))
    ≡ some transaction
transaction_from_json-transaction_to_json_example =
    transaction_from_json-transaction_to_json texts texts-PrintsBack texts-KeepsFields transaction
      transaction-IsTransaction

abbrev pub receipt : Receipt
receipt = record {
  receipt_type = 2;
  status = 1;
  cumulative_gas_used = 21000;
  logs =
      record { address = replicate 20 17; topics = replicate 32 17 ∷ []; log_data = 1 ∷ [] } ∷ [];
  logs_bloom = replicate 256 17;
  transaction_hash = replicate 32 17;
  transaction_index = 0;
  block_hash = replicate 32 17;
  block_number = 7;
  gas_used = 21000;
  effective_gas_price = 1;
  from = replicate 20 17;
  to = none;
  contract_address = some (replicate 20 17);
  block_timestamp = none;
}

pub receipt-IsReceipt : IsReceipt receipt
receipt-IsReceipt = record {
  receipt_type_fits = omega arith;
  status_fits = omega arith;
  cumulative_gas_used_fits = omega arith;
  logs_valid = (
    record {
      address_sized = (bytes_of-All 20, refl);
      topics_sized = ((bytes_of-All 32, refl), tt);
      data_bytes = (omega arith, tt);
    },
    tt,
  );
  logs_bloom_sized = (bytes_of-All 256, refl);
  transaction_hash_sized = (bytes_of-All 32, refl);
  transaction_index_fits = omega arith;
  block_hash_sized = (bytes_of-All 32, refl);
  block_number_fits = omega arith;
  gas_used_fits = omega arith;
  effective_gas_price_fits = omega arith;
  from_sized = (bytes_of-All 20, refl);
  to_sized = tt;
  contract_address_sized = (bytes_of-All 20, refl);
}

receipt_from_json-receipt_to_json_example :
    receipt_from_json texts (texts.of_object (receipt_to_json texts receipt))
    ≡ unless_stamped receipt none
receipt_from_json-receipt_to_json_example =
    receipt_from_json-receipt_to_json texts texts-PrintsBack texts-KeepsFields receipt
      receipt-IsReceipt

-- A library of texts whose objects have every field but a hash, with the text 0x1.
abbrev without_hash : External
without_hash = record (fields (λ name. [])) {
  if_contains = λ o f. if same_bytes (codes f) (codes "hash") then none else some (codes "0x1");
}

without_hash-ReadsInRange : ReadsInRange without_hash
without_hash-ReadsInRange = record {
  bytes_fit = λ s b e. subst (All (λ a. a < 256)) (some_eq e) (zeros-All 20);
  number_fits = λ s n e. omega (arith, some_eq e);
}

abbrev read_transaction : Transaction
read_transaction = record {
  hash = none;
  input = replicate 20 0;
  from = replicate 20 0;
  chain_id = some 1;
  value = 0;
  gas_price = some 0;
  gas = 1;
  max_fee_per_gas = some 0;
  max_priority_fee_per_gas = some 0;
  nonce = 1;
  tx_type = 1;
  to = some (replicate 20 0);
}

reads : transaction_from_json without_hash [] ≡ some read_transaction
unfolding transaction_from_json same_bytes json_hex_bytes_of_size json_hex_bytes json_string
    parse_hex_bytes c_str has_hex_prefix json_hex_uint64 parse_hex_quantity from_chars
    json_optional_hex_uint256 json_hex_uint256 parse_hex_uint256 json_optional_hex_uint64
    json_optional_hex_bytes
reads = refl

transaction_from_json-IsTransaction_example : IsTransaction read_transaction
transaction_from_json-IsTransaction_example =
    transaction_from_json-IsTransaction without_hash without_hash-ReadsInRange [] read_transaction
      reads
