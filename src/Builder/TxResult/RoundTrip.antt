-- ===== src/Builder/TxResult/RoundTrip.antt =====
-- The result of a transaction of a bundle, printed and read again.
use dex_knight.Prelude.{
  ℕ, ◌<◌, ◌^◌, ◌≡◌, refl, ap, ◌∙◌, arith, false, Bool, [], ◌∷◌, Option, none, some, same_bytes,
  if◌then◌else◌,
}
use Prim.Native.String.{String}
use dex_knight.Prelude.Chars.{codes}
use dex_knight.External.{External}
use dex_knight.Utils.Hex.{hex_quantity, hex_data}
use dex_knight.Utils.Fields.{json_optional_hex_uint64}
use dex_knight.Utils.Fields.Optional.{json_optional_hex_uint64_absent}
use dex_knight.Utils.Fields.Printed.{
  PrintsBack, IsText, printed, Given, IsSized, string_read, sized_bytes_read, optional_uint64_read,
  optional_string_read,
}
use dex_knight.Evm.Transaction.{set_text, set_optional}
use dex_knight.Evm.Transaction.Fields.{
  KeepsFields, Fields, look_up, Holds, Holds-set_text, Holds-set_optional, last_set,
}
use dex_knight.Evm.Receipt.{Receipt, receipt_to_json}
use dex_knight.Evm.Receipt.RoundTrip.{IsReceipt, receipt_from_json-receipt_to_json}
use dex_knight.Builder.TxResult.{
  BundleTxStatus, included, reverted, missing, BundleTxResult, bundle_tx_status_from_string,
  bundle_tx_status_to_string, optional_receipt, set_if_given, set_receipt,
  bundle_tx_result_from_json, bundle_tx_result_to_json,
}

-- What boost::json documents of the other values: a new object has no fields, an object is no null, and
-- a Boolean is kept.
pub record KeepsValues (x : External) : Type 0 where
  pub nothing_set : (f : String) → x.if_contains x.no_fields f ≡ none
  pub object_not_null : (o : x.Object) → x.is_null (x.of_object o) ≡ false
  pub bool_kept : (b : Bool) → x.as_bool (x.of_bool b) ≡ some b

-- A receipt that can be read again has no timestamp.
pub record IsUnstamped (r : Receipt) : Type 0 where
  pub valid : IsReceipt r
  pub unstamped : r.block_timestamp ≡ none

pub record IsTxResult (r : BundleTxResult) : Type 0 where
  pub id_text : Given IsText r.mempool_tx_id
  pub hash_sized : IsSized 32 r.chain_tx_hash
  pub block_number_fits : Given (λ n. n < 2 ^ 64) r.block_number
  pub transaction_index_fits : Given (λ n. n < 2 ^ 64) r.transaction_index
  pub receipt_valid : Given IsUnstamped r.receipt

status_read :
    (s : BundleTxStatus) → bundle_tx_status_from_string (bundle_tx_status_to_string s) ≡ some s
unfolding bundle_tx_status_from_string bundle_tx_status_to_string same_bytes
status_read included = refl
status_read reverted = refl
status_read missing = refl

bundle_tx_status_to_string-IsText : (s : BundleTxStatus) → IsText (bundle_tx_status_to_string s)
unfolding bundle_tx_status_to_string
bundle_tx_status_to_string-IsText included = omega arith
bundle_tx_status_to_string-IsText reverted = omega arith
bundle_tx_status_to_string-IsText missing = omega arith

-- A number that is given, over what the field held.
abbrev over : (x : External) → Option ℕ → Option x.Value → Option x.Value
over x none held = held
over x (some n) held = some (x.of_string (hex_quantity n))

abbrev receipt_value : (x : External) → Option Receipt → x.Value
receipt_value x none = x.null
receipt_value x (some r) = x.of_object (receipt_to_json x r)

module _ (x : External) (fields : KeepsFields x) where
  set_if_given-found :
      (f g : String) (v : Option ℕ) (o : x.Object)
      → x.if_contains (set_if_given x f v o) g ≡ (
          if same_bytes (codes f) (codes g)
          then over x v (x.if_contains o g)
          else x.if_contains o g)
  unfolding set_if_given set_text
  set_if_given-found f g none o = ground arith
  set_if_given-found f g (some n) o = fields.field_read o f g (x.of_string (hex_quantity n))

  set_receipt-found :
      (g : String) (v : Option Receipt) (o : x.Object)
      → x.if_contains (set_receipt x v o) g ≡ (
          if same_bytes (codes "receipt") (codes g)
          then some (receipt_value x v)
          else x.if_contains o g)
  unfolding set_receipt
  set_receipt-found g none o = fields.field_read o "receipt" g x.null
  set_receipt-found g (some r) o =
      let b = same_bytes (codes "receipt") (codes g) in
      let v = some (x.of_object (receipt_to_json x r)) in
      fields.field_read (x.set_field o "receipt" x.null) "receipt" g
        (x.of_object (receipt_to_json x r))
      ∙ ap (λ w. if b then v else w) (fields.field_read o "receipt" g x.null)
      ∙ last_set b v (some x.null) (x.if_contains o g)

module _ (x : External) (laws : PrintsBack x) (fields : KeepsFields x)
    (values : KeepsValues x) where
  number_read :
      (o : x.Object) (f : String) (v : Option ℕ)
      → x.if_contains o f ≡ over x v none
      → Given (λ n. n < 2 ^ 64) v
      → json_optional_hex_uint64 x o f ≡ some v
  number_read o f none held fits = json_optional_hex_uint64_absent x o f held
  number_read o f (some n) held fits = optional_uint64_read x laws o f (some n) held fits

  receipt_read :
      (v : Option Receipt) → Given IsUnstamped v → optional_receipt x (receipt_value x v) ≡ some v
  unfolding optional_receipt
  receipt_read none valid = rw laws.null_is_null refl
  receipt_read (some r) valid =
      rw (values.object_not_null (receipt_to_json x r)) (
        rw (receipt_from_json-receipt_to_json x laws fields r valid.valid)
          (rw valid.unstamped refl))

module _ (x : External) (laws : PrintsBack x) (fields : KeepsFields x) (values : KeepsValues x)
    (r : BundleTxResult) (valid : IsTxResult r) where
  -- The fields in front of those that may be absent.
  abbrev first_fields : Fields x fields
  first_fields =
      ("status", x.of_string (bundle_tx_status_to_string r.status))
      ∷ ("chainTxHash", x.of_string (hex_data r.chain_tx_hash))
      ∷ ("mempoolTxId", printed x (λ s. s) r.mempool_tx_id)
      ∷ []

  abbrev first_object : x.Object
  first_object = set_text x "status" (bundle_tx_status_to_string r.status) (
      set_text x "chainTxHash" (hex_data r.chain_tx_hash)
        (set_optional x (λ s. s) "mempoolTxId" r.mempool_tx_id x.no_fields))

  first_object-Holds : Holds x fields first_object first_fields x.no_fields
  first_object-Holds =
      let h =
        Holds-set_optional x fields (λ s. s) "mempoolTxId" r.mempool_tx_id
          (record { found = λ g. refl }) in
      let h = Holds-set_text x fields "chainTxHash" (hex_data r.chain_tx_hash) h in
      Holds-set_text x fields "status" (bundle_tx_status_to_string r.status) h

  abbrev with_block : x.Object
  with_block = set_if_given x "blockNumber" r.block_number first_object

  abbrev with_index : x.Object
  with_index = set_if_given x "transactionIndex" r.transaction_index with_block

  -- What the printed object holds under a name.
  abbrev held : String → Option x.Value
  held g =
      let first = look_up x fields first_fields x.no_fields g in
      let block =
        if same_bytes (codes "blockNumber") (codes g) then over x r.block_number first else first in
      let index =
        if same_bytes (codes "transactionIndex") (codes g)
        then over x r.transaction_index block
        else block in
      if same_bytes (codes "receipt") (codes g) then some (receipt_value x r.receipt) else index

  printed-held : (g : String) → x.if_contains (bundle_tx_result_to_json x r) g ≡ held g
  unfolding bundle_tx_result_to_json
  printed-held g =
      let first = first_object-Holds.found g in
      let block =
        set_if_given-found x fields "blockNumber" g r.block_number first_object
        ∙ ap
            (λ w. if same_bytes (codes "blockNumber") (codes g) then over x r.block_number w else w)
            first in
      let index =
        set_if_given-found x fields "transactionIndex" g r.transaction_index with_block
        ∙ ap
            (λ w.
              if same_bytes (codes "transactionIndex") (codes g)
              then over x r.transaction_index w
              else w)
            block in
      set_receipt-found x fields g r.receipt with_index
      ∙ ap
          (λ w.
            if same_bytes (codes "receipt") (codes g) then some (receipt_value x r.receipt) else w)
          index

  fields_read :
      (o : x.Object)
      → ((g : String) → x.if_contains o g ≡ held g)
      → bundle_tx_result_from_json x (x.of_object o) ≡ some r
  unfolding bundle_tx_result_from_json same_bytes
  fields_read o h =
      let id =
        optional_string_read x laws o "mempoolTxId" r.mempool_tx_id (h "mempoolTxId")
          valid.id_text in
      let hash =
        sized_bytes_read x laws o "chainTxHash" r.chain_tx_hash 32 (h "chainTxHash")
          valid.hash_sized.0 valid.hash_sized.1 in
      let status =
        string_read x laws o "status" _ (h "status") (bundle_tx_status_to_string-IsText r.status) in
      let absent_block = ap (over x r.block_number) (values.nothing_set "blockNumber") in
      let absent_index = ap (over x r.transaction_index) (values.nothing_set "transactionIndex") in
      let block =
        number_read x laws fields values o "blockNumber" r.block_number
          (h "blockNumber" ∙ absent_block) valid.block_number_fits in
      let index =
        number_read x laws fields values o "transactionIndex" r.transaction_index
          (h "transactionIndex" ∙ absent_index) valid.transaction_index_fits in
      rw (fields.object_kept o) (
        rw id (
          rw hash (
            rw status (
              rw block (
                rw index (
                  rw (status_read r.status) (
                    rw (h "receipt") (
                      rw (receipt_read x laws fields values r.receipt valid.receipt_valid)
                        refl))))))))

  -- The result of a transaction is read back from what it was printed as.
  pub bundle_tx_result_from_json-bundle_tx_result_to_json :
      bundle_tx_result_from_json x (x.of_object (bundle_tx_result_to_json x r)) ≡ some r
  bundle_tx_result_from_json-bundle_tx_result_to_json =
      fields_read (bundle_tx_result_to_json x r) printed-held
