-- ===== src/Builder/Result/RoundTrip.antt =====
-- The results of a bundle and of its simulation, printed and read again.
use dex_knight.Prelude.{◌≡◌, refl, arith, Bool, List, [], ◌∷◌, map, some, All, same_bytes}
use dex_knight.External.{External}
use dex_knight.Utils.Fields.{json_bool}
use dex_knight.Utils.Fields.Printed.{PrintsBack, IsText, string_read}
use dex_knight.Evm.Transaction.Fields.{
  KeepsFields, Fields, Holds, Holds-set_text, Holds-set_field, array_read,
}
use dex_knight.Builder.TxResult.{BundleTxResult, bundle_tx_result_to_json}
use dex_knight.Builder.TxResult.RoundTrip.{
  KeepsValues, IsTxResult, bundle_tx_result_from_json-bundle_tx_result_to_json,
}
use dex_knight.Builder.Result.{
  BundleStatus, included, failed, bundle_status_from_string, bundle_status_to_string, BundleResult,
  BundleSimulationResult, transactions_from_json, bundle_result_from_json, bundle_result_to_json,
  bundle_simulation_result_from_json, bundle_simulation_result_to_json,
}

bundle_status_read :
    (s : BundleStatus) → bundle_status_from_string (bundle_status_to_string s) ≡ some s
unfolding bundle_status_from_string bundle_status_to_string same_bytes
bundle_status_read included = refl
bundle_status_read failed = refl

bundle_status_to_string-IsText : (s : BundleStatus) → IsText (bundle_status_to_string s)
unfolding bundle_status_to_string
bundle_status_to_string-IsText included = omega arith
bundle_status_to_string-IsText failed = omega arith

module _ (x : External) (laws : PrintsBack x) (fields : KeepsFields x)
    (values : KeepsValues x) where
  transactions_read :
      (rs : List BundleTxResult)
      → All IsTxResult rs
      → transactions_from_json x (map (λ r. x.of_object (bundle_tx_result_to_json x r)) rs)
        ≡ some rs
  unfolding transactions_from_json
  transactions_read [] h = refl
  transactions_read (r ∷ rs) (valid, h) =
      rw (bundle_tx_result_from_json-bundle_tx_result_to_json x laws fields values r valid)
        (rw (transactions_read rs h) refl)

  module _ (r : BundleResult) (valid : All IsTxResult r.transactions) where
    abbrev raw_transactions : List x.Value
    raw_transactions = map (λ t. x.of_object (bundle_tx_result_to_json x t)) r.transactions

    abbrev result_fields : Fields x fields
    result_fields =
        ("transactions", x.of_array raw_transactions)
        ∷ ("status", x.of_string (bundle_status_to_string r.status))
        ∷ []

    bundle_result_to_json-Holds :
        Holds x fields (bundle_result_to_json x r) result_fields x.no_fields
    unfolding bundle_result_to_json
    bundle_result_to_json-Holds =
        let h =
          Holds-set_text x fields "status" (bundle_status_to_string r.status)
            (record { found = λ g. refl }) in
        Holds-set_field x fields "transactions" (x.of_array raw_transactions) h

    -- The reader on an object with the two fields of a result.
    result_read :
        (o : x.Object)
        → x.if_contains o "status" ≡ some (x.of_string (bundle_status_to_string r.status))
        → x.if_contains o "transactions" ≡ some (x.of_array raw_transactions)
        → bundle_result_from_json x (x.of_object o) ≡ some r
    unfolding bundle_result_from_json
    result_read o held_status held_transactions =
        let status =
          string_read x laws o "status" _ held_status (bundle_status_to_string-IsText r.status) in
        let transactions =
          array_read x fields o "transactions" raw_transactions held_transactions in
        rw (fields.object_kept o) (
          rw status (
            rw transactions (
              rw (bundle_status_read r.status) (rw (transactions_read r.transactions valid) refl))))

    bundle_result_from_json-bundle_result_to_json :
        bundle_result_from_json x (x.of_object (bundle_result_to_json x r)) ≡ some r
    unfolding same_bytes
    bundle_result_from_json-bundle_result_to_json =
        let h = bundle_result_to_json-Holds in
        result_read (bundle_result_to_json x r) (h.found "status") (h.found "transactions")

    simulation_read :
        (o : x.Object) (b : Bool)
        → Holds x fields o (("simulated", x.of_bool b) ∷ result_fields) x.no_fields
        → bundle_simulation_result_from_json x (x.of_object o)
          ≡ some (record { result = r; simulated = b })
    unfolding bundle_simulation_result_from_json json_bool same_bytes
    simulation_read o b h =
        rw (result_read o (h.found "status") (h.found "transactions"))
          (rw (fields.object_kept o) (rw (h.found "simulated") (rw (values.bool_kept b) refl)))

  -- Over a JSON library that keeps fields and reads back what it printed, the results of a bundle and of
  -- its simulation are read back from what they were printed as, where the results of the transactions
  -- have numbers that fit their types, hashes of their sizes and receipts without timestamps.
  pub results_round_trip :
      (s : BundleSimulationResult)
      → All IsTxResult s.transactions
      → (bundle_result_from_json x (x.of_object (bundle_result_to_json x s.result)) ≡ some s.result)
        × (bundle_simulation_result_from_json x (x.of_object (bundle_simulation_result_to_json x s))
            ≡ some s)
  unfolding bundle_simulation_result_to_json
  results_round_trip s valid = (
    bundle_result_from_json-bundle_result_to_json s.result valid,
    simulation_read s.result valid (bundle_simulation_result_to_json x s) s.simulated (
        Holds-set_field x fields "simulated" (x.of_bool s.simulated)
          (bundle_result_to_json-Holds s.result valid)),
  )
