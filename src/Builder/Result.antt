-- ===== src/Builder/Result.antt =====
-- knight/src/builder/bundle_result.cpp and bundle_sim_result.cpp.
pub mod RoundTrip
mod Tests
use dex_knight.Prelude.{
  Bool, Bytes, List, [], ◌∷◌, map, Option, none, some, same_bytes, if◌then◌else◌, ◌>>=◌,
}
use dex_knight.Prelude.Chars.{codes}
use dex_knight.External.{External}
use dex_knight.Utils.Fields.{json_string, json_array, json_bool}
use dex_knight.Evm.Transaction.{set_text}
use dex_knight.Builder.TxResult.{
  BundleTxResult, bundle_tx_result_from_json, bundle_tx_result_to_json,
}

-- builder::BundleStatus
pub data BundleStatus : Type 0 where
  included failed : BundleStatus

unfoldable pub bundle_status_from_string : Bytes → Option BundleStatus
bundle_status_from_string status =
    if same_bytes status (codes "included")
    then some included
    else if same_bytes status (codes "failed")
    then some failed
    else none

unfoldable pub bundle_status_to_string : BundleStatus → Bytes
bundle_status_to_string included = codes "included"
bundle_status_to_string failed = codes "failed"

-- builder::BundleResult
pub record BundleResult : Type 0 where
  pub status : BundleStatus
  pub transactions : List BundleTxResult

-- builder::BundleSimulationResult, which extends it.
pub record BundleSimulationResult : Type 0 where
  pub result : BundleResult
  pub open result use *
  pub simulated : Bool

module _ (x : External) where
  open x use {Value, Object, as_object, of_bool, of_array, of_object, no_fields, set_field}

  -- The loop over the raw transactions: one that cannot be read refuses the result.
  unfoldable pub transactions_from_json : List Value → Option (List BundleTxResult)
  transactions_from_json [] = some []
  transactions_from_json (raw_transaction ∷ rest) = do
    transaction ← bundle_tx_result_from_json x raw_transaction
    transactions ← transactions_from_json rest
    some (transaction ∷ transactions)

  unfoldable pub bundle_result_from_json : Value → Option BundleResult
  unfolding transactions_from_json
  bundle_result_from_json value = do
    object ← as_object value
    raw_status ← json_string x object "status"
    raw_transactions ← json_array x object "transactions"
    status ← bundle_status_from_string raw_status
    transactions ← transactions_from_json raw_transactions
    some (record { status = status; transactions = transactions })

  pub bundle_result_to_json : BundleResult → Object
  bundle_result_to_json result =
      let o = set_text x "status" (bundle_status_to_string result.status) no_fields in
      set_field o "transactions"
        (of_array (map (λ t. of_object (bundle_tx_result_to_json x t)) result.transactions))

  unfoldable pub bundle_simulation_result_from_json : Value → Option BundleSimulationResult
  bundle_simulation_result_from_json value = do
    result ← bundle_result_from_json value
    object ← as_object value
    simulated ← json_bool x object "simulated"
    some (record { result = result; simulated = simulated })

  pub bundle_simulation_result_to_json : BundleSimulationResult → Object
  bundle_simulation_result_to_json result =
      set_field (bundle_result_to_json result.result) "simulated" (of_bool result.simulated)
