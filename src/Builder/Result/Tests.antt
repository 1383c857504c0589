-- ===== src/Builder/Result/Tests.antt =====
-- The result of a simulation with a transaction that has a receipt, printed and read again.
use dex_knight.Prelude.{◌≡◌, refl, true, arith, [], ◌∷◌, none, some, replicate}
use dex_knight.Prelude.Chars.{codes}
use dex_knight.External.Sample.{texts}
use dex_knight.Evm.Tests.{
  texts-PrintsBack, texts-KeepsFields, bytes_of-All, receipt, receipt-IsReceipt,
}
use dex_knight.Builder.TxResult
use dex_knight.Builder.TxResult.{BundleTxResult}
use dex_knight.Builder.TxResult.RoundTrip.{KeepsValues, IsTxResult}
use dex_knight.Builder.Result.{
  included, BundleSimulationResult, bundle_result_from_json, bundle_result_to_json,
  bundle_simulation_result_from_json, bundle_simulation_result_to_json,
}
use dex_knight.Builder.Result.RoundTrip.{results_round_trip}

texts-KeepsValues : KeepsValues texts
texts-KeepsValues = record {
  nothing_set = λ f. refl;
  object_not_null = λ o. refl;
  bool_kept = λ b. refl;
}

abbrev tx_result : BundleTxResult
tx_result = record {
  mempool_tx_id = some (codes "tx");
  chain_tx_hash = replicate 32 17;
  status = TxResult.included;
  block_number = some 7;
  transaction_index = none;
  receipt = some receipt;
}

tx_result-IsTxResult : IsTxResult tx_result
tx_result-IsTxResult = record {
  id_text = omega arith;
  hash_sized = (bytes_of-All 32, refl);
  block_number_fits = omega arith;
  transaction_index_fits = tt;
  receipt_valid = record { valid = receipt-IsReceipt; unstamped = refl };
}

abbrev simulation : BundleSimulationResult
simulation = record {
  result = record { status = included; transactions = tx_result ∷ [] };
  simulated = true;
}

results_round_trip_example :
    (bundle_result_from_json texts (texts.of_object (bundle_result_to_json texts simulation.result))
      ≡ some simulation.result)
    × (bundle_simulation_result_from_json texts
          (texts.of_object (bundle_simulation_result_to_json texts simulation))
        ≡ some simulation)
results_round_trip_example =
    results_round_trip texts texts-PrintsBack texts-KeepsFields texts-KeepsValues simulation
      (tx_result-IsTxResult, tt)
