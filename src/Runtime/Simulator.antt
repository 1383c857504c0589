-- ===== src/Runtime/Simulator.antt =====
-- knight/src/simulation/simulator.cpp.
use dex_knight.Prelude.{Bytes, Option, none, some, Expected, ok, unexpected}
use dex_knight.External.{External}
use dex_knight.Utils.Fields.{parse_to_json}
use dex_knight.Builder.Bundle.{Bundle}
use dex_knight.Builder.Result.{
  BundleResult, BundleSimulationResult, bundle_result_from_json, bundle_simulation_result_from_json,
}
use dex_knight.Builder.RestClient.{
  Error, invalid_response, Server, Traffic, simulate_bundle, submit_bundle,
}

-- The result in a raw response; a response that cannot be read is INVALID_RESPONSE.
unfoldable pub read_result {ℓ} :
    {A : Type ℓ} (x : External) → (x.Value → Option A) → Expected Bytes Error → Expected A Error
read_result x from_json (unexpected error) = unexpected error
read_result x from_json (ok raw_response) = elim (parse_to_json x raw_response) [
  | none ↦ unexpected invalid_response
  | some json ↦ elim (from_json json) [
    | none ↦ unexpected invalid_response
    | some result ↦ ok result
  ]
]

unfoldable pub simulate :
    External → Server → Bundle → Traffic → Expected BundleSimulationResult Error × Traffic
unfolding read_result
simulate x server bundle t =
    let (raw_response, t') = simulate_bundle server x bundle t in
    (read_result x (bundle_simulation_result_from_json x) raw_response, t')

unfoldable pub submit : External → Server → Bundle → Traffic → Expected BundleResult Error × Traffic
unfolding read_result
submit x server bundle t =
    let (raw_response, t') = submit_bundle server x bundle t in
    (read_result x (bundle_result_from_json x) raw_response, t')
