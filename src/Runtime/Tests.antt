-- ===== src/Runtime/Tests.antt =====
-- A round that submits a bundle, for two pools and a builder that includes every bundle.
mod Sourced
use dex_knight.Prelude.{
  ℕ, ◌+◌, ◌≡◌, refl, true, false, arith, [], ◌∷◌, ◌++◌, none, some, replicate, same_bytes, ok,
}
use dex_knight.Prelude.Word.{wrap}
use dex_knight.Prelude.Chars.{codes}
use dex_knight.External.{External}
use dex_knight.External.Sample.{chain}
use dex_knight.Network
use dex_knight.Utils.Sqrt.{integer_sqrt}
use dex_knight.Evm.Contracts.{swap_exact_a_for_b, swap_exact_a_for_b_selector}
use dex_knight.Evm.Transaction.{Transaction}
use dex_knight.Candidate.Types.{Candidate, a_for_b, PoolSnapshot, StateSnapshot}
use dex_knight.Candidate.Filter.{decode_swap}
use dex_knight.Arbitrage.Calculator.{
  Opportunity, find_pool_snapshot, apply_victim_swap, amount_out, search_pools, keep_better,
  evaluate_against, evaluate_pool, best_route_quote, optimal_amount_in_b, quote_route, apply_bps,
  find_arbitrage,
}
use dex_knight.Builder.Bundle.{Bundle}
use dex_knight.Builder.Result.{
  BundleResult, BundleSimulationResult, included, bundle_simulation_result_from_json,
  bundle_result_from_json, transactions_from_json, bundle_status_from_string,
}
use dex_knight.Utils.Fields.{parse_to_json, json_string, json_array, json_bool, c_str}
use dex_knight.Builder.RestClient.{Server, simulate_bundle, submit_bundle}
use dex_knight.Backrun.Encoder.{encode_execute_backrun}
use dex_knight.Backrun.Encoder.Layout.{abi_encoding}
use dex_knight.Common.Config.{BackrunConfig}
use dex_knight.Backrun.TxComposer.{execute_call, transaction_of, compose, mark_nonce_used}
use dex_knight.Runtime.Simulator.{simulate, submit}
use dex_knight.Runtime.Loop.{
  make_default_arbitrage_params, submitted, Runtime, bundle_of, consider, execute, after_simulation,
  after_submission, core_round, run_core_loop,
}
use dex_knight.Runtime.Loop.Submission.{
  submissions, HasPassed, core_round-HasPassed, run_core_loop-next_nonce,
}

abbrev pub external : External
external = chain

abbrev pub server : Server
server = record {
  client = record {
    use_tls = false;
    verify_tls_peer = true;
    host = codes "builder";
    port = codes "80";
  };
  exchange = λ n request. record {
    host_name_set = true;
    verified_host_set = true;
    resolved = true;
    connected = true;
    handshaken = true;
    written = true;
    read = some (record { status = 200; body = [] });
  };
}

abbrev pub pool_at : ℕ → PoolSnapshot
pool_at n = record {
  pool = record { address = replicate 20 n; token_a = []; token_b = [] };
  reserve_a = 1000000;
  reserve_b = 1000000;
}

abbrev pub candidate : Candidate
candidate = record {
  tx = record {
    transaction = record {
      hash = none;
      input = swap_exact_a_for_b_selector ++ 0 ∷ [];
      from = [];
      chain_id = none;
      value = 0;
      gas_price = none;
      gas = 0;
      max_fee_per_gas = none;
      max_priority_fee_per_gas = none;
      nonce = 0;
      tx_type = 2;
      to = some (replicate 20 1);
    };
    mempool_tx_id = 9 ∷ [];
    seq_num = 2;
    status = [];
    submitted_at = [];
  };
  pool = (pool_at 1).pool;
  swap_kind = a_for_b;
}

abbrev pub state : StateSnapshot
state = record {
  valid = true;
  block_number = some 7;
  pools = pool_at 1 ∷ pool_at 2 ∷ [];
  candidate = some candidate;
}

abbrev opportunity : Opportunity
opportunity = record {
  buy_pool = (pool_at 1).pool;
  sell_pool = (pool_at 2).pool;
  amount_in_b = 41999;
  min_amount_out_a = 0;
  min_amount_out_b = 0;
  min_profit_b = 0;
  expected_amount_out_a = 48422;
  expected_amount_out_b = 46053;
  expected_profit_b = 4054;
}

abbrev config : BackrunConfig
config = record {
  bot_address = [];
  contract_address = [];
  chain_id = 1;
  gas = 700000;
  max_fee_per_gas = 2000000000;
  max_priority_fee_per_gas = 1;
}

abbrev pub runtime : ℕ → ℕ → Runtime
runtime nonce sent = record {
  composer = record { backrun_config = config; next_nonce = some nonce };
  traffic = record { sent = sent; slept = [] };
}

abbrev pub bundle : Bundle
bundle =
    bundle_of state candidate
      (transaction_of config 5 (abi_encoding external (execute_call opportunity)))

abbrev pub result : BundleResult
result = record { status = included; transactions = [] }

swap_read :
    decode_swap external candidate
    ≡ some (swap_exact_a_for_b (record { amount_in = 100000; min_amount_out = 1 }))
unfolding decode_swap same_bytes
swap_read = refl

found :
    find_arbitrage state candidate
      (swap_exact_a_for_b (record { amount_in = 100000; min_amount_out = 1 }))
      make_default_arbitrage_params
    ≡ some opportunity
unfolding find_arbitrage find_pool_snapshot apply_victim_swap amount_out search_pools keep_better
    evaluate_against evaluate_pool best_route_quote optimal_amount_in_b quote_route apply_bps
    same_bytes wrap integer_sqrt
found = refl

abbrev backrun_tx : Transaction
backrun_tx = transaction_of config 5 (abi_encoding external (execute_call opportunity))

composed : compose external (runtime 5 0).composer opportunity ≡ ok backrun_tx
unfolding compose execute_call transaction_of encode_execute_backrun
composed = refl

abbrev simulation : BundleSimulationResult
simulation = record { result = result; simulated = true }

simulated :
    simulate external server bundle (runtime 5 0).traffic ≡ (ok simulation, (runtime 5 1).traffic)
unfolding simulate simulate_bundle Network.post parse_to_json bundle_simulation_result_from_json
    bundle_result_from_json transactions_from_json json_string json_array json_bool c_str
    bundle_status_from_string same_bytes
simulated = refl

accepted : submit external server bundle (runtime 5 1).traffic ≡ (ok result, (runtime 5 2).traffic)
unfolding submit submit_bundle Network.post parse_to_json bundle_result_from_json
    transactions_from_json json_string json_array c_str bundle_status_from_string same_bytes
accepted = refl

executes :
    execute external server state candidate opportunity (runtime 5 0)
    ≡ (submitted bundle result, runtime 6 2)
unfolding execute after_simulation after_submission mark_nonce_used wrap bundle_of
executes =
    rw (composed, execute) (rw (simulated, after_simulation) (rw (accepted, after_submission) refl))

pub submits :
    core_round external server state (runtime 5 0) ≡ (submitted bundle result, runtime 6 2)
unfolding core_round consider
submits = rw (swap_read, consider) (rw (found, consider) executes)

core_round-HasPassed_example : HasPassed external server state (runtime 5 0) bundle result
core_round-HasPassed_example =
    core_round-HasPassed external server state (runtime 5 0) (runtime 6 2) bundle result submits

one_submission :
    (run_core_loop external server (state ∷ []) (runtime 5 0)).0 ≡ submitted bundle result ∷ []
unfolding run_core_loop
one_submission = rw (submits, run_core_loop) refl

run_core_loop-next_nonce_example :
    (run_core_loop external server (state ∷ []) (runtime 5 0)).1.composer.next_nonce
    ≡ some (5 + submissions (run_core_loop external server (state ∷ []) (runtime 5 0)).0)
run_core_loop-next_nonce_example =
    run_core_loop-next_nonce external server (state ∷ []) (runtime 5 0) 5 refl
      (rw one_submission (omega arith))
