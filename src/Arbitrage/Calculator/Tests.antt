-- ===== src/Arbitrage/Calculator/Tests.antt =====
-- Runs of knight/src/arbitrage/calculator.cpp on two small pools.
use dex_knight.Prelude.{
  ℕ, ◌+◌, ◌*◌, ◌≤◌, ◌≡◌, ◌==◌, refl, true, arith, [], ◌∷◌, none, some, same_bytes, ◌⊎◌, ltb,
  if◌then◌else◌,
}
use dex_knight.Prelude.Word.{wrap}
use dex_knight.Evm.Contracts.{Swap, SwapCall, swap_exact_a_for_b}
use dex_knight.Evm.Transaction.{Transaction}
use dex_knight.Candidate.Types.{Candidate, a_for_b, PoolSnapshot, StateSnapshot}
use dex_knight.Utils.Sqrt.{integer_sqrt}
use dex_knight.Arbitrage.Calculator.{
  Params, Opportunity, amount_out, apply_bps, apply_victim_swap, find_pool_snapshot, search_pools,
  evaluate_against, evaluate_pool, best_route_quote, quote_route, optimal_amount_in_b,
  coefficient_c, coefficient_d, coefficient_e, keep_better, find_arbitrage,
}
use dex_knight.Arbitrage.Calculator.Quote.{
  ideal_out, IsQuotable, payout, swapped, exchange, apply_victim_swap_exact,
  apply_victim_swap_product,
}
use dex_knight.Arbitrage.Calculator.Optimum.{IsOptimum}
use dex_knight.Arbitrage.Calculator.Route.{
  IsLiquid, ideal_c, ideal_d, ideal_e, optimal_amount_in_b-IsOptimum, quote_route_exact,
}
use dex_knight.Arbitrage.Calculator.Search.{Dominates, OfferedBy, find_arbitrage_best}
use dex_knight.Arbitrage.Calculator.Profit.{IsProfitable, RunsThrough, find_arbitrage-IsProfitable}

abbrev victim_pool : PoolSnapshot
victim_pool = record {
  pool = record { address = 1 ∷ []; token_a = []; token_b = [] };
  reserve_a = 1000000;
  reserve_b = 1000000;
}

abbrev other_pool : PoolSnapshot
other_pool = record {
  pool = record { address = 2 ∷ []; token_a = []; token_b = [] };
  reserve_a = 1000000;
  reserve_b = 1000000;
}

abbrev params : Params
params = record { max_amount_in_b = 1000000; min_profit_b = 0; min_output_bps = 9000 }

abbrev call : SwapCall
call = record { amount_in = 100000; min_amount_out = 1 }

abbrev swap : Swap
swap = swap_exact_a_for_b call

abbrev transaction : Transaction
transaction = record {
  hash = none;
  input = [];
  from = [];
  chain_id = none;
  value = 0;
  gas_price = none;
  gas = 0;
  max_fee_per_gas = none;
  max_priority_fee_per_gas = none;
  nonce = 0;
  tx_type = 2;
  to = some (1 ∷ []);
}

abbrev candidate : Candidate
candidate = record {
  tx = record {
    transaction = transaction;
    mempool_tx_id = [];
    seq_num = 1;
    status = [];
    submitted_at = [];
  };
  pool = victim_pool.pool;
  swap_kind = a_for_b;
}

abbrev state : StateSnapshot
state = record {
  valid = true;
  block_number = some 7;
  pools = victim_pool ∷ other_pool ∷ [];
  candidate = some candidate;
}

abbrev moved_pool : PoolSnapshot
moved_pool = record { pool = victim_pool.pool; reserve_a = 1100000; reserve_b = 909339 }

abbrev opportunity : Opportunity
opportunity = record {
  buy_pool = victim_pool.pool;
  sell_pool = other_pool.pool;
  amount_in_b = 41999;
  min_amount_out_a = 43579;
  min_amount_out_b = 41447;
  min_profit_b = 0;
  expected_amount_out_a = 48422;
  expected_amount_out_b = 46053;
  expected_profit_b = 4054;
}

found_pool : find_pool_snapshot state candidate ≡ some victim_pool
unfolding find_pool_snapshot same_bytes
found_pool = refl

moved : apply_victim_swap victim_pool swap ≡ some moved_pool
unfolding apply_victim_swap amount_out wrap
moved = refl

found : find_arbitrage state candidate swap params ≡ some opportunity
unfolding find_arbitrage find_pool_snapshot apply_victim_swap search_pools keep_better
    evaluate_against evaluate_pool best_route_quote quote_route optimal_amount_in_b amount_out
    apply_bps same_bytes wrap integer_sqrt
found = refl

find_arbitrage-IsProfitable_example :
    IsProfitable params opportunity × RunsThrough swap (1 ∷ []) opportunity
find_arbitrage-IsProfitable_example =
    find_arbitrage-IsProfitable state candidate swap params opportunity found

find_arbitrage_best_example :
    Dominates
      (1 ∷ [])
      swap
      moved_pool
      params
      (find_arbitrage state candidate swap params)
      state.pools
    × ((find_arbitrage state candidate swap params ≡ none)
        ⊎ OfferedBy
            (1 ∷ [])
            swap
            moved_pool
            params
            (find_arbitrage state candidate swap params)
            state.pools)
find_arbitrage_best_example =
    find_arbitrage_best state candidate swap params (omega arith) (omega arith) found_pool moved

moved_pool-IsLiquid : IsLiquid moved_pool
moved_pool-IsLiquid = record {
  a_pos = omega arith;
  b_pos = omega arith;
  a_fits = omega arith;
  b_fits = omega arith;
}

other_pool-IsLiquid : IsLiquid other_pool
other_pool-IsLiquid = record {
  a_pos = omega arith;
  b_pos = omega arith;
  a_fits = omega arith;
  b_fits = omega arith;
}

optimal_amount_in_b-IsOptimum_example :
    IsOptimum
      (ideal_c moved_pool other_pool)
      (ideal_d moved_pool other_pool)
      (ideal_e moved_pool other_pool)
      1000000
      (optimal_amount_in_b moved_pool other_pool params)
optimal_amount_in_b-IsOptimum_example =
    optimal_amount_in_b-IsOptimum moved_pool other_pool moved_pool-IsLiquid other_pool-IsLiquid
      params (omega arith) (omega arith)

quote_route_exact_example :
    let a = ideal_out 41999 moved_pool.reserve_b moved_pool.reserve_a in
    let b = ideal_out a other_pool.reserve_a other_pool.reserve_b in
    (quote_route moved_pool other_pool 41999
      ≡ some (record { amount_in_b = 41999; amount_out_a = a; amount_out_b = b }))
    × (b * (coefficient_d moved_pool other_pool + coefficient_e moved_pool other_pool * 41999)
        ≤ coefficient_c moved_pool other_pool * 41999)
quote_route_exact_example =
    quote_route_exact moved_pool other_pool 41999 moved_pool-IsLiquid other_pool-IsLiquid (record {
      amount_pos = omega arith;
      first = record { numerator = omega arith; denominator = omega arith };
      paid = omega arith;
      second = record { numerator = omega arith; denominator = omega arith };
    })

swap-IsQuotable : IsQuotable swap victim_pool
swap-IsQuotable = record {
  amount_pos = omega arith;
  in_pos = omega arith;
  out_pos = omega arith;
  fits = record { numerator = omega arith; denominator = omega arith };
}

apply_victim_swap_exact_example :
    (apply_victim_swap victim_pool swap
      ≡ (if ltb (payout swap victim_pool) 1 then none else some (swapped swap victim_pool)))
    × (exchange swap victim_pool
        ≡ (if payout swap victim_pool == 0 then none else apply_victim_swap victim_pool swap))
apply_victim_swap_exact_example = apply_victim_swap_exact swap victim_pool swap-IsQuotable

apply_victim_swap_product_example :
    victim_pool.reserve_a * victim_pool.reserve_b ≤ moved_pool.reserve_a * moved_pool.reserve_b
apply_victim_swap_product_example =
    apply_victim_swap_product swap victim_pool moved_pool swap-IsQuotable moved

-- A victim swap of one unit for nothing: accepted, and refused by the exchange.
abbrev tiny_swap : Swap
tiny_swap = swap_exact_a_for_b (record { amount_in = 1; min_amount_out = 0 })

tiny_moved :
    apply_victim_swap victim_pool tiny_swap ≡ some (record victim_pool { reserve_a = 1000001 })
unfolding apply_victim_swap amount_out wrap
tiny_moved = refl

tiny_refused : exchange tiny_swap victim_pool ≡ none
tiny_refused = refl

-- An amount whose product with the fee's numerator wraps around to one: the swap is accepted.
abbrev inverse_of_numerator : ℕ
inverse_of_numerator =
    104178038160353688360023243282640976273202784598876214587154917607921842815469

wrapped_moved :
    apply_victim_swap victim_pool
      (swap_exact_a_for_b (record { amount_in = inverse_of_numerator; min_amount_out = 0 }))
    ≡ some (record victim_pool { reserve_a = 1000000 + inverse_of_numerator })
unfolding apply_victim_swap amount_out wrap
wrapped_moved = refl
