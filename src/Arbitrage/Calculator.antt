-- ===== src/Arbitrage/Calculator.antt =====
-- knight/src/arbitrage/calculator.cpp, with opportunity.h and params.h. Sums and products are taken
-- in the width of their `intx` type.
pub mod Quote
pub mod Optimum
pub mod Route
pub mod Search
pub mod Profit
mod Tests
use dex_knight.Prelude.{
  ℕ, ◌+◌, ◌-◌, ◌*◌, ◌/◌, Bool, Bytes, ◌||◌, Option, none, some, List, [], ◌∷◌, ltb, leb, ◌==◌,
  same_bytes, if◌then◌else◌, ◌>>=◌,
}
use dex_knight.Prelude.Word.{wrap}
use dex_knight.Utils.Sqrt.{integer_sqrt}
use dex_knight.Evm.Contracts.{
  Pool, Swap, SwapCall, swap_exact_a_for_b, swap_exact_b_for_a, fee_numerator, fee_denominator,
}
use dex_knight.Candidate.Types.{Candidate, PoolSnapshot, StateSnapshot}

-- arbitrage::Params
pub record Params : Type 0 where
  pub max_amount_in_b : ℕ
  pub min_profit_b : ℕ
  pub min_output_bps : ℕ

-- arbitrage::Opportunity
pub record Opportunity : Type 0 where
  pub buy_pool : Pool
  pub sell_pool : Pool
  pub amount_in_b : ℕ
  pub min_amount_out_a : ℕ
  pub min_amount_out_b : ℕ
  pub min_profit_b : ℕ
  pub expected_amount_out_a : ℕ
  pub expected_amount_out_b : ℕ
  pub expected_profit_b : ℕ

pub record RouteQuote : Type 0 where
  pub amount_in_b : ℕ
  pub amount_out_a : ℕ
  pub amount_out_b : ℕ

abbrev pub bps_denominator : ℕ
bps_denominator = 10000

unfoldable pub amount_out : ℕ → ℕ → ℕ → Option ℕ
amount_out amount_in reserve_in reserve_out =
    if amount_in == 0 || (reserve_in == 0 || reserve_out == 0)
    then none
    else (let amount_in_with_fee = wrap 256 (amount_in * fee_numerator) in
        let denominator = wrap 256 (wrap 256 (reserve_in * fee_denominator) + amount_in_with_fee) in
        if denominator == 0
        then none
        else some (wrap 256 (amount_in_with_fee * reserve_out) / denominator))

unfoldable pub apply_bps : ℕ → ℕ → ℕ
apply_bps value bps = wrap 256 (value * bps) / bps_denominator

find_in : List PoolSnapshot → Candidate → Option PoolSnapshot
find_in [] candidate = none
find_in (p ∷ ps) candidate =
    if same_bytes p.pool.address candidate.pool.address then some p else find_in ps candidate

unfoldable pub find_pool_snapshot : StateSnapshot → Candidate → Option PoolSnapshot
unfolding find_in
find_pool_snapshot state candidate = find_in state.pools candidate

-- The part of `apply_victim_swap` behind the quote: the guards, then the new reserves.
swap_reserves : SwapCall → ℕ → ℕ → Option ℕ → Option (ℕ × ℕ)
swap_reserves call reserve_in reserve_out none = none
swap_reserves call reserve_in reserve_out (some out) =
    if ltb out call.min_amount_out || ltb reserve_out out
    then none
    else some (wrap 256 (reserve_in + call.amount_in), reserve_out - out)

unfoldable pub apply_victim_swap : PoolSnapshot → Swap → Option PoolSnapshot
unfolding swap_reserves
apply_victim_swap p (swap_exact_a_for_b call) = do
  (a, b) ←
      swap_reserves call p.reserve_a p.reserve_b (amount_out call.amount_in p.reserve_a p.reserve_b)
  some (record p { reserve_a = a; reserve_b = b })
apply_victim_swap p (swap_exact_b_for_a call) = do
  (b, a) ←
      swap_reserves call p.reserve_b p.reserve_a (amount_out call.amount_in p.reserve_b p.reserve_a)
  some (record p { reserve_a = a; reserve_b = b })

unfoldable pub quote_route : PoolSnapshot → PoolSnapshot → ℕ → Option RouteQuote
quote_route buy sell amount_in_b = do
  amount_out_a ← amount_out amount_in_b buy.reserve_b buy.reserve_a
  amount_out_b ← amount_out amount_out_a sell.reserve_a sell.reserve_b
  some (record {
    amount_in_b = amount_in_b;
    amount_out_a = amount_out_a;
    amount_out_b = amount_out_b;
  })

-- A product and a sum of `intx::uint<1024>`.
infixl 70 ◌*₁₀₂₄◌
infixl 65 ◌+₁₀₂₄◌
◌*₁₀₂₄◌ : ℕ → ℕ → ℕ
a *₁₀₂₄ b = wrap 1024 (a * b)

◌+₁₀₂₄◌ : ℕ → ℕ → ℕ
a +₁₀₂₄ b = wrap 1024 (a + b)

-- The coefficients of amountOutB(x) = c * x / (d + e * x).
pub coefficient_c : PoolSnapshot → PoolSnapshot → ℕ
unfolding ◌*₁₀₂₄◌
coefficient_c buy sell = fee_numerator *₁₀₂₄ fee_numerator *₁₀₂₄ buy.reserve_a *₁₀₂₄ sell.reserve_b

pub coefficient_d : PoolSnapshot → PoolSnapshot → ℕ
unfolding ◌*₁₀₂₄◌
coefficient_d buy sell =
    fee_denominator *₁₀₂₄ fee_denominator *₁₀₂₄ buy.reserve_b *₁₀₂₄ sell.reserve_a

pub coefficient_e : PoolSnapshot → PoolSnapshot → ℕ
unfolding ◌*₁₀₂₄◌ ◌+₁₀₂₄◌
coefficient_e buy sell =
    fee_numerator *₁₀₂₄ fee_denominator *₁₀₂₄ sell.reserve_a
    +₁₀₂₄ fee_numerator *₁₀₂₄ fee_numerator *₁₀₂₄ buy.reserve_a

-- The part of `optimal_amount_in_b` behind the coefficients, in `intx::uint<2048>`.
pub optimum : ℕ → ℕ → ℕ → ℕ → Option ℕ
optimum c d e max_amount_in_b =
    let root = integer_sqrt 2048 (wrap 2048 (c * d)) in
    let amount_in_b = (root - d) / e in
    if c == 0 || (d == 0 || e == 0)
    then none
    else if leb root d
    then none
    else if amount_in_b == 0
    then none
    else some (wrap 256 (if ltb max_amount_in_b amount_in_b then max_amount_in_b else amount_in_b))

unfoldable pub optimal_amount_in_b : PoolSnapshot → PoolSnapshot → Params → Option ℕ
unfolding coefficient_c coefficient_d coefficient_e optimum
optimal_amount_in_b buy sell params =
    optimum (coefficient_c buy sell) (coefficient_d buy sell) (coefficient_e buy sell)
      params.max_amount_in_b

unfoldable pub best_route_quote : PoolSnapshot → PoolSnapshot → Params → Option RouteQuote
best_route_quote buy sell params = do
  optimal_amount ← optimal_amount_in_b buy sell params
  quote_route buy sell optimal_amount

unfoldable pub evaluate_pool : PoolSnapshot → PoolSnapshot → Params → Option Opportunity
evaluate_pool buy sell params = do
  quote ← best_route_quote buy sell params
  let profit_b = quote.amount_out_b - quote.amount_in_b
  if leb quote.amount_out_b quote.amount_in_b || ltb profit_b params.min_profit_b
      then none
      else some (record {
        buy_pool = buy.pool;
        sell_pool = sell.pool;
        amount_in_b = quote.amount_in_b;
        min_amount_out_a = apply_bps quote.amount_out_a params.min_output_bps;
        min_amount_out_b = apply_bps quote.amount_out_b params.min_output_bps;
        min_profit_b = params.min_profit_b;
        expected_amount_out_a = quote.amount_out_a;
        expected_amount_out_b = quote.amount_out_b;
        expected_profit_b = profit_b;
      })

pub is_better : Opportunity → Opportunity → Bool
is_better lhs rhs = ltb rhs.expected_profit_b lhs.expected_profit_b

-- The opportunity between the victim's pool and another one: it is bought where the victim's swap
-- made A cheap in terms of B.
unfoldable pub evaluate_against : Swap → PoolSnapshot → PoolSnapshot → Params → Option Opportunity
evaluate_against (swap_exact_a_for_b call) victim other params = evaluate_pool victim other params
evaluate_against (swap_exact_b_for_a call) victim other params = evaluate_pool other victim params

-- `if (opportunity && (!best_opportunity || is_better(…))) best_opportunity = opportunity;`
unfoldable pub keep_better : Option Opportunity → Option Opportunity → Option Opportunity
unfolding is_better
keep_better best none = best
keep_better none (some opportunity) = some opportunity
keep_better (some best) (some opportunity) =
    if is_better opportunity best then some opportunity else some best

-- The loop over `state.pools`.
unfoldable pub search_pools :
    Bytes
    → Swap
    → PoolSnapshot
    → Params
    → Option Opportunity
    → List PoolSnapshot
    → Option Opportunity
search_pools address swap victim params best [] = best
search_pools address swap victim params best (other ∷ rest) =
    search_pools address swap victim params
      (if same_bytes other.pool.address address
        then best
        else keep_better best (evaluate_against swap victim other params))
      rest

unfoldable pub find_arbitrage : StateSnapshot → Candidate → Swap → Params → Option Opportunity
find_arbitrage state candidate swap params =
    if ltb bps_denominator params.min_output_bps || params.max_amount_in_b == 0 then none else (do
      pool_snapshot ← find_pool_snapshot state candidate
      pool_after_victim ← apply_victim_swap pool_snapshot swap
      search_pools candidate.pool.address swap pool_after_victim params none state.pools)
