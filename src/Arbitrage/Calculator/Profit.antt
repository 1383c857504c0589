-- ===== src/Arbitrage/Calculator/Profit.antt =====
-- What every opportunity promises: a positive amount within the limit, a positive and exact profit,
-- minimum outputs that do not exceed the expected ones, and a route through the victim's pool.
use dex_knight.Prelude.{
  ℕ, ◌+◌, ◌-◌, ◌*◌, ◌/◌, ◌≤◌, ◌<◌, ◌≡◌, ap, ◌∙◌, inl, inr, false, Bytes, List, [], ◌∷◌, none, some,
  arith, ltb, ◌==◌, ◌||◌, same_bytes, same_bytes-eq, guarded_inv, >>=-eq-some,
}
use dex_knight.Prelude.Word.{wrap, wrap-le}
use dex_knight.Utils.Sqrt.{integer_sqrt}
use dex_knight.Evm.Contracts.{Pool, Swap, swap_exact_a_for_b, swap_exact_b_for_a}
use dex_knight.Candidate.Types.{PoolSnapshot, StateSnapshot, Candidate}
use dex_knight.Arbitrage.Calculator.{
  Params, RouteQuote, Opportunity, evaluate_against, find_arbitrage, find_in, find_pool_snapshot,
  apply_victim_swap, evaluate_pool, best_route_quote, quote_route, amount_out, optimal_amount_in_b,
  optimum, coefficient_c, coefficient_d, coefficient_e,
}
use dex_knight.Arbitrage.Calculator.Quote.{apply_bps-le}
use dex_knight.Arbitrage.Calculator.Search.{search_pools-best}

-- What every opportunity promises.
pub record IsProfitable (params : Params) (o : Opportunity) : Type 0 where
  pub amount_pos : 0 < o.amount_in_b
  pub within_limit : o.amount_in_b ≤ params.max_amount_in_b
  pub gain : o.amount_in_b + o.expected_profit_b ≡ o.expected_amount_out_b
  pub profit_pos : 0 < o.expected_profit_b
  pub enough : params.min_profit_b ≤ o.expected_profit_b
  pub requested : o.min_profit_b ≡ params.min_profit_b
  pub floor_a : o.min_amount_out_a ≤ o.expected_amount_out_a
  pub floor_b : o.min_amount_out_b ≤ o.expected_amount_out_b

amount_out_pos : (x r s : ℕ) {y : ℕ} → amount_out x r s ≡ some y → 0 < x
unfolding amount_out
amount_out_pos x r s h = ground arith

optimum-le : (c d e m x : ℕ) → optimum c d e m ≡ some x → x ≤ m
unfolding optimum
optimum-le c d e m x h =
    let q = (integer_sqrt 2048 (wrap 2048 (c * d)) - d) / e in
    ground (arith, wrap-le 256 m, wrap-le 256 q)

optimal_amount_in_b-le :
    (buy sell : PoolSnapshot) (params : Params) (x : ℕ)
    → optimal_amount_in_b buy sell params ≡ some x
    → x ≤ params.max_amount_in_b
unfolding optimal_amount_in_b
optimal_amount_in_b-le buy sell params x h =
    optimum-le (coefficient_c buy sell) (coefficient_d buy sell) (coefficient_e buy sell)
      params.max_amount_in_b x h

best_route_quote_bounds :
    (buy sell : PoolSnapshot) (params : Params) (k : RouteQuote)
    → best_route_quote buy sell params ≡ some k
    → (0 < k.amount_in_b) × (k.amount_in_b ≤ params.max_amount_in_b)
unfolding best_route_quote quote_route
best_route_quote_bounds buy sell params k h =
    let (x, picked, rest) =
      >>=-eq-some (optimal_amount_in_b buy sell params) (quote_route buy sell) h in
    let (a, first, rest') = >>=-eq-some (amount_out x buy.reserve_b buy.reserve_a) _ rest in
    let (b, second, built) = >>=-eq-some (amount_out a sell.reserve_a sell.reserve_b) _ rest' in
    ground (
      arith,
      amount_out_pos x buy.reserve_b buy.reserve_a first,
      optimal_amount_in_b-le buy sell params x picked,
    )

evaluate_pool-IsProfitable :
    (buy sell : PoolSnapshot) (params : Params) (o : Opportunity)
    → params.min_output_bps ≤ 10000
    → evaluate_pool buy sell params ≡ some o
    → IsProfitable params o × (o.buy_pool ≡ buy.pool) × (o.sell_pool ≡ sell.pool)
unfolding evaluate_pool
evaluate_pool-IsProfitable buy sell params o bps h =
    let (k, quoted, rest) = >>=-eq-some (best_route_quote buy sell params) _ h in
    ground (
      arith,
      rest,
      best_route_quote_bounds buy sell params k quoted,
      apply_bps-le k.amount_out_a params.min_output_bps bps,
      apply_bps-le k.amount_out_b params.min_output_bps bps,
    )

find_in-address :
    (pools : List PoolSnapshot) (candidate : Candidate) (p : PoolSnapshot)
    → find_in pools candidate ≡ some p
    → p.pool.address ≡ candidate.pool.address
unfolding find_in
find_in-address [] candidate p h = cc
find_in-address (q ∷ qs) candidate p h =
    ground
      (arith, same_bytes-eq q.pool.address candidate.pool.address, find_in-address qs candidate p)

find_pool_snapshot-address :
    (state : StateSnapshot) (candidate : Candidate) (p : PoolSnapshot)
    → find_pool_snapshot state candidate ≡ some p
    → p.pool.address ≡ candidate.pool.address
unfolding find_pool_snapshot
find_pool_snapshot-address state candidate p h = find_in-address state.pools candidate p h

apply_victim_swap-pool :
    (p q : PoolSnapshot) (swap : Swap) → apply_victim_swap p swap ≡ some q → q.pool ≡ p.pool
unfolding apply_victim_swap
apply_victim_swap-pool p q (swap_exact_a_for_b call) h = ground arith
apply_victim_swap-pool p q (swap_exact_b_for_a call) h = ground arith

-- The route runs through the victim's pool and one other pool: it buys where the swap made A cheap.
abbrev pub RunsThrough : Swap → Bytes → Opportunity → Type 0
RunsThrough (swap_exact_a_for_b call) victim o =
    (o.buy_pool.address ≡ victim) × (same_bytes o.sell_pool.address victim ≡ false)
RunsThrough (swap_exact_b_for_a call) victim o =
    (o.sell_pool.address ≡ victim) × (same_bytes o.buy_pool.address victim ≡ false)

evaluate_against-IsProfitable :
    (swap : Swap) (victim other : PoolSnapshot) (params : Params) (o : Opportunity)
    → params.min_output_bps ≤ 10000
    → evaluate_against swap victim other params ≡ some o
    → same_bytes other.pool.address victim.pool.address ≡ false
    → IsProfitable params o × RunsThrough swap victim.pool.address o
unfolding evaluate_against
evaluate_against-IsProfitable (swap_exact_a_for_b call) victim other params o bps h e =
    let (ok, buys, sells) = evaluate_pool-IsProfitable victim other params o bps h in
    (ok, (ap (λ (p : Pool). p.address) buys, rw sells e))
evaluate_against-IsProfitable (swap_exact_b_for_a call) victim other params o bps h e =
    let (ok, buys, sells) = evaluate_pool-IsProfitable other victim params o bps h in
    (ok, (ap (λ (p : Pool). p.address) sells, rw buys e))

-- Every opportunity that `find_arbitrage` returns gains: its amount is positive and within the limit,
-- its expected profit is positive, exact and at least the minimum, and its minimum outputs do not
-- exceed the expected ones. Its route runs through the victim's pool and another one.
pub find_arbitrage-IsProfitable :
    (state : StateSnapshot) (candidate : Candidate) (swap : Swap) (params : Params)
    (o : Opportunity)
    → find_arbitrage state candidate swap params ≡ some o
    → IsProfitable params o × RunsThrough swap candidate.pool.address o
unfolding find_arbitrage
find_arbitrage-IsProfitable state candidate swap params o h =
    let (valid, chain) =
      guarded_inv (ltb 10000 params.min_output_bps || params.max_amount_in_b == 0) _ h in
    let (p, found, chain') = >>=-eq-some (find_pool_snapshot state candidate) _ chain in
    let (q, swapped, result) = >>=-eq-some (apply_victim_swap p swap) _ chain' in
    let (_, _, origin) = search_pools-best candidate.pool.address swap q params none state.pools in
    let at_victim : q.pool.address ≡ candidate.pool.address =
      ap (λ (z : Pool). z.address) (apply_victim_swap-pool p q swap swapped)
      ∙ find_pool_snapshot-address state candidate p found in
    elim origin [
      | inl e ↦ cc (e, result)
      | inr (other, m, differs, e) ↦ rw at_victim at (
          evaluate_against-IsProfitable swap q other params o (ground arith) (e ∙ result)
            (rw at_victim differs))
    ]
