-- ===== src/Arbitrage/Calculator/Route.antt =====
-- The route B -> A -> B: its coefficients fit their 1024 bits, the amount that the calculator picks
-- is the best of the ideal route, and the rounded route pays no more than the ideal one.
use native.Mathlib.Nat.{mul-le-mul}
use dex_knight.Prelude.{ℕ, ◌+◌, ◌-◌, ◌*◌, ◌^◌, ◌≤◌, ◌<◌, ◌≡◌, some, arith}
use dex_knight.Prelude.Word.{wrap-eq}
use dex_knight.Prelude.Square.{mul_lt}
use dex_knight.Evm.Contracts.{fee_numerator, fee_denominator}
use dex_knight.Candidate.Types.{PoolSnapshot}
use dex_knight.Arbitrage.Calculator.{
  Params, coefficient_c, coefficient_d, coefficient_e, optimal_amount_in_b, quote_route,
}
use dex_knight.Arbitrage.Calculator.Quote.{
  ideal_out, Fits, amount_out_exact, ideal_out-lt, ideal_out_bound,
}
use dex_knight.Arbitrage.Calculator.Optimum.{IsOptimum, optimum-IsOptimum}

-- The coefficients as numbers.
abbrev pub ideal_c : PoolSnapshot → PoolSnapshot → ℕ
ideal_c buy sell = fee_numerator * fee_numerator * buy.reserve_a * sell.reserve_b

abbrev pub ideal_d : PoolSnapshot → PoolSnapshot → ℕ
ideal_d buy sell = fee_denominator * fee_denominator * buy.reserve_b * sell.reserve_a

abbrev pub ideal_e : PoolSnapshot → PoolSnapshot → ℕ
ideal_e buy sell =
    fee_numerator * fee_denominator * sell.reserve_a + fee_numerator * fee_numerator * buy.reserve_a

-- Both reserves are positive 256-bit numbers.
pub record IsLiquid (p : PoolSnapshot) : Type 0 where
  pub a_pos : 0 < p.reserve_a
  pub b_pos : 0 < p.reserve_b
  pub a_fits : p.reserve_a < 2 ^ 256
  pub b_fits : p.reserve_b < 2 ^ 256

module _ (buy sell : PoolSnapshot) (lb : IsLiquid buy) (ls : IsLiquid sell) where
  c_bound : ideal_c buy sell < 2 ^ 532
  c_bound = omega (
    arith,
    mul_lt (994009 * buy.reserve_a) sell.reserve_b (994009 * 2 ^ 256) (2 ^ 256)
        (omega (arith, lb.a_fits)) ls.b_fits,
  )

  d_bound : ideal_d buy sell < 2 ^ 532
  d_bound = omega (
    arith,
    mul_lt (1000000 * buy.reserve_b) sell.reserve_a (1000000 * 2 ^ 256) (2 ^ 256)
        (omega (arith, lb.b_fits)) ls.a_fits,
  )

  c_pos : 0 < ideal_c buy sell
  c_pos = omega (arith, mul_lt 0 0 buy.reserve_a sell.reserve_b lb.a_pos ls.b_pos)

  d_pos : 0 < ideal_d buy sell
  d_pos = omega (arith, mul_lt 0 0 buy.reserve_b sell.reserve_a lb.b_pos ls.a_pos)

  coefficient_c-eq : coefficient_c buy sell ≡ ideal_c buy sell
  unfolding coefficient_c
  coefficient_c-eq = rw (
    wrap-eq 1024 994009 (omega arith),
    wrap-eq 1024 (994009 * buy.reserve_a) (omega (arith, lb.a_fits)),
    wrap-eq 1024 (994009 * buy.reserve_a * sell.reserve_b) (omega (arith, c_bound)),
  )

  coefficient_d-eq : coefficient_d buy sell ≡ ideal_d buy sell
  unfolding coefficient_d
  coefficient_d-eq = rw (
    wrap-eq 1024 1000000 (omega arith),
    wrap-eq 1024 (1000000 * buy.reserve_b) (omega (arith, lb.b_fits)),
    wrap-eq 1024 (1000000 * buy.reserve_b * sell.reserve_a) (omega (arith, d_bound)),
  )

  coefficient_e-eq : coefficient_e buy sell ≡ ideal_e buy sell
  unfolding coefficient_e
  coefficient_e-eq = rw (
    wrap-eq 1024 997000 (omega arith),
    wrap-eq 1024 994009 (omega arith),
    wrap-eq 1024 (997000 * sell.reserve_a) (omega (arith, ls.a_fits)),
    wrap-eq 1024 (994009 * buy.reserve_a) (omega (arith, lb.a_fits)),
    wrap-eq 1024 (997000 * sell.reserve_a + 994009 * buy.reserve_a)
        (omega (arith, ls.a_fits, lb.a_fits)),
  )

  product_fits : ideal_c buy sell * ideal_d buy sell < 2 ^ 2048
  product_fits = omega (arith, mul_lt _ _ (2 ^ 532) (2 ^ 532) c_bound d_bound)

  -- Between liquid pools, with a positive limit, `optimal_amount_in_b` returns the best amount of the
  -- ideal route, up to one unit and cut at the limit.
  pub optimal_amount_in_b-IsOptimum :
      (params : Params)
      → 0 < params.max_amount_in_b
      → params.max_amount_in_b < 2 ^ 256
      → IsOptimum
          (ideal_c buy sell)
          (ideal_d buy sell)
          (ideal_e buy sell)
          params.max_amount_in_b
          (optimal_amount_in_b buy sell params)
  unfolding optimal_amount_in_b
  optimal_amount_in_b-IsOptimum params pos fits =
      rw (coefficient_c-eq, coefficient_d-eq, coefficient_e-eq)
        (optimum-IsOptimum _ _ _ params.max_amount_in_b c_pos d_pos (omega (arith, ls.a_pos))
          product_fits pos fits)

-- With the first output at most its ideal value, so is the second.
route_bound :
    (p n r a o kept : ℕ)
    → a * p ≤ n
    → o * (r * 1000 + a * 997) ≤ a * 997 * (o + kept)
    → o * (1000 * r * p + 997 * n) ≤ 997 * n * (o + kept)
route_bound p n r a o kept first second =
    let step : o * (r * 1000) * p ≤ a * 997 * kept * p =
      mul-le-mul {n₁ = o * (r * 1000)} {m₁ = p} {m₂ = p} (omega arith) (omega arith) in
    omega
      (arith, step, mul-le-mul {n₁ = a * p} {m₁ = kept} {n₂ = n} {m₂ = kept} first (omega arith))

-- The rounded outputs of the route lie on or below amountOutB(x) = c * x / (d + e * x).
route_below_ideal :
    (buy sell : PoolSnapshot) (x : ℕ)
    → 0 < buy.reserve_b
    → 0 < sell.reserve_a
    → 0 < sell.reserve_b
    → ideal_out (ideal_out x buy.reserve_b buy.reserve_a) sell.reserve_a sell.reserve_b
        * (ideal_d buy sell + ideal_e buy sell * x)
      ≤ ideal_c buy sell * x
route_below_ideal buy sell x pb pa ps =
    let p = buy.reserve_b * 1000 + x * 997 in
    let n = x * 997 * buy.reserve_a in
    let a = ideal_out x buy.reserve_b buy.reserve_a in
    let o = ideal_out a sell.reserve_a sell.reserve_b in
    let back : o + (sell.reserve_b - o) ≡ sell.reserve_b =
      omega (arith, ideal_out-lt a sell.reserve_a sell.reserve_b pa ps) in
    let bound : o * (1000 * sell.reserve_a * p + 997 * n) ≤ 997 * n * sell.reserve_b = rw back at (
      route_bound p n sell.reserve_a a o (sell.reserve_b - o)
        (ideal_out_bound x buy.reserve_b buy.reserve_a pb)
        (rw back (ideal_out_bound a sell.reserve_a sell.reserve_b pa))) in
    omega (arith, bound)

-- The quotes of both swaps of the route fit 256 bits, and the first one pays something.
pub record RouteFits (buy sell : PoolSnapshot) (x : ℕ) : Type 0 where
  pub amount_pos : 0 < x
  pub first : Fits x buy.reserve_b buy.reserve_a
  pub paid : 0 < ideal_out x buy.reserve_b buy.reserve_a
  pub second : Fits (ideal_out x buy.reserve_b buy.reserve_a) sell.reserve_a sell.reserve_b

-- Between liquid pools, where no product wraps around and the first swap pays something,
-- `quote_route` returns the exchange's two payouts, and the second is at most
-- amountOutB(x) = c * x / (d + e * x), with the coefficients of `optimal_amount_in_b`.
pub quote_route_exact :
    (buy sell : PoolSnapshot) (x : ℕ)
    → IsLiquid buy
    → IsLiquid sell
    → RouteFits buy sell x
    → let a = ideal_out x buy.reserve_b buy.reserve_a in
      let b = ideal_out a sell.reserve_a sell.reserve_b in
      (quote_route buy sell x
        ≡ some (record { amount_in_b = x; amount_out_a = a; amount_out_b = b }))
      × (b * (coefficient_d buy sell + coefficient_e buy sell * x) ≤ coefficient_c buy sell * x)
unfolding quote_route
quote_route_exact buy sell x lb ls f =
    let a = ideal_out x buy.reserve_b buy.reserve_a in
    (
      rw (
        amount_out_exact x buy.reserve_b buy.reserve_a f.amount_pos lb.b_pos lb.a_pos f.first,
        amount_out_exact a sell.reserve_a sell.reserve_b f.paid ls.a_pos ls.b_pos f.second,
      ),
      rw
          (
            coefficient_c-eq buy sell lb ls,
            coefficient_d-eq buy sell lb ls,
            coefficient_e-eq buy sell lb ls,
          )
          (route_below_ideal buy sell x lb.b_pos ls.a_pos ls.b_pos),
    )
