-- ===== src/Arbitrage/Calculator/Quote.antt =====
-- The constant-product quote: exact where nothing wraps around, below the reserve, and a swap never
-- lowers the product of the reserves.
use native.Mathlib.Nat.{div-mul-le_self, div-lt_iff_lt-mul, mul-le-mul}
use dex_knight.Prelude.{
  ℕ, ◌+◌, ◌*◌, ◌/◌, ◌^◌, ◌-◌, ◌≤◌, ◌<◌, ◌≡◌, ◌==◌, Option, none, some, arith, if◌then◌else◌, ltb,
  guarded-eq, subst,
}
use dex_knight.Prelude.Word.{wrap-eq, wrap-le}
use dex_knight.Prelude.Square.{mul_lt}
use dex_knight.Evm.Contracts.{
  SwapCall, Swap, swap_exact_a_for_b, swap_exact_b_for_a, fee_numerator, fee_denominator,
}
use dex_knight.Candidate.Types.{PoolSnapshot}
use dex_knight.Arbitrage.Calculator.{amount_out, swap_reserves, apply_victim_swap, apply_bps}

-- The output that the exchange pays: floor(in * 997 * out / (reserve_in * 1000 + in * 997)).
abbrev pub ideal_out : ℕ → ℕ → ℕ → ℕ
ideal_out x r s = x * fee_numerator * s / (r * fee_denominator + x * fee_numerator)

-- Neither product nor sum of the quote leaves 256 bits.
pub record Fits (x r s : ℕ) : Type 0 where
  pub numerator : x * fee_numerator * s < 2 ^ 256
  pub denominator : r * fee_denominator + x * fee_numerator < 2 ^ 256

-- For positive arguments whose products fit 256 bits, `amount_out` is the exchange's formula.
pub amount_out_exact :
    (x r s : ℕ) → 0 < x → 0 < r → 0 < s → Fits x r s → amount_out x r s ≡ some (ideal_out x r s)
unfolding amount_out
amount_out_exact x r s px pr ps f =
    rw
      (
        wrap-eq 256 (x * 997) (omega (arith, f.denominator)),
        wrap-eq 256 (r * 1000) (omega (arith, f.denominator)),
        wrap-eq 256 (r * 1000 + x * 997) f.denominator,
        wrap-eq 256 (x * 997 * s) f.numerator,
      )
      (ground arith)

-- What a swap pays out times the new reserve it is paid for is at most what comes in.
pub ideal_out_bound :
    (x r s : ℕ)
    → 0 < r
    → ideal_out x r s * (r * fee_denominator + x * fee_numerator) ≤ x * fee_numerator * s
ideal_out_bound x r s pr =
    div-mul-le_self (x * fee_numerator * s) (r * fee_denominator + x * fee_numerator)

-- The reserve is never paid out whole.
pub ideal_out-lt : (x r s : ℕ) → 0 < r → 0 < s → ideal_out x r s < s
ideal_out-lt x r s pr ps = (div-lt_iff_lt-mul (omega arith)).1 (omega (arith, mul_lt 0 0 s r ps pr))

product_grows :
    (x r q kept : ℕ)
    → q * (r * fee_denominator + x * fee_numerator) ≤ x * fee_numerator * (kept + q)
    → r * (kept + q) ≤ (r + x) * kept
product_grows x r q kept h = omega arith

-- The product of the reserves does not fall.
pub ideal_out_product : (x r s : ℕ) → 0 < r → 0 < s → r * s ≤ (r + x) * (s - ideal_out x r s)
ideal_out_product x r s pr ps =
    let q = ideal_out x r s in
    let back : s - q + q ≡ s = omega (arith, ideal_out-lt x r s pr ps) in
    rw back at (product_grows x r q (s - q) (rw back (ideal_out_bound x r s pr)))

abbrev pub call_of : Swap → SwapCall
call_of (swap_exact_a_for_b call) = call
call_of (swap_exact_b_for_a call) = call

-- The reserve that the swap pays into.
abbrev pub side_in : Swap → PoolSnapshot → ℕ
side_in (swap_exact_a_for_b call) p = p.reserve_a
side_in (swap_exact_b_for_a call) p = p.reserve_b

-- The reserve that the swap is paid from.
abbrev pub side_out : Swap → PoolSnapshot → ℕ
side_out (swap_exact_a_for_b call) p = p.reserve_b
side_out (swap_exact_b_for_a call) p = p.reserve_a

-- The arguments of the swap's quote are positive and fit.
pub record IsQuotable (swap : Swap) (p : PoolSnapshot) : Type 0 where
  pub amount_pos : 0 < (call_of swap).amount_in
  pub in_pos : 0 < side_in swap p
  pub out_pos : 0 < side_out swap p
  pub fits : Fits (call_of swap).amount_in (side_in swap p) (side_out swap p)

-- What the exchange pays for the swap.
abbrev pub payout : Swap → PoolSnapshot → ℕ
payout swap p = ideal_out (call_of swap).amount_in (side_in swap p) (side_out swap p)

-- The pool with the swap's amount paid in and its payout taken out.
abbrev pub swapped : Swap → PoolSnapshot → PoolSnapshot
swapped (swap_exact_a_for_b call) p = record p {
  reserve_a = p.reserve_a + call.amount_in;
  reserve_b = p.reserve_b - payout (swap_exact_a_for_b call) p;
}
swapped (swap_exact_b_for_a call) p = record p {
  reserve_a = p.reserve_a - payout (swap_exact_b_for_a call) p;
  reserve_b = p.reserve_b + call.amount_in;
}

-- What the swap functions of blockchain/src/dexes/SandboxDex.sol do to the pool, where the products
-- fit and the tokens are transferred: none where one of their `require`s fails.
abbrev pub exchange : Swap → PoolSnapshot → Option PoolSnapshot
exchange swap p =
    if (call_of swap).amount_in == 0
    then none
    else if side_in swap p == 0
    then none
    else if side_out swap p == 0
    then none
    else if payout swap p == 0
    then none
    else if ltb (payout swap p) (call_of swap).min_amount_out
    then none
    else some (swapped swap p)

swap_reserves_exact :
    (call : SwapCall) (r s : ℕ)
    → 0 < call.amount_in
    → 0 < r
    → 0 < s
    → Fits call.amount_in r s
    → swap_reserves call r s (amount_out call.amount_in r s) ≡ (
        if ltb (ideal_out call.amount_in r s) call.min_amount_out
        then none
        else some (r + call.amount_in, s - ideal_out call.amount_in r s))
unfolding swap_reserves
swap_reserves_exact call r s px pr ps f =
    rw
      (
        amount_out_exact call.amount_in r s px pr ps f,
        wrap-eq 256 (r + call.amount_in) (omega (arith, f.denominator)),
      )
      (ground (arith, ideal_out-lt call.amount_in r s pr ps))

apply_victim_swap-swapped :
    (swap : Swap) (p : PoolSnapshot)
    → IsQuotable swap p
    → apply_victim_swap p swap
      ≡ (if ltb (payout swap p) (call_of swap).min_amount_out then none else some (swapped swap p))
unfolding apply_victim_swap
apply_victim_swap-swapped (swap_exact_a_for_b call) p k =
    rw (swap_reserves_exact call p.reserve_a p.reserve_b k.amount_pos k.in_pos k.out_pos k.fits)
      (ground arith)
apply_victim_swap-swapped (swap_exact_b_for_a call) p k =
    rw (swap_reserves_exact call p.reserve_b p.reserve_a k.amount_pos k.in_pos k.out_pos k.fits)
      (ground arith)

exchange_quotable :
    (swap : Swap) (p : PoolSnapshot)
    → IsQuotable swap p
    → exchange swap p ≡ (
        if payout swap p == 0
        then none
        else if ltb (payout swap p) (call_of swap).min_amount_out
        then none
        else some (swapped swap p))
exchange_quotable (swap_exact_a_for_b call) p k = ground (arith, k.amount_pos, k.in_pos, k.out_pos)
exchange_quotable (swap_exact_b_for_a call) p k = ground (arith, k.amount_pos, k.in_pos, k.out_pos)

-- For a swap of a positive amount between positive reserves whose quote fits 256 bits,
-- `apply_victim_swap` fails exactly if the payout is below the victim's minimum, and otherwise yields
-- the pool with the amount paid in and the payout taken out. The exchange refuses a payout of zero,
-- and for any other payout does what `apply_victim_swap` says, its failure included.
pub apply_victim_swap_exact :
    (swap : Swap) (p : PoolSnapshot)
    → IsQuotable swap p
    → (apply_victim_swap p swap ≡ (
        if ltb (payout swap p) (call_of swap).min_amount_out then none else some (swapped swap p)))
      × (exchange swap p ≡ (if payout swap p == 0 then none else apply_victim_swap p swap))
apply_victim_swap_exact swap p k =
    let e = apply_victim_swap-swapped swap p k in (e, rw e (exchange_quotable swap p k))

swapped_product :
    (swap : Swap) (p : PoolSnapshot)
    → IsQuotable swap p
    → p.reserve_a * p.reserve_b ≤ (swapped swap p).reserve_a * (swapped swap p).reserve_b
swapped_product (swap_exact_a_for_b call) p k =
    ideal_out_product call.amount_in p.reserve_a p.reserve_b k.in_pos k.out_pos
swapped_product (swap_exact_b_for_a call) p k =
    omega (arith, ideal_out_product call.amount_in p.reserve_b p.reserve_a k.in_pos k.out_pos)

-- For a swap of a positive amount between positive reserves whose quote fits 256 bits, a victim's swap
-- that `apply_victim_swap` accepts does not
-- lower the product of the pool's reserves.
pub apply_victim_swap_product :
    (swap : Swap) (p q : PoolSnapshot)
    → IsQuotable swap p
    → apply_victim_swap p swap ≡ some q
    → p.reserve_a * p.reserve_b ≤ q.reserve_a * q.reserve_b
apply_victim_swap_product swap p q k h =
    let e : swapped swap p ≡ q = guarded-eq _ (rw (apply_victim_swap-swapped swap p k) at h) in
    subst (λ q. p.reserve_a * p.reserve_b ≤ q.reserve_a * q.reserve_b) e (swapped_product swap p k)

-- A share of at most 10000 basis points is at most the value, also where the product wraps around.
pub apply_bps-le : (v bps : ℕ) → bps ≤ 10000 → apply_bps v bps ≤ v
unfolding apply_bps
apply_bps-le v bps h =
    omega (arith, wrap-le 256 (v * bps), mul-le-mul {n₁ = v} {m₁ = bps} {n₂ = v} {m₂ = 10000})
