-- ===== src/Evm/Contracts.antt =====
-- knight/src/evm/contracts: the pool, the calls of the sandbox exchange, and the backrun call.
-- A `bytes` is a list of its bytes, and an `intx::uint256` a number below 2 ^ 256.
use dex_knight.Prelude.{ℕ, Bytes, [], ◌∷◌}

-- evm::Pool
pub record Pool : Type 0 where
  pub address : Bytes
  pub token_a : Bytes
  pub token_b : Bytes

-- SandboxDex::kFeeNumerator
abbrev pub fee_numerator : ℕ
fee_numerator = 997

-- SandboxDex::kFeeDenominator
abbrev pub fee_denominator : ℕ
fee_denominator = 1000

-- The arguments of SandboxDex::SwapExactAForB and SwapExactBForA.
pub record SwapCall : Type 0 where
  pub amount_in : ℕ
  pub min_amount_out : ℕ

-- decoder::Swap, the variant of the two calls.
pub data Swap : Type 0 where
  swap_exact_a_for_b : SwapCall → Swap
  swap_exact_b_for_a : SwapCall → Swap

-- SwapExactAForB::kSelector
abbrev pub swap_exact_a_for_b_selector : Bytes
swap_exact_a_for_b_selector = 0x4c ∷ 0xab ∷ 0xca ∷ 0x0a ∷ []

-- SwapExactBForA::kSelector
abbrev pub swap_exact_b_for_a_selector : Bytes
swap_exact_b_for_a_selector = 0xdd ∷ 0x4f ∷ 0x16 ∷ 0x11 ∷ []

-- ExecuteBackrun::kSelector
abbrev pub execute_backrun_selector : Bytes
execute_backrun_selector = 0x21 ∷ 0x2c ∷ 0x22 ∷ 0xbe ∷ []

-- GetReserves::kSelector
abbrev pub get_reserves_selector : Bytes
get_reserves_selector = 0x09 ∷ 0x02 ∷ 0xf1 ∷ 0xac ∷ []

-- SandboxDex::GetReserves
pub record Reserves : Type 0 where
  pub reserve_a : ℕ
  pub reserve_b : ℕ

-- SandboxBackrun::ExecuteBackrun
pub record ExecuteBackrun : Type 0 where
  pub buy_pool : Bytes
  pub sell_pool : Bytes
  pub amount_in_b : ℕ
  pub min_amount_out_a : ℕ
  pub min_amount_out_b : ℕ
  pub min_profit_b : ℕ

-- SandboxDex::SeedLiquidity
pub record SeedLiquidity : Type 0 where
  pub amount_a : ℕ
  pub amount_b : ℕ

-- SeedLiquidity::kSelector
abbrev pub seed_liquidity_selector : Bytes
seed_liquidity_selector = 0x8d ∷ 0x7e ∷ 0x07 ∷ 0x6d ∷ []

-- SandboxBackrun::BackrunExecuted
pub record BackrunExecuted : Type 0 where
  pub buy_pool : Bytes
  pub sell_pool : Bytes
  pub amount_in_b : ℕ
  pub amount_out_a : ℕ
  pub amount_out_b : ℕ
  pub profit_b : ℕ
