-- ===== src/Arbitrage.antt =====
-- knight/src/arbitrage: the search for a two-pool opportunity behind a victim's swap.
pub mod Calculator
