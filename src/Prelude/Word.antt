-- ===== src/Prelude/Word.antt =====
-- Unsigned integers of a fixed width: native numbers, with the wrap-around written out.
use Prim.Native.Nat.{ℕ, ◌%◌, ◌^◌, ◌≤◌, ◌<◌}
use mathlib.Core.Path.{◌≡◌}
use native.Mathlib.Nat.{mod-eq_of_lt, mod-le}

-- The value of an `intx::uint<w>` (or `uint64_t`) result whose true value is `n`.
unfoldable pub wrap : ℕ → ℕ → ℕ
wrap w n = n % 2 ^ w

pub wrap-eq : (w n : ℕ) → n < 2 ^ w → wrap w n ≡ n
unfolding wrap
wrap-eq w n h = mod-eq_of_lt h

pub wrap-le : (w n : ℕ) → wrap w n ≤ n
unfolding wrap
wrap-le w n = mod-le n (2 ^ w)
