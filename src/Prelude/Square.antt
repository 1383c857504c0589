-- ===== src/Prelude/Square.antt =====
-- Order facts about products.
use Prim.Native.Nat.{ℕ, ◌+◌, ◌*◌, ◌≤◌, ◌<◌}
use native.Mathlib.Nat.{mul-le-mul}
use native.Mathlib.Omega.{arith}

pub mul_lt : (a b c d : ℕ) → a < c → b < d → a * b < c * d
mul_lt a b c d h k =
    omega
      (arith, mul-le-mul {n₁ = a + 1} {m₁ = b + 1} {n₂ = c} {m₂ = d} (omega arith) (omega arith))

pub le_of_square-lt : (a b : ℕ) → a * a < (b + 1) * (b + 1) → a ≤ b
le_of_square-lt a b h = grind (arith, mul-le-mul {n₁ = b + 1} {m₁ = b + 1} {n₂ = a} {m₂ = a})
