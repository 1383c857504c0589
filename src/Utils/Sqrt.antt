-- ===== src/Utils/Sqrt.antt =====
-- `integer_sqrt` of knight/src/utils/utils.h, at every width N.
pub mod Exact
use dex_knight.Prelude.{ℕ, zero, suc, ◌+◌, ◌-◌, ◌/◌, ◌^◌, ltb, leb, ◌==◌, if◌then◌else◌, ◌≡◌, refl}
use dex_knight.Prelude.Word.{wrap}

-- `while (bit > value) bit >>= 2;`
shift_bit : ℕ → ℕ → ℕ → ℕ
shift_bit zero value bit = bit
shift_bit (suc fuel) value bit =
    let rest = shift_bit fuel value (bit / 4) in if ltb value bit then rest else bit

-- `while (bit != 0) { … }`, with the sums taken in N bits.
sqrt_loop : ℕ → ℕ → ℕ → ℕ → ℕ → ℕ
sqrt_loop n zero value result bit = result
sqrt_loop n (suc fuel) value result bit =
    let sum = wrap n (result + bit) in
    let taken = sqrt_loop n fuel (value - sum) (wrap n (result / 2 + bit)) (bit / 4) in
    let passed = sqrt_loop n fuel value (result / 2) (bit / 4) in
    if bit == 0 then result else if leb sum value then taken else passed

-- Each loop divides `bit` by four, from 2 ^ (n - 2), so n rounds are more than either makes.
unfoldable pub integer_sqrt : ℕ → ℕ → ℕ
unfolding shift_bit sqrt_loop wrap
integer_sqrt n value = sqrt_loop n n value 0 (shift_bit n value (2 ^ (n - 2)))
