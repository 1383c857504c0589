-- ===== src/Arbitrage/Calculator/Optimum.antt =====
-- The amount that `optimal_amount_in_b` picks: the coefficients fit their 1024 bits, and the root
-- and the clamp give the best amount of the ideal route, up to one unit.
use native.Mathlib.Nat.{div-mul-le_self, lt-div-mul-add, mul-le-mul}
use dex_knight.Prelude.{
  ℕ, ◌+◌, ◌-◌, ◌*◌, ◌/◌, ◌^◌, ◌≤◌, ◌<◌, ◌≡◌, refl, subst, ◌⊎◌, inl, inr, Option, none, some, arith,
  ltb, leb, false, ◌==◌, ◌||◌, if◌then◌else◌, Bool-cases,
}
use dex_knight.Prelude.Word.{wrap, wrap-eq}
use dex_knight.Utils.Sqrt.{integer_sqrt}
use dex_knight.Utils.Sqrt.Exact.{IsSqrt, integer_sqrt-IsSqrt}
use dex_knight.Arbitrage.Calculator.{optimum}

-- On the ideal route amountOutB(x) = c * x / (d + e * x), the profit from x is at least that from y:
-- amountOutB(y) - y ≤ amountOutB(x) - x, with the denominators multiplied out.
abbrev pub NoWorse : ℕ → ℕ → ℕ → ℕ → ℕ → Type 0
NoWorse c d e x y =
    c * y * (d + e * x) + x * ((d + e * x) * (d + e * y))
    ≤ c * x * (d + e * y) + y * ((d + e * x) * (d + e * y))

denominator_mono : (d e x t : ℕ) → d + e * x ≤ d + e * (x + t)
denominator_mono d e x t = omega arith

rising : (c d e y t : ℕ) → (d + e * (y + t)) * (d + e * (y + t)) ≤ c * d → NoWorse c d e (y + t) y
rising c d e y t h =
    let p = d + e * (y + t) in
    let q = d + e * y in
    let below : p * q ≤ p * p =
      mul-le-mul {n₁ = p} {n₂ = p} (omega arith) (denominator_mono d e y t) in
    let le : t * (p * q) ≤ t * (c * d) = mul-le-mul {n₁ = t} {n₂ = t} (omega arith) (omega arith) in
    omega (arith, le)

falling : (c d e x t : ℕ) → c * d ≤ (d + e * x) * (d + e * x) → NoWorse c d e x (x + t)
falling c d e x t h =
    let p = d + e * x in
    let q = d + e * (x + t) in
    let above : p * p ≤ p * q =
      mul-le-mul {n₁ = p} {n₂ = p} (omega arith) (denominator_mono d e x t) in
    let le : t * (c * d) ≤ t * (p * q) = mul-le-mul {n₁ = t} {n₂ = t} (omega arith) (omega arith) in
    omega (arith, le)

-- Up to the root the profit rises, and behind it it falls.
NoWorse-below : (c d e x y : ℕ) → (d + e * x) * (d + e * x) ≤ c * d → y ≤ x → NoWorse c d e x y
NoWorse-below c d e x y h le =
    let e' : y + (x - y) ≡ x = omega arith in
    subst (λ z. NoWorse c d e z y) e' (rising c d e y (x - y) (rw e' h))

NoWorse-above : (c d e x y : ℕ) → c * d ≤ (d + e * x) * (d + e * x) → x ≤ y → NoWorse c d e x y
NoWorse-above c d e x y h le =
    let e' : x + (y - x) ≡ y = omega arith in
    subst (λ z. NoWorse c d e x z) e' (falling c d e x (y - x) h)

-- What `optimum` returns. Without a result, the slope of the profit is negative from the first unit
-- on. A result `x` is positive and at most `m`, no smaller amount is better, and it is `m` or no
-- larger amount is better than the next one, `x + 1`.
abbrev pub IsOptimum : ℕ → ℕ → ℕ → ℕ → Option ℕ → Type 0
IsOptimum c d e m none = (x : ℕ) → 0 < x → NoWorse c d e 1 x
IsOptimum c d e m (some x) =
    (0 < x)
    × (x ≤ m)
    × ((y : ℕ) → y ≤ x → NoWorse c d e x y)
    × ((x ≡ m) ⊎ ((y : ℕ) → x < y → NoWorse c d e (x + 1) y))

-- The quotient `x` of the root's excess over `d`: the last amount up to the root.
module _ (c d e root : ℕ) (pos : 0 < e) (exact : IsSqrt (c * d) root) (above : d ≤ root) where
  quotient_below : d + e * ((root - d) / e) ≤ root
  quotient_below = omega (arith, div-mul-le_self (root - d) e)

  quotient_above : root < d + e * ((root - d) / e + 1)
  quotient_above = omega (arith, lt-div-mul-add {a = root - d} pos)

  up_to_root : (x : ℕ) → x ≤ (root - d) / e → (d + e * x) * (d + e * x) ≤ c * d
  up_to_root x le =
      let step : e * x ≤ e * ((root - d) / e) = mul-le-mul {n₁ = e} {n₂ = e} (omega arith) le in
      let p : d + e * x ≤ root = omega (arith, quotient_below) in
      omega
        (arith, exact.0, mul-le-mul {n₁ = d + e * x} {m₁ = d + e * x} {n₂ = root} {m₂ = root} p p)

  behind_root : c * d ≤ (d + e * ((root - d) / e + 1)) * (d + e * ((root - d) / e + 1))
  behind_root = omega (
    arith,
    exact.1,
    mul-le-mul {n₁ = root + 1} {m₁ = root + 1} {n₂ = d + e * ((root - d) / e + 1)}
        {m₂ = d + e * ((root - d) / e + 1)} (omega (arith, quotient_above))
        (omega (arith, quotient_above)),
  )

-- With a root of at most `d` the profit falls from the first unit on.
behind_one :
    (c d e root : ℕ) → 0 < e → IsSqrt (c * d) root → root ≤ d → c * d ≤ (d + e * 1) * (d + e * 1)
behind_one c d e root pos exact low = omega (
  arith,
  exact.1,
  mul-le-mul {n₁ = root + 1} {m₁ = root + 1} {n₂ = d + e * 1} {m₂ = d + e * 1} (omega arith)
      (omega arith),
)

-- The amount `q` between the clamp `m` and the unconstrained optimum.
clamped :
    (c d e m root : ℕ)
    → 0 < e
    → 0 < m
    → IsSqrt (c * d) root
    → d ≤ root
    → 0 < (root - d) / e
    → IsOptimum c d e m (some (if ltb m ((root - d) / e) then m else (root - d) / e))
clamped c d e m root pos pos_m exact above some_unit = elim (Bool-cases (ltb m ((root - d) / e))) [
  | inl cut ↦ rw cut (
    pos_m,
    omega arith,
    (λ y le. NoWorse-below c d e m y (up_to_root c d e root pos exact above m (ground arith)) le),
    inl refl,
  )
  | inr free ↦ rw free (
    some_unit,
    ground arith,
    (λ y le.
        NoWorse-below c d e _ y
          (up_to_root c d e root pos exact above ((root - d) / e) (omega arith)) le),
    inr (λ y lt. NoWorse-above c d e _ y (behind_root c d e root pos exact above) (omega arith)),
  )
]

clamp_fits : (m x : ℕ) → m < 2 ^ 256 → (if ltb m x then m else x) < 2 ^ 256
clamp_fits m x fm = ground arith

-- The tests behind the root.
pick :
    (c d e m root : ℕ)
    → 0 < e
    → 0 < m
    → m < 2 ^ 256
    → IsSqrt (c * d) root
    → IsOptimum c d e m (
        if leb root d
        then none
        else if (root - d) / e == 0
        then none
        else some (wrap 256 (if ltb m ((root - d) / e) then m else (root - d) / e)))
pick c d e m root pe pm fm exact = elim (Bool-cases (leb root d)) [
  | inl low ↦ rw low (λ x px.
      NoWorse-above c d e 1 x (behind_one c d e root pe exact (ground arith)) (omega arith))
  | inr high ↦ elim (Bool-cases ((root - d) / e == 0)) [
    | inl small ↦
        let zero : (root - d) / e ≡ 0 = ground arith in
        let far : c * d ≤ (d + e * (0 + 1)) * (d + e * (0 + 1)) =
          rw zero at (behind_root c d e root pe exact (ground arith)) in
        rw (high, small) (λ x px. NoWorse-above c d e 1 x far (omega arith))
    | inr large ↦
        rw (high, large, wrap-eq 256 _ (clamp_fits m ((root - d) / e) fm))
          (clamped c d e m root pe pm exact (ground arith) (ground arith))
  ]
]

pub optimum-IsOptimum :
    (c d e m : ℕ)
    → 0 < c
    → 0 < d
    → 0 < e
    → c * d < 2 ^ 2048
    → 0 < m
    → m < 2 ^ 256
    → IsOptimum c d e m (optimum c d e m)
unfolding optimum
optimum-IsOptimum c d e m pc pd pe fits pm fm =
    let exact : IsSqrt (c * d) (integer_sqrt 2048 (c * d)) =
      integer_sqrt-IsSqrt 1023 (c * d) fits in
    let guard : (c == 0 || (d == 0 || e == 0)) ≡ false = ground arith in
    rw (wrap-eq 2048 (c * d) fits, guard) (pick c d e m (integer_sqrt 2048 (c * d)) pe pm fm exact)
