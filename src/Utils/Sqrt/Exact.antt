-- ===== src/Utils/Sqrt/Exact.antt =====
-- The loops of `integer_sqrt` find the square root, and no sum wraps around.
use native.Mathlib.Nat.{add-zero, one-le-pow, pow-le-pow_right, pow-suc}
use dex_knight.Prelude.{
  ℕ, zero, suc, ◌+◌, ◌-◌, ◌*◌, ◌/◌, ◌^◌, ◌≤◌, ◌<◌, leb, ltb, ltb, if◌then◌else◌, ◌≡◌, refl, sym, ap,
  ◌∙◌, arith, ◌⊎◌, inl, inr, Bool-cases,
}
use dex_knight.Prelude.Word.{wrap-eq}
use dex_knight.Prelude.Square.{mul_lt}
use dex_knight.Utils.Sqrt.{shift_bit, sqrt_loop, integer_sqrt}

-- `s` is the square root of `v`, rounded down.
abbrev pub IsSqrt : ℕ → ℕ → Type 0
IsSqrt v s = (s * s ≤ v) × (v < (s + 1) * (s + 1))

sqrt_loop-zero : (n f v res : ℕ) → sqrt_loop n f v res 0 ≡ res
unfolding sqrt_loop
sqrt_loop-zero n zero v res = refl
sqrt_loop-zero n (suc f) v res = refl

square_pos : (b : ℕ) → 0 < b → 0 < b * b
square_pos b h = mul_lt 0 0 b b h h

-- The square root has the bits of `r` above the current one, whose value is `b`.
module _ (n m : ℕ) (side : m * m ≡ 2 ^ n) where
  sum_fits : (r b : ℕ) → 0 < b → r + 2 * b ≤ m → r * (2 * b) + b * b < 2 ^ n
  sum_fits r b pos fits =
      omega (arith, side, mul_lt (r + b) (r + b) m m (omega arith) (omega arith))

  root_fits : (r b : ℕ) → 0 < b → r + 2 * b ≤ m → r * b + b * b < 2 ^ n
  root_fits r b pos fits = omega (arith, side, mul_lt (r + b) b m m (omega arith) (omega arith))

  half_root : (r b : ℕ) → r * (2 * b) / 2 ≡ r * b
  half_root r b = omega arith

  sqrt_loop-step :
      (f v r b : ℕ)
      → 0 < b
      → r + 2 * b ≤ m
      → sqrt_loop n (suc f) v (r * (2 * b)) (b * b) ≡ (
          if leb (r * (2 * b) + b * b) v
          then sqrt_loop n f (v - (r * (2 * b) + b * b)) (r * b + b * b) (b * b / 4)
          else sqrt_loop n f v (r * b) (b * b / 4))
  unfolding sqrt_loop
  sqrt_loop-step f v r b pos fits =
      rw
        (
          wrap-eq n (r * (2 * b) + b * b) (sum_fits r b pos fits),
          half_root r b,
          wrap-eq n (r * b + b * b) (root_fits r b pos fits),
        )
        (ground (arith, square_pos b pos))

  -- One round, where the next bit is `quarter` and the next results are `low` and `high`.
  sqrt_loop_round :
      (f v r b quarter low high : ℕ)
      → b * b / 4 ≡ quarter
      → r * b ≡ low
      → r * b + b * b ≡ high
      → 0 < b
      → r + 2 * b ≤ m
      → (v + r * r < (r + b) * (r + b) → IsSqrt (v + r * r) (sqrt_loop n f v low quarter))
      → ((w : ℕ)
          → w + (r + b) * (r + b) ≡ v + r * r
          → IsSqrt (w + (r + b) * (r + b)) (sqrt_loop n f w high quarter))
      → IsSqrt (v + r * r) (sqrt_loop n (suc f) v (r * (2 * b)) (b * b))
  sqrt_loop_round f v r b quarter low high eq eq_low eq_high pos fits passed taken =
      rw (sqrt_loop-step f v r b pos fits, eq, eq_high, eq_low)
        (elim (Bool-cases (leb (r * (2 * b) + b * b) v)) [
          | inl fit ↦
              let e : v - (r * (2 * b) + b * b) + (r + b) * (r + b) ≡ v + r * r = ground arith in
              rw fit (rw e at (taken (v - (r * (2 * b) + b * b)) e))
          | inr over ↦ rw over (passed (ground arith))
        ])

  sqrt_loop_exact :
      (k f v r : ℕ)
      → k + 1 < f
      → r + 2 * 2 ^ k ≤ m
      → v + r * r < (r + 2 * 2 ^ k) * (r + 2 * 2 ^ k)
      → IsSqrt (v + r * r) (sqrt_loop n f v (r * (2 * 2 ^ k)) (2 ^ k * 2 ^ k))
  sqrt_loop_exact k zero v r lt fits top = absurd (omega arith)
  sqrt_loop_exact zero (suc f) v r lt fits top =
      sqrt_loop_round f v r 1 0 r (r + 1) refl (omega arith) (omega arith) (omega arith) fits
        (λ h. rw sqrt_loop-zero (omega arith, h))
        (λ w e. rw sqrt_loop-zero (omega arith, omega arith))
  sqrt_loop_exact (suc k) (suc f) v r lt fits top =
      let two : 2 ^ suc k ≡ 2 * 2 ^ k = omega (arith, pow-suc 2 k) in
      let pos : 0 < 2 ^ k = one-le-pow k 2 (omega arith) in
      let top' : v + r * r < (r + 2 * (2 * 2 ^ k)) * (r + 2 * (2 * 2 ^ k)) = rw two at top in
      rw two (
        sqrt_loop_round f v r (2 * 2 ^ k) (2 ^ k * 2 ^ k) (r * (2 * 2 ^ k))
          ((r + 2 * 2 ^ k) * (2 * 2 ^ k)) (omega arith) refl (omega arith) (omega arith)
          (omega arith) (λ h. sqrt_loop_exact k f v r (omega arith) (omega arith) h)
          (λ w e. sqrt_loop_exact k f w (r + 2 * 2 ^ k) (omega arith) (omega arith) (omega arith)))

-- What the first loop leaves: a power of four that no longer exceeds `v`, or zero if `v` is zero.
abbrev Shifted : ℕ → ℕ → ℕ → Type 0
Shifted k v bit =
    ((j : ℕ) × (j ≤ k) × (bit ≡ 2 ^ j * 2 ^ j) × (v < 4 * (2 ^ j * 2 ^ j))) ⊎ ((v ≡ 0) × (bit ≡ 0))

shift_bit-zero : (f v : ℕ) → shift_bit f v 0 ≡ 0
unfolding shift_bit
shift_bit-zero zero v = refl
shift_bit-zero (suc f) v = ground (arith, shift_bit-zero f v)

shift_bit-Shifted :
    (f k v : ℕ) → k < f → v < 4 * (2 ^ k * 2 ^ k) → Shifted k v (shift_bit f v (2 ^ k * 2 ^ k))
unfolding shift_bit
shift_bit-Shifted zero k v lt top = absurd (omega arith)
shift_bit-Shifted (suc f) zero v lt top = elim (Bool-cases (ltb v 1)) [
  | inl below ↦ inr (ground arith, rw below (shift_bit-zero f v))
  | inr found ↦ inl (0, omega arith, rw found, top)
]
shift_bit-Shifted (suc f) (suc k) v lt top =
    let quarter : 2 ^ suc k * 2 ^ suc k / 4 ≡ 2 ^ k * 2 ^ k = rw pow-suc (omega arith) in
    elim (Bool-cases (ltb v (2 ^ suc k * 2 ^ suc k))) [
      | inl below ↦
          let small : v < 2 ^ suc k * 2 ^ suc k = ground arith in
          let next : v < 4 * (2 ^ k * 2 ^ k) = let s = rw pow-suc at small in omega arith in
          rw (below, quarter)
            (elim (shift_bit-Shifted f k v (omega arith) next) [
              | inl (j, le, e, t) ↦ inl (j, omega arith, e, t)
              | inr z ↦ inr z
            ])
      | inr found ↦ inl (suc k, omega arith, rw found, top)
    ]

pow_double : (h : ℕ) → 2 ^ (h + h) ≡ 2 ^ h * 2 ^ h
pow_double zero = refl
pow_double (suc h) =
    let twice : suc h + suc h ≡ suc (suc (h + h)) = omega arith in
    rw (twice, pow-suc, pow-suc, pow-suc) (omega (arith, pow_double h))

-- The second loop, from what the first one leaves.
sqrt_loop_start :
    (h v bit : ℕ) → Shifted h v bit → IsSqrt v (sqrt_loop (2 * (h + 1)) (2 * (h + 1)) v 0 bit)
sqrt_loop_start h v bit (inl (j, le, e, t)) =
    let side : 2 ^ suc h * 2 ^ suc h ≡ 2 ^ (2 * (h + 1)) =
      sym (pow_double (suc h)) ∙ ap (λ e. 2 ^ e) (omega arith) in
    let zeros : 0 * (2 * 2 ^ j) ≡ 0 = omega arith in
    let fit : 0 + 2 * 2 ^ j ≤ 2 ^ suc h =
      omega (arith, pow-suc 2 h, pow-le-pow_right {n = 2} (omega arith) le) in
    rw e (
      rw (zeros, add-zero) at
        (sqrt_loop_exact (2 * (h + 1)) (2 ^ suc h) side j (2 * (h + 1)) v 0 (omega arith) fit
          (omega arith)))
sqrt_loop_start h v bit (inr (z, e)) = rw (e, sqrt_loop-zero) (omega arith)

-- At an even width, `integer_sqrt` of a value that fits is its square root rounded down: the loops
-- end within their rounds, and nothing wraps around.
pub integer_sqrt-IsSqrt :
    (h v : ℕ) → v < 2 ^ (2 * (h + 1)) → IsSqrt v (integer_sqrt (2 * (h + 1)) v)
unfolding integer_sqrt
integer_sqrt-IsSqrt h v fits =
    let double : 2 * (h + 1) ≡ suc h + suc h = omega arith in
    let less : 2 * (h + 1) - 2 ≡ h + h = omega arith in
    let fits' : v < 2 ^ (suc h + suc h) = rw double at fits in
    let top : v < 4 * (2 ^ h * 2 ^ h) =
      omega (arith, pow_double (suc h), ap (λ (t : ℕ). t * t) (pow-suc 2 h)) in
    sqrt_loop_start h v _
      (rw (less, pow_double h) (shift_bit-Shifted (2 * (h + 1)) h v (omega arith) top))
