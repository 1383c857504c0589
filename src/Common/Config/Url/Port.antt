-- ===== src/Common/Config/Url/Port.antt =====
-- The ports that `is_valid_port` accepts.
use dex_knight.Prelude.{
  ℕ, ◌+◌, ◌-◌, ◌*◌, ◌^◌, ◌≤◌, ◌<◌, ◌≡◌, ◌↔◌, refl, sym, ◌∙◌, ap, Bool, true, false, arith, Bytes,
  [], ◌∷◌, Option, none, some, ltb, if◌then◌else◌, All, Option-cases, inl, inr, ◌&&◌,
}
use dex_knight.Prelude.Chars.{digit_value, digit_run, from_chars}
use dex_knight.Common.Config.Url.{is_valid_port, is_empty}

abbrev pub IsDigit : ℕ → Type 0
IsDigit c = (b'0' ≤ c) × (c ≤ b'9')

-- The number that digits denote behind `n`.
unfoldable pub decimal : ℕ → Bytes → ℕ
decimal n [] = n
decimal n (c ∷ s) = decimal (n * 10 + (c - b'0')) s

-- Decimal digits that denote a number from 1 to 65535.
abbrev pub IsPort : Bytes → Type 0
IsPort port = All IsDigit port × (0 < decimal 0 port) × (decimal 0 port < 65536)

digit_value-IsDigit : (c d : ℕ) → digit_value 10 c ≡ some d → IsDigit c × (d ≡ c - b'0')
unfolding digit_value
digit_value-IsDigit c d h = ground arith

digit-digit_value : (c : ℕ) → IsDigit c → digit_value 10 c ≡ some (c - b'0')
unfolding digit_value
digit-digit_value c h = ground arith

run_digit :
    (n c d : ℕ) (s : Bytes)
    → digit_value 10 c ≡ some d
    → digit_run 10 n (c ∷ s) ≡ digit_run 10 (n * 10 + d) s
unfolding digit_run
run_digit n c d s h = rw (h, digit_run) refl

run_end : (n c : ℕ) (s : Bytes) → digit_value 10 c ≡ none → digit_run 10 n (c ∷ s) ≡ (n, c ∷ s)
unfolding digit_run
run_end n c s h = rw (h, digit_run) refl

digit_run-decimal :
    (n v : ℕ) (s : Bytes) → digit_run 10 n s ≡ (v, []) → All IsDigit s × (v ≡ decimal n s)
unfolding digit_run decimal
digit_run-decimal n v [] h = (tt, sym (ap (λ p. p.0) h))
digit_run-decimal n v (c ∷ s) h = elim (Option-cases (digit_value 10 c)) [
  | inl e ↦ cc (h, run_end n c s e)
  | inr (d, e) ↦
      let (digit, value) = digit_value-IsDigit c d e in
      let (digits, total) = digit_run-decimal (n * 10 + d) v s (sym (run_digit n c d s e) ∙ h) in
      ((digit, digits), rw (sym value) total)
]

decimal-digit_run : (n : ℕ) (s : Bytes) → All IsDigit s → digit_run 10 n s ≡ (decimal n s, [])
unfolding digit_run decimal
decimal-digit_run n [] h = refl
decimal-digit_run n (c ∷ s) (d, h) =
    run_digit n c (c - b'0') s (digit-digit_value c d) ∙ decimal-digit_run (n * 10 + (c - b'0')) s h

chars_digit :
    (c d : ℕ) (s : Bytes)
    → digit_value 10 c ≡ some d
    → from_chars 10 (2 ^ 16) (c ∷ s)
      ≡ (let r = digit_run 10 d s in if ltb r.0 65536 then some (r.0, r.1) else none)
unfolding from_chars digit_run
chars_digit c d s h = rw (h, from_chars) refl

chars_none : (c : ℕ) (s : Bytes) → digit_value 10 c ≡ none → from_chars 10 (2 ^ 16) (c ∷ s) ≡ none
unfolding from_chars
chars_none c s h = rw (h, from_chars) refl

-- The test on what `from_chars` returns.
abbrev accepts : Option (ℕ × Bytes) → Bool
accepts none = false
accepts (some (value, rest)) = is_empty rest && ltb 0 value

accepts-value :
    (v : ℕ) (rest : Bytes)
    → accepts (if ltb v 65536 then some (v, rest) else none) ≡ true
    → (rest ≡ []) × ((0 < v) × (v < 65536))
accepts-value v [] h = (refl, ground arith)
accepts-value v (a ∷ rest) h = ground arith

value-accepts :
    (v : ℕ) → 0 < v → v < 65536 → accepts (if ltb v 65536 then some (v, []) else none) ≡ true
value-accepts v h k = ground arith

is_valid_port-accepts : (port : Bytes) → is_valid_port port ≡ accepts (from_chars 10 (2 ^ 16) port)
unfolding is_valid_port
is_valid_port-accepts port = refl

decimal_start : (c : ℕ) (s : Bytes) → decimal 0 (c ∷ s) ≡ decimal (c - b'0') s
unfolding decimal
decimal_start c s = ap (λ n. decimal n s) (omega arith)

pair-eq : {p : ℕ × Bytes} → p.1 ≡ [] → p ≡ (p.0, [])
pair-eq {p = (n, s)} e = ap (λ t. (n, t)) e

run_IsPort :
    (c d : ℕ) (s : Bytes)
    → digit_value 10 c ≡ some d
    → accepts (from_chars 10 (2 ^ 16) (c ∷ s)) ≡ true
    → IsPort (c ∷ s)
run_IsPort c d s e h =
    let (digit, value) = digit_value-IsDigit c d e in
    let r = digit_run 10 d s in
    let (ended, (least, most)) = accepts-value r.0 r.1 (rw (sym (chars_digit c d s e)) h) in
    let (digits, total) = digit_run-decimal d r.0 s (pair-eq ended) in
    let whole : r.0 ≡ decimal 0 (c ∷ s) =
      total ∙ ap (λ n. decimal n s) value ∙ sym (decimal_start c s) in
    ((digit, digits), rw (sym whole) least, rw (sym whole) most)

valid_IsPort : (port : Bytes) → accepts (from_chars 10 (2 ^ 16) port) ≡ true → IsPort port
unfolding from_chars
valid_IsPort [] h = cc
valid_IsPort (c ∷ s) h = elim (Option-cases (digit_value 10 c)) [
  | inl e ↦ cc (h, ap accepts (chars_none c s e))
  | inr (d, e) ↦ run_IsPort c d s e h
]

IsPort-valid : (port : Bytes) → IsPort port → accepts (from_chars 10 (2 ^ 16) port) ≡ true
unfolding decimal
IsPort-valid [] (digits, least, most) = ground arith
IsPort-valid (c ∷ s) ((digit, digits), least, most) =
    let start = decimal_start c s in
    let first = chars_digit c (c - b'0') s (digit-digit_value c digit) in
    rw first (
      rw (decimal-digit_run (c - b'0') s digits)
        (value-accepts (decimal (c - b'0') s) (rw (sym start) least) (rw (sym start) most)))

-- The valid ports are the texts of decimal digits that denote a number from 1 to 65535.
pub is_valid_port-IsPort : (port : Bytes) → (is_valid_port port ≡ true) ↔ IsPort port
is_valid_port-IsPort port = rw (is_valid_port-accepts port) (valid_IsPort port, IsPort-valid port)
