-- ===== src/Common/Config/Url/Found.antt =====
-- Where `find` finds a character, and the separator of a URL.
use dex_knight.Prelude.{
  both_true, ◌+◌, ℕ, zero, suc, ◌≡◌, ◌≢◌, ◌⊎◌, refl, sym, ◌∙◌, ap, true, false, arith, Bytes, [],
  ◌∷◌, ◌++◌, none, some, All, take, drop, length, >>=-eq-some, ◌==◌, ◌>>=◌, Bool-cases, inl, inr,
}
use dex_knight.Common.Config.Url.{find_char, starts_with, find_text}

-- The character does not occur.
abbrev pub Lacks : ℕ → Bytes → Type 0
Lacks c s = find_char c s ≡ none

Lacks-inv : (c a : ℕ) (s : Bytes) → Lacks c (a ∷ s) → (a ≢ c) × Lacks c s
unfolding find_char
Lacks-inv c a s h = ground arith

found_other :
    (c a : ℕ) (s : Bytes)
    → (a == c) ≡ false
    → find_char c (a ∷ s) ≡ (find_char c s >>= λ i. some (suc i))
unfolding find_char
found_other c a s h = ground arith

found_here : (c a : ℕ) (s : Bytes) → (a == c) ≡ true → find_char c (a ∷ s) ≡ some 0
unfolding find_char
found_here c a s h = ground arith

find_char_inv :
    (c a : ℕ) (s : Bytes) (i : ℕ)
    → find_char c (a ∷ s) ≡ some i
    → ((a ≡ c) × (i ≡ 0)) ⊎ ((a ≢ c) × ((j : ℕ) × ((i ≡ suc j) × (find_char c s ≡ some j))))
find_char_inv c a s i h = elim (Bool-cases (a == c)) [
  | inl e ↦ inl (ground arith, cc (found_here c a s e, h))
  | inr e ↦
      let (j, k, l) =
        >>=-eq-some (find_char c s) (λ i. some (suc i)) (sym (found_other c a s e) ∙ h) in
      inr (ground arith, (j, (cc l, k)))
]

pub Lacks-All : (c : ℕ) (s : Bytes) → Lacks c s → All (λ a. a ≢ c) s
unfolding find_char
Lacks-All c [] h = tt
Lacks-All c (a ∷ s) h = let (other, rest) = Lacks-inv c a s h in (other, Lacks-All c s rest)

pub All-Lacks : (c : ℕ) (s : Bytes) → All (λ a. a ≢ c) s → Lacks c s
unfolding find_char
All-Lacks c [] h = refl
All-Lacks c (a ∷ s) (h, hs) = ground (arith, All-Lacks c s hs)

-- The text around the first occurrence.
pub find_char-eq-some :
    (c : ℕ) (s : Bytes) (i : ℕ)
    → find_char c s ≡ some i
    → (s ≡ take i s ++ c ∷ drop (suc i) s) × Lacks c (take i s) × (drop i s ≡ c ∷ drop (suc i) s)
unfolding find_char
find_char-eq-some c [] i h = cc
find_char-eq-some c (a ∷ s) i h = elim (find_char_inv c a s i h) [
  | inl (e, z) ↦ (rw z (rw e (refl, refl, refl)))
  | inr (other, (j, (e, k))) ↦
      let (parts, lacks, dropped) = find_char-eq-some c s j k in
      rw e (ap (λ t. a ∷ t) parts, ground (arith, lacks), dropped)
]

pub find_char-append :
    (c : ℕ) (pre rest : Bytes) → Lacks c pre → find_char c (pre ++ c ∷ rest) ≡ some (length pre)
unfolding find_char
find_char-append c [] rest h = ground arith
find_char-append c (a ∷ pre) rest h = ground (arith, find_char-append c pre rest)

pub Lacks-append : (c : ℕ) (xs ys : Bytes) → Lacks c xs → Lacks c ys → Lacks c (xs ++ ys)
unfolding find_char
Lacks-append c [] ys h k = k
Lacks-append c (a ∷ xs) ys h k = ground (arith, Lacks-append c xs ys)

pub Lacks-left : (c : ℕ) (xs ys : Bytes) → Lacks c (xs ++ ys) → Lacks c xs
unfolding find_char
Lacks-left c [] ys h = refl
Lacks-left c (a ∷ xs) ys h = ground (arith, Lacks-left c xs ys)

pub take-append : (xs ys : Bytes) → take (length xs) (xs ++ ys) ≡ xs
take-append [] ys = refl
take-append (a ∷ xs) ys = ap (λ s. a ∷ s) (take-append xs ys)

pub drop-append : (xs ys : Bytes) → drop (length xs) (xs ++ ys) ≡ ys
drop-append [] ys = refl
drop-append (a ∷ xs) ys = drop-append xs ys

starts_with-append : (text s : Bytes) → starts_with text s ≡ true → s ≡ text ++ drop (length text) s
unfolding starts_with
starts_with-append [] s h = refl
starts_with-append (p ∷ text) [] h = cc
starts_with-append (p ∷ text) (a ∷ s) h =
    let (e, t) = both_true (a == p) (starts_with text s) h in
    let same : a ≡ p = ground arith in rw same (ap (λ r. p ∷ r) (starts_with-append text s t))

text_other :
    (text : Bytes) (a : ℕ) (s : Bytes)
    → starts_with text (a ∷ s) ≡ false
    → find_text text (a ∷ s) ≡ (find_text text s >>= λ i. some (suc i))
unfolding find_text
text_other text a s h = rw h refl

text_here :
    (text : Bytes) (a : ℕ) (s : Bytes)
    → starts_with text (a ∷ s) ≡ true
    → find_text text (a ∷ s) ≡ some 0
unfolding find_text
text_here text a s h = rw h refl

-- The text around the first occurrence of a text.
pub find_text-eq-some :
    (text s : Bytes) (i : ℕ)
    → find_text text s ≡ some i
    → s ≡ take i s ++ text ++ drop (length text) (drop i s)
unfolding find_text
find_text-eq-some text [] i h = cc
find_text-eq-some text (a ∷ s) i h = elim (Bool-cases (starts_with text (a ∷ s))) [
  | inl e ↦ let z : i ≡ 0 = cc (text_here text a s e, h) in rw z (starts_with-append text (a ∷ s) e)
  | inr e ↦
      let (j, k, l) =
        >>=-eq-some (find_text text s) (λ i. some (suc i)) (sym (text_other text a s e) ∙ h) in
      let z : i ≡ suc j = cc l in rw z (ap (λ t. a ∷ t) (find_text-eq-some text s j k))
]

drop-nil : (k : ℕ) → ◌≡◌ {A = Bytes} (drop k []) []
drop-nil zero = refl
drop-nil (suc k) = refl

pub drop-add : (i k : ℕ) (s : Bytes) → drop (i + k) s ≡ drop k (drop i s)
drop-add zero k s = ap (λ n. drop n s) (omega arith)
drop-add (suc i) k [] = drop-nil (suc i + k) ∙ sym (drop-nil k)
drop-add (suc i) k (a ∷ s) =
    let e : suc i + k ≡ suc (i + k) = omega arith in ap (λ n. drop n (a ∷ s)) e ∙ drop-add i k s
