-- ===== src/Arbitrage/Calculator/Search.antt =====
-- `find_arbitrage`: what it returns is the best that any other pool offers, and is profitable.
use mathlib.Core.List.{Mem, mem-cons_self, mem-cons_of_mem}
use dex_knight.Prelude.{
  ◌≤◌, ◌<◌, ◌≡◌, refl, sym, ◌∙◌, ◌⊎◌, inl, inr, Bool, true, false, Bytes, List, [], ◌∷◌, Option,
  none, some, All, arith, ltb, ◌==◌, ◌||◌, same_bytes, if◌then◌else◌,
}
use dex_knight.Evm.Contracts.{Swap}
use dex_knight.Candidate.Types.{PoolSnapshot, StateSnapshot, Candidate}
use dex_knight.Arbitrage.Calculator.{
  Params, Opportunity, keep_better, evaluate_against, search_pools, find_arbitrage,
  find_pool_snapshot, apply_victim_swap,
}

-- The second result is at least as profitable as the first, where there is a first.
abbrev pub AtMost : Option Opportunity → Option Opportunity → Type 0
AtMost none r = Unit
AtMost (some o) none = ⊥
AtMost (some o) (some r) = o.expected_profit_b ≤ r.expected_profit_b

AtMost-refl : (o : Option Opportunity) → AtMost o o
AtMost-refl none = tt
AtMost-refl (some o) = omega arith

AtMost-trans : (a b c : Option Opportunity) → AtMost a b → AtMost b c → AtMost a c
AtMost-trans none b c h k = tt
AtMost-trans (some a) none c h k = absurd h
AtMost-trans (some a) (some b) none h k = absurd k
AtMost-trans (some a) (some b) (some c) h k = omega arith

keep_better_left : (a b : Option Opportunity) → AtMost a (keep_better a b)
unfolding keep_better
keep_better_left none none = tt
keep_better_left none (some b) = tt
keep_better_left (some a) none = omega arith
keep_better_left (some a) (some b) = ground arith

keep_better_right : (a b : Option Opportunity) → AtMost b (keep_better a b)
unfolding keep_better
keep_better_right a none = tt
keep_better_right none (some b) = omega arith
keep_better_right (some a) (some b) = ground arith

keep_better_one : (a b : Option Opportunity) → (keep_better a b ≡ a) ⊎ (keep_better a b ≡ b)
unfolding keep_better
keep_better_one a none = inl refl
keep_better_one none (some b) = inr refl
keep_better_one (some a) (some b) = ground arith

-- One round of the loop over the pools, whose test is `same` and whose pool offers `offered`.
abbrev round : Bool → Option Opportunity → Option Opportunity → Option Opportunity
round same best offered = if same then best else keep_better best offered

round_left :
    (same : Bool) (best offered r : Option Opportunity)
    → AtMost (round same best offered) r
    → AtMost best r
round_left true best offered r h = h
round_left false best offered r h = AtMost-trans best _ r (keep_better_left best offered) h

round_right :
    (same : Bool) (best offered r : Option Opportunity)
    → AtMost (round same best offered) r
    → same ≡ false
    → AtMost offered r
round_right true best offered r h e = cc
round_right false best offered r h e = AtMost-trans offered _ r (keep_better_right best offered) h

round_one :
    (same : Bool) (best offered r : Option Opportunity)
    → r ≡ round same best offered
    → (r ≡ best) ⊎ ((same ≡ false) × (offered ≡ r))
round_one true best offered r h = inl h
round_one false best offered r h = elim (keep_better_one best offered) [
  | inl e ↦ inl (h ∙ e)
  | inr e ↦ inr (refl, sym (h ∙ e))
]

module _ (address : Bytes) (swap : Swap) (victim : PoolSnapshot) (params : Params) where
  -- A pool other than the victim's.
  abbrev pub IsOther : PoolSnapshot → Type 0
  IsOther p = same_bytes p.pool.address address ≡ false

  -- The result is at least what each other pool offers.
  abbrev pub Dominates : Option Opportunity → List PoolSnapshot → Type 0
  Dominates r = All (λ p. IsOther p → AtMost (evaluate_against swap victim p params) r)

  -- The result is what some other pool of the list offers.
  abbrev pub OfferedBy : Option Opportunity → List PoolSnapshot → Type 0
  OfferedBy r pools =
      (p : PoolSnapshot) × Mem p pools × IsOther p × (evaluate_against swap victim p params ≡ r)

  pub search_pools-best :
      (best : Option Opportunity) (pools : List PoolSnapshot)
      → let r = search_pools address swap victim params best pools in
        AtMost best r × Dominates r pools × ((r ≡ best) ⊎ OfferedBy r pools)
  unfolding search_pools
  search_pools-best best [] = (AtMost-refl best, tt, inl refl)
  search_pools-best best (p ∷ ps) =
      let same = same_bytes p.pool.address address in
      let offered = evaluate_against swap victim p params in
      let r = search_pools address swap victim params (round same best offered) ps in
      let (above, all_rest, origin) = search_pools-best (round same best offered) ps in
      (
        round_left same best offered r above,
        (round_right same best offered r above, all_rest),
        elim origin [
          | inl e ↦ elim (round_one same best offered r e) [
            | inl old ↦ inl old
            | inr (other, new) ↦ inr (p, mem-cons_self, other, new)
          ]
          | inr (q, m, other, new) ↦ inr (q, mem-cons_of_mem p m, other, new)
        ],
      )

-- With a valid limit and share, the victim's pool in the state and its swap accepted: the result is at
-- least as profitable as what any other pool offers, and is absent or offered by one of them.
pub find_arbitrage_best :
    (state : StateSnapshot) (candidate : Candidate) (swap : Swap) (params : Params)
    {p q : PoolSnapshot}
    → params.min_output_bps ≤ 10000
    → 0 < params.max_amount_in_b
    → find_pool_snapshot state candidate ≡ some p
    → apply_victim_swap p swap ≡ some q
    → let r = find_arbitrage state candidate swap params in
      Dominates candidate.pool.address swap q params r state.pools
      × ((r ≡ none) ⊎ OfferedBy candidate.pool.address swap q params r state.pools)
unfolding find_arbitrage
find_arbitrage_best state candidate swap params {p} {q} bps max found swapped =
    let guard : (ltb 10000 params.min_output_bps || params.max_amount_in_b == 0) ≡ false =
      ground arith in
    let (_, all_pools, origin) =
      search_pools-best candidate.pool.address swap q params none state.pools in
    rw (guard, found, swapped) (all_pools, origin)

-- An invalid share, a limit of zero, a victim's pool outside the state and a swap that its pool
-- refuses: each of these alone means that there is no opportunity.
pub find_arbitrage_refuses :
    (state : StateSnapshot) (candidate : Candidate) (swap : Swap) (params : Params)
    → (10000 < params.min_output_bps)
      ⊎ (params.max_amount_in_b ≡ 0)
      ⊎ (find_pool_snapshot state candidate ≡ none)
      ⊎ ((p : PoolSnapshot) × (find_pool_snapshot state candidate ≡ some p)
          × (apply_victim_swap p swap ≡ none))
    → find_arbitrage state candidate swap params ≡ none
unfolding find_arbitrage
find_arbitrage_refuses state candidate swap params (inl h) = ground arith
find_arbitrage_refuses state candidate swap params (inr (inl h)) = ground arith
find_arbitrage_refuses state candidate swap params (inr (inr (inl h))) = ground arith
find_arbitrage_refuses state candidate swap params (inr (inr (inr (p, h, e)))) = ground arith
