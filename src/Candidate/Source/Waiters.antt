-- ===== src/Candidate/Source/Waiters.antt =====
-- What `wait_pop_state` returns.
use dex_knight.Prelude.{
  ◌≡◌, refl, sym, subst, ◌∙◌, true, false, [], Option, none, some, arith, ltb, inl, inr, ◌⊎◌,
  Bool-cases, Expected, ok, unexpected,
}
use dex_knight.Candidate.Types.{StateSnapshot}
use dex_knight.Candidate.Mempool
use dex_knight.Candidate.State
use dex_knight.Candidate.State.{State}
use dex_knight.Candidate.State.Calls.{PopsNext, pop_next_snapshot-PopsNext}
use dex_knight.Candidate.Source.{Source, Error, closed, popped_state, wait_pop_state}
use dex_knight.Candidate.Source.Threads.{IsConsistent}

-- What a return of `wait_pop_state` promises of a source.
abbrev pub Answers : Source → Expected StateSnapshot Error × Source → Type 0
Answers s (unexpected e, s') = (s.is_closed ≡ true) × (s' ≡ s)
Answers s (ok r, s') =
    (s.is_closed ≡ false)
    × (r.block_number ≡ s.state.block_number)
    × (((s.invalid_snapshot_pending ≡ true)
          × (r.valid ≡ false)
          × (r.candidate ≡ none)
          × (s'.invalid_snapshot_pending ≡ false)
          × (s'.state ≡ s.state))
        ⊎ ((s.invalid_snapshot_pending ≡ false) × PopsNext s.state (some r, s'.state)))

popped_state-Answers :
    (s : Source) (r : Option StateSnapshot × State)
    → s.is_closed ≡ false
    → s.invalid_snapshot_pending ≡ false
    → (s.state.local_mempool.candidates ≡ [] → ⊥)
    → PopsNext s.state r
    → Answers s (popped_state s r)
unfolding popped_state
popped_state-Answers s (none, state) open_eq none_pending nonempty h = absurd (nonempty h.0)
popped_state-Answers s (some r, state) open_eq none_pending nonempty h =
    (open_eq, h.1, inr (none_pending, h))

has_candidates : (s : State) → ltb 0 (State.size s) ≡ true → s.local_mempool.candidates ≡ [] → ⊥
unfolding State.size Mempool.size
has_candidates s e empty = ground arith

wait_closed : (s : Source) → s.is_closed ≡ true → wait_pop_state s ≡ some (unexpected closed, s)
unfolding wait_pop_state
wait_closed s e = rw e refl

wait_pending :
    (s : Source)
    → s.is_closed ≡ false
    → s.invalid_snapshot_pending ≡ true
    → wait_pop_state s
      ≡ some (ok (State.snapshot s.state), record s { invalid_snapshot_pending = false })
unfolding wait_pop_state
wait_pending s e f = rw e (rw f refl)

wait_pops :
    (s : Source)
    → s.is_closed ≡ false
    → s.invalid_snapshot_pending ≡ false
    → ltb 0 (State.size s.state) ≡ true
    → wait_pop_state s ≡ some (popped_state s (State.pop_next_snapshot s.state))
unfolding wait_pop_state
wait_pops s e f g = rw e (rw f (rw g refl))

wait_blocks :
    (s : Source)
    → s.is_closed ≡ false
    → s.invalid_snapshot_pending ≡ false
    → ltb 0 (State.size s.state) ≡ false
    → wait_pop_state s ≡ none
unfolding wait_pop_state
wait_blocks s e f g = rw e (rw f (rw g refl))

pending-Answers :
    (s : Source)
    → s.is_closed ≡ false
    → s.invalid_snapshot_pending ≡ true
    → s.state.valid ≡ false
    → Answers s (ok (State.snapshot s.state), record s { invalid_snapshot_pending = false })
unfolding State.snapshot State.make_snapshot
pending-Answers s e f g = (e, refl, inl (f, g, refl, refl, refl))

some_inj {ℓ} : {A : Type ℓ} {a b : A} → some a ≡ some b → a ≡ b
some_inj e = cc e

-- From a consistent source, `wait_pop_state` reports an error only when the source is closed. What else
-- it returns is the undelivered invalid snapshot, which it delivers once, or else the valid state with
-- the least candidate, which it removes.
pub wait_pop_state-Answers :
    (s : Source) (r : Expected StateSnapshot Error × Source)
    → IsConsistent s
    → wait_pop_state s ≡ some r
    → Answers s r
wait_pop_state-Answers s r v e = elim (Bool-cases s.is_closed) [
  | inl is_closed ↦
      subst (Answers s) (some_inj (sym (wait_closed s is_closed) ∙ e)) (is_closed, refl)
  | inr is_open ↦ elim (Bool-cases s.invalid_snapshot_pending) [
    | inl pending ↦
        subst (Answers s) (some_inj (sym (wait_pending s is_open pending) ∙ e))
          (pending-Answers s is_open pending (v.pending_invalid pending))
    | inr none_pending ↦ elim (Bool-cases (ltb 0 (State.size s.state))) [
      | inl some_left ↦
          subst (Answers s) (some_inj (sym (wait_pops s is_open none_pending some_left) ∙ e)) (
            popped_state-Answers s (State.pop_next_snapshot s.state) is_open none_pending
              (has_candidates s.state some_left) (pop_next_snapshot-PopsNext s.state v.coherent))
      | inr none_left ↦ let blocked = wait_blocks s is_open none_pending none_left in cc
    ]
  ]
]
