-- ===== src/Candidate/State/Calls.antt =====
-- Sequences of calls on the state, and what a call returns.
use dex_knight.Prelude.{
  ℕ, ◌≤◌, ◌≡◌, refl, true, false, List, [], ◌∷◌, Option, none, some, arith, inl, inr, Bool-cases,
}
use dex_knight.Candidate.Types.{Candidate, CandidateSnapshot, PoolSnapshot, StateSnapshot}
use dex_knight.Candidate.Mempool
use dex_knight.Candidate.Mempool.{Mempool}
use dex_knight.Candidate.Mempool.Laws.{PopsLeast, pop_next_candidate-PopsLeast}
use dex_knight.Candidate.State.{
  State, initial, apply_snapshot, apply_pending_tx, mark_invalid, popped, pop_next_snapshot,
  make_snapshot,
}
use dex_knight.Candidate.State.Coherent.{
  IsCoherent, initial-IsCoherent, apply_snapshot-IsCoherent, apply_pending_tx-IsCoherent,
  mark_invalid-IsCoherent, pop_next_snapshot-IsCoherent,
}

pub data Call : Type 0 where
  applies_snapshot : CandidateSnapshot → List PoolSnapshot → Call
  applies_pending : Candidate → Call
  marks_invalid : ℕ → Call
  pops : Call

pub step : State → Call → State
step s (applies_snapshot c pools) = (apply_snapshot c pools s).1
step s (applies_pending c) = (apply_pending_tx c s).1
step s (marks_invalid b) = (mark_invalid b s).1
step s pops = (pop_next_snapshot s).1

pub run : State → List Call → State
run s [] = s
run s (c ∷ cs) = run (step s c) cs

step-IsCoherent : (s : State) (c : Call) → IsCoherent s → IsCoherent (step s c)
unfolding step
step-IsCoherent s (applies_snapshot c pools) v = apply_snapshot-IsCoherent c pools s v
step-IsCoherent s (applies_pending c) v = apply_pending_tx-IsCoherent c s v
step-IsCoherent s (marks_invalid b) v = mark_invalid-IsCoherent b s v
step-IsCoherent s pops v = pop_next_snapshot-IsCoherent s v

run-IsCoherent : (s : State) (cs : List Call) → IsCoherent s → IsCoherent (run s cs)
unfolding run
run-IsCoherent s [] v = v
run-IsCoherent s (c ∷ cs) v = run-IsCoherent (step s c) cs (step-IsCoherent s c v)

-- After any calls on a new state: its candidates stand in order under their own sequence numbers, it
-- has none while it is invalid, and it has a block number while it is valid.
pub run-initial-IsCoherent : (cs : List Call) → IsCoherent (run initial cs)
run-initial-IsCoherent cs = run-IsCoherent initial cs initial-IsCoherent

-- The first block number is absent or at most the second.
abbrev pub NotAfter : Option ℕ → Option ℕ → Type 0
NotAfter none b = Unit
NotAfter (some a) none = ⊥
NotAfter (some a) (some b) = a ≤ b

NotAfter-refl : (a : Option ℕ) → NotAfter a a
NotAfter-refl none = tt
NotAfter-refl (some a) = omega arith

NotAfter-trans : (a b c : Option ℕ) → NotAfter a b → NotAfter b c → NotAfter a c
NotAfter-trans none b c h k = tt
NotAfter-trans (some a) none c h k = absurd h
NotAfter-trans (some a) (some b) none h k = absurd k
NotAfter-trans (some a) (some b) (some c) h k = omega arith

step-NotAfter : (s : State) (c : Call) → NotAfter s.block_number (step s c).block_number
unfolding step apply_snapshot apply_pending_tx mark_invalid pop_next_snapshot popped
step-NotAfter s (applies_snapshot c pools) = ground (arith, NotAfter-refl s.block_number)
step-NotAfter s (applies_pending c) = ground (arith, NotAfter-refl s.block_number)
step-NotAfter s (marks_invalid b) = ground (arith, NotAfter-refl s.block_number)
step-NotAfter s pops = ground (arith, NotAfter-refl s.block_number)

-- No sequence of calls lowers the block number.
pub run-NotAfter : (s : State) (cs : List Call) → NotAfter s.block_number (run s cs).block_number
unfolding run
run-NotAfter s [] = NotAfter-refl s.block_number
run-NotAfter s (c ∷ cs) =
    NotAfter-trans s.block_number (step s c).block_number _ (step-NotAfter s c)
      (run-NotAfter (step s c) cs)

-- What a pop of a coherent state returns.
abbrev pub PopsNext : State → Option StateSnapshot × State → Type 0
PopsNext s (none, s') = (s.local_mempool.candidates ≡ []) × (s'.local_mempool.candidates ≡ [])
PopsNext s (some r, s') =
    (r.valid ≡ true)
    × (r.block_number ≡ s.block_number)
    × (r.pools ≡ s.pools)
    × (s'.pools ≡ s.pools)
    × (s'.valid ≡ true)
    × (s'.block_number ≡ s.block_number)
    × ((c : Candidate) × (r.candidate ≡ some c)
        × PopsLeast s.local_mempool.candidates (some c, s'.local_mempool))

popped-PopsNext :
    (s : State) (r : Option Candidate × Mempool)
    → s.valid ≡ true
    → PopsLeast s.local_mempool.candidates r
    → PopsNext s (popped r s)
unfolding popped make_snapshot
popped-PopsNext s (none, m) e h = h
popped-PopsNext s (some c, m) e h = (e, refl, refl, refl, e, refl, (c, refl, h))

pop_valid :
    (s : State)
    → s.valid ≡ true
    → pop_next_snapshot s ≡ popped (Mempool.pop_next_candidate s.local_mempool) s
unfolding pop_next_snapshot
pop_valid s e = ground arith

pop_invalid : (s : State) → s.valid ≡ false → pop_next_snapshot s ≡ (none, s)
unfolding pop_next_snapshot
pop_invalid s e = ground arith

-- From a coherent state `pop_next_snapshot` returns the state's block number and pools with the
-- candidate of the least sequence number, and removes that one alone. It returns none only when there
-- is no candidate.
pub pop_next_snapshot-PopsNext : (s : State) → IsCoherent s → PopsNext s (pop_next_snapshot s)
pop_next_snapshot-PopsNext s v = elim (Bool-cases s.valid) [
  | inl e ↦ rw (pop_valid s e) (
      popped-PopsNext s (Mempool.pop_next_candidate s.local_mempool) e
        (pop_next_candidate-PopsLeast s.local_mempool v.ordered).0)
  | inr e ↦ let empty = v.invalid_empty e in rw (pop_invalid s e) (empty, empty)
]
