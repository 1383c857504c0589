-- ===== src/Candidate/State/Coherent.antt =====
-- The state over any sequence of calls: it stays coherent, and its block number never falls.
use dex_knight.Prelude.{ℕ, ◌≡◌, refl, true, false, List, [], Option, none, some, arith}
use dex_knight.Candidate.Types.{Candidate, CandidateSnapshot, PoolSnapshot}
use dex_knight.Candidate.Mempool
use dex_knight.Candidate.Mempool.{Mempool}
use dex_knight.Candidate.Mempool.Laws.{
  IsOrdered, apply_snapshot-IsOrdered, apply_pending_tx-IsOrdered, pop_next_candidate-IsOrdered,
}
use dex_knight.Candidate.State.{
  State, initial, apply_snapshot, apply_pending_tx, mark_invalid, popped, pop_next_snapshot,
}

abbrev pub HasBlock : Option ℕ → Type 0
HasBlock none = ⊥
HasBlock (some b) = Unit

-- Without a valid state there is no candidate, and a valid state has a block number.
pub record IsCoherent (s : State) : Type 0 where
  pub ordered : IsOrdered s.local_mempool
  pub invalid_empty : s.valid ≡ false → s.local_mempool.candidates ≡ []
  pub numbered : s.valid ≡ true → HasBlock s.block_number

pub initial-IsCoherent : IsCoherent initial
initial-IsCoherent = record {
  ordered = record { sorted = tt; keyed = tt };
  invalid_empty = λ e. refl;
  numbered = λ e. cc e;
}

pub apply_snapshot-IsCoherent :
    (c : CandidateSnapshot) (pools : List PoolSnapshot) (s : State)
    → IsCoherent s
    → IsCoherent (apply_snapshot c pools s).1
unfolding apply_snapshot Mempool.apply_snapshot
apply_snapshot-IsCoherent c pools s v =
    ground (arith, apply_snapshot-IsOrdered c s.local_mempool v.ordered)

pub apply_pending_tx-IsCoherent :
    (c : Candidate) (s : State) → IsCoherent s → IsCoherent (apply_pending_tx c s).1
unfolding apply_pending_tx
apply_pending_tx-IsCoherent c s v =
    ground (arith, apply_pending_tx-IsOrdered c s.local_mempool v.ordered)

pub mark_invalid-IsCoherent : (b : ℕ) (s : State) → IsCoherent s → IsCoherent (mark_invalid b s).1
unfolding mark_invalid Mempool.clear
mark_invalid-IsCoherent b s v = ground arith

pub pop_next_snapshot-IsCoherent : (s : State) → IsCoherent s → IsCoherent (pop_next_snapshot s).1
unfolding pop_next_snapshot popped
pop_next_snapshot-IsCoherent s v =
    ground (arith, pop_next_candidate-IsOrdered s.local_mempool v.ordered)
