-- ===== src/Candidate/State.antt =====
-- `candidate::State` of knight/src/candidate/state.cpp: block number, pool snapshots, validity and
-- mempool as one state. Each method runs whole under the mutex.
pub mod Coherent
pub mod Calls
use dex_knight.Prelude.{ℕ, Bool, true, false, List, [], Option, none, some, ltb, if◌then◌else◌}
use dex_knight.Candidate.Types.{Candidate, CandidateSnapshot, PoolSnapshot, StateSnapshot}
use dex_knight.Candidate.Mempool
use dex_knight.Candidate.Mempool.{Mempool}

pub record State : Type 0 where
  pub local_mempool : Mempool
  pub pools : List PoolSnapshot
  pub block_number : Option ℕ
  pub valid : Bool

abbrev pub initial : State
initial = record { local_mempool = Mempool.empty; pools = []; block_number = none; valid = false }

-- `m_block_number && block_number < *m_block_number`
unfoldable pub is_stale : ℕ → Option ℕ → Bool
is_stale block none = false
is_stale block (some current) = ltb block current

unfoldable pub apply_snapshot : CandidateSnapshot → List PoolSnapshot → State → Bool × State
unfolding is_stale
apply_snapshot snapshot pools s =
    let (applied, mempool) = Mempool.apply_snapshot snapshot s.local_mempool in
    if is_stale snapshot.block_number s.block_number
    then (false, s)
    else if applied
    then (
      true,
      record {
        local_mempool = mempool;
        pools = pools;
        block_number = some snapshot.block_number;
        valid = true;
      },
    )
    else (false, record s { local_mempool = mempool })

unfoldable pub apply_pending_tx : Candidate → State → Bool × State
apply_pending_tx candidate s =
    let (accepted, mempool) = Mempool.apply_pending_tx candidate s.local_mempool in
    if s.valid then (accepted, record s { local_mempool = mempool }) else (false, s)

unfoldable pub mark_invalid : ℕ → State → Bool × State
unfolding is_stale
mark_invalid block s = if is_stale block s.block_number then (false, s) else (
  true,
  record {
    local_mempool = Mempool.clear s.local_mempool;
    pools = [];
    block_number = some block;
    valid = false;
  },
)

unfoldable pub make_snapshot : Option Candidate → State → StateSnapshot
make_snapshot candidate s = record {
  valid = s.valid;
  block_number = s.block_number;
  pools = s.pools;
  candidate = candidate;
}

-- The snapshot with the popped candidate; none where the mempool had none.
unfoldable pub popped : Option Candidate × Mempool → State → Option StateSnapshot × State
unfolding make_snapshot
popped (none, mempool) s = (none, record s { local_mempool = mempool })
popped (some c, mempool) s = (
  some (make_snapshot (some c) (record s { local_mempool = mempool })),
  record s { local_mempool = mempool },
)

unfoldable pub pop_next_snapshot : State → Option StateSnapshot × State
unfolding popped
pop_next_snapshot s =
    if s.valid then popped (Mempool.pop_next_candidate s.local_mempool) s else (none, s)

unfoldable pub snapshot : State → StateSnapshot
unfolding make_snapshot
snapshot s = make_snapshot none s

unfoldable pub size : State → ℕ
size s = Mempool.size s.local_mempool
