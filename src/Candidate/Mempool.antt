-- ===== src/Candidate/Mempool.antt =====
-- `LocalMempool` of knight/src/candidate/local_mempool.cpp. Each method runs whole under the mutex,
-- and returns its result with the new state.
pub mod Laws
pub mod Refines
use dex_knight.Prelude.{
  ℕ, Bool, true, false, List, [], ◌∷◌, Option, none, some, length, ltb, leb, if◌then◌else◌,
}
use dex_knight.Common.SortedMap.{SortedMap, insert_or_assign}
use dex_knight.Candidate.Types.{Candidate, CandidateSnapshot}

pub record Mempool : Type 0 where
  pub candidates : SortedMap Candidate
  pub snapshot_seq : ℕ

abbrev pub empty : Mempool
empty = record { candidates = []; snapshot_seq = 0 }

-- The loop over the candidates of a snapshot.
unfoldable pub index_by_seq : SortedMap Candidate → List Candidate → SortedMap Candidate
index_by_seq next [] = next
index_by_seq next (c ∷ cs) = index_by_seq (insert_or_assign c.tx.seq_num c next) cs

unfoldable pub apply_snapshot : CandidateSnapshot → Mempool → Bool × Mempool
apply_snapshot snapshot m = if ltb snapshot.snapshot_seq m.snapshot_seq then (false, m) else (
  true,
  record { candidates = index_by_seq [] snapshot.candidates; snapshot_seq = snapshot.snapshot_seq },
)

unfoldable pub apply_pending_tx : Candidate → Mempool → Bool × Mempool
apply_pending_tx c m =
    if leb c.tx.seq_num m.snapshot_seq
    then (false, m)
    else (true, record m { candidates = insert_or_assign c.tx.seq_num c m.candidates })

unfoldable pub pop_next_candidate : Mempool → Option Candidate × Mempool
pop_next_candidate m = elim m.candidates [
  | [] ↦ (none, m)
  | (seq, c) ∷ rest ↦ (some c, record m { candidates = rest })
]

unfoldable pub clear : Mempool → Mempool
clear m = record { candidates = []; snapshot_seq = 0 }

unfoldable pub size : Mempool → ℕ
size m = length m.candidates
