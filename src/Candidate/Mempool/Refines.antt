-- ===== src/Candidate/Mempool/Refines.antt =====
-- `LocalMempool` of knight/src/candidate/local_mempool.cpp over any calls: a map from sequence numbers to candidates, in which the
-- order and the representation of the entries do not show.
use dex_knight.Prelude.{
  ℕ, ◌≤◌, ◌≡◌, refl, ap, ◌∙◌, sym, Bool, true, false, List, [], ◌∷◌, Option, none, some, arith, ltb,
  leb, ◌==◌, if◌then◌else◌,
}
use dex_knight.Common.SortedMap.{find}
use dex_knight.Common.SortedMap.Laws.{find-insert_or_assign}
use dex_knight.Candidate.Types.{Candidate, CandidateSnapshot}
use dex_knight.Candidate.Mempool.{
  Mempool, empty, apply_snapshot, apply_pending_tx, pop_next_candidate, clear,
}
use dex_knight.Candidate.Mempool.Laws.{
  IsOrdered, last_with_seq, find-index_by_seq, find-empty, PopsLeast, apply_snapshot-IsOrdered,
  apply_pending_tx-IsOrdered, pop_next_candidate-IsOrdered, pop_next_candidate-PopsLeast,
}

-- The candidate at each sequence number, and the sequence number of the last snapshot.
pub record View : Type 0 where
  pub at : ℕ → Option Candidate
  pub seq : ℕ

pub data Call : Type 0 where
  applies_snapshot : CandidateSnapshot → Call
  applies_pending : Candidate → Call
  pops clears : Call

pub data Result : Type 0 where
  answers : Bool → Result
  takes : Option Candidate → Result
  returns : Result

abbrev pub view_snapshot : CandidateSnapshot → View → Bool × View
view_snapshot s v =
    if ltb s.snapshot_seq v.seq
    then (false, v)
    else (true, record { at = λ k. last_with_seq k s.candidates; seq = s.snapshot_seq })

abbrev pub view_pending : Candidate → View → Bool × View
view_pending c v =
    if leb c.tx.seq_num v.seq
    then (false, v)
    else (true, record v { at = λ k. if k == c.tx.seq_num then some c else v.at k })

-- The candidate with the least sequence number, and none only where there is no candidate.
abbrev pub IsLeast : View → Option Candidate → Type 0
IsLeast v none = (k : ℕ) → v.at k ≡ none
IsLeast v (some c) =
    (v.at c.tx.seq_num ≡ some c) × ((k : ℕ) (d : Candidate) → v.at k ≡ some d → c.tx.seq_num ≤ k)

abbrev pub without : Option Candidate → View → View
without none v = v
without (some c) v = record v { at = λ k. if k == c.tx.seq_num then none else v.at k }

abbrev pub cleared : View
cleared = record { at = λ k. none; seq = 0 }

-- The results that these calls may have from a view on.
pub data Allowed : View → List Call → List Result → Type 0 where
  done : {v : View} → Allowed v [] []
  by_snapshot :
      {v : View} {cs : List Call} {rs : List Result} (s : CandidateSnapshot)
      → Allowed (view_snapshot s v).1 cs rs
      → Allowed v (applies_snapshot s ∷ cs) (answers (view_snapshot s v).0 ∷ rs)
  by_pending :
      {v : View} {cs : List Call} {rs : List Result} (c : Candidate)
      → Allowed (view_pending c v).1 cs rs
      → Allowed v (applies_pending c ∷ cs) (answers (view_pending c v).0 ∷ rs)
  by_pop :
      {v : View} {cs : List Call} {rs : List Result} (r : Option Candidate)
      → IsLeast v r
      → Allowed (without r v) cs rs
      → Allowed v (pops ∷ cs) (takes r ∷ rs)
  by_clear :
      {v : View} {cs : List Call} {rs : List Result}
      → Allowed cleared cs rs
      → Allowed v (clears ∷ cs) (returns ∷ rs)

-- The results of the calls on a mempool.
pub results : Mempool → List Call → List Result
results m [] = []
results m (applies_snapshot s ∷ cs) =
    answers (apply_snapshot s m).0 ∷ results (apply_snapshot s m).1 cs
results m (applies_pending c ∷ cs) =
    answers (apply_pending_tx c m).0 ∷ results (apply_pending_tx c m).1 cs
results m (pops ∷ cs) = takes (pop_next_candidate m).0 ∷ results (pop_next_candidate m).1 cs
results m (clears ∷ cs) = returns ∷ results (clear m) cs

record Implements (m : Mempool) (v : View) : Type 0 where
  pub ordered : IsOrdered m
  pub found : (k : ℕ) → find k m.candidates ≡ v.at k
  pub same_seq : m.snapshot_seq ≡ v.seq

module _ (m : Mempool) (v : View) (h : Implements m v) where
  snapshot_answer : (s : CandidateSnapshot) → (apply_snapshot s m).0 ≡ (view_snapshot s v).0
  unfolding apply_snapshot
  snapshot_answer s = ground (arith, h.same_seq)

  snapshot-Implements :
      (s : CandidateSnapshot) → Implements (apply_snapshot s m).1 (view_snapshot s v).1
  unfolding apply_snapshot
  snapshot-Implements s = record {
    ordered = apply_snapshot-IsOrdered s m h.ordered;
    found = λ k.
        ground (arith, h.same_seq, h.found k, find-index_by_seq k [] s.candidates, find-empty k);
    same_seq = ground (arith, h.same_seq);
  }

  pending_answer : (c : Candidate) → (apply_pending_tx c m).0 ≡ (view_pending c v).0
  unfolding apply_pending_tx
  pending_answer c = ground (arith, h.same_seq)

  pending-Implements : (c : Candidate) → Implements (apply_pending_tx c m).1 (view_pending c v).1
  unfolding apply_pending_tx
  pending-Implements c = record {
    ordered = apply_pending_tx-IsOrdered c m h.ordered;
    found = λ k.
        ground (arith, h.same_seq, h.found k, find-insert_or_assign k c.tx.seq_num c m.candidates);
    same_seq = ground (arith, h.same_seq);
  }

module _ (m : Mempool) (v : View) (h : Implements m v) where
  -- From what a pop does to the entries, with its result given.
  popped-IsLeast :
      (r : Option Candidate × Mempool)
      → PopsLeast m.candidates r
      → IsLeast v r.0 × ((k : ℕ) → find k r.1.candidates ≡ (without r.0 v).at k)
  popped-IsLeast (none, m') (before, after) = (
    (λ k. sym (h.found k) ∙ ap (find k) before ∙ find-empty k),
    (λ k. ap (find k) (after ∙ sym before) ∙ h.found k),
  )
  popped-IsLeast (some c, m') (taken, rest, least) = (
    (sym (h.found c.tx.seq_num) ∙ taken, λ k d e. least k d (h.found k ∙ e)),
    (λ k. rest k ∙ ap (λ w. if k == c.tx.seq_num then none else w) (h.found k)),
  )

  without-seq : (r : Option Candidate) → (without r v).seq ≡ v.seq
  without-seq none = refl
  without-seq (some c) = refl

  pop-IsLeast : IsLeast v (pop_next_candidate m).0
  pop-IsLeast =
      (popped-IsLeast (pop_next_candidate m) (pop_next_candidate-PopsLeast m h.ordered).0).0

  pop-Implements : Implements (pop_next_candidate m).1 (without (pop_next_candidate m).0 v)
  pop-Implements =
      let (least, kept) = pop_next_candidate-PopsLeast m h.ordered in
      record {
        ordered = pop_next_candidate-IsOrdered m h.ordered;
        found = (popped-IsLeast (pop_next_candidate m) least).1;
        same_seq = kept ∙ h.same_seq ∙ sym (without-seq (pop_next_candidate m).0);
      }

clear-Implements : (m : Mempool) → Implements (clear m) cleared
unfolding clear
clear-Implements m = record {
  ordered = record { sorted = tt; keyed = tt };
  found = λ k. find-empty k;
  same_seq = refl;
}

results-Allowed :
    (m : Mempool) (v : View) (cs : List Call) → Implements m v → Allowed v cs (results m cs)
unfolding results
results-Allowed m v [] h = done
results-Allowed m v (applies_snapshot s ∷ cs) h = rw (snapshot_answer m v h s) (
    by_snapshot s (
      results-Allowed (apply_snapshot s m).1 (view_snapshot s v).1 cs
        (snapshot-Implements m v h s)))
results-Allowed m v (applies_pending c ∷ cs) h = rw (pending_answer m v h c) (
    by_pending c (
      results-Allowed (apply_pending_tx c m).1 (view_pending c v).1 cs
        (pending-Implements m v h c)))
results-Allowed m v (pops ∷ cs) h = by_pop (pop_next_candidate m).0 (pop-IsLeast m v h) (
    results-Allowed (pop_next_candidate m).1 (without (pop_next_candidate m).0 v) cs
      (pop-Implements m v h))
results-Allowed m v (clears ∷ cs) h =
    by_clear (results-Allowed (clear m) cleared cs (clear-Implements m))

-- Over any calls on a new mempool the results are those of a map from sequence numbers to candidates: a
-- snapshot older than the last one, and a pending candidate that the last snapshot covers, are refused
-- and change nothing; any other snapshot replaces the map by its candidates, the last one at each
-- number; any other pending candidate is put at its number; a pop takes the candidate with the least
-- number, and none only from an empty map; and a clear empties the map and forgets the snapshot.
pub results-empty-Allowed : (cs : List Call) → Allowed cleared cs (results empty cs)
results-empty-Allowed cs = results-Allowed empty cleared cs (record {
  ordered = record { sorted = tt; keyed = tt };
  found = λ k. find-empty k;
  same_seq = refl;
})
