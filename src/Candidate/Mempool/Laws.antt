-- ===== src/Candidate/Mempool/Laws.antt =====
-- The mempool keeps its candidates under their sequence numbers, in order; what each method does to
-- the candidate at a sequence number.
use dex_knight.Prelude.{
  ℕ, ◌≤◌, ◌<◌, ◌≡◌, refl, ◌∙◌, ◌⊎◌, true, false, List, [], ◌∷◌, Option, none, some, arith, ◌==◌,
  if◌then◌else◌,
}
use dex_knight.Common.SortedMap.{SortedMap, insert_or_assign, find}
use dex_knight.Common.SortedMap.Laws.{
  find-le, IsSorted, insert_or_assign-IsSorted, Above-IsSorted, find-insert_or_assign, find-Above,
}
use dex_knight.Candidate.Types.{Candidate, CandidateSnapshot}
use dex_knight.Candidate.Mempool.{
  Mempool, index_by_seq, apply_snapshot, apply_pending_tx, pop_next_candidate,
}

-- Every candidate stands under its own sequence number.
abbrev pub IsKeyed : SortedMap Candidate → Type 0
IsKeyed [] = Unit
IsKeyed ((k, c) ∷ m) = (c.tx.seq_num ≡ k) × IsKeyed m

insert_or_assign-IsKeyed :
    (c : Candidate) (m : SortedMap Candidate)
    → IsKeyed m
    → IsKeyed (insert_or_assign c.tx.seq_num c m)
unfolding insert_or_assign
insert_or_assign-IsKeyed c [] h = (refl, tt)
insert_or_assign-IsKeyed c ((j, d) ∷ m) h = ground (arith, insert_or_assign-IsKeyed c m)

pub record IsOrdered (m : Mempool) : Type 0 where
  pub sorted : IsSorted m.candidates
  pub keyed : IsKeyed m.candidates

index_by_seq-ordered :
    (next : SortedMap Candidate) (cs : List Candidate)
    → IsSorted next
    → IsKeyed next
    → IsSorted (index_by_seq next cs) × IsKeyed (index_by_seq next cs)
unfolding index_by_seq
index_by_seq-ordered next [] s k = (s, k)
index_by_seq-ordered next (c ∷ cs) s k =
    index_by_seq-ordered (insert_or_assign c.tx.seq_num c next) cs
      (insert_or_assign-IsSorted c.tx.seq_num c next s) (insert_or_assign-IsKeyed c next k)

pub apply_snapshot-IsOrdered :
    (s : CandidateSnapshot) (m : Mempool) → IsOrdered m → IsOrdered (apply_snapshot s m).1
unfolding apply_snapshot
apply_snapshot-IsOrdered s m v = ground (arith, index_by_seq-ordered [] s.candidates tt tt)

pub apply_pending_tx-IsOrdered :
    (c : Candidate) (m : Mempool) → IsOrdered m → IsOrdered (apply_pending_tx c m).1
unfolding apply_pending_tx
apply_pending_tx-IsOrdered c m v = ground (
  arith,
  insert_or_assign-IsSorted c.tx.seq_num c m.candidates v.sorted,
  insert_or_assign-IsKeyed c m.candidates v.keyed,
)

tail-ordered :
    (k : ℕ) (c : Candidate) (m : SortedMap Candidate)
    → IsSorted ((k, c) ∷ m)
    → IsKeyed ((k, c) ∷ m)
    → IsSorted m × IsKeyed m
tail-ordered k c m s h = (Above-IsSorted k m s, h.1)

-- The mempool of a list of entries.
abbrev with_entries : SortedMap Candidate → ℕ → Mempool
with_entries entries seq = record { candidates = entries; snapshot_seq = seq }

popped-IsOrdered :
    (entries : SortedMap Candidate) (seq : ℕ)
    → IsOrdered (with_entries entries seq)
    → IsOrdered (pop_next_candidate (with_entries entries seq)).1
unfolding pop_next_candidate
popped-IsOrdered [] seq v = v
popped-IsOrdered ((k, c) ∷ m) seq v =
    let (s, h) = tail-ordered k c m v.sorted v.keyed in record { sorted = s; keyed = h }

pub pop_next_candidate-IsOrdered : (m : Mempool) → IsOrdered m → IsOrdered (pop_next_candidate m).1
pop_next_candidate-IsOrdered m v = popped-IsOrdered m.candidates m.snapshot_seq v

-- The last candidate of a list with a sequence number.
abbrev pub last_with_seq : ℕ → List Candidate → Option Candidate
last_with_seq k [] = none
last_with_seq k (c ∷ cs) = elim (last_with_seq k cs) [
  | some later ↦ some later
  | none ↦ if k == c.tx.seq_num then some c else none
]

abbrev or_else : Option Candidate → Option Candidate → Option Candidate
or_else (some c) d = some c
or_else none d = d

pub find-index_by_seq :
    (k : ℕ) (next : SortedMap Candidate) (cs : List Candidate)
    → find k (index_by_seq next cs) ≡ or_else (last_with_seq k cs) (find k next)
unfolding index_by_seq
find-index_by_seq k next [] = refl
find-index_by_seq k next (c ∷ cs) =
    find-index_by_seq k (insert_or_assign c.tx.seq_num c next) cs
    ∙ ground (arith, find-insert_or_assign k c.tx.seq_num c next)

pub find-empty : (k : ℕ) → find {V = Candidate} k [] ≡ none
unfolding find
find-empty k = refl

-- A snapshot older than the last one changes nothing; any other replaces the candidates: at each
-- sequence number stands the snapshot's last candidate with it.
pub apply_snapshot-find :
    (s : CandidateSnapshot) (m : Mempool) (k : ℕ)
    → let (applied, m') = apply_snapshot s m in
      ((s.snapshot_seq < m.snapshot_seq) × (applied ≡ false) × (m' ≡ m))
      ⊎ ((m.snapshot_seq ≤ s.snapshot_seq)
          × (applied ≡ true)
          × (m'.snapshot_seq ≡ s.snapshot_seq)
          × (find k m'.candidates ≡ last_with_seq k s.candidates))
unfolding apply_snapshot
apply_snapshot-find s m k = ground (arith, find-index_by_seq k [] s.candidates, find-empty k)

-- A pending candidate that the last snapshot covers changes nothing; any other is put at its own
-- sequence number, over what stood there.
pub apply_pending_tx-find :
    (c : Candidate) (m : Mempool) (k : ℕ)
    → let (accepted, m') = apply_pending_tx c m in
      ((c.tx.seq_num ≤ m.snapshot_seq) × (accepted ≡ false) × (m' ≡ m))
      ⊎ ((m.snapshot_seq < c.tx.seq_num)
          × (accepted ≡ true)
          × (m'.snapshot_seq ≡ m.snapshot_seq)
          × (find k m'.candidates ≡ (if k == c.tx.seq_num then some c else find k m.candidates)))
unfolding apply_pending_tx
apply_pending_tx-find c m k = ground (arith, find-insert_or_assign k c.tx.seq_num c m.candidates)

-- What a pop does to the entries: nothing without a candidate; otherwise it takes the candidate with
-- the least sequence number, and leaves those at the other ones.
abbrev pub PopsLeast : SortedMap Candidate → Option Candidate × Mempool → Type 0
PopsLeast entries (none, m') = (entries ≡ []) × (m'.candidates ≡ [])
PopsLeast entries (some c, m') =
    (find c.tx.seq_num entries ≡ some c)
    × ((k : ℕ) → find k m'.candidates ≡ (if k == c.tx.seq_num then none else find k entries))
    × ((k : ℕ) (d : Candidate) → find k entries ≡ some d → c.tx.seq_num ≤ k)

popped-PopsLeast :
    (entries : SortedMap Candidate) (seq : ℕ)
    → IsOrdered (with_entries entries seq)
    → PopsLeast entries (pop_next_candidate (with_entries entries seq))
unfolding pop_next_candidate find
popped-PopsLeast [] seq v = (refl, refl)
popped-PopsLeast ((j, c) ∷ m) seq v = (
  ground (arith, v.keyed),
  (λ k. ground (arith, v.keyed, find-Above j k m)),
  (λ k d h. ground (arith, v.keyed, find-le j k m d)),
)

-- In an ordered mempool `pop_next_candidate` takes the candidate with the least sequence number and
-- leaves those at the other ones; it returns none only from an empty mempool. The sequence number of
-- the last snapshot stays.
pub pop_next_candidate-PopsLeast :
    (m : Mempool)
    → IsOrdered m
    → PopsLeast m.candidates (pop_next_candidate m)
      × ((pop_next_candidate m).1.snapshot_seq ≡ m.snapshot_seq)
pop_next_candidate-PopsLeast m v =
    (popped-PopsLeast m.candidates m.snapshot_seq v, unfold pop_next_candidate in ground arith)
