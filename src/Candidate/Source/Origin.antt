-- ===== src/Candidate/Source/Origin.antt =====
-- Where the candidates of the source come from: what the feed published and what the builder's
-- snapshots listed, through the event queue and the filter.
use dex_knight.Prelude.{
  ℕ, ◌≡◌, refl, sym, subst, ◌⊎◌, inl, inr, Bytes, List, [], ◌∷◌, ◌++◌, some, arith, All,
  Option-cases, ok,
}
use dex_knight.External.{External}
use dex_knight.Common.Queue
use dex_knight.Common.Queue.{Queue}
use dex_knight.Common.SortedMap.{SortedMap, insert_or_assign, find}
use dex_knight.Utils.Fields.{parse_to_json_object}
use dex_knight.Evm.Contracts.{Pool}
use dex_knight.Candidate.Types.{
  PendingTransaction, PendingSnapshot, Candidate, CandidateSnapshot, PoolSnapshot,
}
use dex_knight.Candidate.Mempool
use dex_knight.Candidate.Mempool.{Mempool, index_by_seq}
use dex_knight.Candidate.State
use dex_knight.Candidate.State.{State}
use dex_knight.Candidate.Filter.{filter, accepted}
use dex_knight.Candidate.Filter.Accepted.{IsAccepted, filter-IsAccepted}
use dex_knight.Builder.Pending.{pending_snapshot_from_json}
use dex_knight.Builder.RestClient.{Server, Traffic, request_snapshot}
use dex_knight.Candidate.Source.{
  Source, Event, new_block, pending_transaction, mark_state_invalid, apply_state_snapshot,
  apply_pending_candidate, queue_capacity, handle_pending_tx_event,
}

-- A transaction is an element of a list.
abbrev pub Lists : List PendingTransaction → PendingTransaction → Type 0
Lists [] tx = ⊥
Lists (t ∷ txs) tx = (t ≡ tx) ⊎ Lists txs tx

pub All-Lists :
    (P : PendingTransaction → Type 0) (txs : List PendingTransaction)
    → ((tx : PendingTransaction) → Lists txs tx → P tx)
    → All P txs
All-Lists P [] h = tt
All-Lists P (t ∷ txs) h = (h t (inl refl), All-Lists P txs (λ tx l. h tx (inr l)))

module _ {ℓ} {V : Type ℓ} (Q : V → Type 0) where
  -- Every value of the map satisfies the predicate.
  abbrev pub AllValues : SortedMap V → Type 0
  AllValues [] = Unit
  AllValues ((k, v) ∷ m) = Q v × AllValues m

  insert_or_assign-AllValues :
      (k : ℕ) (v : V) (m : SortedMap V) → Q v → AllValues m → AllValues (insert_or_assign k v m)
  unfolding insert_or_assign
  insert_or_assign-AllValues k v [] q h = (q, tt)
  insert_or_assign-AllValues k v ((j, w) ∷ m) q h =
      ground (arith, insert_or_assign-AllValues k v m q h.1)

  pub find-AllValues : (k : ℕ) (m : SortedMap V) (v : V) → AllValues m → find k m ≡ some v → Q v
  unfolding find
  find-AllValues k [] v h e = cc
  find-AllValues k ((j, w) ∷ m) v h e = ground (arith, find-AllValues k m v h.1)

All-snoc {ℓ} :
    {A : Type ℓ} (Q : A → Type 0) (xs : List A) (a : A) → All Q xs → Q a → All Q (xs ++ a ∷ [])
All-snoc Q [] a h q = (q, tt)
All-snoc Q (x ∷ xs) a h q = (h.0, All-snoc Q xs a h.1 q)

-- The builder's answer to a request for its snapshot lists the transaction.
pub record IsListed (x : External) (server : Server) (tx : PendingTransaction) : Type 0 where
  pub traffic : Traffic
  pub raw : Bytes
  pub json : x.Object
  pub block_number : ℕ
  pub snapshot : PendingSnapshot
  pub answered : (request_snapshot server traffic).0 ≡ ok raw
  pub parsed : parse_to_json_object x raw ≡ some json
  pub read : pending_snapshot_from_json x json block_number ≡ some snapshot
  pub listed : Lists snapshot.transactions tx

module _ (pools : List Pool) (P : PendingTransaction → Type 0) where
  -- A candidate that the filter made of a transaction with the property.
  abbrev pub IsKnown : Candidate → Type 0
  IsKnown c = P c.tx × IsAccepted pools c.tx c

  abbrev pub EventIsKnown : Event → Type 0
  EventIsKnown (new_block b) = Unit
  EventIsKnown (pending_transaction tx) = P tx

  -- Every candidate and every transaction that waits has the property.
  pub record HasOrigin (s : Source) : Type 0 where
    pub stored : AllValues IsKnown s.state.local_mempool.candidates
    pub queued : All EventIsKnown s.pending_queue.items

  filter-IsKnown :
      (tx : PendingTransaction) (c : Candidate) → filter pools tx ≡ some c → P tx → IsKnown c
  filter-IsKnown tx c e p =
      let v = filter-IsAccepted pools tx c e in
      subst (λ t. P t × IsAccepted pools t c) (sym v.same_tx) (p, v)

  pub accepted-IsKnown :
      (txs : List PendingTransaction) → All P txs → All IsKnown (accepted pools txs)
  unfolding accepted
  accepted-IsKnown [] h = tt
  accepted-IsKnown (tx ∷ txs) h = elim (Option-cases (filter pools tx)) [
    | inl none_eq ↦ rw (none_eq, accepted) (accepted-IsKnown txs h.1)
    | inr (c, some_eq) ↦
        rw (some_eq, accepted) (filter-IsKnown tx c some_eq h.0, accepted-IsKnown txs h.1)
  ]

  index_by_seq-IsKnown :
      (next : SortedMap Candidate) (cs : List Candidate)
      → AllValues IsKnown next
      → All IsKnown cs
      → AllValues IsKnown (index_by_seq next cs)
  unfolding index_by_seq
  index_by_seq-IsKnown next [] n h = n
  index_by_seq-IsKnown next (c ∷ cs) n h =
      index_by_seq-IsKnown (insert_or_assign c.tx.seq_num c next) cs
        (insert_or_assign-AllValues IsKnown c.tx.seq_num c next h.0 n) h.1

  pub mark_state_invalid-HasOrigin :
      (b : ℕ) (s : Source) → HasOrigin s → HasOrigin (mark_state_invalid b s).1
  unfolding mark_state_invalid State.mark_invalid Mempool.clear
  mark_state_invalid-HasOrigin b s v = ground arith

  pub apply_state_snapshot-HasOrigin :
      (c : CandidateSnapshot) (reserves : List PoolSnapshot) (s : Source)
      → All IsKnown c.candidates
      → HasOrigin s
      → HasOrigin (apply_state_snapshot c reserves s).1
  unfolding apply_state_snapshot State.apply_snapshot Mempool.apply_snapshot
  apply_state_snapshot-HasOrigin c reserves s h v =
      ground (arith, index_by_seq-IsKnown [] c.candidates tt h)

  apply_pending_candidate-HasOrigin :
      (c : Candidate) (s : Source)
      → IsKnown c
      → HasOrigin s
      → HasOrigin (apply_pending_candidate c s).1
  unfolding apply_pending_candidate State.apply_pending_tx Mempool.apply_pending_tx
  apply_pending_candidate-HasOrigin c s k v = ground (
    arith,
    insert_or_assign-AllValues IsKnown c.tx.seq_num c s.state.local_mempool.candidates k v.stored,
  )

  pub handle_pending_tx_event-HasOrigin :
      (tx : PendingTransaction) (s : Source)
      → P tx
      → HasOrigin s
      → HasOrigin (handle_pending_tx_event pools tx s)
  unfolding handle_pending_tx_event
  handle_pending_tx_event-HasOrigin tx s p v = elim (Option-cases (filter pools tx)) [
    | inl e ↦ rw (e, handle_pending_tx_event) v
    | inr (c, e) ↦
        rw (e, handle_pending_tx_event)
          (apply_pending_candidate-HasOrigin c s (filter-IsKnown tx c e p) v)
  ]

  pub publish-HasOrigin :
      (event : Event) (s : Source)
      → EventIsKnown event
      → HasOrigin s
      → HasOrigin
          (record s { pending_queue = (Queue.try_push queue_capacity event s.pending_queue).1 })
  unfolding Queue.try_push
  publish-HasOrigin event s k v =
      ground (arith, All-snoc EventIsKnown s.pending_queue.items event v.queued k)
