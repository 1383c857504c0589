-- ===== src/Candidate/Source/Reported.antt =====
-- Over any calls of the threads, the source holds only what the builder reported.
use dex_knight.Prelude.{
  ℕ, ◌≡◌, refl, subst, Bytes, ◌⊎◌, inl, inr, List, [], ◌∷◌, none, some, arith, All, Option-cases,
  Expected, ok, unexpected,
}
use dex_knight.External.{External}
use dex_knight.Common.Queue
use dex_knight.Common.Queue.{Queue}
use dex_knight.Utils.Fields.{parse_to_json_object}
use dex_knight.Evm.Contracts.{Pool}
use dex_knight.Candidate.Types.{
  PendingTransaction, PendingSnapshot, Candidate, CandidateSnapshot, StateSnapshot,
}
use dex_knight.Candidate.Mempool
use dex_knight.Candidate.State
use dex_knight.Candidate.State.{State}
use dex_knight.Candidate.Filter.{filter_snapshot}
use dex_knight.Candidate.Filter.Accepted.{IsAccepted}
use dex_knight.Builder.Pending.{pending_snapshot_from_json}
use dex_knight.Builder.RestClient
use dex_knight.Builder.RestClient.{Server, Traffic, request_snapshot}
use dex_knight.Candidate.Source.{
  Source, opened, Event, new_block, pending_transaction, close_state_waiters, stop, popped_state,
  wait_pop_state, publish_new_block, publish_pending_transaction, read_snapshot,
  request_pool_snapshots, handle_new_block_event, handle_event, deliver, core_round,
}
use dex_knight.Candidate.Source.Threads.{
  Call, publishes_new_block, publishes_pending_transaction, rounds, waits, stops, after_wait,
  after_round, step, run, run-opened-IsConsistent,
}
use dex_knight.Candidate.Source.Waiters.{wait_pop_state-Answers}
use dex_knight.Candidate.Source.Origin.{
  All-Lists, find-AllValues, IsListed, IsKnown, EventIsKnown, HasOrigin, accepted-IsKnown,
  mark_state_invalid-HasOrigin, apply_state_snapshot-HasOrigin, handle_pending_tx_event-HasOrigin,
  publish-HasOrigin,
}

module _ (x : External) (pools : List Pool) where
  -- What a call reports: the transaction that the feed published, or one of a snapshot of the builder.
  abbrev pub Reports : Call x pools → PendingTransaction → Type 0
  Reports (publishes_new_block b) tx = ⊥
  Reports (publishes_pending_transaction published) tx = published ≡ tx
  Reports (rounds server t) tx = IsListed x server tx
  Reports waits tx = ⊥
  Reports stops tx = ⊥

  abbrev pub IsReported : List (Call x pools) → PendingTransaction → Type 0
  IsReported [] tx = ⊥
  IsReported (c ∷ cs) tx = Reports c tx ⊎ IsReported cs tx

  module _ (P : PendingTransaction → Type 0) where
    wait_pop_state-HasOrigin :
        (s : Source) → HasOrigin pools P s → HasOrigin pools P (after_wait s (wait_pop_state s))
    unfolding wait_pop_state popped_state State.pop_next_snapshot State.popped
        Mempool.pop_next_candidate
    wait_pop_state-HasOrigin s v = ground arith

    filtered-IsKnown :
        (server : Server) (t : Traffic) (raw : Bytes) (json : x.Object) (b : ℕ)
        (snapshot : PendingSnapshot)
        → ((tx : PendingTransaction) → IsListed x server tx → P tx)
        → (request_snapshot server t).0 ≡ ok raw
        → parse_to_json_object x raw ≡ some json
        → pending_snapshot_from_json x json b ≡ some snapshot
        → All (IsKnown pools P) (filter_snapshot pools snapshot).candidates
    unfolding filter_snapshot
    filtered-IsKnown server t raw json b snapshot h answered parsed read =
        accepted-IsKnown pools P snapshot.transactions (
          All-Lists P snapshot.transactions (λ tx listed. h tx (record {
            traffic = t;
            raw = raw;
            json = json;
            block_number = b;
            snapshot = snapshot;
            answered = answered;
            parsed = parsed;
            read = read;
            listed = listed;
          })))

    read_snapshot-IsKnown :
        (server : Server) (t : Traffic) (w : Expected Bytes RestClient.Error) (b : ℕ)
        (candidates : CandidateSnapshot)
        → ((tx : PendingTransaction) → IsListed x server tx → P tx)
        → (request_snapshot server t).0 ≡ w
        → read_snapshot x server pools b w ≡ some candidates
        → All (IsKnown pools P) candidates.candidates
    unfolding read_snapshot
    read_snapshot-IsKnown server t (unexpected error) b candidates h answered e = cc
    read_snapshot-IsKnown server t (ok raw) b candidates h answered e =
        elim (Option-cases (parse_to_json_object x raw)) [
          | inl no_json ↦ absurd (ground arith)
          | inr (json, parsed) ↦ elim (Option-cases (pending_snapshot_from_json x json b)) [
            | inl unread ↦ absurd (ground arith)
            | inr (snapshot, read) ↦
                let same : filter_snapshot pools snapshot ≡ candidates = ground arith in
                subst (λ c. All (IsKnown pools P) c.candidates) same
                  (filtered-IsKnown server t raw json b snapshot h answered parsed read)
          ]
        ]

    handle_new_block_event-HasOrigin :
        (server : Server) (b : ℕ) (s : Source) (t : Traffic)
        → ((tx : PendingTransaction) → IsListed x server tx → P tx)
        → HasOrigin pools P s
        → HasOrigin pools P (handle_new_block_event x server pools b (s, t)).0
    unfolding handle_new_block_event
    handle_new_block_event-HasOrigin server b s t h v =
        let (reserves, t1) = request_pool_snapshots x server b pools t in
        let w = (request_snapshot server t1).0 in
        elim (Option-cases reserves) [
          | inl unread ↦ ground (arith, mark_state_invalid-HasOrigin pools P b s v)
          | inr (read, e) ↦ elim (Option-cases (read_snapshot x server pools b w)) [
            | inl unread ↦ ground (arith, mark_state_invalid-HasOrigin pools P b s v)
            | inr (candidates, f) ↦ ground (
              arith,
              apply_state_snapshot-HasOrigin pools P candidates read s
                  (read_snapshot-IsKnown server t1 w b candidates h refl f) v,
            )
          ]
        ]

    handle_event-HasOrigin :
        (server : Server) (e : Event) (s : Source) (t : Traffic)
        → ((tx : PendingTransaction) → IsListed x server tx → P tx)
        → EventIsKnown pools P e
        → HasOrigin pools P s
        → HasOrigin pools P (handle_event x server pools e (s, t)).0
    unfolding handle_event
    handle_event-HasOrigin server (new_block b) s t h k v =
        handle_new_block_event-HasOrigin server b s t h v
    handle_event-HasOrigin server (pending_transaction tx) s t h k v =
        handle_pending_tx_event-HasOrigin pools P tx s k v

    -- A round takes the first event of the queue.
    deliver-HasOrigin :
        (server : Server) (items : List Event) (s : Source) (t : Traffic)
        → ((tx : PendingTransaction) → IsListed x server tx → P tx)
        → s.pending_queue.items ≡ items
        → HasOrigin pools P s
        → HasOrigin pools P (after_round x pools s (core_round x server pools (s, t)))
    unfolding after_round core_round deliver Queue.wait_pop
    deliver-HasOrigin server [] s t h e v = ground arith
    deliver-HasOrigin server (event ∷ items) s t h e v =
        let known = subst (All (EventIsKnown pools P)) e v.queued in
        rw (e, Queue.wait_pop)
          (handle_event-HasOrigin server event
            (record s { pending_queue = record s.pending_queue { items = items } }) t h known.0
            (record { stored = v.stored; queued = known.1 }))

    step-HasOrigin :
        (s : Source) (c : Call x pools)
        → ((tx : PendingTransaction) → Reports c tx → P tx)
        → HasOrigin pools P s
        → HasOrigin pools P (step x pools s c)
    unfolding step publish_new_block publish_pending_transaction stop close_state_waiters
        Queue.close
    step-HasOrigin s (publishes_new_block b) h v = publish-HasOrigin pools P (new_block b) s tt v
    step-HasOrigin s (publishes_pending_transaction tx) h v =
        publish-HasOrigin pools P (pending_transaction tx) s (h tx refl) v
    step-HasOrigin s (rounds server t) h v =
        deliver-HasOrigin server s.pending_queue.items s t h refl v
    step-HasOrigin s waits h v = wait_pop_state-HasOrigin s v
    step-HasOrigin s stops h v = record { stored = v.stored; queued = v.queued }

    run-HasOrigin :
        (s : Source) (cs : List (Call x pools))
        → ((tx : PendingTransaction) → IsReported cs tx → P tx)
        → HasOrigin pools P s
        → HasOrigin pools P (run x pools s cs)
    unfolding run
    run-HasOrigin s [] h v = v
    run-HasOrigin s (c ∷ cs) h v =
        run-HasOrigin (step x pools s c) cs (λ tx r. h tx (inr r))
          (step-HasOrigin s c (λ tx r. h tx (inl r)) v)

  -- After any calls of the threads on a new source, what `wait_pop_state` returns has no candidate, or
  -- the filter made its candidate of a transaction that one of the calls reported: the feed published
  -- it, or the builder listed it in its answer to a round.
  pub wait_pop_state-IsReported :
      (cs : List (Call x pools)) (r : StateSnapshot) (s' : Source)
      → wait_pop_state (run x pools opened cs) ≡ some (ok r, s')
      → (r.candidate ≡ none)
        ⊎ ((c : Candidate) × (r.candidate ≡ some c) × IsReported cs c.tx × IsAccepted pools c.tx c)
  wait_pop_state-IsReported cs r s' e =
      let s = run x pools opened cs in
      let v =
        run-HasOrigin (IsReported cs) opened cs (λ tx reported. reported)
          (record { stored = tt; queued = tt }) in
      let answers = wait_pop_state-Answers s (ok r, s') (run-opened-IsConsistent x pools cs) e in
      elim (answers.2) [
        | inl invalid ↦ inl invalid.2
        | inr (pending, pops) ↦
            let (c, carried, least) = pops.6 in
            let known =
              find-AllValues (IsKnown pools (IsReported cs)) c.tx.seq_num
                s.state.local_mempool.candidates c v.stored least.0 in
            inr (c, carried, known.0, known.1)
      ]
