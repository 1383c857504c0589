-- ===== src/Candidate/Source/Told.antt =====
-- Over any calls of the threads, the reserves of a valid state are those that the builder reported for
-- the configured pools at the block of the state.
use dex_knight.Prelude.{
  ℕ, ◌≡◌, refl, sym, subst, ◌∙◌, ap, ◌⊎◌, inl, inr, true, false, Bytes, List, [], ◌∷◌, map, Option,
  none, some, arith, All, All-weaken, Option-cases, Expected, ok, unexpected,
}
use dex_knight.External.{External}
use dex_knight.Common.Queue
use dex_knight.Common.Queue.{Queue}
use dex_knight.Utils.Fields.{parse_to_json_object}
use dex_knight.Evm.Contracts.{Pool}
use dex_knight.Candidate.Types.{PendingTransaction, CandidateSnapshot, PoolSnapshot, StateSnapshot}
use dex_knight.Candidate.State
use dex_knight.Candidate.State.{State}
use dex_knight.Candidate.Filter.{filter_snapshot}
use dex_knight.Builder.Pending.{pending_snapshot_from_json}
use dex_knight.Builder.RestClient
use dex_knight.Builder.RestClient.{Server, Traffic, request_chain_call, request_snapshot}
use dex_knight.Candidate.Source.{
  Source, opened, Event, new_block, pending_transaction, close_state_waiters, stop, popped_state,
  wait_pop_state, mark_state_invalid, apply_state_snapshot, apply_pending_candidate,
  publish_new_block, publish_pending_transaction, handle_pending_tx_event, request_pool_snapshots,
  read_snapshot, handle_new_block_event, handle_event, deliver, core_round,
}
use dex_knight.Candidate.Source.Threads.{
  Call, publishes_new_block, publishes_pending_transaction, rounds, waits, stops, after_wait,
  after_round, step, run, run-opened-IsConsistent,
}
use dex_knight.Candidate.Source.Waiters.{wait_pop_state-Answers}
use dex_knight.Candidate.Source.Reserves.{IsRead, request_pool_snapshots-IsRead}

module _ (x : External) (pools : List Pool) where
  -- What a call reports of a pool at a block.
  abbrev pub Tells : Call x pools → ℕ → PoolSnapshot → Type 0
  Tells (publishes_new_block b) block snapshot = ⊥
  Tells (publishes_pending_transaction published) block snapshot = ⊥
  Tells (rounds server t) block snapshot = IsRead x server block snapshot
  Tells waits block snapshot = ⊥
  Tells stops block snapshot = ⊥

  abbrev pub IsTold : List (Call x pools) → ℕ → PoolSnapshot → Type 0
  IsTold [] block snapshot = ⊥
  IsTold (c ∷ cs) block snapshot = Tells c block snapshot ⊎ IsTold cs block snapshot

  -- The snapshots are of these pools, in their order, and each has the property at the block.
  abbrev pub AreAt : (ℕ → PoolSnapshot → Type 0) → Option ℕ → List PoolSnapshot → Type 0
  AreAt Q block_number snapshots =
      (block : ℕ) × (block_number ≡ some block)
      × (map (λ s. s.pool) snapshots ≡ pools)
      × All (Q block) snapshots

  module _ (Q : ℕ → PoolSnapshot → Type 0) where
    record HasReserves (s : Source) : Type 0 where
      pub reserves : s.state.valid ≡ true → AreAt Q s.state.block_number s.state.pools

    mark_state_invalid-HasReserves :
        (b : ℕ) (s : Source) → HasReserves s → HasReserves (mark_state_invalid b s).1
    unfolding mark_state_invalid State.mark_invalid
    mark_state_invalid-HasReserves b s v = ground arith

    apply_state_snapshot-HasReserves :
        (c : CandidateSnapshot) (snapshots : List PoolSnapshot) (s : Source)
        → AreAt Q (some c.block_number) snapshots
        → HasReserves s
        → HasReserves (apply_state_snapshot c snapshots s).1
    unfolding apply_state_snapshot State.apply_snapshot
    apply_state_snapshot-HasReserves c snapshots s h v = ground arith

    handle_pending_tx_event-HasReserves :
        (tx : PendingTransaction) (s : Source)
        → HasReserves s
        → HasReserves (handle_pending_tx_event pools tx s)
    unfolding handle_pending_tx_event apply_pending_candidate State.apply_pending_tx
    handle_pending_tx_event-HasReserves tx s v = ground arith

    wait_pop_state-HasReserves :
        (s : Source) → HasReserves s → HasReserves (after_wait s (wait_pop_state s))
    unfolding wait_pop_state popped_state State.pop_next_snapshot State.popped
    wait_pop_state-HasReserves s v = ground arith

    same_state-HasReserves : (s s' : Source) → s'.state ≡ s.state → HasReserves s → HasReserves s'
    same_state-HasReserves s s' e v = ground (arith, v.reserves)

    read_snapshot-block_number :
        (server : Server) (w : Expected Bytes RestClient.Error) (b : ℕ)
        (candidates : CandidateSnapshot)
        → read_snapshot x server pools b w ≡ some candidates
        → candidates.block_number ≡ b
    unfolding read_snapshot filter_snapshot pending_snapshot_from_json
    read_snapshot-block_number server (unexpected error) b candidates e = cc
    read_snapshot-block_number server (ok raw) b candidates e =
        elim (Option-cases (parse_to_json_object x raw)) [
          | inl no_json ↦ absurd (ground arith)
          | inr (json, parsed) ↦ ground arith
        ]

    handle_new_block_event-HasReserves :
        (server : Server) (b : ℕ) (s : Source) (t : Traffic)
        → ((block : ℕ) (snapshot : PoolSnapshot)
            → IsRead x server block snapshot
            → Q block snapshot)
        → HasReserves s
        → HasReserves (handle_new_block_event x server pools b (s, t)).0
    unfolding handle_new_block_event
    handle_new_block_event-HasReserves server b s t h v =
        let asked = request_pool_snapshots x server b pools t in
        let w = (request_snapshot server asked.1).0 in
        elim (Option-cases asked.0) [
          | inl unread ↦ ground (arith, mark_state_invalid-HasReserves b s v)
          | inr (snapshots, e) ↦ elim (Option-cases (read_snapshot x server pools b w)) [
            | inl unread ↦ ground (arith, mark_state_invalid-HasReserves b s v)
            | inr (candidates, f) ↦
                let told = request_pool_snapshots-IsRead x server b pools t snapshots e in
                ground (
                  arith,
                  apply_state_snapshot-HasReserves candidates snapshots s
                      (
                        b,
                        ap some (read_snapshot-block_number server w b candidates f),
                        told.0,
                        All-weaken snapshots (h b) told.1,
                      )
                      v,
                )
          ]
        ]

    handle_event-HasReserves :
        (server : Server) (e : Event) (s : Source) (t : Traffic)
        → ((block : ℕ) (snapshot : PoolSnapshot)
            → IsRead x server block snapshot
            → Q block snapshot)
        → HasReserves s
        → HasReserves (handle_event x server pools e (s, t)).0
    unfolding handle_event
    handle_event-HasReserves server (new_block b) s t h v =
        handle_new_block_event-HasReserves server b s t h v
    handle_event-HasReserves server (pending_transaction tx) s t h v =
        handle_pending_tx_event-HasReserves tx s v

    deliver-HasReserves :
        (server : Server) (s : Source) (t : Traffic) (w : Option (Option Event × Queue Event))
        → ((block : ℕ) (snapshot : PoolSnapshot)
            → IsRead x server block snapshot
            → Q block snapshot)
        → HasReserves s
        → HasReserves (after_round x pools s (deliver x server pools (s, t) w))
    unfolding after_round deliver
    deliver-HasReserves server s t none h v = v
    deliver-HasReserves server s t (some (none, queue)) h v = v
    deliver-HasReserves server s t (some (some event, queue)) h v =
        handle_event-HasReserves server event (record s { pending_queue = queue }) t h
          (same_state-HasReserves s _ refl v)

    step-HasReserves :
        (s : Source) (c : Call x pools)
        → ((block : ℕ) (snapshot : PoolSnapshot) → Tells c block snapshot → Q block snapshot)
        → HasReserves s
        → HasReserves (step x pools s c)
    unfolding step core_round publish_new_block publish_pending_transaction stop close_state_waiters
    step-HasReserves s (publishes_new_block b) h v = same_state-HasReserves s _ refl v
    step-HasReserves s (publishes_pending_transaction tx) h v = same_state-HasReserves s _ refl v
    step-HasReserves s (rounds server t) h v =
        deliver-HasReserves server s t (Queue.wait_pop s.pending_queue) h v
    step-HasReserves s waits h v = wait_pop_state-HasReserves s v
    step-HasReserves s stops h v = same_state-HasReserves s _ refl v

    run-HasReserves :
        (s : Source) (cs : List (Call x pools))
        → ((block : ℕ) (snapshot : PoolSnapshot) → IsTold cs block snapshot → Q block snapshot)
        → HasReserves s
        → HasReserves (run x pools s cs)
    unfolding run
    run-HasReserves s [] h v = v
    run-HasReserves s (c ∷ cs) h v =
        run-HasReserves (step x pools s c) cs (λ b p told. h b p (inr told))
          (step-HasReserves s c (λ b p told. h b p (inl told)) v)

  -- After any calls of the threads on a new source, what `wait_pop_state` returns is invalid, or it has
  -- the reserves of exactly the configured pools, in their order, and the builder answered a round with
  -- each of them, asked for the block of the state.
  pub wait_pop_state-AreAt :
      (cs : List (Call x pools)) (r : StateSnapshot) (s' : Source)
      → wait_pop_state (run x pools opened cs) ≡ some (ok r, s')
      → (r.valid ≡ false) ⊎ AreAt (IsTold cs) r.block_number r.pools
  wait_pop_state-AreAt cs r s' e =
      let s = run x pools opened cs in
      let v =
        run-HasReserves (IsTold cs) opened cs (λ b p told. told)
          (record { reserves = λ is_valid. cc is_valid }) in
      let answers = wait_pop_state-Answers s (ok r, s') (run-opened-IsConsistent x pools cs) e in
      elim (answers.2) [
        | inl invalid ↦ inl invalid.1
        | inr (pending, pops) ↦
            let v' : HasReserves (IsTold cs) s' =
              subst (λ w. HasReserves (IsTold cs) (after_wait s w)) e
                (wait_pop_state-HasReserves (IsTold cs) s v) in
            inr (
              subst (λ l. AreAt (IsTold cs) r.block_number l) (pops.3 ∙ sym pops.2)
                (subst (λ n. AreAt (IsTold cs) n s'.state.pools) (pops.5 ∙ sym pops.1)
                  (v'.reserves pops.4)))
      ]
