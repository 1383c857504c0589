-- ===== src/Candidate/Source/Threads.antt =====
-- The source under the calls of its threads, in any order and with any answers of the builder.
use dex_knight.Prelude.{
  ℕ, ◌≡◌, refl, true, false, List, [], ◌∷◌, Option, none, some, arith, inl, inr, Option-cases,
  Expected,
}
use dex_knight.External.{External}
use dex_knight.Common.Queue
use dex_knight.Common.Queue.{Queue}
use dex_knight.Evm.Contracts.{Pool}
use dex_knight.Candidate.Types.{
  PendingTransaction, Candidate, CandidateSnapshot, PoolSnapshot, StateSnapshot,
}
use dex_knight.Candidate.State
use dex_knight.Candidate.State.{State}
use dex_knight.Candidate.State.Coherent.{
  IsCoherent, initial-IsCoherent, apply_snapshot-IsCoherent, apply_pending_tx-IsCoherent,
  mark_invalid-IsCoherent, pop_next_snapshot-IsCoherent,
}
use dex_knight.Candidate.Filter.{filter}
use dex_knight.Builder.RestClient.{Server, Traffic}
use dex_knight.Candidate.Source.{
  Source, opened, Event, new_block, pending_transaction, Error, close_state_waiters, stop,
  popped_state, wait_pop_state, mark_state_invalid, apply_state_snapshot, apply_pending_candidate,
  publish_new_block, publish_pending_transaction, handle_pending_tx_event, handle_new_block_event,
  handle_event, deliver, core_round,
}

-- The state is coherent, and it is invalid while an invalid snapshot is to be delivered.
pub record IsConsistent (s : Source) : Type 0 where
  pub coherent : IsCoherent s.state
  pub pending_invalid : s.invalid_snapshot_pending ≡ true → s.state.valid ≡ false

opened-IsConsistent : IsConsistent opened
opened-IsConsistent = record { coherent = initial-IsCoherent; pending_invalid = λ e. refl }

mark_state_invalid-IsConsistent :
    (b : ℕ) (s : Source) → IsConsistent s → IsConsistent (mark_state_invalid b s).1
unfolding mark_state_invalid State.mark_invalid
mark_state_invalid-IsConsistent b s v = ground (arith, mark_invalid-IsCoherent b s.state v.coherent)

apply_state_snapshot-IsConsistent :
    (c : CandidateSnapshot) (pools : List PoolSnapshot) (s : Source)
    → IsConsistent s
    → IsConsistent (apply_state_snapshot c pools s).1
unfolding apply_state_snapshot State.apply_snapshot
apply_state_snapshot-IsConsistent c pools s v =
    ground (arith, apply_snapshot-IsCoherent c pools s.state v.coherent)

apply_pending_candidate-IsConsistent :
    (c : Candidate) (s : Source) → IsConsistent s → IsConsistent (apply_pending_candidate c s).1
unfolding apply_pending_candidate State.apply_pending_tx
apply_pending_candidate-IsConsistent c s v =
    ground (arith, apply_pending_tx-IsCoherent c s.state v.coherent)

abbrev pub after_wait : Source → Option (Expected StateSnapshot Error × Source) → Source
after_wait s none = s
after_wait s (some (r, s')) = s'

wait_pop_state-IsConsistent :
    (s : Source) → IsConsistent s → IsConsistent (after_wait s (wait_pop_state s))
unfolding wait_pop_state popped_state State.pop_next_snapshot State.popped
wait_pop_state-IsConsistent s v = ground (arith, pop_next_snapshot-IsCoherent s.state v.coherent)

same_state-IsConsistent :
    (s s' : Source)
    → s'.state ≡ s.state
    → s'.invalid_snapshot_pending ≡ s.invalid_snapshot_pending
    → IsConsistent s
    → IsConsistent s'
same_state-IsConsistent s s' e f v = ground (arith, v.coherent, v.pending_invalid)

handle_pending_tx_event-IsConsistent :
    (pools : List Pool) (tx : PendingTransaction) (s : Source)
    → IsConsistent s
    → IsConsistent (handle_pending_tx_event pools tx s)
unfolding handle_pending_tx_event
handle_pending_tx_event-IsConsistent pools tx s v = elim (Option-cases (filter pools tx)) [
  | inl e ↦ rw (e, handle_pending_tx_event) v
  | inr (c, e) ↦ rw (e, handle_pending_tx_event) (apply_pending_candidate-IsConsistent c s v)
]

module _ (x : External) (pools : List Pool) where
  -- A call of one of the threads. The server and its traffic may differ from round to round.
  pub data Call : Type 0 where
    publishes_new_block : ℕ → Call
    publishes_pending_transaction : PendingTransaction → Call
    rounds : Server → Traffic → Call
    waits : Call
    stops : Call

  unfoldable pub after_round : Source → Option (Source × Traffic) → Source
  after_round s none = s
  after_round s (some (s', t)) = s'

  -- A call that blocks leaves the source as it is.
  unfoldable pub step : Source → Call → Source
  unfolding after_round
  step s (publishes_new_block b) = publish_new_block b s
  step s (publishes_pending_transaction tx) = publish_pending_transaction tx s
  step s (rounds server t) = after_round s (core_round x server pools (s, t))
  step s waits = after_wait s (wait_pop_state s)
  step s stops = stop s

  unfoldable pub run : Source → List Call → Source
  run s [] = s
  run s (c ∷ cs) = run (step s c) cs

  handle_new_block_event-IsConsistent :
      (server : Server) (b : ℕ) (s : Source) (t : Traffic)
      → IsConsistent s
      → IsConsistent (handle_new_block_event x server pools b (s, t)).0
  unfolding handle_new_block_event
  handle_new_block_event-IsConsistent server b s t v =
      grind (arith, mark_state_invalid-IsConsistent, apply_state_snapshot-IsConsistent)

  handle_event-IsConsistent :
      (server : Server) (e : Event) (s : Source) (t : Traffic)
      → IsConsistent s
      → IsConsistent (handle_event x server pools e (s, t)).0
  unfolding handle_event
  handle_event-IsConsistent server (new_block b) s t v =
      handle_new_block_event-IsConsistent server b s t v
  handle_event-IsConsistent server (pending_transaction tx) s t v =
      handle_pending_tx_event-IsConsistent pools tx s v

  deliver-IsConsistent :
      (server : Server) (s : Source) (t : Traffic) (w : Option (Option Event × Queue Event))
      → IsConsistent s
      → IsConsistent (after_round s (deliver x server pools (s, t) w))
  unfolding after_round deliver
  deliver-IsConsistent server s t none v = v
  deliver-IsConsistent server s t (some (none, queue)) v = v
  deliver-IsConsistent server s t (some (some event, queue)) v =
      handle_event-IsConsistent server event (record s { pending_queue = queue }) t
        (same_state-IsConsistent s _ refl refl v)

  step-IsConsistent : (s : Source) (c : Call) → IsConsistent s → IsConsistent (step s c)
  unfolding step core_round publish_new_block publish_pending_transaction stop close_state_waiters
  step-IsConsistent s (publishes_new_block b) v = same_state-IsConsistent s _ refl refl v
  step-IsConsistent s (publishes_pending_transaction tx) v = same_state-IsConsistent s _ refl refl v
  step-IsConsistent s (rounds server t) v =
      deliver-IsConsistent server s t (Queue.wait_pop s.pending_queue) v
  step-IsConsistent s waits v = wait_pop_state-IsConsistent s v
  step-IsConsistent s stops v = same_state-IsConsistent s _ refl refl v

  run-IsConsistent : (s : Source) (cs : List Call) → IsConsistent s → IsConsistent (run s cs)
  unfolding run
  run-IsConsistent s [] v = v
  run-IsConsistent s (c ∷ cs) v = run-IsConsistent (step s c) cs (step-IsConsistent s c v)

  -- After any calls of the threads on a new source, in any order and with any answers of the builder:
  -- the state is coherent, and it is invalid while an invalid snapshot is to be delivered.
  pub run-opened-IsConsistent : (cs : List Call) → IsConsistent (run opened cs)
  run-opened-IsConsistent cs = run-IsConsistent opened cs opened-IsConsistent
