-- ===== src/Candidate/Source/Stopped.antt =====
-- What the core loop does once the source was stopped.
use dex_knight.Prelude.{
  ℕ, zero, suc, ◌<◌, ◌≡◌, refl, ap, ◌∙◌, true, List, [], ◌∷◌, some, arith, length,
}
use dex_knight.External.{External}
use dex_knight.Common.Queue
use dex_knight.Common.Queue.{Queue}
use dex_knight.Evm.Contracts.{Pool}
use dex_knight.Candidate.Source.{
  Source, Event, new_block, pending_transaction, stop, mark_state_invalid, apply_state_snapshot,
  apply_pending_candidate, handle_pending_tx_event, handle_new_block_event, handle_event,
  run_core_loop,
}
use dex_knight.Builder.RestClient.{Server, Traffic}

-- A stopped source, with these events left.
abbrev stopped_with : List Event → Source → Source
stopped_with items s = record s {
  pending_queue = record { items = items; closed = true };
  is_closed = true;
}

module _ (x : External) (server : Server) (pools : List Pool) where
  -- A closed source makes its requests, and keeps its state.
  handle_event-closed :
      (e : Event) (s : Source) (t : Traffic)
      → s.is_closed ≡ true
      → (handle_event x server pools e (s, t)).0 ≡ s
  unfolding handle_event handle_new_block_event handle_pending_tx_event mark_state_invalid
      apply_state_snapshot apply_pending_candidate
  handle_event-closed (new_block b) s t closed = ground arith
  handle_event-closed (pending_transaction tx) s t closed = ground arith

  run_core_loop-stopped_with :
      (items : List Event) (fuel : ℕ) (s : Source) (t : Traffic)
      → length items < fuel
      → (t' : Traffic) × (run_core_loop x server fuel pools (stopped_with items s, t)
          ≡ some (stopped_with [] s, t'))
  unfolding run_core_loop Queue.wait_pop
  run_core_loop-stopped_with items zero s t enough = absurd (omega arith)
  run_core_loop-stopped_with [] (suc fuel) s t enough = (t, refl)
  run_core_loop-stopped_with (e ∷ items) (suc fuel) s t enough =
      let handled = handle_event x server pools e (stopped_with items s, t) in
      let kept = handle_event-closed e (stopped_with items s) t refl in
      let (t', ends) = run_core_loop-stopped_with items fuel s handled.1 (omega arith) in
      (t', ap (λ c. run_core_loop x server fuel pools (c, handled.1)) kept ∙ ends)

  -- The core loop of a source that was stopped returns, in one round more than events were left in the
  -- queue. It leaves an empty, closed queue and a closed source, whose state it has not changed.
  pub run_core_loop-stop :
      (s : Source) (t : Traffic) (fuel : ℕ)
      → length s.pending_queue.items < fuel
      → (t' : Traffic) × (run_core_loop x server fuel pools (stop s, t)
          ≡ some (
            record s { pending_queue = record { items = []; closed = true }; is_closed = true },
            t',
          ))
  unfolding stop Queue.close
  run_core_loop-stop s t fuel enough =
      run_core_loop-stopped_with s.pending_queue.items fuel s t enough
