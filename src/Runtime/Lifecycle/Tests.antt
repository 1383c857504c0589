-- ===== src/Runtime/Lifecycle/Tests.antt =====
-- A signal between two steps of the start, and what comes of one before the start.
use dex_knight.Prelude.{◌≡◌, refl, true, [], ◌∷◌}
use dex_knight.Candidate.Source.{wait_pop_state}
use dex_knight.Candidate.Mempool
use dex_knight.Candidate.State
use dex_knight.Runtime.SignalListener
use dex_knight.Runtime.SignalListener.{ended, SystemCalls}
use dex_knight.Runtime.Lifecycle.{
  waits, head_of, launch, deliver, advance, advances, signals, works, step, run_steps, loop_head,
  set_running, start_io, start_source, stop,
}
use dex_knight.Runtime.Lifecycle.Shutdown.{head_after, deliver-first}

abbrev all_succeed : SystemCalls
all_succeed = record { emptied = true; sigint_added = true; sigterm_added = true; blocked = true }

deliver-first_example :
    let p = run_steps (launch all_succeed).1 (signals 1 ∷ advances ∷ []) in
    let p' = deliver 2 p in
    let last = run_steps p' (advances ∷ signals 15 ∷ works (λ source. source) ∷ advances ∷ []) in
    (head_of (wait_pop_state p'.runtime.source)
      ≡ head_after p.position (head_of (wait_pop_state p.runtime.source)))
    × (loop_head last.runtime
        ≡ head_after p.position (head_of (wait_pop_state last.runtime.source)))
    × (last.listener.thread ≡ ended)
    × (last.listener.mask_installed ≡ true)
unfolding launch run_steps step advance deliver set_running start_io start_source stop
    SignalListener.start SignalListener.initialize_signal_set SignalListener.block_signals
    SignalListener.receive
deliver-first_example =
    deliver-first all_succeed (signals 1 ∷ advances ∷ [])
      (advances ∷ signals 15 ∷ works (λ source. source) ∷ advances ∷ []) 2 refl (refl, (tt, tt))
      refl refl

-- A signal before the start, and a second one in the loop: the loop waits.
lost_signal :
    let p =
      run_steps
        (deliver 2 (launch all_succeed).1)
        (advances ∷ advances ∷ advances ∷ signals 15 ∷ []) in
    loop_head p.runtime ≡ waits
unfolding launch run_steps step advance deliver set_running start_io start_source stop
    SignalListener.start SignalListener.initialize_signal_set SignalListener.block_signals
    SignalListener.receive loop_head wait_pop_state State.size Mempool.size
lost_signal = refl
