-- ===== src/Runtime/Lifecycle/Shutdown.antt =====
-- The first signal to the process.
use dex_knight.Prelude.{
  ℕ, ◌≡◌, inl, inr, Bool, true, false, not, arith, List, [], ◌∷◌, All, if◌then◌else◌, Bool-cases,
}
use dex_knight.Candidate.Source
use dex_knight.Candidate.Source.{wait_pop_state}
use dex_knight.Runtime.SignalListener
use dex_knight.Runtime.SignalListener.{waiting, ended, SystemCalls, is_shutdown_signal}
use dex_knight.Runtime.Lifecycle.{
  Position, launched, looping, Process, Head, ends, head_of, launch, deliver, advance, Step,
  advances, signals, works, step, run_steps, loop_head, stop, set_running, start_io, start_source,
}

abbrev pub is_launched : Position → Bool
is_launched launched = true
is_launched _ = false

-- No signal of the set that the listener waits for.
abbrev pub IsQuiet : Step → Type 0
IsQuiet advances = Unit
IsQuiet (signals signal) = is_shutdown_signal signal ≡ false
IsQuiet (works work) = Unit

-- Before the signal: the listener waits, and `run` has set its flag unless it was not called.
record IsListening (p : Process) : Type 0 where
  listens : p.listener.thread ≡ waiting
  handles : p.listener.has_handler ≡ true
  unasked : p.listener.stop_requested ≡ false
  masked : p.listener.mask_installed ≡ true
  flag : p.runtime.running ≡ not (is_launched p.position)

-- Behind a signal that came before the flag was set, and behind one that came later.
record IsDeaf (p : Process) : Type 0 where
  returned : p.listener.thread ≡ ended
  masked : p.listener.mask_installed ≡ true
  flag : p.runtime.running ≡ not (is_launched p.position)

record IsStopped (p : Process) : Type 0 where
  returned : p.listener.thread ≡ ended
  masked : p.listener.mask_installed ≡ true
  flag : p.runtime.running ≡ false
  entered : is_launched p.position ≡ false

launch-IsListening : (calls : SystemCalls) → (launch calls).0 ≡ true → IsListening (launch calls).1
unfolding launch SignalListener.start SignalListener.initialize_signal_set
    SignalListener.block_signals
launch-IsListening calls h = ground arith

step-IsListening : (p : Process) (s : Step) → IsQuiet s → IsListening p → IsListening (step p s)
unfolding step advance deliver SignalListener.receive set_running start_io start_source
step-IsListening p advances q v = ground arith
step-IsListening p (signals signal) q v = ground arith
step-IsListening p (works work) q v = ground arith

step-IsDeaf : (p : Process) (s : Step) → IsDeaf p → IsDeaf (step p s)
unfolding step advance deliver SignalListener.receive set_running start_io start_source
step-IsDeaf p advances v = ground arith
step-IsDeaf p (signals signal) v = ground arith
step-IsDeaf p (works work) v = ground arith

step-IsStopped : (p : Process) (s : Step) → IsStopped p → IsStopped (step p s)
unfolding step advance deliver SignalListener.receive set_running start_io start_source
step-IsStopped p advances v = ground arith
step-IsStopped p (signals signal) v = ground arith
step-IsStopped p (works work) v = ground arith

run_steps-IsListening :
    (p : Process) (steps : List Step)
    → All IsQuiet steps
    → IsListening p
    → IsListening (run_steps p steps)
unfolding run_steps
run_steps-IsListening p [] q v = v
run_steps-IsListening p (s ∷ steps) (q, qs) v =
    run_steps-IsListening (step p s) steps qs (step-IsListening p s q v)

run_steps-IsDeaf : (p : Process) (steps : List Step) → IsDeaf p → IsDeaf (run_steps p steps)
unfolding run_steps
run_steps-IsDeaf p [] v = v
run_steps-IsDeaf p (s ∷ steps) v = run_steps-IsDeaf (step p s) steps (step-IsDeaf p s v)

run_steps-IsStopped :
    (p : Process) (steps : List Step) → IsStopped p → IsStopped (run_steps p steps)
unfolding run_steps
run_steps-IsStopped p [] v = v
run_steps-IsStopped p (s ∷ steps) v = run_steps-IsStopped (step p s) steps (step-IsStopped p s v)

module _ (signal : ℕ) (p : Process) (shuts_down : is_shutdown_signal signal ≡ true)
    (v : IsListening p) where
  deliver-IsDeaf : is_launched p.position ≡ true → IsDeaf (deliver signal p)
  unfolding deliver SignalListener.receive stop
  deliver-IsDeaf e = ground arith

  deliver-IsStopped : is_launched p.position ≡ false → IsStopped (deliver signal p)
  unfolding deliver SignalListener.receive stop
  deliver-IsStopped e = ground arith

  -- A loop that waits for a state when the signal comes.
  deliver-head_of :
      head_of (wait_pop_state (deliver signal p).runtime.source)
      ≡ (if is_launched p.position then head_of (wait_pop_state p.runtime.source) else ends)
  unfolding deliver SignalListener.receive stop Source.stop wait_pop_state
  deliver-head_of = ground arith

loop_head-IsDeaf :
    (p : Process)
    → IsDeaf p
    → p.position ≡ looping
    → loop_head p.runtime ≡ head_of (wait_pop_state p.runtime.source)
unfolding loop_head
loop_head-IsDeaf p v e = ground arith

loop_head-IsStopped : (p : Process) → IsStopped p → loop_head p.runtime ≡ ends
unfolding loop_head
loop_head-IsStopped p v = ground arith

-- What a signal leads to, by the position of `main` when it came.
abbrev pub head_after : Position → Head → Head
head_after position head = if is_launched position then head else ends

module _ (signal : ℕ) (p : Process) (after : List Step)
    (shuts_down : is_shutdown_signal signal ≡ true) (v : IsListening p) where
  abbrev last : Process
  last = run_steps (deliver signal p) after

  deaf_end :
      is_launched p.position ≡ true
      → last.position ≡ looping
      → (loop_head last.runtime
          ≡ head_after p.position (head_of (wait_pop_state last.runtime.source)))
        × (last.listener.thread ≡ ended)
        × (last.listener.mask_installed ≡ true)
  deaf_end e at_loop =
      let d = run_steps-IsDeaf (deliver signal p) after (deliver-IsDeaf signal p shuts_down v e) in
      rw e (loop_head-IsDeaf last d at_loop, d.returned, d.masked)

  stopped_end :
      is_launched p.position ≡ false
      → (loop_head last.runtime
          ≡ head_after p.position (head_of (wait_pop_state last.runtime.source)))
        × (last.listener.thread ≡ ended)
        × (last.listener.mask_installed ≡ true)
  stopped_end e =
      let d =
        run_steps-IsStopped (deliver signal p) after (deliver-IsStopped signal p shuts_down v e) in
      rw e (loop_head-IsStopped last d, d.returned, d.masked)

module _ (calls : SystemCalls) (before after : List Step) (signal : ℕ) where
  -- The first SIGINT or SIGTERM to a process whose listener has started, between any steps of `main`,
  -- other signals and work of other threads on the candidate source. Once `run` has set its flag, the
  -- signal releases a wait for a state and the core loop ends at its head when it is reached, whatever
  -- comes in between. A signal before is lost: at its head the core loop goes by what the candidate
  -- source says. In both cases the listener's thread has returned and the signals stay blocked.
  pub deliver-first :
      (launch calls).0 ≡ true
      → All IsQuiet before
      → is_shutdown_signal signal ≡ true
      → (run_steps (deliver signal (run_steps (launch calls).1 before)) after).position ≡ looping
      → let p = run_steps (launch calls).1 before in
        let p' = deliver signal p in
        let last = run_steps p' after in
        (head_of (wait_pop_state p'.runtime.source)
          ≡ head_after p.position (head_of (wait_pop_state p.runtime.source)))
        × (loop_head last.runtime
            ≡ head_after p.position (head_of (wait_pop_state last.runtime.source)))
        × (last.listener.thread ≡ ended)
        × (last.listener.mask_installed ≡ true)
  deliver-first h quiet shuts_down at_loop =
      let p = run_steps (launch calls).1 before in
      let v = run_steps-IsListening (launch calls).1 before quiet (launch-IsListening calls h) in
      let released = deliver-head_of signal p shuts_down v in
      elim (Bool-cases (is_launched p.position)) [
        | inl e ↦
            let (head, returned, masked) = deaf_end signal p after shuts_down v e at_loop in
            (released, head, returned, masked)
        | inr e ↦
            let (head, returned, masked) = stopped_end signal p after shuts_down v e in
            (released, head, returned, masked)
      ]
