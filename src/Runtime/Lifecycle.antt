-- ===== src/Runtime/Lifecycle.antt =====
-- The start and the stop of the bot: `Runtime::run` and `Runtime::stop` of knight/src/runtime/runtime.cpp
-- around the core loop, and the `main` of knight/src/main.cpp behind its configuration, with the
-- listener that stops the runtime on a signal. The thread that runs `io_ctx` is a flag, and so is the
-- stop of `io_ctx`; the inputs of the candidate source stand in Candidate/Startup. A stop is one step.
mod Tests
pub mod Shutdown
use dex_knight.Prelude.{
  ℕ, Bool, true, false, not, List, [], ◌∷◌, Option, none, some, Expected, ok, unexpected,
  if◌then◌else◌,
}
use dex_knight.Common.Worker
use dex_knight.Common.Worker.{Worker}
use dex_knight.Candidate.Types.{StateSnapshot}
use dex_knight.Candidate.Source
use dex_knight.Candidate.Source.{Source, wait_pop_state}
use dex_knight.Runtime.SignalListener
use dex_knight.Runtime.SignalListener.{SignalListener, SystemCalls}

pub record Lifecycle : Type 0 where
  pub running : Bool
  pub io_running : Bool
  -- `io_ctx` was stopped, so that a thread that runs it returns at once
  pub io_stopped : Bool
  -- the thread of the candidate source
  pub worker : Worker
  pub source : Source

abbrev pub new_runtime : Lifecycle
new_runtime = record {
  running = false;
  io_running = false;
  io_stopped = false;
  worker = Worker.new_worker;
  source = Source.opened;
}

-- The three steps of `run` up to the core loop.
unfoldable pub set_running : Lifecycle → Lifecycle
set_running r = record r { running = true }

unfoldable pub start_io : Lifecycle → Lifecycle
start_io r = record r { io_running = not r.io_stopped }

unfoldable pub start_source : Lifecycle → Lifecycle
unfolding Worker.start
start_source r = record r { worker = Worker.start r.worker }

unfoldable pub stop : Lifecycle → Lifecycle
unfolding Source.stop Worker.stop
stop r = if not r.running then r else record {
  running = false;
  source = Source.stop r.source;
  worker = Worker.stop r.worker;
  io_running = false;
  io_stopped = true;
}

-- The head of the core loop: it ends, it waits for a state, or it has the result of a wait.
pub data Head : Type 0 where
  ends waits has_result : Head

abbrev pub head_of : Option (Expected StateSnapshot Source.Error × Source) → Head
head_of none = waits
head_of (some (ok state, source)) = has_result
head_of (some (unexpected Source.closed, source)) = ends
head_of (some (unexpected error, source)) = has_result

unfoldable pub loop_head : Lifecycle → Head
unfolding wait_pop_state
loop_head r = if not r.running then ends else head_of (wait_pop_state r.source)

-- How far `main` has come: to the call of `run`, behind each of its steps, to the core loop.
pub data Position : Type 0 where
  launched flagged serving looping : Position

pub record Process : Type 0 where
  pub position : Position
  pub runtime : Lifecycle
  pub listener : SignalListener

-- `main` up to the call of `run`: none where it returns before it.
unfoldable pub launch : SystemCalls → Bool × Process
unfolding SignalListener.start
launch calls =
    let (listening, listener) = SignalListener.start calls (SignalListener.new_listener true) in
    (listening, record { position = launched; runtime = new_runtime; listener = listener })

-- A signal: the handler of the listener stops the runtime.
unfoldable pub deliver : ℕ → Process → Process
unfolding SignalListener.receive stop
deliver signal p =
    let (called, listener) = SignalListener.receive true signal p.listener in
    record p { runtime = if called then stop p.runtime else p.runtime; listener = listener }

-- The next step of `run`, called by `main`.
advance_from : Position → Process → Process
unfolding set_running start_io start_source
advance_from launched p = record p { position = flagged; runtime = set_running p.runtime }
advance_from flagged p = record p { position = serving; runtime = start_io p.runtime }
advance_from serving p = record p { position = looping; runtime = start_source p.runtime }
advance_from looping p = p

unfoldable pub advance : Process → Process
unfolding advance_from
advance p = advance_from p.position p

-- A step of `main`, a signal, or the work of any other thread on the candidate source.
pub data Step : Type 0 where
  advances : Step
  signals : ℕ → Step
  works : (Source → Source) → Step

unfoldable pub step : Process → Step → Process
unfolding advance deliver
step p advances = advance p
step p (signals signal) = deliver signal p
step p (works work) = record p { runtime = record p.runtime { source = work p.runtime.source } }

unfoldable pub run_steps : Process → List Step → Process
unfolding step
run_steps p [] = p
run_steps p (s ∷ steps) = run_steps (step p s) steps
