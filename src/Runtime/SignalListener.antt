-- ===== src/Runtime/SignalListener.antt =====
-- `SignalListener` of knight/src/runtime/signal_listener.cpp: a thread that waits for one signal. What
-- the calls of the system return is an argument.
use dex_knight.Prelude.Chars.{codes}
use dex_knight.Prelude.{Bytes, ◌==◌, ℕ, Bool, true, false, not, ◌||◌, if◌then◌else◌}

-- The listener's thread: none that is to be joined, one in `sigwait`, or one whose `run` has returned.
pub data Thread : Type 0 where
  joined waiting ended : Thread

pub record SignalListener : Type 0 where
  pub has_handler : Bool
  pub stop_requested : Bool
  pub thread : Thread
  pub started : Bool
  pub signal_set_initialized : Bool
  pub mask_installed : Bool

abbrev pub new_listener : Bool → SignalListener
new_listener has_handler = record {
  has_handler = has_handler;
  stop_requested = false;
  thread = joined;
  started = false;
  signal_set_initialized = false;
  mask_installed = false;
}

-- SIGTERM
abbrev sigterm : ℕ
sigterm = 15

-- SIGINT
abbrev sigint : ℕ
sigint = 2

unfoldable pub signal_to_string : ℕ → Bytes
signal_to_string signal =
    if signal == sigint
    then codes "SIGINT"
    else if signal == sigterm
    then codes "SIGTERM"
    else codes "UNKNOWN"

-- The successes of sigemptyset, of the two calls of sigaddset, and of pthread_sigmask.
pub record SystemCalls : Type 0 where
  pub emptied : Bool
  pub sigint_added : Bool
  pub sigterm_added : Bool
  pub blocked : Bool

unfoldable pub initialize_signal_set : SystemCalls → SignalListener → Bool × SignalListener
initialize_signal_set calls s =
    if s.signal_set_initialized
    then (true, s)
    else if not calls.emptied
    then (false, s)
    else if not calls.sigint_added
    then (false, s)
    else if not calls.sigterm_added
    then (false, s)
    else (true, record s { signal_set_initialized = true })

unfoldable pub block_signals : SystemCalls → SignalListener → Bool × SignalListener
block_signals calls s =
    if s.mask_installed
    then (true, s)
    else if not calls.blocked
    then (false, s)
    else (true, record s { mask_installed = true })

unfoldable pub restore_signal_mask : SignalListener → SignalListener
restore_signal_mask s = if not s.mask_installed then s else record s { mask_installed = false }

unfoldable pub start : SystemCalls → SignalListener → Bool × SignalListener
unfolding initialize_signal_set block_signals
start calls s =
    let (initialized, s1) = initialize_signal_set calls s in
    let (masked, s2) = block_signals calls s1 in
    if s.started
    then (true, s)
    else if not initialized
    then (false, s1)
    else if not masked
    then (false, s2)
    else (true, record s2 { stop_requested = false; thread = waiting; started = true })

-- `run` from the return of `sigwait` on, with its success: whether the handler is called.
unfoldable pub run : Bool → ℕ → SignalListener → Bool × SignalListener
run waited signal s =
    let returned = record s { thread = ended } in
    if not waited
    then (false, returned)
    else if s.stop_requested
    then (false, returned)
    else (s.has_handler, returned)

-- The signals of the set that `sigwait` waits for.
abbrev pub is_shutdown_signal : ℕ → Bool
is_shutdown_signal signal = signal == sigint || signal == sigterm

-- A signal: only a thread that waits takes it, if it is of the set.
unfoldable pub receive : Bool → ℕ → SignalListener → Bool × SignalListener
unfolding run
receive waited signal s = elim s.thread [
  | joined ↦ (false, s)
  | waiting ↦ if is_shutdown_signal signal then run waited signal s else (false, s)
  | ended ↦ (false, s)
]

-- `stop`: the thread that waits is woken by a signal and joined.
unfoldable pub stop : SignalListener → SignalListener
unfolding restore_signal_mask receive
stop s =
    let (called, woken) = receive true sigterm (record s { stop_requested = true }) in
    if not s.started
    then restore_signal_mask s
    else restore_signal_mask (record woken { thread = joined; started = false })
