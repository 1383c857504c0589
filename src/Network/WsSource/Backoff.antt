-- ===== src/Network/WsSource/Backoff.antt =====
-- The reconnects of the source: how often and after how long, whatever the network does.
use Prim.Native.String.{String}
use dex_knight.Prelude.{
  ℕ, zero, suc, ◌^◌, ◌≤◌, ◌<◌, ◌≡◌, refl, Bool, true, false, not, ◌&&◌, ◌++◌, Bytes, List, [], ◌∷◌,
  arith, leb, ltb, if◌then◌else◌,
}
use dex_knight.Network.WsSource.{
  stopped, starting, running, stopping, failed, ErrorCode, no_error, closed_error, other_error,
  Action, resolves, connects, tls_handshakes, ws_handshakes, reads, closes, resets, cancels_timer,
  arms_timer, on_state, on_error, on_message, WsSource, act, publish_message, publish_error,
  publish_state, reset_stream, start, reconnect_delay, schedule_reconnect, on_reconnect_timer, fail,
  restart_if_requested, after_close, on_close, do_close, stop, restart, on_resolve, on_connect,
  on_tls_handshake, on_ws_handshake, on_read, constructed, Call, starts, fires_timer, stops,
  restarts, resolved, tls_handshaken, ws_handshaken, closed, connected, read, step, run, is_started,
  is_ended, is_error, is_busy, is_idle, is_stopping, is_running,
}

-- An action that neither arms the timer nor reports the state `running`.
abbrev pub IsQuiet : Action → Type 0
IsQuiet (arms_timer delay) = ⊥
IsQuiet (on_state running) = ⊥
IsQuiet (on_state stopped) = Unit
IsQuiet (on_state starting) = Unit
IsQuiet (on_state stopping) = Unit
IsQuiet (on_state failed) = Unit
IsQuiet resolves = Unit
IsQuiet connects = Unit
IsQuiet tls_handshakes = Unit
IsQuiet ws_handshakes = Unit
IsQuiet reads = Unit
IsQuiet closes = Unit
IsQuiet resets = Unit
IsQuiet cancels_timer = Unit
IsQuiet (on_error place) = Unit
IsQuiet (on_message payload) = Unit

-- Actions, newest first, with the attempts after them: an attempt arms the timer with its own delay,
-- the attempts since the last connection are fewer than ten before it, and a connection ends them.
pub data Backoff : ℕ → List Action → Type 0 where
  none_yet : Backoff 0 []
  quiet :
      (a : Action) {n : ℕ} {later : List Action}
      → IsQuiet a
      → Backoff n later
      → Backoff n (a ∷ later)
  attempted :
      {n : ℕ} {later : List Action}
      → n < 10
      → Backoff n later
      → Backoff (suc n) (arms_timer (reconnect_delay n) ∷ later)
  connection :
      {n : ℕ} {later : List Action} → Backoff n later → Backoff 0 (on_state running ∷ later)

abbrev BacksOff : WsSource → Type 0
BacksOff s = Backoff s.reconnect_attempts s.actions

-- Both ways of a test.
either : (b : Bool) (s t : WsSource) → BacksOff s → BacksOff t → BacksOff (if b then s else t)
either true s t p q = p
either false s t p q = q

-- The ways of a test whose second one knows that it failed.
guarded :
    (b : Bool) (s t : WsSource)
    → BacksOff s
    → (b ≡ false → BacksOff t)
    → BacksOff (if b then s else t)
guarded true s t p q = p
guarded false s t p q = q refl

start-BacksOff : (s : WsSource) → BacksOff s → BacksOff (start s)
unfolding start reset_stream publish_state
start-BacksOff s b =
    either (is_started s.state) _ _ (quiet cancels_timer tt b) (
      quiet resolves tt (quiet (on_state starting) tt (quiet resets tt (quiet cancels_timer tt b))))

below_limit : (n : ℕ) → leb 10 n ≡ false → n < 10
below_limit n e = ground arith

schedule_reconnect-BacksOff : (s : WsSource) → BacksOff s → BacksOff (schedule_reconnect s)
unfolding schedule_reconnect
schedule_reconnect-BacksOff s b = either (is_ended s.state) _ _ b (
    guarded (leb 10 s.reconnect_attempts) _ _ b
      (λ e. attempted (below_limit s.reconnect_attempts e) b))

fail-BacksOff : (place : String) (s : WsSource) → BacksOff s → BacksOff (fail place s)
unfolding fail publish_error publish_state reset_stream
fail-BacksOff place s b =
    schedule_reconnect-BacksOff (reset_stream (publish_state failed (publish_error place s)))
      (quiet resets tt (quiet (on_state failed) tt (quiet (on_error place) tt b)))

on_reconnect_timer-BacksOff : (s : WsSource) → BacksOff s → BacksOff (on_reconnect_timer s)
unfolding on_reconnect_timer
on_reconnect_timer-BacksOff s b = either (is_busy s.state) _ _ b (start-BacksOff s b)

after_close-BacksOff : (ec : ErrorCode) (s : WsSource) → BacksOff s → BacksOff (after_close ec s)
unfolding after_close publish_error publish_state
after_close-BacksOff no_error s b = quiet (on_state stopped) tt b
after_close-BacksOff closed_error s b = quiet (on_state stopped) tt b
after_close-BacksOff other_error s b =
    schedule_reconnect-BacksOff (publish_state failed (publish_error "close" s))
      (quiet (on_state failed) tt (quiet (on_error "close") tt b))

on_close-BacksOff : (ec : ErrorCode) (s : WsSource) → BacksOff s → BacksOff (on_close ec s)
unfolding on_close reset_stream restart_if_requested
on_close-BacksOff ec s b =
    let shut = reset_stream (after_close ec (record s { buffer = [] })) in
    let kept : BacksOff shut =
      quiet resets tt (after_close-BacksOff ec (record s { buffer = [] }) b) in
    either shut.restart_requested _ _
      (start-BacksOff (record shut { restart_requested = false }) kept) kept

do_close-BacksOff : (is_open : Bool) (s : WsSource) → BacksOff s → BacksOff (do_close is_open s)
unfolding do_close
do_close-BacksOff is_open s b =
    either is_open _ _ (quiet closes tt b) (on_close-BacksOff no_error s b)

stop-BacksOff : (is_open : Bool) (s : WsSource) → BacksOff s → BacksOff (stop is_open s)
unfolding stop publish_state
stop-BacksOff is_open s b = either (is_ended s.state) _ _ (quiet cancels_timer tt b) (
    do_close-BacksOff is_open
      (publish_state stopping (act cancels_timer (record s { restart_requested = false })))
      (quiet (on_state stopping) tt (quiet cancels_timer tt b)))

restart-BacksOff : (is_open : Bool) (s : WsSource) → BacksOff s → BacksOff (restart is_open s)
unfolding restart publish_state reset_stream
restart-BacksOff is_open s b =
    either (is_idle s.state) _ _
      (start-BacksOff (reset_stream (record s { restart_requested = true })) (quiet resets tt b))
      (either (is_stopping s.state) _ _ b (
        do_close-BacksOff is_open (publish_state stopping (record s { restart_requested = true }))
          (quiet (on_state stopping) tt b)))

on_connect-BacksOff :
    (host_name_set verified_host_set : Bool) (ec : ErrorCode) (s : WsSource)
    → BacksOff s
    → BacksOff (on_connect host_name_set verified_host_set ec s)
unfolding on_connect
on_connect-BacksOff host_name_set verified_host_set ec s b =
    either (is_error ec) _ _ (fail-BacksOff "connect" s b) (
      either (not s.use_tls) _ _ (quiet ws_handshakes tt b) (
        either (not host_name_set) _ _ (fail-BacksOff "tls_sni" s b) (
          either (s.verify_tls_peer && not verified_host_set) _ _
            (fail-BacksOff "tls_verify_host" s b) (quiet tls_handshakes tt b))))

on_read-BacksOff :
    (ec : ErrorCode) (received : Bytes) (s : WsSource)
    → BacksOff s
    → BacksOff (on_read ec received s)
unfolding on_read publish_message
on_read-BacksOff ec received s b = either (is_error ec) _ _ (fail-BacksOff "read" s b) (
    either (is_running s.state) _ _
      (quiet reads tt (quiet (on_message (s.buffer ++ received)) tt b))
      (quiet (on_message (s.buffer ++ received)) tt b))

step-BacksOff : (s : WsSource) (c : Call) → BacksOff s → BacksOff (step s c)
unfolding step on_resolve on_tls_handshake on_ws_handshake publish_state
step-BacksOff s starts b = start-BacksOff s b
step-BacksOff s fires_timer b = on_reconnect_timer-BacksOff s b
step-BacksOff s (stops is_open) b = stop-BacksOff is_open s b
step-BacksOff s (restarts is_open) b = restart-BacksOff is_open s b
step-BacksOff s (resolved ec) b =
    either (is_error ec) _ _ (fail-BacksOff "resolve" s b) (quiet connects tt b)
step-BacksOff s (connected host_name_set verified_host_set ec) b =
    on_connect-BacksOff host_name_set verified_host_set ec s b
step-BacksOff s (tls_handshaken ec) b =
    either (is_error ec) _ _ (fail-BacksOff "tls_handshake" s b) (quiet ws_handshakes tt b)
step-BacksOff s (ws_handshaken ec) b =
    either (is_error ec) _ _ (fail-BacksOff "ws_handshake" s b) (quiet reads tt (connection b))
step-BacksOff s (read ec received) b = on_read-BacksOff ec received s b
step-BacksOff s (closed ec) b = on_close-BacksOff ec s b

run-BacksOff : (s : WsSource) (cs : List Call) → BacksOff s → BacksOff (run s cs)
unfolding run
run-BacksOff s [] b = b
run-BacksOff s (c ∷ cs) b = run-BacksOff (step s c) cs (step-BacksOff s c b)

-- Over any calls on a new source and any reports of the network, the reconnect timer is armed at most
-- ten times between two connections, the n-th time with the delay of the n-th attempt.
pub run-Backoff :
    (use_tls verify_tls_peer : Bool) (cs : List Call)
    → let s = run (constructed use_tls verify_tls_peer) cs in Backoff s.reconnect_attempts s.actions
run-Backoff use_tls verify_tls_peer cs =
    run-BacksOff (constructed use_tls verify_tls_peer) cs (quiet resets tt none_yet)

capped_power :
    (n : ℕ) → (1 ≤ 2 ^ (if ltb 5 n then 5 else n)) × (2 ^ (if ltb 5 n then 5 else n) ≤ 32)
capped_power zero = omega arith
capped_power (suc zero) = omega arith
capped_power (suc (suc zero)) = omega arith
capped_power (suc (suc (suc zero))) = omega arith
capped_power (suc (suc (suc (suc zero)))) = omega arith
capped_power (suc (suc (suc (suc (suc zero))))) = omega arith
capped_power (suc (suc (suc (suc (suc (suc n)))))) = ground arith

-- A delay is at least 200 ms and at most 5000 ms, at any attempt.
pub reconnect_delay_bounds : (n : ℕ) → (200 ≤ reconnect_delay n) × (reconnect_delay n ≤ 5000)
unfolding reconnect_delay
reconnect_delay_bounds n = ground (arith, capped_power n)
