-- ===== src/Network/WsSource/Stopping.antt =====
-- What becomes of a stop while a read is in flight.
use dex_knight.Prelude.{◌<◌, ◌≡◌, true, false, Bytes, List, [], ◌∷◌, Option, some, none, arith}
use dex_knight.Network.WsSource.{
  starting, running, failed, ErrorCode, Action, arms_timer, WsSource, publish_error, publish_state,
  reset_stream, start, reconnect_delay, schedule_reconnect, on_reconnect_timer, fail, after_close,
  on_close, do_close, stop, on_read, is_error,
}

-- The last action.
abbrev pub last_action : List Action → Option Action
last_action [] = none
last_action (a ∷ earlier) = some a

-- A source that failed and does not want to restart starts again when its timer fires, also after a
-- close in between.
timer_starts :
    (s : WsSource) (ec : ErrorCode)
    → s.state ≡ failed
    → s.restart_requested ≡ false
    → (on_reconnect_timer (on_close ec s)).state ≡ starting
unfolding on_reconnect_timer on_close after_close schedule_reconnect start publish_state
    publish_error reset_stream
timer_starts s ec e f = ground arith

read_fails :
    (s : WsSource) (ec : ErrorCode) (received : Bytes)
    → s.state ≡ running
    → s.reconnect_attempts < 10
    → is_error ec ≡ true
    → let s' = on_read ec received (stop true s) in
      (last_action s'.actions ≡ some (arms_timer (reconnect_delay s.reconnect_attempts)))
      × (s'.state ≡ failed)
      × (s'.restart_requested ≡ false)
unfolding on_read stop do_close fail schedule_reconnect publish_state publish_error reset_stream
read_fails s ec received e h r = ground arith

-- A running source that is stopped, and whose read in flight then ends with an error, arms its
-- reconnect timer, and whatever its close reports, it starts again when the timer fires.
pub stop-on_read_reconnects :
    (s : WsSource) (read_ec close_ec : ErrorCode) (received : Bytes)
    → s.state ≡ running
    → s.reconnect_attempts < 10
    → is_error read_ec ≡ true
    → let s' = on_read read_ec received (stop true s) in
      (last_action s'.actions ≡ some (arms_timer (reconnect_delay s.reconnect_attempts)))
      × ((on_reconnect_timer (on_close close_ec s')).state ≡ starting)
stop-on_read_reconnects s read_ec close_ec received e h r =
    let (armed, failed_eq, unrequested) = read_fails s read_ec received e h r in
    (armed, timer_starts (on_read read_ec received (stop true s)) close_ec failed_eq unrequested)
