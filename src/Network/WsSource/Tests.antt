-- ===== src/Network/WsSource/Tests.antt =====
-- Runs of the websocket source.
use dex_knight.Prelude.{◌≡◌, refl, true, false, arith, [], ◌∷◌, some}
use dex_knight.Network.WsSource.{
  WsSource, no_error, other_error, starting, running, arms_timer, constructed, starts, resolved,
  connected, ws_handshaken, fires_timer, run, stop, on_read, on_close, on_reconnect_timer,
  reconnect_delay,
}
use dex_knight.Network.WsSource.Backoff.{Backoff, run-Backoff}
use dex_knight.Network.WsSource.Stopping.{last_action, stop-on_read_reconnects}

-- Two failed attempts to connect without TLS, and a third that succeeds.
run-Backoff_example :
    let s = run (constructed false false) (
      starts
      ∷ resolved other_error
      ∷ fires_timer
      ∷ resolved no_error
      ∷ connected true true other_error
      ∷ fires_timer
      ∷ resolved no_error
      ∷ connected true true no_error
      ∷ ws_handshaken no_error
      ∷ []) in
    Backoff s.reconnect_attempts s.actions
run-Backoff_example = run-Backoff false false (
    starts
    ∷ resolved other_error
    ∷ fires_timer
    ∷ resolved no_error
    ∷ connected true true other_error
    ∷ fires_timer
    ∷ resolved no_error
    ∷ connected true true no_error
    ∷ ws_handshaken no_error
    ∷ [])

abbrev connected_source : WsSource
connected_source = record (constructed true true) { state = running }

stop-on_read_reconnects_example :
    let s' = on_read other_error [] (stop true connected_source) in
    (last_action s'.actions ≡ some (arms_timer (reconnect_delay 0)))
    × ((on_reconnect_timer (on_close no_error s')).state ≡ starting)
stop-on_read_reconnects_example =
    stop-on_read_reconnects connected_source other_error no_error [] refl (omega arith) refl
