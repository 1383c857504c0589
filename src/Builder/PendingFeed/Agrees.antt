-- ===== src/Builder/PendingFeed/Agrees.antt =====
-- The state of a source against what its actions make of the state of the feed.
use dex_knight.Prelude.{◌≡◌, refl, ap, ◌∙◌, Bool, true, false, Bytes, List, [], ◌∷◌, arith}
use Prim.Native.String.{String}
use dex_knight.External.{External}
use dex_knight.Network.WsSource
use dex_knight.Network.WsSource.{
  WsState, stopped, starting, running, stopping, failed, ErrorCode, no_error, closed_error,
  other_error, Action, resolves, connects, tls_handshakes, ws_handshakes, reads, closes, resets,
  cancels_timer, arms_timer, on_state, on_error, on_message, WsSource, act, publish_message,
  publish_error, publish_state, reset_stream, start, schedule_reconnect, on_reconnect_timer, fail,
  restart_if_requested, after_close, on_close, do_close, stop, restart, on_resolve, on_connect,
  on_tls_handshake, on_ws_handshake, on_read, constructed, Call, starts, fires_timer, stops,
  restarts, resolved, tls_handshaken, ws_handshaken, connected, read, step, is_started, is_ended,
  is_error, is_busy, is_idle, is_stopping, is_running, max_reconnect_attempts,
}
use dex_knight.Builder.PendingFeed.{
  FeedState, closed, opened, feed_failed, PendingFeed, set_state, on_ws_message, on_ws_state,
  on_ws_error, on_action, handle,
}

-- The feed is closed, open or failed where the source is stopped, running or failed.
abbrev pub Reflects : WsState → FeedState → Type 0
Reflects stopped state = state ≡ closed
Reflects starting state = Unit
Reflects running state = state ≡ opened
Reflects stopping state = Unit
Reflects failed state = state ≡ feed_failed

-- The state of the feed after an action, and after actions that stand newest first.
abbrev pub next_state : FeedState → Action → FeedState
next_state state (on_state stopped) = closed
next_state state (on_state running) = opened
next_state state (on_state failed) = feed_failed
next_state state (on_error place) = feed_failed
next_state state _ = state

abbrev pub state_after : FeedState → List Action → FeedState
state_after state [] = state
state_after state (a ∷ earlier) = next_state (state_after state earlier) a

message_keeps :
    (x : External) (payload : Bytes) (feed : PendingFeed)
    → (on_ws_message x payload feed).state ≡ feed.state
unfolding on_ws_message
message_keeps x payload feed = ground arith

on_action-next_state :
    (x : External) (a : Action) (feed : PendingFeed)
    → (on_action x a feed).state ≡ next_state feed.state a
unfolding on_action on_ws_state on_ws_error set_state
on_action-next_state x (on_message payload) feed = message_keeps x payload feed
on_action-next_state x a feed = ground arith

pub handle-state_after :
    (x : External) (actions : List Action) (feed : PendingFeed)
    → (handle x actions feed).state ≡ state_after feed.state actions
unfolding handle
handle-state_after x [] feed = refl
handle-state_after x (a ∷ earlier) feed =
    on_action-next_state x a (handle x earlier feed)
    ∙ ap (λ state. next_state state a) (handle-state_after x earlier feed)

-- The source and its actions since the base state of the feed.
abbrev pub Agrees : FeedState → WsSource → Type 0
Agrees base s = Reflects s.state (state_after base s.actions)

publish_state-Agrees :
    (base : FeedState) (state : WsState) (s : WsSource) → Agrees base (publish_state state s)
unfolding publish_state
publish_state-Agrees base stopped s = refl
publish_state-Agrees base starting s = tt
publish_state-Agrees base running s = refl
publish_state-Agrees base stopping s = tt
publish_state-Agrees base failed s = refl

module _ (base : FeedState) where
  pub start-Agrees : (s : WsSource) → Agrees base s → Agrees base (start s)
  unfolding start publish_state reset_stream
  start-Agrees s v = ground arith

  schedule_reconnect-Agrees : (s : WsSource) → Agrees base s → Agrees base (schedule_reconnect s)
  unfolding schedule_reconnect
  schedule_reconnect-Agrees s v = ground arith

  fail-Agrees : (place : String) (s : WsSource) → Agrees base (fail place s)
  unfolding fail publish_state reset_stream
  fail-Agrees place s =
      schedule_reconnect-Agrees (reset_stream (publish_state failed (publish_error place s))) refl

  after_close-Agrees : (ec : ErrorCode) (s : WsSource) → Agrees base (after_close ec s)
  unfolding after_close publish_state
  after_close-Agrees no_error s = refl
  after_close-Agrees closed_error s = refl
  after_close-Agrees other_error s =
      schedule_reconnect-Agrees (publish_state failed (publish_error "close" s)) refl

  restart_if_requested-Agrees :
      (s : WsSource) → Agrees base s → Agrees base (restart_if_requested s)
  unfolding restart_if_requested
  restart_if_requested-Agrees s v =
      ground (arith, start-Agrees (record s { restart_requested = false }) v)

  on_close-Agrees : (ec : ErrorCode) (s : WsSource) → Agrees base (on_close ec s)
  unfolding on_close reset_stream
  on_close-Agrees ec s =
      restart_if_requested-Agrees (reset_stream (after_close ec (record s { buffer = [] })))
        (after_close-Agrees ec (record s { buffer = [] }))

  do_close-Agrees :
      (is_open : Bool) (s : WsSource) → Agrees base s → Agrees base (do_close is_open s)
  unfolding do_close
  do_close-Agrees true s v = v
  do_close-Agrees false s v = on_close-Agrees no_error s

  pub stop-Agrees : (is_open : Bool) (s : WsSource) → Agrees base s → Agrees base (stop is_open s)
  unfolding stop publish_state
  stop-Agrees is_open s v = ground (
    arith,
    do_close-Agrees is_open
        (publish_state stopping (act cancels_timer (record s { restart_requested = false }))) tt,
  )

  pub restart-Agrees :
      (is_open : Bool) (s : WsSource) → Agrees base s → Agrees base (restart is_open s)
  unfolding restart publish_state reset_stream
  restart-Agrees is_open s v = ground (
    arith,
    start-Agrees (reset_stream (record s { restart_requested = true })) v,
    do_close-Agrees is_open (publish_state stopping (record s { restart_requested = true })) tt,
  )

  on_connect-Agrees :
      (host_name_set verified_host_set : Bool) (ec : ErrorCode) (s : WsSource)
      → Agrees base s
      → Agrees base (on_connect host_name_set verified_host_set ec s)
  unfolding on_connect
  on_connect-Agrees host_name_set verified_host_set ec s v =
      ground
        (arith, fail-Agrees "connect" s, fail-Agrees "tls_sni" s, fail-Agrees "tls_verify_host" s)

  pub step-Agrees : (s : WsSource) (c : Call) → Agrees base s → Agrees base (step s c)
  unfolding step on_reconnect_timer on_resolve on_tls_handshake on_ws_handshake on_read
      publish_state publish_message
  step-Agrees s starts v = start-Agrees s v
  step-Agrees s fires_timer v = ground (arith, start-Agrees s v)
  step-Agrees s (stops is_open) v = stop-Agrees is_open s v
  step-Agrees s (restarts is_open) v = restart-Agrees is_open s v
  step-Agrees s (resolved ec) v = ground (arith, fail-Agrees "resolve" s)
  step-Agrees s (connected host_name_set verified_host_set ec) v =
      on_connect-Agrees host_name_set verified_host_set ec s v
  step-Agrees s (tls_handshaken ec) v = ground (arith, fail-Agrees "tls_handshake" s)
  step-Agrees s (ws_handshaken ec) v = ground (arith, fail-Agrees "ws_handshake" s)
  step-Agrees s (read ec received) v = ground (arith, fail-Agrees "read" s)
  step-Agrees s (WsSource.closed ec) v = on_close-Agrees ec s
