-- ===== src/Network/WsSource.antt =====
-- `WsSource` of knight/src/network/ws_source.cpp: a websocket connection that reconnects. The handlers
-- of its asynchronous operations are functions of the source, called with what asio, beast and OpenSSL
-- report. The source's own calls of these libraries and of its three handlers are its actions; the
-- pending feed, its only user, gives all three handlers.
mod Tests
pub mod Backoff
pub mod Stopping
use Prim.Native.String.{String}
use dex_knight.Prelude.Chars.{codes}
use dex_knight.Prelude.{
  ℕ, suc, ◌*◌, ◌^◌, Bool, true, false, ◌||◌, ◌&&◌, not, Bytes, List, [], ◌∷◌, ◌++◌, Option, none,
  some, leb, ltb, if◌then◌else◌,
}

-- WsSource::State
pub data WsState : Type 0 where
  stopped starting running stopping failed : WsState

unfoldable pub ws_source_state_to_string : WsState → Bytes
ws_source_state_to_string stopped = codes "STOPPED"
ws_source_state_to_string starting = codes "STARTING"
ws_source_state_to_string running = codes "RUNNING"
ws_source_state_to_string stopping = codes "STOPPING"
ws_source_state_to_string failed = codes "FAILED"

-- A `beast::error_code`, as far as the handlers tell one from another.
pub data ErrorCode : Type 0 where
  no_error closed_error other_error : ErrorCode

-- What the source does: the operations that it starts, and the calls of its handlers.
pub data Action : Type 0 where
  resolves connects tls_handshakes ws_handshakes reads closes resets cancels_timer : Action
  arms_timer : ℕ → Action
  on_state : WsState → Action
  on_error : String → Action
  on_message : Bytes → Action

pub record WsSource : Type 0 where
  pub use_tls : Bool
  pub verify_tls_peer : Bool
  pub state : WsState
  pub restart_requested : Bool
  pub reconnect_attempts : ℕ
  pub buffer : Bytes
  -- its actions, newest first
  pub actions : List Action

abbrev pub max_reconnect_attempts : ℕ
max_reconnect_attempts = 10

abbrev pub reconnect_base_delay : ℕ
reconnect_base_delay = 200

abbrev pub reconnect_max_delay : ℕ
reconnect_max_delay = 5000

abbrev pub is_error : ErrorCode → Bool
is_error no_error = false
is_error closed_error = true
is_error other_error = true

abbrev pub act : Action → WsSource → WsSource
act a s = record s { actions = a ∷ s.actions }

unfoldable pub publish_message : WsSource → WsSource
publish_message s = act (on_message s.buffer) s

unfoldable pub publish_error : String → WsSource → WsSource
publish_error place s = act (on_error place) s

unfoldable pub publish_state : WsState → WsSource → WsSource
publish_state state s = act (on_state state) (record s { state = state })

unfoldable pub reset_stream : WsSource → WsSource
reset_stream s = act resets (record s { buffer = [] })

-- `m_state == STARTING || m_state == RUNNING`, and the other tests of two states
abbrev pub is_started : WsState → Bool
is_started starting = true
is_started running = true
is_started _ = false

abbrev pub is_ended : WsState → Bool
is_ended stopped = true
is_ended stopping = true
is_ended _ = false

abbrev pub is_idle : WsState → Bool
is_idle stopped = true
is_idle failed = true
is_idle _ = false

abbrev pub is_busy : WsState → Bool
is_busy stopping = true
is_busy running = true
is_busy _ = false

abbrev pub is_stopping : WsState → Bool
is_stopping stopping = true
is_stopping _ = false

abbrev pub is_running : WsState → Bool
is_running running = true
is_running _ = false

unfoldable pub start : WsSource → WsSource
unfolding reset_stream publish_state
start s =
    let cancelled = act cancels_timer s in
    if is_started s.state
    then cancelled
    else act resolves
        (publish_state starting (reset_stream (record cancelled { restart_requested = false })))

-- `std::min(200 ms * 2 ^ std::min(attempt, 5), 5000 ms)`
unfoldable pub reconnect_delay : ℕ → ℕ
reconnect_delay attempt =
    let exp_delay = reconnect_base_delay * 2 ^ (if ltb 5 attempt then 5 else attempt) in
    if ltb reconnect_max_delay exp_delay then reconnect_max_delay else exp_delay

unfoldable pub schedule_reconnect : WsSource → WsSource
unfolding reconnect_delay
schedule_reconnect s =
    if is_ended s.state
    then s
    else if leb max_reconnect_attempts s.reconnect_attempts
    then s
    else act (arms_timer (reconnect_delay s.reconnect_attempts))
        (record s { reconnect_attempts = suc s.reconnect_attempts })

-- The handler of the reconnect timer, when it was not cancelled.
unfoldable pub on_reconnect_timer : WsSource → WsSource
unfolding start
on_reconnect_timer s = if is_busy s.state then s else start s

unfoldable pub fail : String → WsSource → WsSource
unfolding publish_error publish_state reset_stream schedule_reconnect
fail place s = schedule_reconnect (reset_stream (publish_state failed (publish_error place s)))

-- The end of `on_close`: the restart that was requested meanwhile.
unfoldable pub restart_if_requested : WsSource → WsSource
unfolding start
restart_if_requested s =
    if s.restart_requested then start (record s { restart_requested = false }) else s

unfoldable pub after_close : ErrorCode → WsSource → WsSource
unfolding publish_error publish_state schedule_reconnect
after_close no_error s = publish_state stopped s
after_close closed_error s = publish_state stopped s
after_close other_error s = schedule_reconnect (publish_state failed (publish_error "close" s))

unfoldable pub on_close : ErrorCode → WsSource → WsSource
unfolding after_close reset_stream restart_if_requested
on_close ec s = restart_if_requested (reset_stream (after_close ec (record s { buffer = [] })))

-- `is_open` is what the lowest layer of the stream reports.
unfoldable pub do_close : Bool → WsSource → WsSource
unfolding on_close
do_close is_open s = if is_open then act closes s else on_close no_error s

unfoldable pub stop : Bool → WsSource → WsSource
unfolding publish_state do_close
stop is_open s =
    let cancelled = act cancels_timer (record s { restart_requested = false }) in
    if is_ended s.state then cancelled else do_close is_open (publish_state stopping cancelled)

unfoldable pub restart : Bool → WsSource → WsSource
unfolding reset_stream start publish_state do_close
restart is_open s =
    let requested = record s { restart_requested = true } in
    if is_idle s.state
    then start (reset_stream requested)
    else if is_stopping s.state
    then requested
    else do_close is_open (publish_state stopping requested)

unfoldable pub on_resolve : ErrorCode → WsSource → WsSource
unfolding fail
on_resolve ec s = if is_error ec then fail "resolve" s else act connects s

-- `host_name_set` and `verified_host_set` are the results of the two calls of OpenSSL.
unfoldable pub on_connect : Bool → Bool → ErrorCode → WsSource → WsSource
unfolding fail
on_connect host_name_set verified_host_set ec s =
    if is_error ec
    then fail "connect" s
    else if not s.use_tls
    then act ws_handshakes s
    else if not host_name_set
    then fail "tls_sni" s
    else if s.verify_tls_peer && not verified_host_set
    then fail "tls_verify_host" s
    else act tls_handshakes s

unfoldable pub on_tls_handshake : ErrorCode → WsSource → WsSource
unfolding fail
on_tls_handshake ec s = if is_error ec then fail "tls_handshake" s else act ws_handshakes s

unfoldable pub on_ws_handshake : ErrorCode → WsSource → WsSource
unfolding fail publish_state
on_ws_handshake ec s =
    if is_error ec
    then fail "ws_handshake" s
    else act reads (publish_state running (record s { reconnect_attempts = 0 }))

-- `received` is what the read put behind the buffer.
unfoldable pub on_read : ErrorCode → Bytes → WsSource → WsSource
unfolding fail publish_message
on_read ec received s =
    let delivered = record (publish_message (record s { buffer = s.buffer ++ received })) {
      buffer = [];
    } in
    if is_error ec
    then fail "read" s
    else if is_running s.state
    then act reads delivered
    else delivered

-- A new source.
abbrev pub constructed : Bool → Bool → WsSource
constructed use_tls verify_tls_peer = record {
  use_tls = use_tls;
  verify_tls_peer = verify_tls_peer;
  state = stopped;
  restart_requested = false;
  reconnect_attempts = 0;
  buffer = [];
  actions = resets ∷ [];
}

-- A call of a method, or of the handler of an operation.
pub data Call : Type 0 where
  starts fires_timer : Call
  stops restarts : Bool → Call
  resolved tls_handshaken ws_handshaken closed : ErrorCode → Call
  connected : Bool → Bool → ErrorCode → Call
  read : ErrorCode → Bytes → Call

unfoldable pub step : WsSource → Call → WsSource
unfolding start on_reconnect_timer stop restart on_resolve on_connect on_tls_handshake
    on_ws_handshake on_read on_close
step s starts = start s
step s fires_timer = on_reconnect_timer s
step s (stops is_open) = stop is_open s
step s (restarts is_open) = restart is_open s
step s (resolved ec) = on_resolve ec s
step s (connected host_name_set verified_host_set ec) =
    on_connect host_name_set verified_host_set ec s
step s (tls_handshaken ec) = on_tls_handshake ec s
step s (ws_handshaken ec) = on_ws_handshake ec s
step s (read ec received) = on_read ec received s
step s (closed ec) = on_close ec s

unfoldable pub run : WsSource → List Call → WsSource
unfolding step
run s [] = s
run s (c ∷ cs) = run (step s c) cs
