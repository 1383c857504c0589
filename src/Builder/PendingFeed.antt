-- ===== src/Builder/PendingFeed.antt =====
-- `PendingFeed` of knight/src/builder/pending_feed.cpp: the stream of pending transactions over a
-- websocket source. The handlers that it gives to the source only change the feed, so they run behind
-- each call of the source, in the order of the source's actions.
mod Tests
pub mod Agrees
pub mod Reflects
pub mod Closing
use dex_knight.Prelude.{
  ℕ, Bool, true, false, Bytes, List, [], ◌∷◌, Option, none, some, same_bytes, if◌then◌else◌, ◌>>=◌,
  Expected, ok, unexpected,
}
use dex_knight.Prelude.Chars.{codes}
use dex_knight.External.{External}
use dex_knight.Utils.Fields.{parse_to_json_object, json_string}
use dex_knight.Network.WsSource
use dex_knight.Network.WsSource.{
  WsSource, WsState, stopped, starting, running, stopping, Action, on_state, on_error, on_message,
}
use dex_knight.Candidate.Types.{PendingTransaction}
use dex_knight.Builder.Pending.{pending_transaction_from_json}
use dex_knight.Builder.RestClient.{Error, timeout, request_error}

-- PendingFeed::State
pub data FeedState : Type 0 where
  closed opened feed_failed : FeedState

pub record PendingFeed : Type 0 where
  pub ws_source : WsSource
  pub state : FeedState
  pub has_handler : Bool
  -- the calls of its handler, newest first
  pub published : List PendingTransaction

unfoldable pub parse_pending_tx_event : (x : External) → Bytes → Option PendingTransaction
parse_pending_tx_event x payload = do
  json ← parse_to_json_object x payload
  event_type ← json_string x json "type"
  pending ← x.if_contains json "record"
  if same_bytes event_type (codes "pending_transaction")
      then pending_transaction_from_json x pending
      else none

unfoldable pub set_state : FeedState → PendingFeed → PendingFeed
set_state state feed = record feed { state = state }

unfoldable pub on_ws_message : External → Bytes → PendingFeed → PendingFeed
unfolding parse_pending_tx_event
on_ws_message x payload feed = elim (parse_pending_tx_event x payload) [
  | none ↦ feed
  | some candidate ↦
      if feed.has_handler then record feed { published = candidate ∷ feed.published } else feed
]

unfoldable pub on_ws_state : WsState → PendingFeed → PendingFeed
unfolding set_state
on_ws_state stopped feed = set_state closed feed
on_ws_state starting feed = feed
on_ws_state running feed = set_state opened feed
on_ws_state stopping feed = feed
on_ws_state WsSource.failed feed = set_state feed_failed feed

unfoldable pub on_ws_error : PendingFeed → PendingFeed
unfolding set_state
on_ws_error feed = set_state feed_failed feed

-- The handler that an action of the source calls.
unfoldable pub on_action : External → Action → PendingFeed → PendingFeed
unfolding on_ws_message on_ws_state on_ws_error
on_action x (on_state state) feed = on_ws_state state feed
on_action x (on_error place) feed = on_ws_error feed
on_action x (on_message payload) feed = on_ws_message x payload feed
on_action x _ feed = feed

-- The handlers of actions that stand newest first.
unfoldable pub handle : External → List Action → PendingFeed → PendingFeed
unfolding on_action
handle x [] feed = feed
handle x (a ∷ earlier) feed = on_action x a (handle x earlier feed)

-- A call of the source, with the handlers that it calls.
unfoldable pub through : External → (WsSource → WsSource) → PendingFeed → PendingFeed
unfolding handle
through x call feed =
    let after = call (record feed.ws_source { actions = [] }) in
    handle x after.actions (record feed { ws_source = after })

-- A new feed.
abbrev pub new_feed : Bool → Bool → Bool → PendingFeed
new_feed use_tls verify_tls_peer has_handler = record {
  ws_source = WsSource.constructed use_tls verify_tls_peer;
  state = closed;
  has_handler = has_handler;
  published = [];
}

abbrev pub is_open_feed : FeedState → Bool
is_open_feed opened = true
is_open_feed _ = false

abbrev pub is_closed_feed : FeedState → Bool
is_closed_feed closed = true
is_closed_feed _ = false

unfoldable pub open_feed : External → PendingFeed → PendingFeed
unfolding through
open_feed x feed = if is_open_feed feed.state then feed else through x WsSource.start feed

-- `is_open` is what the stream of the source reports, here and in `reopen`.
unfoldable pub close : External → Bool → PendingFeed → PendingFeed
unfolding through
close x is_open feed =
    if is_closed_feed feed.state then feed else through x (WsSource.stop is_open) feed

unfoldable pub reopen : External → Bool → PendingFeed → PendingFeed
unfolding through
reopen x is_open feed = through x (WsSource.restart is_open) feed

-- `wait_until_ready`, on the feed at the end of the wait: the wait ends before its timeout only in one
-- of the two other states.
unfoldable pub wait_until_ready : PendingFeed → Expected (Unit {0}) Error
wait_until_ready feed = elim feed.state [
  | closed ↦ unexpected timeout
  | opened ↦ ok tt
  | feed_failed ↦ unexpected request_error
]
