-- ===== src/Builder/PendingFeed/Closing.antt =====
-- A close of the feed while its source connects.
use dex_knight.Prelude.{◌≡◌, Bool, true, List, [], ◌∷◌, map}
use dex_knight.External.{External}
use dex_knight.Network.WsSource.{
  starting, no_error, other_error, resolved, connected, tls_handshaken, ws_handshaken, fires_timer,
}
use dex_knight.Builder.PendingFeed.{closed, PendingFeed}
use dex_knight.Builder.PendingFeed.Reflects.{FeedCall, closes_feed, reports, feed_run}

-- A close of the feed, with what the stream reports of itself, or the success of a step of the
-- connection before the handshake of the websocket.
pub data Progress : Type 0 where
  asks_close : Bool → Progress
  finds_host reaches_host secures : Progress

abbrev pub call_of : Progress → FeedCall
call_of (asks_close is_open) = closes_feed is_open
call_of finds_host = reports (resolved no_error)
call_of reaches_host = reports (connected true true no_error)
call_of secures = reports (tls_handshaken no_error)

abbrev pub without_closes : List Progress → List Progress
without_closes [] = []
without_closes (asks_close is_open ∷ cs) = without_closes cs
without_closes (finds_host ∷ cs) = finds_host ∷ without_closes cs
without_closes (reaches_host ∷ cs) = reaches_host ∷ without_closes cs
without_closes (secures ∷ cs) = secures ∷ without_closes cs

-- A step of the connection that fails.
pub data Failure : Type 0 where
  resolve_fails connect_fails tls_handshake_fails ws_handshake_fails : Failure

abbrev pub report_of : Failure → FeedCall
report_of resolve_fails = reports (resolved other_error)
report_of connect_fails = reports (connected true true other_error)
report_of tls_handshake_fails = reports (tls_handshaken other_error)
report_of ws_handshake_fails = reports (ws_handshaken other_error)

-- The source connects, and the feed has heard of no connection and of no failure.
record IsOpening (feed : PendingFeed) : Type 0 where
  feed_closed : feed.state ≡ closed
  source_starting : feed.ws_source.state ≡ starting

module _ (x : External) where
  abbrev progress : PendingFeed → List Progress → PendingFeed
  progress feed cs = feed_run x feed (map call_of cs)

  -- The failure of a step, and the reconnect behind it.
  abbrev pub retries : Failure → PendingFeed → PendingFeed
  retries failure feed = feed_run x feed (report_of failure ∷ reports fires_timer ∷ [])
