-- ===== src/Builder/PendingFeed/Tests.antt =====
-- Runs of the pending feed.
use dex_knight.Prelude.{true, false, [], ◌∷◌}
use dex_knight.External.Sample.{sample}
use dex_knight.Network.WsSource.{
  no_error, other_error, resolved, connected, ws_handshaken, fires_timer,
}
use dex_knight.Builder.PendingFeed.{new_feed}
use dex_knight.Builder.PendingFeed.Agrees.{Reflects}
use dex_knight.Builder.PendingFeed.Reflects.{
  feed_run, opens, reports, closes_feed, feed_run-Reflects,
}

feed_run-Reflects_example :
    let feed = feed_run (sample []) (new_feed false false true) (
      opens
      ∷ reports (resolved other_error)
      ∷ reports fires_timer
      ∷ reports (resolved no_error)
      ∷ reports (connected true true no_error)
      ∷ reports (ws_handshaken no_error)
      ∷ closes_feed true
      ∷ []) in
    Reflects feed.ws_source.state feed.state
feed_run-Reflects_example = feed_run-Reflects (sample []) false false true (
    opens
    ∷ reports (resolved other_error)
    ∷ reports fires_timer
    ∷ reports (resolved no_error)
    ∷ reports (connected true true no_error)
    ∷ reports (ws_handshaken no_error)
    ∷ closes_feed true
    ∷ [])
