-- ===== src/Builder/PendingFeed/Reflects.antt =====
-- The state of the feed against the state of its source.
use dex_knight.Prelude.{◌≡◌, refl, ◌∙◌, Bool, List, [], ◌∷◌, arith}
use dex_knight.External.{External}
use dex_knight.Network.WsSource.{Action, WsSource, start, stop, restart, Call, step}
use dex_knight.Builder.PendingFeed.{
  FeedState, PendingFeed, set_state, on_ws_message, on_ws_state, on_ws_error, on_action, handle,
  through, new_feed, open_feed, close, reopen,
}
use dex_knight.Builder.PendingFeed.Agrees.{
  Reflects, Agrees, handle-state_after, start-Agrees, stop-Agrees, restart-Agrees, step-Agrees,
}

-- A call of the feed, or one of the source by the network or the timer.
pub data FeedCall : Type 0 where
  opens : FeedCall
  closes_feed reopens : Bool → FeedCall
  reports : Call → FeedCall

module _ (x : External) where
  unfoldable pub feed_step : PendingFeed → FeedCall → PendingFeed
  feed_step feed opens = open_feed x feed
  feed_step feed (closes_feed is_open) = close x is_open feed
  feed_step feed (reopens is_open) = reopen x is_open feed
  feed_step feed (reports c) = through x (λ s. step s c) feed

  unfoldable pub feed_run : PendingFeed → List FeedCall → PendingFeed
  feed_run feed [] = feed
  feed_run feed (c ∷ cs) = feed_run (feed_step feed c) cs

  on_action-ws_source :
      (a : Action) (feed : PendingFeed) → (on_action x a feed).ws_source ≡ feed.ws_source
  unfolding on_action on_ws_state on_ws_error set_state on_ws_message
  on_action-ws_source a feed = ground arith

  handle-ws_source :
      (actions : List Action) (feed : PendingFeed)
      → (handle x actions feed).ws_source ≡ feed.ws_source
  unfolding handle
  handle-ws_source [] feed = refl
  handle-ws_source (a ∷ earlier) feed =
      on_action-ws_source a (handle x earlier feed) ∙ handle-ws_source earlier feed

  abbrev IsReflected : PendingFeed → Type 0
  IsReflected feed = Reflects feed.ws_source.state feed.state

  through-IsReflected :
      (call : WsSource → WsSource) (feed : PendingFeed)
      → ((base : FeedState) (s : WsSource) → Agrees base s → Agrees base (call s))
      → IsReflected feed
      → IsReflected (through x call feed)
  unfolding through
  through-IsReflected call feed kept v =
      let after = call (record feed.ws_source { actions = [] }) in
      let relayed = record feed { ws_source = after } in
      rw (handle-ws_source after.actions relayed) (
        rw (handle-state_after x after.actions relayed)
          (kept feed.state (record feed.ws_source { actions = [] }) v))

  feed_step-IsReflected :
      (feed : PendingFeed) (c : FeedCall) → IsReflected feed → IsReflected (feed_step feed c)
  unfolding feed_step open_feed close reopen
  feed_step-IsReflected feed opens v =
      ground (arith, through-IsReflected start feed (λ base s h. start-Agrees base s h) v)
  feed_step-IsReflected feed (closes_feed is_open) v =
      ground (
        arith,
        through-IsReflected (stop is_open) feed (λ base s h. stop-Agrees base is_open s h) v,
      )
  feed_step-IsReflected feed (reopens is_open) v =
      through-IsReflected (restart is_open) feed (λ base s h. restart-Agrees base is_open s h) v
  feed_step-IsReflected feed (reports c) v =
      through-IsReflected (λ s. step s c) feed (λ base s h. step-Agrees base s c h) v

  feed_run-IsReflected :
      (feed : PendingFeed) (cs : List FeedCall) → IsReflected feed → IsReflected (feed_run feed cs)
  unfolding feed_run
  feed_run-IsReflected feed [] v = v
  feed_run-IsReflected feed (c ∷ cs) v =
      feed_run-IsReflected (feed_step feed c) cs (feed_step-IsReflected feed c v)

  -- Over any calls on a new feed and any reports of the network: the feed is open while its source
  -- runs, closed while it is stopped and failed while it has failed.
  pub feed_run-Reflects :
      (use_tls verify_tls_peer has_handler : Bool) (cs : List FeedCall)
      → let feed = feed_run (new_feed use_tls verify_tls_peer has_handler) cs in
        Reflects feed.ws_source.state feed.state
  feed_run-Reflects use_tls verify_tls_peer has_handler cs =
      feed_run-IsReflected (new_feed use_tls verify_tls_peer has_handler) cs refl
