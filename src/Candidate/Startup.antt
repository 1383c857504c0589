-- ===== src/Candidate/Startup.antt =====
-- `CandidateSource::run` and `stop` of knight/src/candidate/candidate_source.cpp around the core loop: the
-- start of the block syncer and of the pending feed, each with a wait for it. What the other threads do
-- during a wait is an argument.
mod Tests
pub mod Released
use dex_knight.Prelude.{Bool, List, [], ◌∷◌, true, false, Expected, ok, unexpected, if◌then◌else◌}
use dex_knight.External.{External}
use dex_knight.Common.Config.{PoolConfig, Config}
use dex_knight.Evm.Contracts.{Pool}
use dex_knight.Builder.PendingFeed
use dex_knight.Builder.PendingFeed.{PendingFeed, open_feed}
use dex_knight.Candidate.BlockSyncer
use dex_knight.Candidate.BlockSyncer.{BlockSyncer}
use dex_knight.Candidate.Source
use dex_knight.Candidate.Source.{Source, close_state_waiters}

-- The source with its two inputs.
pub record Inputs : Type 0 where
  pub pending_feed : PendingFeed
  pub block_syncer : BlockSyncer
  pub source : Source

abbrev pub is_ok {ℓ κ} : {A : Type ℓ} {E : Type κ} → Expected A E → Bool
is_ok (ok a) = true
is_ok (unexpected e) = false

-- The pools of the configuration.
unfoldable pub make_pools : List PoolConfig → List Pool
make_pools [] = []
make_pools (pool ∷ pools) =
    record { address = pool.address; token_a = pool.token_a; token_b = pool.token_b }
    ∷ make_pools pools

-- A new source: both inputs have a handler.
abbrev pub constructed : Config → Inputs
constructed config = record {
  pending_feed =
      PendingFeed.new_feed config.builder_ws_endpoint.use_tls config.tls_verify_peer true;
  block_syncer = BlockSyncer.new_syncer true;
  source = Source.opened;
}

-- The source at the end of the wait for the block syncer.
unfoldable pub synced : (Inputs → Inputs) → Inputs → Inputs
unfolding BlockSyncer.start
synced while_syncing s =
    while_syncing (record s { block_syncer = BlockSyncer.start s.block_syncer })

-- The source at the end of the wait for the pending feed.
unfoldable pub fed : External → (Inputs → Inputs) → Inputs → Inputs
unfolding open_feed
fed x while_opening s = while_opening (record s { pending_feed = open_feed x s.pending_feed })

-- The end of `run`: the result of the core loop.
unfoldable pub end_loop : Expected (Unit {0}) Source.Error → Inputs → Inputs
unfolding close_state_waiters
end_loop (ok done) s = s
end_loop (unexpected error) s = record s { source = close_state_waiters s.source }

-- `is_open` is what the stream of the feed's websocket reports, here and below.
module _ (x : External) (is_open : Bool) where
  unfoldable pub stop_inputs : Inputs → Inputs
  unfolding PendingFeed.close BlockSyncer.stop
  stop_inputs s = record s {
    pending_feed = PendingFeed.close x is_open s.pending_feed;
    block_syncer = BlockSyncer.stop s.block_syncer;
  }

  -- `stop`, without the thread.
  unfoldable pub stop : Inputs → Inputs
  unfolding stop_inputs Source.stop
  stop s = let stopped = stop_inputs s in record stopped { source = Source.stop stopped.source }

  unfoldable pub give_up : Inputs → Inputs
  unfolding stop_inputs close_state_waiters
  give_up s =
      let stopped = stop_inputs s in record stopped { source = close_state_waiters stopped.source }

  -- `run`, up to the core loop: true where the loop is entered.
  unfoldable pub start_up : (Inputs → Inputs) → (Inputs → Inputs) → Inputs → Bool × Inputs
  unfolding give_up synced fed BlockSyncer.wait_until_ready PendingFeed.wait_until_ready
  start_up while_syncing while_opening s =
      let first = synced while_syncing s in
      let second = fed x while_opening first in
      if is_ok (BlockSyncer.wait_until_ready first.block_syncer)
      then (if is_ok (PendingFeed.wait_until_ready second.pending_feed)
          then (true, second)
          else (false, give_up second))
      else (false, give_up first)
