-- ===== src/Candidate/Startup/Released.antt =====
-- The end of the start of the candidate source.
use dex_knight.Prelude.{
  ◌≡◌, ◌⊎◌, inl, inr, refl, Bool, true, false, arith, some, unexpected, Bool-cases,
}
use dex_knight.External.{External}
use dex_knight.Builder.PendingFeed
use dex_knight.Builder.PendingFeed.{PendingFeed}
use dex_knight.Candidate.BlockSyncer
use dex_knight.Candidate.BlockSyncer.{BlockSyncer}
use dex_knight.Candidate.Source
use dex_knight.Candidate.Source.{wait_pop_state, close_state_waiters}
use dex_knight.Candidate.Startup.{Inputs, is_ok, stop_inputs, give_up, synced, fed, start_up}

-- The waiters for a state are released, and the polls of the block syncer end.
pub record IsReleased (s : Inputs) : Type 0 where
  pub answers : wait_pop_state s.source ≡ some (unexpected Source.closed, s.source)
  pub syncer_stopped : s.block_syncer.sync_state ≡ BlockSyncer.stopped
  pub polls_stopped : s.block_syncer.running ≡ false

syncer_ready :
    (s : BlockSyncer)
    → is_ok (BlockSyncer.wait_until_ready s) ≡ true
    → s.sync_state ≡ BlockSyncer.ready
unfolding BlockSyncer.wait_until_ready
syncer_ready s h = ground arith

feed_ready :
    (feed : PendingFeed)
    → is_ok (PendingFeed.wait_until_ready feed) ≡ true
    → feed.state ≡ PendingFeed.opened
unfolding PendingFeed.wait_until_ready
feed_ready feed h = ground arith

module _ (x : External) (is_open : Bool) where
  give_up-IsReleased : (s : Inputs) → IsReleased (give_up x is_open s)
  unfolding give_up stop_inputs close_state_waiters wait_pop_state BlockSyncer.stop
  give_up-IsReleased s = record { answers = refl; syncer_stopped = refl; polls_stopped = refl }

  module _ (while_syncing while_opening : Inputs → Inputs) (s : Inputs) where
    -- Whatever the other threads do during the two waits: where the start enters the core loop, the block
    -- syncer was ready at the end of its wait and the pending feed is open at the end of its own;
    -- otherwise the start stops the block syncer and closes the source, so that a wait for a state
    -- returns CLOSED.
    pub start_up-IsReleased :
        let (entered, s') = start_up x is_open while_syncing while_opening s in
        ((entered ≡ true)
          × ((synced while_syncing s).block_syncer.sync_state ≡ BlockSyncer.ready)
          × (s'.pending_feed.state ≡ PendingFeed.opened))
        ⊎ ((entered ≡ false) × IsReleased s')
    unfolding start_up
    start_up-IsReleased =
        let first = synced while_syncing s in
        let second = fed x while_opening first in
        elim (Bool-cases (is_ok (BlockSyncer.wait_until_ready first.block_syncer))) [
          | inr e ↦ rw e (inr (refl, give_up-IsReleased first))
          | inl e ↦ elim (Bool-cases (is_ok (PendingFeed.wait_until_ready second.pending_feed))) [
            | inr f ↦ rw e (rw f (inr (refl, give_up-IsReleased second)))
            | inl f ↦ rw e (
                rw f
                  (inl (refl, syncer_ready first.block_syncer e, feed_ready second.pending_feed f)))
          ]
        ]
