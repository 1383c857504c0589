-- ===== src/Candidate/Startup/Tests.antt =====
-- A start whose block syncer becomes ready and whose pending feed is never connected.
use dex_knight.Prelude.{◌≡◌, ◌⊎◌, true, false, []}
use dex_knight.External.Sample.{sample}
use dex_knight.Builder.PendingFeed
use dex_knight.Candidate.BlockSyncer
use dex_knight.Candidate.Source
use dex_knight.Candidate.Startup.{Inputs, synced, start_up}
use dex_knight.Candidate.Startup.Released.{IsReleased, start_up-IsReleased}

abbrev new_inputs : Inputs
new_inputs = record {
  pending_feed = PendingFeed.new_feed true true true;
  block_syncer = BlockSyncer.new_syncer true;
  source = Source.opened;
}

abbrev syncs : Inputs → Inputs
syncs s = record s { block_syncer = record s.block_syncer { sync_state = BlockSyncer.ready } }

abbrev nothing : Inputs → Inputs
nothing s = s

start_up-IsReleased_example :
    let (entered, s') = start_up (sample []) true syncs nothing new_inputs in
    ((entered ≡ true)
      × ((synced syncs new_inputs).block_syncer.sync_state ≡ BlockSyncer.ready)
      × (s'.pending_feed.state ≡ PendingFeed.opened))
    ⊎ ((entered ≡ false) × IsReleased s')
start_up-IsReleased_example = start_up-IsReleased (sample []) true syncs nothing new_inputs
