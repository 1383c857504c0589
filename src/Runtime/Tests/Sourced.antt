-- ===== src/Runtime/Tests/Sourced.antt =====
-- A run of the source that delivers the state of the loop's tests.
use dex_knight.Prelude.{◌⊎◌, same_bytes, ◌≡◌, refl, true, false, List, [], ◌∷◌, some, ok}
use dex_knight.Evm.Contracts.{Pool}
use dex_knight.Common.Queue
use dex_knight.Candidate.Mempool
use dex_knight.Candidate.State
use dex_knight.Network
use dex_knight.Utils.Fields.{c_str, json_int64, has_hex_prefix}
use dex_knight.Common.SortedMap.{insert_or_assign}
use dex_knight.Utils.Fields.{
  parse_to_json, parse_to_json_object, parse_hex_bytes, json_string, json_uint64, json_array,
}
use dex_knight.Builder.Pending.{pending_snapshot_from_json}
use dex_knight.Builder.RestClient.{
  request_chain_call, request_snapshot, post_with_retry, get_with_retry,
}
use dex_knight.Candidate.Filter.{filter, filter_snapshot, pool_snapshot_from_json}
use dex_knight.Candidate.Source.{
  Source, opened, wait_pop_state, core_round, publish_new_block, publish_pending_transaction,
  handle_new_block_event, handle_pending_tx_event, apply_pending_candidate, apply_state_snapshot,
}
use dex_knight.Candidate.Source.Threads
use dex_knight.Candidate.Source.Threads.{publishes_new_block, publishes_pending_transaction, rounds}
use dex_knight.Candidate.Source.Told.{AreAt, IsTold, wait_pop_state-AreAt}
use dex_knight.Runtime.Loop.Sourced.{IsSourced, core_round-IsSourced}
use dex_knight.Runtime.Tests.{
  external, server, pool_at, candidate, state, bundle, result, runtime, submits,
}

abbrev pools : List Pool
pools = (pool_at 1).pool ∷ (pool_at 2).pool ∷ []

abbrev calls : List (Threads.Call external pools)
calls =
    publishes_new_block 7
    ∷ rounds server (record { sent = 0; slept = [] })
    ∷ publishes_pending_transaction candidate.tx
    ∷ rounds server (record { sent = 0; slept = [] })
    ∷ []

-- The source behind the call of `wait_pop_state`.
abbrev left : Source
left = record {
  pending_queue = Queue.empty;
  state = record {
    local_mempool = record { candidates = []; snapshot_seq = 1 };
    pools = pool_at 1 ∷ pool_at 2 ∷ [];
    block_number = some 7;
    valid = true;
  };
  is_closed = false;
  invalid_snapshot_pending = false;
}

waited : wait_pop_state (Threads.run external pools opened calls) ≡ some (ok state, left)
unfolding Threads.run wait_pop_state Threads.step core_round Queue.wait_pop
    publish_pending_transaction Queue.try_push publish_new_block handle_new_block_event
    request_chain_call Network.post Network.get post_with_retry get_with_retry parse_to_json
    pool_snapshot_from_json json_string parse_hex_bytes request_snapshot parse_to_json_object
    pending_snapshot_from_json json_uint64 json_int64 c_str has_hex_prefix json_array
    handle_pending_tx_event filter filter_snapshot apply_pending_candidate apply_state_snapshot
    State.apply_snapshot Mempool.apply_snapshot Mempool.apply_pending_tx State.apply_pending_tx
    insert_or_assign same_bytes State.pop_next_snapshot Mempool.pop_next_candidate State.size
    Mempool.size Mempool.index_by_seq
waited = refl

core_round-IsSourced_example : IsSourced external pools calls state bundle
core_round-IsSourced_example =
    core_round-IsSourced external pools calls server state left (runtime 5 0) (runtime 6 2) bundle
      result waited submits

wait_pop_state-AreAt_example :
    (state.valid ≡ false) ⊎ AreAt external pools (IsTold external pools calls) (some 7) state.pools
wait_pop_state-AreAt_example = wait_pop_state-AreAt external pools calls state left waited
