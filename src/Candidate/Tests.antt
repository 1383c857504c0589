-- ===== src/Candidate/Tests.antt =====
-- Runs of knight/src/candidate on one pool and a few candidates.
use dex_knight.Prelude.{
  ℕ, ◌≡◌, refl, true, false, arith, List, [], ◌∷◌, none, some, length, drop, leb, same_bytes,
  if◌then◌else◌, ◌>>=◌, ok,
}
use dex_knight.Prelude.Chars.{codes}
use dex_knight.External.{External}
use dex_knight.External.Sample.{sample}
use dex_knight.Common.Queue
use dex_knight.Evm.Contracts.{Pool}
use dex_knight.Builder.RestClient.{Server, Traffic}
use dex_knight.Candidate.Types.{
  PendingTransaction, PendingSnapshot, a_for_b, Candidate, CandidateSnapshot, PoolSnapshot,
  StateSnapshot,
}
use dex_knight.Candidate.Mempool
use dex_knight.Candidate.Mempool.Refines
use dex_knight.Candidate.Mempool.{Mempool}
use dex_knight.Candidate.Mempool.Laws.{IsOrdered}
use dex_knight.Candidate.State
use dex_knight.Candidate.State.{State}
use dex_knight.Candidate.State.Coherent.{IsCoherent}
use dex_knight.Candidate.State.Calls
use dex_knight.Candidate.State.Calls.{
  NotAfter, run-NotAfter, NotAfter, PopsNext, run-initial-IsCoherent, run-NotAfter,
  pop_next_snapshot-PopsNext, applies_snapshot, applies_pending, marks_invalid, pops,
}
use dex_knight.Candidate.Filter.{filter, decode_swap, selector_length}
use dex_knight.Candidate.Filter.Accepted.{call_of, decode_swap-filter}
use dex_knight.Candidate.Source
use dex_knight.Candidate.Source.Stopped.{run_core_loop-stop}
use dex_knight.Candidate.Source.{new_block, pending_transaction}
use dex_knight.Candidate.Source.{Source, opened, wait_pop_state}
use dex_knight.Candidate.Source.Threads
use dex_knight.Candidate.BlockSyncer
use dex_knight.Candidate.BlockSyncer.{BlockSyncer, starting}
use dex_knight.Candidate.BlockSyncer.Published.{IsSynced, run-IsSynced}
use dex_knight.Candidate.Source.Threads.{
  IsConsistent, run-opened-IsConsistent, publishes_new_block, publishes_pending_transaction, rounds,
}
use dex_knight.Candidate.Source.Waiters.{Answers, wait_pop_state-Answers}

abbrev pool : Pool
pool = record { address = 1 ∷ []; token_a = []; token_b = [] }

abbrev tx : ℕ → PendingTransaction
tx seq = record {
  transaction = record {
    hash = none;
    input = 0x4c ∷ 0xab ∷ 0xca ∷ 0x0a ∷ 0 ∷ [];
    from = [];
    chain_id = none;
    value = 0;
    gas_price = none;
    gas = 0;
    max_fee_per_gas = none;
    max_priority_fee_per_gas = none;
    nonce = 0;
    tx_type = 2;
    to = some (1 ∷ []);
  };
  mempool_tx_id = [];
  seq_num = seq;
  status = [];
  submitted_at = [];
}

abbrev candidate : ℕ → Candidate
candidate seq = record { tx = tx seq; pool = pool; swap_kind = a_for_b }

abbrev pending_snapshot : PendingSnapshot
pending_snapshot = record { block_number = 7; snapshot_seq = 4; transactions = tx 3 ∷ tx 2 ∷ [] }

abbrev snapshot : CandidateSnapshot
snapshot = record {
  block_number = 7;
  snapshot_seq = 4;
  candidates = candidate 3 ∷ candidate 2 ∷ [];
}

accepts : filter (pool ∷ []) (tx 3) ≡ some (candidate 3)
unfolding filter same_bytes
accepts = refl

decode_swap-filter_example : decode_swap (sample []) (candidate 3) ≡ (
    if leb (length (tx 3).input) selector_length then none else (do
      arguments ← (sample []).decode_pair (drop selector_length (tx 3).input)
      some (call_of a_for_b arguments)))
decode_swap-filter_example = decode_swap-filter (sample []) (pool ∷ []) (tx 3) (candidate 3) accepts

abbrev mempool : Mempool
mempool = record { candidates = (2, candidate 2) ∷ (5, candidate 5) ∷ []; snapshot_seq = 1 }

mempool-IsOrdered : IsOrdered mempool
mempool-IsOrdered = record { sorted = grind arith; keyed = (refl, (refl, tt)) }

abbrev calls : List Calls.Call
calls = marks_invalid 6 ∷ applies_snapshot snapshot [] ∷ applies_pending (candidate 9) ∷ pops ∷ []

run-NotAfter_example : NotAfter none (Calls.run State.initial calls).block_number
run-NotAfter_example = run-NotAfter State.initial calls

abbrev mempool_calls : List Refines.Call
mempool_calls =
    Refines.applies_pending (candidate 9)
    ∷ Refines.applies_snapshot snapshot
    ∷ Refines.applies_pending (candidate 3)
    ∷ Refines.pops
    ∷ Refines.clears
    ∷ []

results-empty-Allowed_example :
    Refines.Allowed Refines.cleared mempool_calls (Refines.results Mempool.empty mempool_calls)
results-empty-Allowed_example = Refines.results-empty-Allowed mempool_calls

run-initial-IsCoherent_example : IsCoherent (Calls.run State.initial calls)
run-initial-IsCoherent_example = run-initial-IsCoherent calls

pop_next_snapshot-PopsNext_example :
    PopsNext
      (Calls.run State.initial calls)
      (State.pop_next_snapshot (Calls.run State.initial calls))
pop_next_snapshot-PopsNext_example =
    pop_next_snapshot-PopsNext (Calls.run State.initial calls) run-initial-IsCoherent_example

-- A server whose every exchange succeeds.
abbrev server : Server
server = record {
  client = record {
    use_tls = false;
    verify_tls_peer = true;
    host = codes "builder";
    port = codes "80";
  };
  exchange = λ n request. record {
    host_name_set = true;
    verified_host_set = true;
    resolved = true;
    connected = true;
    handshaken = true;
    written = true;
    read = some (record { status = 200; body = [] });
  };
}

abbrev traffic : Traffic
traffic = record { sent = 0; slept = [] }

abbrev new_syncer : BlockSyncer
new_syncer = record {
  has_handler = true;
  running = true;
  current_block = none;
  sync_state = starting;
  published = [];
}

run-IsSynced_example :
    IsSynced (BlockSyncer.run (sample (codes "0x7")) server 2 (new_syncer, traffic)).0
run-IsSynced_example =
    run-IsSynced (sample (codes "0x7")) server 2 new_syncer traffic
      (record { nothing_published = refl; no_block = refl })

abbrev external : External
external = sample (codes "0x")

abbrev thread_calls : List (Threads.Call external (pool ∷ []))
thread_calls =
    publishes_new_block 7
    ∷ rounds server traffic
    ∷ publishes_pending_transaction (tx 3)
    ∷ rounds server traffic
    ∷ []

abbrev waiting : Source
waiting = Threads.run external (pool ∷ []) opened thread_calls

run-opened-IsConsistent_example : IsConsistent waiting
run-opened-IsConsistent_example = run-opened-IsConsistent external (pool ∷ []) thread_calls

abbrev pools : List PoolSnapshot
pools = record { pool = pool; reserve_a = 100000; reserve_b = 1 } ∷ []

abbrev delivered : StateSnapshot
delivered = record {
  valid = true;
  block_number = some 7;
  pools = pools;
  candidate = some (candidate 2);
}

-- A source whose state has two candidates, and what `wait_pop_state` leaves of it.
abbrev source_with : Mempool → Source
source_with mempool = record {
  pending_queue = Queue.empty;
  state = record { local_mempool = mempool; pools = pools; block_number = some 7; valid = true };
  is_closed = false;
  invalid_snapshot_pending = false;
}

abbrev ready : Source
ready = source_with mempool

abbrev left : Source
left = source_with (record mempool { candidates = (5, candidate 5) ∷ [] })

ready-IsConsistent : IsConsistent ready
ready-IsConsistent = record {
  coherent = record { ordered = mempool-IsOrdered; invalid_empty = λ e. cc e; numbered = λ e. tt };
  pending_invalid = λ e. cc e;
}

delivers : wait_pop_state ready ≡ some (ok delivered, left)
unfolding wait_pop_state State.pop_next_snapshot Mempool.pop_next_candidate State.size Mempool.size
delivers = refl

wait_pop_state-Answers_example : Answers ready (ok delivered, left)
wait_pop_state-Answers_example =
    wait_pop_state-Answers ready (ok delivered, left) ready-IsConsistent delivers

-- A source with two events in its queue.
abbrev busy : Source
busy = record ready {
  pending_queue = record { items = new_block 8 ∷ pending_transaction (tx 3) ∷ []; closed = false };
}

run_core_loop-stop_example :
    (t : Traffic) × (Source.run_core_loop external server 3 (pool ∷ []) (Source.stop busy, traffic)
      ≡ some (
        record ready { pending_queue = record { items = []; closed = true }; is_closed = true },
        t,
      ))
run_core_loop-stop_example =
    run_core_loop-stop external server (pool ∷ []) busy traffic 3 (omega arith)
