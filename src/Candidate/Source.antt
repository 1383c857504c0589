-- ===== src/Candidate/Source.antt =====
-- `CandidateSource` of knight/src/candidate/candidate_source.cpp: the event queue between the builder's
-- feeds and the state, and the state that the runtime waits for. A call that holds
-- `m_state_wait_mutex` is a function of the state; `none` of `wait_pop_state` means that the caller
-- stays blocked. A round of the core loop touches the state once, behind its requests, and no other
-- thread takes from the queue, so a round is one step.
pub mod Threads
pub mod Waiters
pub mod Origin
pub mod Reported
pub mod Reserves
pub mod Told
pub mod Stopped
use dex_knight.Prelude.{
  ℕ, zero, suc, Bool, true, false, ◌||◌, Bytes, List, [], ◌∷◌, Option, none, some, ltb,
  if◌then◌else◌, Expected, ok, unexpected,
}
use dex_knight.Prelude.Chars.{codes}
use dex_knight.External.{External}
use dex_knight.Common.Queue
use dex_knight.Common.Queue.{Queue}
use dex_knight.Utils.Fields.{parse_to_json, parse_to_json_object}
use dex_knight.Utils.Hex.{hex_data, hex_quantity}
use dex_knight.Evm.Contracts.{Pool, get_reserves_selector}
use dex_knight.Evm.Transaction.{set_text}
use dex_knight.Candidate.Types.{
  PendingTransaction, Candidate, CandidateSnapshot, PoolSnapshot, StateSnapshot,
}
use dex_knight.Candidate.State
use dex_knight.Candidate.State.{State}
use dex_knight.Candidate.Filter.{filter, filter_snapshot, pool_snapshot_from_json}
use dex_knight.Builder.Pending.{pending_snapshot_from_json}
use dex_knight.Builder.RestClient
use dex_knight.Builder.RestClient.{Server, Traffic, request_chain_call, request_snapshot}

-- candidate::Error
pub data Error : Type 0 where
  request_error timeout closed : Error

unfoldable pub error_to_string : Error → Bytes
error_to_string request_error = codes "REQUEST_ERROR"
error_to_string timeout = codes "TIMEOUT"
error_to_string closed = codes "CLOSED"

-- candidate::Event, the variant of NewBlockEvent and PendingTransactionEvent. The ingress time and
-- the source of an event are read by nothing but the log.
pub data Event : Type 0 where
  new_block : ℕ → Event
  pending_transaction : PendingTransaction → Event

-- `Queue<Event, 10'000>`
abbrev pub queue_capacity : ℕ
queue_capacity = 10000

pub record Source : Type 0 where
  pub pending_queue : Queue Event
  pub state : State
  pub is_closed : Bool
  pub invalid_snapshot_pending : Bool

abbrev pub opened : Source
opened = record {
  pending_queue = Queue.empty;
  state = State.initial;
  is_closed = false;
  invalid_snapshot_pending = false;
}

unfoldable pub close_state_waiters : Source → Source
close_state_waiters s = record s { is_closed = true }

-- `stop`, without the feeds and the thread.
unfoldable pub stop : Source → Source
unfolding close_state_waiters
stop s = close_state_waiters (record s { pending_queue = Queue.close s.pending_queue })

unfoldable pub popped_state :
    Source → Option StateSnapshot × State → Expected StateSnapshot Error × Source
popped_state s (none, state) = (unexpected closed, record s { state = state })
popped_state s (some snapshot, state) = (ok snapshot, record s { state = state })

unfoldable pub wait_pop_state : Source → Option (Expected StateSnapshot Error × Source)
unfolding popped_state
wait_pop_state s =
    if s.is_closed || (s.invalid_snapshot_pending || ltb 0 (State.size s.state))
    then some (
        if s.is_closed
        then (unexpected closed, s)
        else if s.invalid_snapshot_pending
        then (ok (State.snapshot s.state), record s { invalid_snapshot_pending = false })
        else popped_state s (State.pop_next_snapshot s.state))
    else none

unfoldable pub mark_state_invalid : ℕ → Source → Bool × Source
mark_state_invalid block_number s =
    let (marked, state) = State.mark_invalid block_number s.state in
    if s.is_closed
    then (false, s)
    else if marked
    then (true, record s { state = state; invalid_snapshot_pending = true })
    else (false, record s { state = state })

unfoldable pub apply_state_snapshot : CandidateSnapshot → List PoolSnapshot → Source → Bool × Source
apply_state_snapshot snapshot pools s =
    let (applied, state) = State.apply_snapshot snapshot pools s.state in
    if s.is_closed
    then (false, s)
    else if applied
    then (true, record s { state = state; invalid_snapshot_pending = false })
    else (false, record s { state = state })

unfoldable pub apply_pending_candidate : Candidate → Source → Bool × Source
apply_pending_candidate candidate s =
    let (accepted, state) = State.apply_pending_tx candidate s.state in
    if s.is_closed then (false, s) else (accepted, record s { state = state })

unfoldable pub publish_new_block : ℕ → Source → Source
publish_new_block block_number s = record s {
  pending_queue = (Queue.try_push queue_capacity (new_block block_number) s.pending_queue).1;
}

unfoldable pub publish_pending_transaction : PendingTransaction → Source → Source
publish_pending_transaction tx s = record s {
  pending_queue = (Queue.try_push queue_capacity (pending_transaction tx) s.pending_queue).1;
}

unfoldable pub handle_pending_tx_event : List Pool → PendingTransaction → Source → Source
handle_pending_tx_event pools tx s = elim (filter pools tx) [
  | none ↦ s
  | some candidate ↦ (apply_pending_candidate candidate s).1
]

module _ (x : External) (server : Server) where
  -- The reserves in a raw response to a chain call.
  unfoldable pub read_reserves : Pool → Expected Bytes RestClient.Error → Option PoolSnapshot
  read_reserves pool (unexpected error) = none
  read_reserves pool (ok raw_response) = elim (parse_to_json x raw_response) [
    | none ↦ none
    | some response_json ↦ pool_snapshot_from_json x pool response_json
  ]

  unfoldable pub reserves_payload : Pool → ℕ → x.Object
  reserves_payload pool block_number = set_text x "block" (hex_quantity block_number) (
      set_text x "data" (hex_data get_reserves_selector)
        (set_text x "to" (hex_data pool.address) x.no_fields))

  unfoldable pub request_pool_snapshots :
      ℕ → List Pool → Traffic → Option (List PoolSnapshot) × Traffic
  unfolding read_reserves reserves_payload
  request_pool_snapshots block_number [] t = (some [], t)
  request_pool_snapshots block_number (pool ∷ pools) t =
      let (raw_response, t1) = request_chain_call server x (reserves_payload pool block_number) t in
      let (rest, t2) = request_pool_snapshots block_number pools t1 in
      elim (read_reserves pool raw_response) [
        | none ↦ (none, t1)
        | some snapshot ↦ elim rest [
          | none ↦ (none, t2)
          | some snapshots ↦ (some (snapshot ∷ snapshots), t2)
        ]
      ]

  -- The snapshot of the builder in a raw response, filtered.
  unfoldable pub read_snapshot :
      List Pool → ℕ → Expected Bytes RestClient.Error → Option CandidateSnapshot
  read_snapshot pools block_number (unexpected error) = none
  read_snapshot pools block_number (ok raw_snapshot) = elim (parse_to_json_object x raw_snapshot) [
    | none ↦ none
    | some snapshot_json ↦ elim (pending_snapshot_from_json x snapshot_json block_number) [
      | none ↦ none
      | some snapshot ↦ some (filter_snapshot pools snapshot)
    ]
  ]

  unfoldable pub handle_new_block_event : List Pool → ℕ → Source × Traffic → Source × Traffic
  unfolding request_pool_snapshots read_snapshot
  handle_new_block_event pools block_number (s, t) =
      let (pool_snapshots, t1) = request_pool_snapshots block_number pools t in
      let (snapshot_res, t2) = request_snapshot server t1 in
      elim pool_snapshots [
        | none ↦ ((mark_state_invalid block_number s).1, t1)
        | some snapshots ↦ elim (read_snapshot pools block_number snapshot_res) [
          | none ↦ ((mark_state_invalid block_number s).1, t2)
          | some candidates ↦ ((apply_state_snapshot candidates snapshots s).1, t2)
        ]
      ]

  -- One round of `run_core_loop`: none where it is blocked on the queue or has left the loop.
  unfoldable pub handle_event : List Pool → Event → Source × Traffic → Source × Traffic
  handle_event pools (new_block block_number) (s, t) =
      handle_new_block_event pools block_number (s, t)
  handle_event pools (pending_transaction tx) (s, t) = (handle_pending_tx_event pools tx s, t)

  -- What the round does with the result of `wait_pop`.
  unfoldable pub deliver :
      List Pool → Source × Traffic → Option (Option Event × Queue Event) → Option (Source × Traffic)
  unfolding handle_event
  deliver pools (s, t) none = none
  deliver pools (s, t) (some (none, queue)) = none
  deliver pools (s, t) (some (some event, queue)) =
      some (handle_event pools event (record s { pending_queue = queue }, t))

  unfoldable pub core_round : List Pool → Source × Traffic → Option (Source × Traffic)
  unfolding deliver
  core_round pools (s, t) = deliver pools (s, t) (Queue.wait_pop s.pending_queue)

  -- `run_core_loop` in at most `fuel` rounds: none where they are used up, and where the loop is
  -- blocked on an empty queue that is open.
  unfoldable pub run_core_loop : ℕ → List Pool → Source × Traffic → Option (Source × Traffic)
  run_core_loop zero pools (s, t) = none
  run_core_loop (suc fuel) pools (s, t) = elim (Queue.wait_pop s.pending_queue) [
    | none ↦ none
    | some (event, queue) ↦ elim event [
      | none ↦ some (record s { pending_queue = queue }, t)
      | some e ↦
          run_core_loop fuel pools (handle_event pools e (record s { pending_queue = queue }, t))
    ]
  ]
