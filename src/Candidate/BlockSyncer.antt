-- ===== src/Candidate/BlockSyncer.antt =====
-- `BlockSyncer` of knight/src/candidate/block_syncer.cpp: it polls the head of the chain and publishes
-- each new block number. `published` are the calls of its handler, newest first.
pub mod Published
use dex_knight.Prelude.{
  ℕ, zero, suc, Bool, true, false, Bytes, List, [], ◌∷◌, Option, none, some, ◌==◌, if◌then◌else◌,
  ◌>>=◌, Expected, ok, unexpected,
}
use dex_knight.External.{External}
use dex_knight.Utils.Fields.{parse_to_json_object, json_string, parse_hex_quantity}
use dex_knight.Builder.RestClient
use dex_knight.Candidate.Source
use dex_knight.Builder.RestClient.{Server, Traffic, request_chain_head}

-- BlockSyncer::State
pub data SyncState : Type 0 where
  stopped starting ready sync_failed : SyncState

pub record BlockSyncer : Type 0 where
  pub has_handler : Bool
  pub running : Bool
  pub current_block : Option ℕ
  pub sync_state : SyncState
  pub published : List ℕ

-- A new block syncer.
abbrev pub new_syncer : Bool → BlockSyncer
new_syncer has_handler = record {
  has_handler = has_handler;
  running = false;
  current_block = none;
  sync_state = stopped;
  published = [];
}

unfoldable pub publish_new_block : ℕ → BlockSyncer → Bool × BlockSyncer
publish_new_block block_number s =
    if s.has_handler
    then (true, record s { published = block_number ∷ s.published })
    else (false, s)

-- `m_current_block && *last_block == *m_current_block`
unfoldable pub is_current : ℕ → Option ℕ → Bool
is_current block_number none = false
is_current block_number (some current) = block_number == current

-- What a poll does with the last block that it fetched.
unfoldable pub observe : Option ℕ → BlockSyncer → BlockSyncer
unfolding publish_new_block is_current
observe none s = s
observe (some last_block) s =
    let (done, s') = publish_new_block last_block s in
    if is_current last_block s.current_block
    then s
    else if done
    then record s' { current_block = some last_block }
    else s'

-- What the start does with it, up to the core loop: true where the loop is entered.
unfoldable pub initialize : Option ℕ → BlockSyncer → Bool × BlockSyncer
unfolding publish_new_block
initialize none s = (false, record s { sync_state = sync_failed })
initialize (some last_block) s =
    let (done, s') = publish_new_block last_block s in
    if done
    then (true, record s' { current_block = some last_block; sync_state = ready })
    else (false, record s' { sync_state = sync_failed })

module _ (x : External) (server : Server) where
  unfoldable pub parse_last_block : Bytes → Option ℕ
  parse_last_block body = do
    json ← parse_to_json_object x body
    block_number_raw ← json_string x json "blockNumber"
    parse_hex_quantity block_number_raw

  unfoldable pub read_head : Expected Bytes RestClient.Error → Option ℕ
  unfolding parse_last_block
  read_head (unexpected error) = none
  read_head (ok head) = parse_last_block head

  unfoldable pub fetch_last_block : Traffic → Option ℕ × Traffic
  unfolding read_head
  fetch_last_block t = let (head_res, t') = request_chain_head server t in (read_head head_res, t')

  -- The polls until the stop: that many waits end by the timeout.
  unfoldable pub run_core_loop : ℕ → BlockSyncer × Traffic → BlockSyncer × Traffic
  unfolding fetch_last_block observe
  run_core_loop zero (s, t) = (s, t)
  run_core_loop (suc polls) (s, t) =
      let (last_block, t') = fetch_last_block t in run_core_loop polls (observe last_block s, t')

  -- `run`, on a thread that is stopped after that many polls.
  unfoldable pub run : ℕ → BlockSyncer × Traffic → BlockSyncer × Traffic
  unfolding run_core_loop initialize
  run polls (s, t) =
      let (last_block, t') = fetch_last_block t in
      let (entered, s') = initialize last_block s in
      let looped = run_core_loop polls (s', t') in if entered then looped else (s', t')

-- `start`: the state of the syncer and the flag of the thread that it starts.
unfoldable pub start : BlockSyncer → BlockSyncer
start s = if s.running then s else record s { sync_state = starting; running = true }

-- `stop`, with the flag of the thread that it stops.
unfoldable pub stop : BlockSyncer → BlockSyncer
stop s = record s { sync_state = stopped; running = false }

-- `wait_until_ready`, on the syncer at the end of the wait: the wait ends before its timeout only in one
-- of the three other states.
unfoldable pub wait_until_ready : BlockSyncer → Expected (Unit {0}) Source.Error
wait_until_ready s = elim s.sync_state [
  | starting ↦ unexpected Source.timeout
  | ready ↦ ok tt
  | stopped ↦ unexpected Source.request_error
  | sync_failed ↦ unexpected Source.request_error
]
