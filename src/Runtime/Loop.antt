-- ===== src/Runtime/Loop.antt =====
-- `Runtime::run_core_loop` of knight/src/runtime/runtime.cpp.
pub mod Submission
pub mod Sourced
use dex_knight.Prelude.{
  ℕ, ◌*◌, ◌^◌, Bool, true, false, Bytes, List, [], ◌∷◌, Option, none, some, if◌then◌else◌, Expected,
  ok, unexpected,
}
use dex_knight.Prelude.Word.{wrap}
use dex_knight.External.{External}
use dex_knight.Evm.Contracts.{Swap}
use dex_knight.Evm.Transaction.{Transaction}
use dex_knight.Candidate.Types.{Candidate, StateSnapshot}
use dex_knight.Candidate.Filter.{decode_swap}
use dex_knight.Arbitrage.Calculator.{Params, Opportunity, find_arbitrage}
use dex_knight.Builder.Bundle.{Bundle, BundleItem, mempool_tx_ref, own_transaction}
use dex_knight.Builder.Result.{BundleStatus, included, failed, BundleResult, BundleSimulationResult}
use dex_knight.Builder.RestClient.{Error, Server, Traffic}
use dex_knight.Backrun.TxComposer
use dex_knight.Backrun.TxComposer.{TxComposer, compose, mark_nonce_used}
use dex_knight.Runtime.Simulator.{simulate, submit}

-- kTokenUnit
abbrev pub token_unit : ℕ
token_unit = 1000000000000000000

-- kMaxArbitrageAmountInBTokens
abbrev pub max_arbitrage_amount_in_b_tokens : ℕ
max_arbitrage_amount_in_b_tokens = 1000000

abbrev pub make_default_arbitrage_params : Params
make_default_arbitrage_params = record {
  max_amount_in_b = wrap 256 (max_arbitrage_amount_in_b_tokens * token_unit);
  min_profit_b = 0;
  min_output_bps = 0;
}

-- Where a round of the loop ends.
pub data Outcome : Type 0 where
  invalid_state no_candidate not_decoded no_opportunity : Outcome
  not_composed : TxComposer.Error → Outcome
  not_simulated : Error → Outcome
  not_included : BundleSimulationResult → Outcome
  not_submitted : Error → Outcome
  submitted : Bundle → BundleResult → Outcome

-- What a round changes: the composer's nonce and the traffic.
pub record Runtime : Type 0 where
  pub composer : TxComposer
  pub traffic : Traffic

unfoldable pub bundle_of : StateSnapshot → Candidate → Transaction → Bundle
bundle_of state candidate backrun_tx = record {
  block_number = state.block_number;
  transactions = mempool_tx_ref candidate.tx.mempool_tx_id ∷ own_transaction backrun_tx ∷ [];
}

module _ (x : External) (server : Server) where
  -- From the answer to the submission on.
  unfoldable pub after_submission :
      Bundle → Expected BundleResult Error × Traffic → Runtime → Outcome × Runtime
  after_submission bundle (unexpected error, t) r = (not_submitted error, record r { traffic = t })
  after_submission bundle (ok result, t) r =
      (submitted bundle result, record { composer = mark_nonce_used r.composer; traffic = t })

  -- From the answer to the simulation on.
  unfoldable pub after_simulation :
      Bundle → Expected BundleSimulationResult Error × Traffic → Runtime → Outcome × Runtime
  unfolding after_submission
  after_simulation bundle (unexpected error, t) r = (not_simulated error, record r { traffic = t })
  after_simulation bundle (ok simulation, t) r =
      let submits = after_submission bundle (submit x server bundle t) r in
      elim simulation.status [
        | included ↦ submits
        | failed ↦ (not_included simulation, record r { traffic = t })
      ]

  -- From the opportunity on.
  unfoldable pub execute : StateSnapshot → Candidate → Opportunity → Runtime → Outcome × Runtime
  unfolding bundle_of after_simulation
  execute state candidate opportunity r = elim (compose x r.composer opportunity) [
    | unexpected error ↦ (not_composed error, r)
    | ok backrun_tx ↦
        let bundle = bundle_of state candidate backrun_tx in
        after_simulation bundle (simulate x server bundle r.traffic) r
  ]

  -- From the candidate on.
  unfoldable pub consider : StateSnapshot → Candidate → Runtime → Outcome × Runtime
  unfolding execute
  consider state candidate r = elim (decode_swap x candidate) [
    | none ↦ (not_decoded, r)
    | some swap ↦ elim (find_arbitrage state candidate swap make_default_arbitrage_params) [
      | none ↦ (no_opportunity, r)
      | some opportunity ↦ execute state candidate opportunity r
    ]
  ]

  -- One round of the loop, on a state that `wait_pop_state` returned.
  unfoldable pub core_round : StateSnapshot → Runtime → Outcome × Runtime
  unfolding consider
  core_round state r = elim state.candidate [
    | none ↦ (if state.valid then no_candidate else invalid_state, r)
    | some candidate ↦
        let considered = consider state candidate r in
        if state.valid then considered else (invalid_state, r)
  ]

  -- The loop over the states that arrive, until the source is closed, with the rounds' outcomes.
  unfoldable pub run_core_loop : List StateSnapshot → Runtime → List Outcome × Runtime
  unfolding core_round
  run_core_loop [] r = ([], r)
  run_core_loop (state ∷ states) r =
      let (outcome, r') = core_round state r in
      let (outcomes, r'') = run_core_loop states r' in (outcome ∷ outcomes, r'')
