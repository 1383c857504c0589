-- ===== src/Runtime/Loop/Sourced.antt =====
-- The core loop behind the source: what a submitted bundle rests on, from the builder's reports to the
-- bundle. The loop is in knight/src/runtime/runtime.cpp, the source in
-- knight/src/candidate/candidate_source.cpp.
use dex_knight.Prelude.{◌≡◌, sym, ap, subst, List, [], ◌∷◌, some, inl, inr, ok}
use dex_knight.External.{External}
use dex_knight.Evm.Contracts.{Pool, Swap}
use dex_knight.Evm.Transaction.{Transaction}
use dex_knight.Candidate.Types.{Candidate, StateSnapshot}
use dex_knight.Candidate.Filter.{decode_swap}
use dex_knight.Candidate.Filter.Accepted.{IsAccepted}
use dex_knight.Candidate.Source.{Source, opened, wait_pop_state}
use dex_knight.Candidate.Source.Threads.{Call, run}
use dex_knight.Candidate.Source.Reported.{IsReported, wait_pop_state-IsReported}
use dex_knight.Candidate.Source.Told.{AreAt, IsTold, wait_pop_state-AreAt}
use dex_knight.Arbitrage.Calculator.{Opportunity, find_arbitrage}
use dex_knight.Arbitrage.Calculator.Profit.{IsProfitable, find_arbitrage-IsProfitable}
use dex_knight.Builder.Bundle.{Bundle, mempool_tx_ref, own_transaction}
use dex_knight.Builder.Result.{BundleResult}
use dex_knight.Builder.RestClient.{Server}
use dex_knight.Runtime.Loop.{
  make_default_arbitrage_params, submitted, Runtime, bundle_of, core_round,
}
use dex_knight.Runtime.Loop.Submission.{core_round-HasPassed}

module _ (x : External) (pools : List Pool) (cs : List (Call x pools)) where
  -- What a bundle rests on: a reported transaction to a configured pool, the reserves that the builder
  -- told for the configured pools at the block of the bundle, and an opportunity on these.
  pub record IsSourced (state : StateSnapshot) (bundle : Bundle) : Type 0 where
    pub candidate : Candidate
    pub swap : Swap
    pub opportunity : Opportunity
    pub backrun_tx : Transaction
    pub reported : IsReported x pools cs candidate.tx
    pub accepted : IsAccepted pools candidate.tx candidate
    pub reserves : AreAt x pools (IsTold x pools cs) bundle.block_number state.pools
    pub decoded : decode_swap x candidate ≡ some swap
    pub found : find_arbitrage state candidate swap make_default_arbitrage_params ≡ some opportunity
    pub profitable : IsProfitable make_default_arbitrage_params opportunity
    pub pair :
        bundle.transactions
        ≡ mempool_tx_ref candidate.tx.mempool_tx_id ∷ own_transaction backrun_tx ∷ []

  -- A round on what `wait_pop_state` returned after any calls on a new source submits a bundle only if a
  -- call reported the transaction that the bundle refers to, the filter accepted it for a configured pool,
  -- and the opportunity is profitable on reserves that the builder told, for exactly the configured
  -- pools, at the block number of the bundle.
  pub core_round-IsSourced :
      (server : Server) (state : StateSnapshot) (s' : Source) (r r' : Runtime) (bundle : Bundle)
      (result : BundleResult)
      → wait_pop_state (run x pools opened cs) ≡ some (ok state, s')
      → core_round x server state r ≡ (submitted bundle result, r')
      → IsSourced state bundle
  unfolding bundle_of
  core_round-IsSourced server state s' r r' bundle result waited submits =
      let passed = core_round-HasPassed x server state r r' bundle result submits in
      let same_block : state.block_number ≡ bundle.block_number =
        sym (ap (λ (b : Bundle). b.block_number) passed.bundled) in
      let reserves : AreAt x pools (IsTold x pools cs) state.block_number state.pools =
        elim (wait_pop_state-AreAt x pools cs state s' waited) [
          | inl invalid ↦ cc (invalid, passed.valid)
          | inr told ↦ told
        ] in
      elim (wait_pop_state-IsReported x pools cs state s' waited) [
        | inl no_candidate ↦ cc (no_candidate, passed.carried)
        | inr (c, carried, reported, accepted) ↦
            let same : c ≡ passed.candidate = cc (carried, passed.carried) in
            record {
              candidate = passed.candidate;
              swap = passed.swap;
              opportunity = passed.opportunity;
              backrun_tx = passed.backrun_tx;
              reported = subst (λ d. IsReported x pools cs d.tx) same reported;
              accepted = subst (λ d. IsAccepted pools d.tx d) same accepted;
              reserves =
                  subst (λ n. AreAt x pools (IsTold x pools cs) n state.pools) same_block reserves;
              decoded = passed.decoded;
              found = passed.found;
              profitable =
                  (find_arbitrage-IsProfitable state passed.candidate passed.swap
                    make_default_arbitrage_params passed.opportunity passed.found).0;
              pair = ap (λ (b : Bundle). b.transactions) passed.bundled;
            }
      ]
