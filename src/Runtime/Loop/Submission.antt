-- ===== src/Runtime/Loop/Submission.antt =====
-- What a submitted bundle has passed, and the nonce after the rounds.
use dex_knight.Prelude.{
  ℕ, suc, ◌+◌, ◌^◌, ◌<◌, ◌≡◌, refl, sym, subst, ◌∙◌, ap, arith, true, List, [], ◌∷◌, Option, some,
  Expected, ok, unexpected, Option-cases, inl, inr, ◌⊎◌,
}
use dex_knight.Prelude.Word.{wrap-eq}
use dex_knight.External.{External}
use dex_knight.Evm.Contracts.{Swap}
use dex_knight.Evm.Transaction.{Transaction}
use dex_knight.Candidate.Types.{Candidate, StateSnapshot}
use dex_knight.Candidate.Filter.{decode_swap}
use dex_knight.Arbitrage.Calculator.{Opportunity, find_arbitrage}
use dex_knight.Builder.Bundle.{Bundle}
use dex_knight.Builder.Result.{BundleStatus, included, failed, BundleResult, BundleSimulationResult}
use dex_knight.Builder.RestClient.{Error, Server, Traffic}
use dex_knight.Backrun.TxComposer.{TxComposer, compose, mark_nonce_used}
use dex_knight.Runtime.Simulator.{simulate, submit}
use dex_knight.Runtime.Loop.{
  make_default_arbitrage_params, Outcome, invalid_state, no_candidate, not_decoded, no_opportunity,
  not_composed, not_simulated, not_included, not_submitted, submitted, Runtime, after_submission,
  after_simulation, bundle_of, execute, consider, core_round, run_core_loop,
}

status_cases : (s : BundleStatus) → (s ≡ included) ⊎ (s ≡ failed)
status_cases included = inl refl
status_cases failed = inr refl

-- The rounds that submitted a bundle.
abbrev pub submissions : List Outcome → ℕ
submissions [] = 0
submissions (submitted bundle result ∷ outcomes) = suc (submissions outcomes)
submissions (outcome ∷ outcomes) = submissions outcomes

module _ (x : External) (server : Server) where
  -- What a round has found when it submits a bundle.
  pub record HasPassed (state : StateSnapshot) (r : Runtime) (bundle : Bundle)
      (result : BundleResult) : Type 0 where
    pub candidate : Candidate
    pub swap : Swap
    pub opportunity : Opportunity
    pub backrun_tx : Transaction
    pub simulation : BundleSimulationResult
    pub valid : state.valid ≡ true
    pub carried : state.candidate ≡ some candidate
    pub decoded : decode_swap x candidate ≡ some swap
    pub found : find_arbitrage state candidate swap make_default_arbitrage_params ≡ some opportunity
    pub composed : compose x r.composer opportunity ≡ ok backrun_tx
    pub bundled : bundle ≡ bundle_of state candidate backrun_tx
    pub simulated : (simulate x server bundle r.traffic).0 ≡ ok simulation
    pub passed : simulation.status ≡ included
    pub accepted : (submit x server bundle (simulate x server bundle r.traffic).1).0 ≡ ok result

  after_submission-submitted :
      (bundle bundle' : Bundle) (w : Expected BundleResult Error × Traffic) (r r' : Runtime)
      (result : BundleResult)
      → after_submission x server bundle w r ≡ (submitted bundle' result, r')
      → (bundle' ≡ bundle) × (w.0 ≡ ok result)
  unfolding after_submission
  after_submission-submitted bundle bundle' (unexpected error, t) r r' result e = cc
  after_submission-submitted bundle bundle' (ok res, t) r r' result e = ground arith

  after_simulation-submitted :
      (bundle bundle' : Bundle) (w : Expected BundleSimulationResult Error × Traffic)
      (r r' : Runtime) (result : BundleResult)
      → after_simulation x server bundle w r ≡ (submitted bundle' result, r')
      → (bundle' ≡ bundle)
        × ((simulation : BundleSimulationResult) × (w.0 ≡ ok simulation)
            × (simulation.status ≡ included)
            × ((submit x server bundle w.1).0 ≡ ok result))
  unfolding after_simulation
  after_simulation-submitted bundle bundle' (unexpected error, t) r r' result e = cc
  after_simulation-submitted bundle bundle' (ok simulation, t) r r' result e =
      elim (status_cases simulation.status) [
        | inl is_included ↦
            let (same, answered) =
              after_submission-submitted bundle bundle' (submit x server bundle t) r r' result
                (ground arith) in
            (same, (simulation, refl, is_included, answered))
        | inr is_failed ↦ absurd (ground arith)
      ]

  execute-submitted :
      (state : StateSnapshot) (c : Candidate) (o : Opportunity) (r r' : Runtime) (bundle : Bundle)
      (result : BundleResult)
      → execute x server state c o r ≡ (submitted bundle result, r')
      → (tx : Transaction) × (compose x r.composer o ≡ ok tx)
        × (after_simulation x server
              (bundle_of state c tx)
              (simulate x server (bundle_of state c tx) r.traffic)
              r
            ≡ (submitted bundle result, r'))
  unfolding execute
  execute-submitted state c o r r' bundle result e = ground arith

  consider-submitted :
      (state : StateSnapshot) (c : Candidate) (r r' : Runtime) (bundle : Bundle)
      (result : BundleResult)
      → consider x server state c r ≡ (submitted bundle result, r')
      → (swap : Swap) × (opportunity : Opportunity) × (decode_swap x c ≡ some swap)
        × (find_arbitrage state c swap make_default_arbitrage_params ≡ some opportunity)
        × (execute x server state c opportunity r ≡ (submitted bundle result, r'))
  unfolding consider
  consider-submitted state c r r' bundle result e = elim (Option-cases (decode_swap x c)) [
    | inl none_eq ↦ absurd (ground arith)
    | inr (swap, swap_eq) ↦
        elim (Option-cases (find_arbitrage state c swap make_default_arbitrage_params)) [
          | inl none_eq ↦ absurd (ground arith)
          | inr (opportunity, opportunity_eq) ↦
              (swap, opportunity, swap_eq, opportunity_eq, ground arith)
        ]
  ]

  core_round-submitted :
      (state : StateSnapshot) (r r' : Runtime) (bundle : Bundle) (result : BundleResult)
      → core_round x server state r ≡ (submitted bundle result, r')
      → (state.valid ≡ true)
        × ((c : Candidate) × (state.candidate ≡ some c)
            × (consider x server state c r ≡ (submitted bundle result, r')))
  unfolding core_round
  core_round-submitted state r r' bundle result e = ground arith

  -- A round that submits a bundle had a valid state with a candidate that the decoder read, for which
  -- there was an opportunity. The bundle refers to the candidate and then has the composed transaction,
  -- and the builder simulated this same bundle with the status `included` before.
  pub core_round-HasPassed :
      (state : StateSnapshot) (r r' : Runtime) (bundle : Bundle) (result : BundleResult)
      → core_round x server state r ≡ (submitted bundle result, r')
      → HasPassed state r bundle result
  core_round-HasPassed state r r' bundle result e =
      let (valid, (c, carried, e1)) = core_round-submitted state r r' bundle result e in
      let (swap, o, decoded, found, e2) = consider-submitted state c r r' bundle result e1 in
      let (tx, composed, e3) = execute-submitted state c o r r' bundle result e2 in
      let b = bundle_of state c tx in
      let (same, (simulation, simulated, passed, accepted)) =
        after_simulation-submitted b bundle (simulate x server b r.traffic) r r' result e3 in
      record {
        candidate = c;
        swap = swap;
        opportunity = o;
        backrun_tx = tx;
        simulation = simulation;
        valid = valid;
        carried = carried;
        decoded = decoded;
        found = found;
        composed = composed;
        bundled = same;
        simulated =
            subst (λ b. (simulate x server b r.traffic).0 ≡ ok simulation) (sym same) simulated;
        passed = passed;
        accepted =
            subst (λ b. (submit x server b (simulate x server b r.traffic).1).0 ≡ ok result)
              (sym same) accepted;
      }

  -- The composer after a round.
  abbrev pub advanced : Outcome → TxComposer → TxComposer
  advanced (submitted bundle result) composer = mark_nonce_used composer
  advanced outcome composer = composer

  core_round-composer :
      (state : StateSnapshot) (r : Runtime)
      → (core_round x server state r).1.composer
        ≡ advanced (core_round x server state r).0 r.composer
  unfolding core_round consider execute after_simulation after_submission
  core_round-composer state r = ground arith

  mark_nonce_used-some :
      (composer : TxComposer) (n : ℕ)
      → composer.next_nonce ≡ some n
      → suc n < 2 ^ 64
      → (mark_nonce_used composer).next_nonce ≡ some (suc n)
  unfolding mark_nonce_used
  mark_nonce_used-some composer n e h = rw e (ap some (wrap-eq 64 (suc n) h))

  -- The step of the induction on the rounds: one outcome, and what holds of the rounds behind it.
  after_outcome :
      (o : Outcome) (os : List Outcome) (before after : TxComposer) (last : Option ℕ) (n : ℕ)
      → before.next_nonce ≡ some n
      → after ≡ advanced o before
      → n + submissions (o ∷ os) < 2 ^ 64
      → ((m : ℕ)
          → after.next_nonce ≡ some m
          → m + submissions os < 2 ^ 64
          → last ≡ some (m + submissions os))
      → last ≡ some (n + submissions (o ∷ os))
  after_outcome (submitted bundle result) os before after last n e f h rest =
      rest (suc n) (ap (λ c. c.next_nonce) f ∙ mark_nonce_used-some before n e (omega (arith, h)))
        (omega (arith, h))
      ∙ ap some (omega arith)
  after_outcome invalid_state os before after last n e f h rest =
      rest n (ap (λ c. c.next_nonce) f ∙ e) h
  after_outcome no_candidate os before after last n e f h rest =
      rest n (ap (λ c. c.next_nonce) f ∙ e) h
  after_outcome not_decoded os before after last n e f h rest =
      rest n (ap (λ c. c.next_nonce) f ∙ e) h
  after_outcome no_opportunity os before after last n e f h rest =
      rest n (ap (λ c. c.next_nonce) f ∙ e) h
  after_outcome (not_composed error) os before after last n e f h rest =
      rest n (ap (λ c. c.next_nonce) f ∙ e) h
  after_outcome (not_simulated error) os before after last n e f h rest =
      rest n (ap (λ c. c.next_nonce) f ∙ e) h
  after_outcome (not_included simulation) os before after last n e f h rest =
      rest n (ap (λ c. c.next_nonce) f ∙ e) h
  after_outcome (not_submitted error) os before after last n e f h rest =
      rest n (ap (λ c. c.next_nonce) f ∙ e) h

  -- While it stays below 2 ^ 64, the next nonce after any rounds is the first one and the number of
  -- bundles submitted since: only a submission that the builder answered uses a nonce.
  pub run_core_loop-next_nonce :
      (states : List StateSnapshot) (r : Runtime) (n : ℕ)
      → r.composer.next_nonce ≡ some n
      → n + submissions (run_core_loop x server states r).0 < 2 ^ 64
      → (run_core_loop x server states r).1.composer.next_nonce
        ≡ some (n + submissions (run_core_loop x server states r).0)
  unfolding run_core_loop
  run_core_loop-next_nonce [] r n e h = e ∙ ap some (omega arith)
  run_core_loop-next_nonce (state ∷ states) r n e h =
      let round = core_round x server state r in
      after_outcome round.0 (run_core_loop x server states round.1).0 r.composer round.1.composer _
        n e (core_round-composer state r) h (run_core_loop-next_nonce states round.1)
