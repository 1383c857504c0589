-- ===== src/Builder/RestClient/Retry.antt =====
-- The attempts of a request: which of them decides, how many are made and how long the waits are.
use dex_knight.Prelude.{
  ℕ, zero, suc, ◌*◌, ◌^◌, ◌<◌, ◌≡◌, ◌≢◌, refl, ◌∙◌, Bytes, arith, Expected, ok, unexpected,
}
use dex_knight.Network.{RestError, conflict}
use dex_knight.Builder.RestClient.{
  Error, request_error, candidate_not_pending, Traffic, Server, sent_one, sleep_for, backoff,
  answer_to_get, answer_to_post, get_attempts, get_with_retry, post_attempts, post_with_retry,
  after_failure,
}

abbrev pub IsFailure : Expected Bytes RestError → Type 0
IsFailure (ok body) = ⊥
IsFailure (unexpected error) = Unit

-- A failure that a POST repeats.
abbrev pub IsRepeated : Expected Bytes RestError → Type 0
IsRepeated answer = IsFailure answer × (answer ≢ unexpected conflict)

-- The number of the exchange that attempt number `j` makes, from 0: `t.sent` + `j`.
abbrev pub exchange_number : Traffic → ℕ → ℕ
exchange_number t zero = t.sent
exchange_number t (suc j) = suc (exchange_number t j)

-- The traffic after the attempts up to number `k`, from 0, with a wait before each further one.
abbrev pub after_attempts : ℕ → Traffic → Traffic
after_attempts zero t = sent_one t
after_attempts (suc k) t = sent_one (sleep_for (200 * 2 ^ k) (after_attempts k t))

module _ (server : Server) (target : Bytes) where
  get_ok :
      (left attempt : ℕ) (t : Traffic) (body : Bytes)
      → answer_to_get server t.sent target ≡ ok body
      → get_attempts server (suc left) attempt target t ≡ (ok body, sent_one t)
  unfolding get_attempts
  get_ok left attempt t body e = rw (e, get_attempts) refl

  get_again :
      (left attempt : ℕ) (t : Traffic)
      → IsFailure (answer_to_get server t.sent target)
      → attempt < 3
      → get_attempts server (suc left) attempt target t
        ≡ get_attempts server left (suc attempt) target (sleep_for (backoff attempt) (sent_one t))
  unfolding get_attempts
  get_again left attempt t f h = ground arith

  get_last :
      (left : ℕ) (t : Traffic)
      → IsFailure (answer_to_get server t.sent target)
      → get_attempts server (suc left) 3 target t ≡ (unexpected request_error, sent_one t)
  unfolding get_attempts
  get_last left t f = ground arith

  -- A GET whose first success is attempt number `k`, counted from 0, returns that response after `k` + 1
  -- exchanges, with waits of 200 ms and 400 ms between them.
  pub get_with_retry_delivers :
      (t : Traffic) (k : ℕ) (body : Bytes)
      → k < 3
      → ((j : ℕ) → j < k → IsFailure (answer_to_get server (exchange_number t j) target))
      → answer_to_get server (exchange_number t k) target ≡ ok body
      → get_with_retry server target t ≡ (ok body, after_attempts k t)
  unfolding get_with_retry
  get_with_retry_delivers t zero body h f e = get_ok 2 1 t body e
  get_with_retry_delivers t (suc zero) body h f e =
      get_again 2 1 t (f 0 (omega arith)) (omega arith)
      ∙ get_ok 1 2 (sleep_for 200 (sent_one t)) body e
  get_with_retry_delivers t (suc (suc zero)) body h f e =
      get_again 2 1 t (f 0 (omega arith)) (omega arith)
      ∙ get_again 1 2 (sleep_for 200 (sent_one t)) (f 1 (omega arith)) (omega arith)
      ∙ get_ok 0 3 (sleep_for 400 (after_attempts 1 t)) body e
  get_with_retry_delivers t (suc (suc (suc k))) body h f e = absurd (omega (arith, h))

  -- A GET that fails three times returns REQUEST_ERROR after three exchanges.
  pub get_with_retry_gives_up :
      (t : Traffic)
      → ((j : ℕ) → j < 3 → IsFailure (answer_to_get server (exchange_number t j) target))
      → get_with_retry server target t ≡ (unexpected request_error, after_attempts 2 t)
  unfolding get_with_retry
  get_with_retry_gives_up t f =
      get_again 2 1 t (f 0 (omega arith)) (omega arith)
      ∙ get_again 1 2 (sleep_for 200 (sent_one t)) (f 1 (omega arith)) (omega arith)
      ∙ get_last 0 (sleep_for 400 (after_attempts 1 t)) (f 2 (omega arith))

module _ (server : Server) (target body : Bytes) where
  post_again :
      (left attempt : ℕ) (t : Traffic)
      → IsRepeated (answer_to_post server t.sent target body)
      → attempt < 3
      → post_attempts server (suc left) attempt target body t
        ≡ post_attempts server left
            (suc attempt)
            target
            body
            (sleep_for (backoff attempt) (sent_one t))
  unfolding post_attempts after_failure
  post_again left attempt t f h = ground arith

  post_last :
      (left : ℕ) (t : Traffic)
      → IsRepeated (answer_to_post server t.sent target body)
      → post_attempts server (suc left) 3 target body t ≡ (unexpected request_error, sent_one t)
  unfolding post_attempts after_failure
  post_last left t f = ground arith

  -- What a POST makes of the answer that ends it.
  abbrev pub ending : Expected Bytes RestError → Expected Bytes Error
  ending (ok response) = ok response
  ending (unexpected conflict) = unexpected candidate_not_pending
  ending (unexpected error) = unexpected request_error

  post_ends :
      (left attempt : ℕ) (t : Traffic) (answer : Expected Bytes RestError)
      → answer_to_post server t.sent target body ≡ answer
      → ¬ IsRepeated answer
      → post_attempts server (suc left) attempt target body t ≡ (ending answer, sent_one t)
  unfolding post_attempts after_failure
  post_ends left attempt t answer e n = ground arith

  -- A POST repeats every failure but a conflict. Its first answer that is a success or a conflict, at
  -- attempt number `k` counted from 0, ends it after `k` + 1 exchanges: with the response, or with
  -- CANDIDATE_NOT_PENDING.
  pub post_with_retry_ends :
      (t : Traffic) (k : ℕ) (answer : Expected Bytes RestError)
      → k < 3
      → ((j : ℕ) → j < k → IsRepeated (answer_to_post server (exchange_number t j) target body))
      → answer_to_post server (exchange_number t k) target body ≡ answer
      → ¬ IsRepeated answer
      → post_with_retry server target body t ≡ (ending answer, after_attempts k t)
  unfolding post_with_retry
  post_with_retry_ends t zero answer h f e n = post_ends 2 1 t answer e n
  post_with_retry_ends t (suc zero) answer h f e n =
      post_again 2 1 t (f 0 (omega arith)) (omega arith)
      ∙ post_ends 1 2 (sleep_for 200 (sent_one t)) answer e n
  post_with_retry_ends t (suc (suc zero)) answer h f e n =
      post_again 2 1 t (f 0 (omega arith)) (omega arith)
      ∙ post_again 1 2 (sleep_for 200 (sent_one t)) (f 1 (omega arith)) (omega arith)
      ∙ post_ends 0 3 (sleep_for 400 (after_attempts 1 t)) answer e n
  post_with_retry_ends t (suc (suc (suc k))) answer h f e n = absurd (omega (arith, h))

  -- A POST whose three answers are failures other than a conflict returns REQUEST_ERROR after three
  -- exchanges.
  pub post_with_retry_gives_up :
      (t : Traffic)
      → ((j : ℕ) → j < 3 → IsRepeated (answer_to_post server (exchange_number t j) target body))
      → post_with_retry server target body t ≡ (unexpected request_error, after_attempts 2 t)
  unfolding post_with_retry
  post_with_retry_gives_up t f =
      post_again 2 1 t (f 0 (omega arith)) (omega arith)
      ∙ post_again 1 2 (sleep_for 200 (sent_one t)) (f 1 (omega arith)) (omega arith)
      ∙ post_last 0 (sleep_for 400 (after_attempts 1 t)) (f 2 (omega arith))
