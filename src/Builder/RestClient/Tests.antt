-- ===== src/Builder/RestClient/Tests.antt =====
-- Requests to a server that fails some attempts.
use dex_knight.Prelude.{
  ℕ, zero, suc, ◌<◌, ◌≡◌, refl, true, Option, if◌then◌else◌, ◌==◌, [], none, some, arith, ok,
  unexpected,
}
use dex_knight.Prelude.Chars.{codes}
use dex_knight.Network
use dex_knight.Network.{
  RestError, conflict, http_read_error, bad_status, Request, Response, Exchange,
}
use dex_knight.Builder.RestClient.{
  candidate_not_pending, Traffic, Server, answer_to_get, answer_to_post, get_with_retry,
  post_with_retry,
}
use dex_knight.Builder.RestClient.Retry.{
  IsFailure, IsRepeated, exchange_number, after_attempts, get_with_retry_delivers,
  post_with_retry_ends,
}

abbrev exchange_with : Option Response → Exchange
exchange_with response = record {
  host_name_set = true;
  verified_host_set = true;
  resolved = true;
  connected = true;
  handshaken = true;
  written = true;
  read = response;
}

abbrev client : Network.RestClient
client = record {
  use_tls = true;
  verify_tls_peer = true;
  host = codes "builder";
  port = codes "80";
}

-- The first attempt cannot be read; the second one has the status.
abbrev second_answers : ℕ → Server
second_answers status = record {
  client = client;
  exchange = λ n request.
      exchange_with (if n == 0 then none else some (record { status = status; body = [] }));
}

abbrev none_answers : Server
none_answers = record { client = client; exchange = λ n request. exchange_with none }

abbrev fresh : Traffic
fresh = record { sent = 0; slept = [] }

only_first : (P : ℕ → Type 0) → P 0 → (j : ℕ) → j < 1 → P j
only_first P p zero h = p
only_first P p (suc j) h = absurd (omega (arith, h))

get_with_retry_delivers_example :
    get_with_retry (second_answers 200) [] fresh ≡ (ok [], after_attempts 1 fresh)
unfolding Network.get
get_with_retry_delivers_example =
    get_with_retry_delivers (second_answers 200) [] fresh 1 [] (omega arith)
      (only_first (λ j. IsFailure (answer_to_get (second_answers 200) (exchange_number fresh j) []))
        tt)
      refl

post_with_retry_ends_example :
    post_with_retry (second_answers 409) [] [] fresh
    ≡ (unexpected candidate_not_pending, after_attempts 1 fresh)
unfolding Network.post
post_with_retry_ends_example =
    post_with_retry_ends (second_answers 409) [] [] fresh 1 (unexpected conflict) (omega arith)
      (only_first
        (λ j. IsRepeated (answer_to_post (second_answers 409) (exchange_number fresh j) [] []))
        (tt, λ e. cc e))
      refl (λ r. r.1 refl)
