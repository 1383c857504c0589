-- ===== src/Builder/RestClient.antt =====
-- knight/src/builder/rest_client.cpp: the requests to the builder, with up to three attempts each.
pub mod Retry
mod Tests
use dex_knight.Common.Config.{Config}
use dex_knight.Prelude.{
  ℕ, zero, suc, ◌+◌, ◌-◌, ◌*◌, ◌^◌, ◌==◌, Bytes, List, [], ◌∷◌, ◌++◌, Option, none, some,
  if◌then◌else◌, Expected, ok, unexpected,
}
use dex_knight.Prelude.Chars.{codes}
use dex_knight.External.{External}
use dex_knight.Network
use dex_knight.Network.{RestError, conflict, Request, Exchange}
use dex_knight.Utils.Fields.{parse_to_json_object, json_hex_uint64}
use dex_knight.Utils.Hex.{hex_data}
use dex_knight.Builder.Bundle.{Bundle, bundle_to_json}

-- builder::Error
pub data Error : Type 0 where
  request_error timeout invalid_response candidate_not_pending : Error

unfoldable pub error_to_string : Error → Bytes
error_to_string request_error = codes "REQUEST_ERROR"
error_to_string timeout = codes "TIMEOUT"
error_to_string invalid_response = codes "INVALID_RESPONSE"
error_to_string candidate_not_pending = codes "CANDIDATE_NOT_PENDING"

-- The traffic so far: the exchanges made, and the sleeps between attempts in milliseconds.
pub record Traffic : Type 0 where
  pub sent : ℕ
  pub slept : List ℕ

-- The world of a client: how it connects, and what the libraries report of its n-th exchange.
pub record Server : Type 0 where
  pub client : Network.RestClient
  pub exchange : ℕ → Request → Exchange

-- The constructor of builder::RestClient.
abbrev pub client_of : Config → Network.RestClient
client_of config = record {
  use_tls = config.builder_rest_endpoint.use_tls;
  verify_tls_peer = config.tls_verify_peer;
  host = config.builder_rest_endpoint.host;
  port = config.builder_rest_endpoint.port;
}

abbrev pub pending_snapshot_target : Bytes
pending_snapshot_target = codes "/public/pending"

abbrev pub chain_head_target : Bytes
chain_head_target = codes "/chain/head"

abbrev pub chain_call_target : Bytes
chain_call_target = codes "/chain/call"

abbrev pub chain_nonce_target : Bytes
chain_nonce_target = codes "/chain/nonce"

abbrev pub bundle_simulation_target : Bytes
bundle_simulation_target = codes "/private/bundle/simulate"

abbrev pub bundle_submission_target : Bytes
bundle_submission_target = codes "/private/bundle"

abbrev pub max_attempts : ℕ
max_attempts = 3

-- kBaseBackoff, in milliseconds
abbrev pub base_backoff : ℕ
base_backoff = 200

-- `kBaseBackoff * (1 << (attempt - 1))`
abbrev pub backoff : ℕ → ℕ
backoff attempt = base_backoff * 2 ^ (attempt - 1)

abbrev pub sent_one : Traffic → Traffic
sent_one t = record t { sent = suc t.sent }

abbrev pub sleep_for : ℕ → Traffic → Traffic
sleep_for ms t = record t { slept = t.slept ++ ms ∷ [] }

module _ (server : Server) where
  abbrev pub answer_to_get : ℕ → Bytes → Expected Bytes RestError
  answer_to_get n target = Network.get server.client (server.exchange n) target

  abbrev pub answer_to_post : ℕ → Bytes → Bytes → Expected Bytes RestError
  answer_to_post n target body = Network.post server.client (server.exchange n) target body

  -- The loop from an attempt on, `left` attempts being left.
  unfoldable pub get_attempts : ℕ → ℕ → Bytes → Traffic → Expected Bytes Error × Traffic
  get_attempts zero attempt target t = (unexpected request_error, t)
  get_attempts (suc left) attempt target t =
      let again =
        get_attempts left (suc attempt) target (sleep_for (backoff attempt) (sent_one t)) in
      elim (answer_to_get t.sent target) [
        | ok body ↦ (ok body, sent_one t)
        | unexpected error ↦
            if attempt == max_attempts then (unexpected request_error, sent_one t) else again
      ]

  unfoldable pub get_with_retry : Bytes → Traffic → Expected Bytes Error × Traffic
  unfolding get_attempts
  get_with_retry target t = get_attempts max_attempts 1 target t

  -- What `post_with_retry` does with a failed attempt.
  unfoldable pub after_failure :
      RestError → ℕ → Expected Bytes Error × Traffic → Traffic → Expected Bytes Error × Traffic
  after_failure conflict attempt again t = (unexpected candidate_not_pending, t)
  after_failure error attempt again t =
      if attempt == max_attempts then (unexpected request_error, t) else again

  unfoldable pub post_attempts : ℕ → ℕ → Bytes → Bytes → Traffic → Expected Bytes Error × Traffic
  unfolding after_failure
  post_attempts zero attempt target body t = (unexpected request_error, t)
  post_attempts (suc left) attempt target body t =
      let again =
        post_attempts left (suc attempt) target body (sleep_for (backoff attempt) (sent_one t)) in
      elim (answer_to_post t.sent target body) [
        | ok response ↦ (ok response, sent_one t)
        | unexpected error ↦ after_failure error attempt again (sent_one t)
      ]

  unfoldable pub post_with_retry : Bytes → Bytes → Traffic → Expected Bytes Error × Traffic
  unfolding post_attempts
  post_with_retry target body t = post_attempts max_attempts 1 target body t

  unfoldable pub request_snapshot : Traffic → Expected Bytes Error × Traffic
  unfolding get_with_retry
  request_snapshot t = get_with_retry pending_snapshot_target t

  unfoldable pub request_chain_head : Traffic → Expected Bytes Error × Traffic
  unfolding get_with_retry
  request_chain_head t = get_with_retry chain_head_target t

  module _ (x : External) where
    unfoldable pub request_chain_call : x.Object → Traffic → Expected Bytes Error × Traffic
    unfolding post_with_retry
    request_chain_call payload t = post_with_retry chain_call_target (x.serialize payload) t

    unfoldable pub read_nonce : Expected Bytes Error → Expected ℕ Error
    read_nonce (unexpected error) = unexpected error
    read_nonce (ok response) = elim (parse_to_json_object x response) [
      | none ↦ unexpected invalid_response
      | some json ↦ elim (json_hex_uint64 x json "nonce") [
        | none ↦ unexpected invalid_response
        | some nonce ↦ ok nonce
      ]
    ]

    unfoldable pub request_nonce : Bytes → Traffic → Expected ℕ Error × Traffic
    unfolding get_with_retry read_nonce
    request_nonce address t =
        let (response, t') =
          get_with_retry (chain_nonce_target ++ codes "/" ++ hex_data address) t in
        (read_nonce response, t')

    unfoldable pub simulate_bundle : Bundle → Traffic → Expected Bytes Error × Traffic
    unfolding post_with_retry
    simulate_bundle bundle t =
        post_with_retry bundle_simulation_target (x.serialize (bundle_to_json x bundle)) t

    unfoldable pub submit_bundle : Bundle → Traffic → Expected Bytes Error × Traffic
    unfolding post_with_retry
    submit_bundle bundle t =
        post_with_retry bundle_submission_target (x.serialize (bundle_to_json x bundle)) t
