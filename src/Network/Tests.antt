-- ===== src/Network/Tests.antt =====
-- Exchanges of a client that verifies its peers, with a server that answers and one that conflicts.
use dex_knight.Prelude.{[], false, ℕ, ◌≡◌, ◌↔◌, refl, true, some, Bytes, ok, unexpected}
use dex_knight.Prelude.Chars.{codes}
use dex_knight.Network
use dex_knight.Network.{
  RestClient, Exchange, RestError, conflict, ssl_handshake_error, get_of, post_of,
}
use dex_knight.Network.Answers.{IsAnswered, request-IsAnswered}

abbrev client : RestClient
client = record {
  use_tls = true;
  verify_tls_peer = true;
  host = codes "builder";
  port = codes "443";
}

abbrev answers : ℕ → Exchange
answers status = record {
  host_name_set = true;
  verified_host_set = true;
  resolved = true;
  connected = true;
  handshaken = true;
  written = true;
  read = some (record { status = status; body = codes "{}" });
}

conflicts : Network.post client (λ request. answers 409) [] [] ≡ unexpected conflict
unfolding Network.post
conflicts = refl

-- A host name that cannot be set to be verified ends the exchange.
refuses_unverified :
    Network.get client (λ request. record (answers 200) { verified_host_set = false }) []
    ≡ unexpected ssl_handshake_error
unfolding Network.get
refuses_unverified = refl

request-IsAnswered_example :
    ((Network.get client (λ request. answers 409) (codes "/a") ≡ ok (codes "{}"))
      ↔ IsAnswered client (answers 409) 200 (codes "{}"))
    × ((Network.post client (λ request. answers 409) (codes "/a") [] ≡ ok (codes "{}"))
        ↔ IsAnswered client (answers 409) 200 (codes "{}"))
    × ((Network.post client (λ request. answers 409) (codes "/a") [] ≡ unexpected conflict)
        ↔ (b : Bytes) × IsAnswered client (answers 409) 409 b)
request-IsAnswered_example =
    request-IsAnswered client (λ request. answers 409) (codes "/a") [] (codes "{}")
