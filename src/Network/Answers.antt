-- ===== src/Network/Answers.antt =====
-- What an exchange with the HTTP client of knight/src/network/rest_client.cpp tells its caller.
use dex_knight.Prelude.{
  ℕ, inl, inr, Option-cases, ◌≡◌, ◌↔◌, true, Bytes, some, arith, ok, unexpected,
}
use dex_knight.Network
use dex_knight.Network.{
  RestClient, Request, Response, Exchange, RestError, conflict, get_of, post_of,
}

-- The peer of a TLS connection: its name was set, it was checked if the client verifies its peers, and
-- the handshake was done.
pub record IsSecured (client : RestClient) (e : Exchange) : Type 0 where
  pub named : e.host_name_set ≡ true
  pub checked : client.verify_tls_peer ≡ true → e.verified_host_set ≡ true
  pub handshaken : e.handshaken ≡ true

-- The exchange ended with this response, and a client with TLS secured it.
pub record HasResponse (client : RestClient) (e : Exchange) (res : Response) : Type 0 where
  pub resolved : e.resolved ≡ true
  pub connected : e.connected ≡ true
  pub secured : client.use_tls ≡ true → IsSecured client e
  pub written : e.written ≡ true
  pub read : e.read ≡ some res

abbrev pub IsAnswered : RestClient → Exchange → ℕ → Bytes → Type 0
IsAnswered client e status body = HasResponse client e (record { status = status; body = body })

module _ (client : RestClient) (exchange : Request → Exchange) (target : Bytes) where
  get-HasResponse :
      (body : Bytes)
      → Network.get client exchange target ≡ ok body
      → IsAnswered client (exchange (get_of client target)) 200 body
  unfolding Network.get
  get-HasResponse body h = ground arith

  HasResponse-get :
      (body : Bytes)
      → IsAnswered client (exchange (get_of client target)) 200 body
      → Network.get client exchange target ≡ ok body
  unfolding Network.get
  HasResponse-get body h = ground arith

module _ (client : RestClient) (exchange : Request → Exchange) (target content : Bytes) where
  post-HasResponse :
      (body : Bytes)
      → Network.post client exchange target content ≡ ok body
      → IsAnswered client (exchange (post_of client target content)) 200 body
  unfolding Network.post
  post-HasResponse body h = ground arith

  HasResponse-post :
      (body : Bytes)
      → IsAnswered client (exchange (post_of client target content)) 200 body
      → Network.post client exchange target content ≡ ok body
  unfolding Network.post
  HasResponse-post body h = ground arith

  post-Conflicts :
      Network.post client exchange target content ≡ unexpected conflict
      → (body : Bytes) × IsAnswered client (exchange (post_of client target content)) 409 body
  unfolding Network.post
  post-Conflicts h = elim (Option-cases (exchange (post_of client target content)).read) [
    | inl failed ↦ absurd (ground arith)
    | inr (res, e) ↦ (res.body, ground arith)
  ]

  Conflicts-post :
      (body : Bytes)
      → IsAnswered client (exchange (post_of client target content)) 409 body
      → Network.post client exchange target content ≡ unexpected conflict
  unfolding Network.post
  Conflicts-post body h = ground arith

-- A GET, and a POST, returns a body exactly when the exchange of its request ended with status 200 and
-- that body, and a POST returns a conflict exactly when it ended with status 409: the name was
-- resolved, the connection made, the request written and the response read; and with TLS the host name
-- was set, the handshake done, and the name of the host set to be verified if the client verifies its
-- peers.
pub request-IsAnswered :
    (client : RestClient) (exchange : Request → Exchange) (target content body : Bytes)
    → ((Network.get client exchange target ≡ ok body)
        ↔ IsAnswered client (exchange (get_of client target)) 200 body)
      × ((Network.post client exchange target content ≡ ok body)
          ↔ IsAnswered client (exchange (post_of client target content)) 200 body)
      × ((Network.post client exchange target content ≡ unexpected conflict)
          ↔ (b : Bytes) × IsAnswered client (exchange (post_of client target content)) 409 b)
request-IsAnswered client exchange target content body = (
  (get-HasResponse client exchange target body, HasResponse-get client exchange target body),
  (
    post-HasResponse client exchange target content body,
    HasResponse-post client exchange target content body,
  ),
  (
    post-Conflicts client exchange target content,
    λ (b, answered). Conflicts-post client exchange target content b answered,
  ),
)
