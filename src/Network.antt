-- ===== src/Network.antt =====
-- `network::RestClient` of knight/src/network/rest_client.cpp: one HTTP exchange, from the name of the
-- host to the status. What asio, beast and OpenSSL report of its steps is a parameter.
pub mod WsSource
pub mod Answers
mod Tests
use dex_knight.Prelude.{
  ℕ, Bool, Bytes, Option, none, some, ◌==◌, not, ◌&&◌, if◌then◌else◌, Expected, ok, unexpected,
}
use dex_knight.Prelude.Chars.{codes}

-- network::RestError
pub data RestError : Type 0 where
  unknown_error resolve_error connect_error ssl_handshake_error http_write_error http_read_error
        bad_status conflict shutdown_error :
      RestError

unfoldable pub error_to_string : RestError → Bytes
error_to_string unknown_error = codes "UNKNOWN_ERROR"
error_to_string resolve_error = codes "RESOLVE_ERROR"
error_to_string connect_error = codes "CONNECT_ERROR"
error_to_string ssl_handshake_error = codes "SSL_HANDSHAKE_ERROR"
error_to_string http_write_error = codes "HTTP_WRITE_ERROR"
error_to_string http_read_error = codes "HTTP_READ_ERROR"
error_to_string bad_status = codes "BAD_STATUS"
error_to_string conflict = codes "CONFLICT"
error_to_string shutdown_error = codes "SHUTDOWN_ERROR"

-- The content of a POST: `http::field::content_type` and the body.
pub record Content : Type 0 where
  pub content_type : Bytes
  pub body : Bytes

-- `http::request`. A GET has an empty body.
pub record Request : Type 0 where
  pub target : Bytes
  pub host : Bytes
  pub user_agent : Bytes
  pub content : Option Content

pub record Response : Type 0 where
  pub status : ℕ
  pub body : Bytes

-- What the libraries report of the steps of one exchange. `read` is none where the read failed.
pub record Exchange : Type 0 where
  pub host_name_set : Bool
  pub verified_host_set : Bool
  pub resolved : Bool
  pub connected : Bool
  pub handshaken : Bool
  pub written : Bool
  pub read : Option Response

pub record RestClient : Type 0 where
  pub use_tls : Bool
  pub verify_tls_peer : Bool
  pub host : Bytes
  pub port : Bytes

unfoldable pub get_of : RestClient → Bytes → Request
get_of client target = record {
  target = target;
  host = client.host;
  user_agent = codes "knight-rest-client";
  content = none;
}

unfoldable pub post_of : RestClient → Bytes → Bytes → Request
post_of client target body = record {
  target = target;
  host = client.host;
  user_agent = codes "knight-rest-client";
  content = some (record { content_type = codes "application/json"; body = body });
}

-- The shutdown after a good status changes nothing of the result, and is left out.
module _ (client : RestClient) (exchange : Request → Exchange) where
  unfoldable pub get_plain : Bytes → Expected Bytes RestError
  unfolding get_of
  get_plain target =
      let e = exchange (get_of client target) in
      if not e.resolved
      then unexpected resolve_error
      else if not e.connected
      then unexpected connect_error
      else if not e.written
      then unexpected http_write_error
      else elim e.read [
        | none ↦ unexpected http_read_error
        | some res ↦ if not (res.status == 200) then unexpected bad_status else ok res.body
      ]

  unfoldable pub get_tls : Bytes → Expected Bytes RestError
  unfolding get_of
  get_tls target =
      let e = exchange (get_of client target) in
      if not e.host_name_set
      then unexpected ssl_handshake_error
      else if client.verify_tls_peer && not e.verified_host_set
      then unexpected ssl_handshake_error
      else if not e.resolved
      then unexpected resolve_error
      else if not e.connected
      then unexpected connect_error
      else if not e.handshaken
      then unexpected ssl_handshake_error
      else if not e.written
      then unexpected http_write_error
      else elim e.read [
        | none ↦ unexpected http_read_error
        | some res ↦ if not (res.status == 200) then unexpected bad_status else ok res.body
      ]

  unfoldable pub post_plain : Bytes → Bytes → Expected Bytes RestError
  unfolding post_of
  post_plain target body =
      let e = exchange (post_of client target body) in
      if not e.resolved
      then unexpected resolve_error
      else if not e.connected
      then unexpected connect_error
      else if not e.written
      then unexpected http_write_error
      else elim e.read [
        | none ↦ unexpected http_read_error
        | some res ↦
            if not (res.status == 200)
            then unexpected (if res.status == 409 then conflict else bad_status)
            else ok res.body
      ]

  unfoldable pub post_tls : Bytes → Bytes → Expected Bytes RestError
  unfolding post_of
  post_tls target body =
      let e = exchange (post_of client target body) in
      if not e.host_name_set
      then unexpected ssl_handshake_error
      else if client.verify_tls_peer && not e.verified_host_set
      then unexpected ssl_handshake_error
      else if not e.resolved
      then unexpected resolve_error
      else if not e.connected
      then unexpected connect_error
      else if not e.handshaken
      then unexpected ssl_handshake_error
      else if not e.written
      then unexpected http_write_error
      else elim e.read [
        | none ↦ unexpected http_read_error
        | some res ↦
            if not (res.status == 200)
            then unexpected (if res.status == 409 then conflict else bad_status)
            else ok res.body
      ]

  unfoldable pub get : Bytes → Expected Bytes RestError
  unfolding get_plain get_tls
  get target = if client.use_tls then get_tls target else get_plain target

  unfoldable pub post : Bytes → Bytes → Expected Bytes RestError
  unfolding post_plain post_tls
  post target body = if client.use_tls then post_tls target body else post_plain target body
