-- ===== src/Common/Config/Url/RoundTrip.antt =====
-- The URL that is written from an endpoint, parsed.
use dex_knight.Prelude.{
  ℕ, suc, ◌+◌, ◌≡◌, ◌≢◌, inl, inr, refl, sym, ◌∙◌, ap, Bool, true, false, arith, Bytes, [], ◌∷◌,
  ◌++◌, append_assoc, Option, some, length, take, drop, same_bytes, same_bytes_refl, ◌>>=◌, All,
}
use dex_knight.Prelude.Chars.{codes}
use dex_knight.External.{External}
use dex_knight.Common.Config.Url.{
  Endpoint, SchemeInfo, UrlParts, HostPort, find_char, find_text, starts_with, parse_url_parts,
  parse_host_port, separator, ws_scheme, rest_scheme, parse_ws_scheme, parse_rest_scheme,
  parse_endpoint, parse_ws_endpoint, parse_rest_endpoint,
}
use dex_knight.Common.Config.Url.Found.{
  Lacks, All-Lacks, find_char-append, Lacks-append, take-append, drop-append, drop-add,
}
use dex_knight.Common.Config.Url.Port.{IsDigit, IsPort, is_valid_port-IsPort}
use dex_knight.Common.Config.Url.Valid.{IsEndpoint, not_empty-given}
use dex_knight.Common.Config.Url.Parsed.{IsWsScheme, IsRestScheme}

-- The whole URL of an endpoint.
unfoldable pub url_of : Endpoint → Bytes
url_of e = e.scheme ++ (separator ++ (e.host ++ (b':' ∷ (e.port ++ e.target))))

digits-Lack : (c : ℕ) (s : Bytes) → (IsDigit c → ⊥) → All IsDigit s → Lacks c s
digits-Lack c s other digits = All-Lacks c s (go s digits)
  where
    go : (s : Bytes) → All IsDigit s → All (λ a. a ≢ c) s
    go [] h = tt
    go (a ∷ s) (d, h) = (λ e. other (rw (sym e) d), go s h)

authority_parts :
    (authority rest : Bytes)
    → authority ≢ []
    → Lacks b'/' authority
    → Lacks b'@' authority
    → parse_url_parts (authority ++ (b'/' ∷ rest))
      ≡ some (record { authority = authority; target = b'/' ∷ rest })
unfolding parse_url_parts
authority_parts authority rest given no_slash no_at =
    rw (find_char-append b'/' authority rest no_slash) (
      rw (take-append authority (b'/' ∷ rest)) (
        rw (drop-append authority (b'/' ∷ rest))
          (rw (not_empty-given authority given) (rw no_at refl))))

append-given : (xs ys : Bytes) → xs ≢ [] → xs ++ ys ≢ []
append-given [] ys h = absurd (h refl)
append-given (a ∷ xs) ys h = λ e. cc e

drop-behind : (c : ℕ) (xs ys : Bytes) → drop (suc (length xs)) (xs ++ (c ∷ ys)) ≡ ys
drop-behind c [] ys = refl
drop-behind c (a ∷ xs) ys = drop-behind c xs ys

module _ (host port : Bytes) where
  -- The authority with its port.
  abbrev with_port : Bytes
  with_port = host ++ (b':' ∷ port)

  with_port-Lacks-slash : Lacks b'/' host → All IsDigit port → Lacks b'/' with_port
  unfolding find_char
  with_port-Lacks-slash h digits =
      let p = digits-Lack b'/' port (λ d. omega arith) digits in
      Lacks-append b'/' host (b':' ∷ port) h (rw p refl)

  with_port-Lacks-at : Lacks b'@' host → All IsDigit port → Lacks b'@' with_port
  unfolding find_char
  with_port-Lacks-at h digits =
      let p = digits-Lack b'@' port (λ d. omega arith) digits in
      Lacks-append b'@' host (b':' ∷ port) h (rw p refl)

  host_port_of :
      (default : Bytes)
      → host ≢ []
      → Lacks b':' host
      → IsPort port
      → parse_host_port with_port default ≡ some (record { host = host; port = port })
  unfolding parse_host_port
  host_port_of default given no_colon valid =
      let p = digits-Lack b':' port (λ d. omega arith) valid.0 in
      rw (find_char-append b':' host port no_colon) (
        rw (drop-behind b':' host port) (
          rw (take-append host (b':' ∷ port)) (
            rw p
              (rw (not_empty-given host given) (rw ((is_valid_port-IsPort port).1 valid) refl)))))

-- The steps of `parse_endpoint`.
endpoint_steps :
    (x : External) (url : Bytes) (info : SchemeInfo) (i : ℕ) (parts : UrlParts) (hp : HostPort)
    → find_text separator url ≡ some i
    → same_bytes (x.lower (take i url)) info.scheme ≡ true
    → parse_url_parts (drop (i + 3) url) ≡ some parts
    → parse_host_port parts.authority info.default_port ≡ some hp
    → parse_endpoint x url info
      ≡ some (record {
        scheme = info.scheme;
        host = hp.host;
        port = hp.port;
        target = parts.target;
        use_tls = info.use_tls;
      })
unfolding parse_endpoint
endpoint_steps x url info i parts hp a b c d = rw a (rw b (rw c (rw d refl)))

module _ (x : External) (e : Endpoint) (valid : IsEndpoint e) where
  -- The URL behind its separator.
  behind_separator : drop (length e.scheme + 3) (url_of e) ≡ with_port e.host e.port ++ e.target
  unfolding url_of
  behind_separator =
      drop-add (length e.scheme) 3 (url_of e)
      ∙ ap (λ s. drop 3 s)
          (drop-append e.scheme (separator ++ (e.host ++ (b':' ∷ (e.port ++ e.target)))))
      ∙ sym (append_assoc e.host (b':' ∷ e.port) e.target)

  authority_parsed :
      parse_url_parts (drop (length e.scheme + 3) (url_of e))
      ≡ some (record { authority = with_port e.host e.port; target = e.target })
  authority_parsed =
      let (rest, slash) = valid.target_valid in
      let digits = valid.port_valid.0 in
      rw behind_separator (
        rw slash (
          authority_parts (with_port e.host e.port) rest
            (append-given e.host (b':' ∷ e.port) valid.host_given)
            (with_port-Lacks-slash e.host e.port valid.no_slash digits)
            (with_port-Lacks-at e.host e.port valid.no_at digits)))

  -- The parser of an endpoint, on the URL of one with a scheme in lower case that the text starts with.
  endpoint_parsed :
      (default : Bytes)
      → find_text separator (url_of e) ≡ some (length e.scheme)
      → x.lower e.scheme ≡ e.scheme
      → parse_endpoint x
          (url_of e)
          (record { scheme = e.scheme; default_port = default; use_tls = e.use_tls })
        ≡ some e
  unfolding url_of
  endpoint_parsed default found low =
      let scheme_end : take (length e.scheme) (url_of e) ≡ e.scheme = take-append e.scheme _ in
      let same =
        ap (λ s. same_bytes s e.scheme) (ap x.lower scheme_end ∙ low) ∙ same_bytes_refl e.scheme in
      endpoint_steps x (url_of e)
        (record { scheme = e.scheme; default_port = default; use_tls = e.use_tls })
        (length e.scheme) _ _ found same authority_parsed
        (host_port_of e.host e.port default valid.host_given valid.no_colon valid.port_valid)

  -- A parser that reads the scheme of the endpoint as its own.
  read_back :
      (read : Bytes → Option SchemeInfo) (default : Bytes)
      → find_text separator (url_of e) ≡ some (length e.scheme)
      → x.lower e.scheme ≡ e.scheme
      → read e.scheme
        ≡ some (record { scheme = e.scheme; default_port = default; use_tls = e.use_tls })
      → (find_text separator (url_of e) >>= λ i.
          read (x.lower (take i (url_of e))) >>= parse_endpoint x (url_of e))
        ≡ some e
  unfolding url_of
  read_back read default found low known =
      let scheme_end : take (length e.scheme) (url_of e) ≡ e.scheme = take-append e.scheme _ in
      rw found (rw scheme_end (rw low (rw known (endpoint_parsed default found low))))

  separator_found :
      (scheme : Bytes)
      → e.scheme ≡ scheme
      → ((rest : Bytes)
          → find_text separator (scheme ++ (separator ++ rest)) ≡ some (length scheme))
      → find_text separator (url_of e) ≡ some (length e.scheme)
  unfolding url_of
  separator_found scheme s found = rw s (found (e.host ++ (b':' ∷ (e.port ++ e.target))))

  known_scheme :
      (read : Bytes → Option SchemeInfo) (scheme default : Bytes) (use_tls : Bool)
      → e.scheme ≡ scheme
      → e.use_tls ≡ use_tls
      → read scheme ≡ some (record { scheme = scheme; default_port = default; use_tls = use_tls })
      → read e.scheme
        ≡ some (record { scheme = e.scheme; default_port = default; use_tls = e.use_tls })
  known_scheme read scheme default use_tls s t r = rw s (rw t r)

  -- The whole URL of a valid endpoint of a websocket parses as the endpoint, where lower case leaves its
  -- scheme as it is.
  pub parse_ws_endpoint-url_of :
      IsWsScheme e → x.lower e.scheme ≡ e.scheme → parse_ws_endpoint x (url_of e) ≡ some e
  unfolding parse_ws_endpoint parse_ws_scheme ws_scheme find_text starts_with same_bytes
  parse_ws_endpoint-url_of (inl (s, t)) low =
      read_back ws_scheme (codes "80") (separator_found (codes "ws") s (λ rest. refl)) low
        (known_scheme ws_scheme (codes "ws") (codes "80") false s t refl)
  parse_ws_endpoint-url_of (inr (s, t)) low =
      read_back ws_scheme (codes "443") (separator_found (codes "wss") s (λ rest. refl)) low
        (known_scheme ws_scheme (codes "wss") (codes "443") true s t refl)

  -- The whole URL of a valid endpoint of the REST interface parses as the endpoint, where lower case
  -- leaves its scheme as it is.
  pub parse_rest_endpoint-url_of :
      IsRestScheme e → x.lower e.scheme ≡ e.scheme → parse_rest_endpoint x (url_of e) ≡ some e
  unfolding parse_rest_endpoint parse_rest_scheme rest_scheme find_text starts_with same_bytes
  parse_rest_endpoint-url_of (inl (s, t)) low =
      read_back rest_scheme (codes "80") (separator_found (codes "http") s (λ rest. refl)) low
        (known_scheme rest_scheme (codes "http") (codes "80") false s t refl)
  parse_rest_endpoint-url_of (inr (s, t)) low =
      read_back rest_scheme (codes "443") (separator_found (codes "https") s (λ rest. refl)) low
        (known_scheme rest_scheme (codes "https") (codes "443") true s t refl)
