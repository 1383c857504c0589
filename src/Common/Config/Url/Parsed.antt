-- ===== src/Common/Config/Url/Parsed.antt =====
-- The endpoint that is parsed from a URL, against the text of the URL.
use dex_knight.Prelude.{
  ℕ, ◌+◌, ◌≡◌, ◌⊎◌, inl, inr, refl, sym, ◌∙◌, ap, subst, Bool, true, false, arith, Bytes, [], ◌∷◌,
  ◌++◌, append-nil, Option, none, some, take, drop, same_bytes, same_bytes-eq, if◌then◌else◌, ◌>>=◌,
  >>=-eq-some, guarded_inv, Bool-cases, not,
}
use dex_knight.Prelude.Chars.{codes}
use dex_knight.External.{External}
use dex_knight.Common.Config.Url.{
  Endpoint, SchemeInfo, UrlParts, HostPort, find_text, parse_url_parts, parse_host_port, separator,
  ws_scheme, rest_scheme, parse_ws_scheme, parse_rest_scheme, parse_endpoint, parse_ws_endpoint,
  parse_rest_endpoint,
}
use dex_knight.Common.Config.Url.Found.{Lacks, Lacks-left, find_text-eq-some, drop-add}
use dex_knight.Common.Config.Url.Port.{is_valid_port-IsPort}
use dex_knight.Common.Config.Url.Valid.{
  IsEndpoint, Parts, HostParts, parse_url_parts-Parts, parse_host_port-HostParts,
}

-- The port of a scheme.
abbrev pub default_port : Bool → Bytes
default_port use_tls = if use_tls then codes "443" else codes "80"

-- The host, with a colon and the port, or alone where the port is the default.
abbrev pub IsAuthority : Endpoint → Bytes → Type 0
IsAuthority e authority =
    (authority ≡ e.host ++ b':' ∷ e.port)
    ⊎ ((authority ≡ e.host) × (e.port ≡ default_port e.use_tls))

-- The target, or nothing for the target "/".
abbrev pub IsTail : Endpoint → Bytes → Type 0
IsTail e tail = (tail ≡ e.target) ⊎ ((tail ≡ []) × (e.target ≡ b'/' ∷ []))

-- The URL reads as the endpoint: a prefix that is the scheme in lower case, the separator, an
-- authority and a tail.
pub record Describes (x : External) (url : Bytes) (e : Endpoint) : Type 0 where
  pub prefix : Bytes
  pub authority : Bytes
  pub tail : Bytes
  pub url_parts : url ≡ prefix ++ separator ++ (authority ++ tail)
  pub scheme_lower : x.lower prefix ≡ e.scheme
  pub is_authority : IsAuthority e authority
  pub is_tail : IsTail e tail

abbrev pub IsWsScheme : Endpoint → Type 0
IsWsScheme e =
    ((e.scheme ≡ codes "ws") × (e.use_tls ≡ false))
    ⊎ ((e.scheme ≡ codes "wss") × (e.use_tls ≡ true))

abbrev pub IsRestScheme : Endpoint → Type 0
IsRestScheme e =
    ((e.scheme ≡ codes "http") × (e.use_tls ≡ false))
    ⊎ ((e.scheme ≡ codes "https") × (e.use_tls ≡ true))

abbrev endpoint_of : SchemeInfo → UrlParts → HostPort → Endpoint
endpoint_of info parts hp = record {
  scheme = info.scheme;
  host = hp.host;
  port = hp.port;
  target = parts.target;
  use_tls = info.use_tls;
}

host-Lacks :
    (c : ℕ) (host port default authority : Bytes)
    → (authority ≡ host ++ b':' ∷ port) ⊎ ((authority ≡ host) × (port ≡ default))
    → Lacks c authority
    → Lacks c host
host-Lacks c host port default authority (inl e) h = Lacks-left c host (b':' ∷ port) (rw (sym e) h)
host-Lacks c host port default authority (inr (e, d)) h = rw (sym e) h

Parts-IsEndpoint :
    (info : SchemeInfo) (rest : Bytes) (parts : UrlParts) (hp : HostPort)
    → Parts rest parts
    → HostParts parts.authority info.default_port hp
    → IsEndpoint (endpoint_of info parts hp)
Parts-IsEndpoint info rest parts hp (given, (no_at, (no_slash, (target, split))))
      (host, (no_colon, (valid, port))) =
    record {
      host_given = host;
      no_colon = no_colon;
      no_slash = host-Lacks b'/' hp.host hp.port info.default_port parts.authority port no_slash;
      no_at = host-Lacks b'@' hp.host hp.port info.default_port parts.authority port no_at;
      port_valid = (is_valid_port-IsPort hp.port).0 valid;
      target_valid = target;
    }

-- What stands behind the authority.
IsTail-of :
    (e : Endpoint) (rest authority : Bytes)
    → (rest ≡ authority ++ e.target) ⊎ ((rest ≡ authority) × (e.target ≡ b'/' ∷ []))
    → (tail : Bytes) × ((rest ≡ authority ++ tail) × IsTail e tail)
IsTail-of e rest authority (inl split) = (e.target, (split, inl refl))
IsTail-of e rest authority (inr (split, slash)) =
    ([], (split ∙ sym (append-nil authority), inr (refl, slash)))

IsAuthority-of :
    (e : Endpoint) (authority default : Bytes)
    → default ≡ default_port e.use_tls
    → (authority ≡ e.host ++ b':' ∷ e.port) ⊎ ((authority ≡ e.host) × (e.port ≡ default))
    → IsAuthority e authority
IsAuthority-of e authority default d (inl split) = inl split
IsAuthority-of e authority default d (inr (split, port)) = inr (split, port ∙ d)

module _ (x : External) (url : Bytes) where
  Parts-Describes :
      (info : SchemeInfo) (i : ℕ) (parts : UrlParts) (hp : HostPort)
      → info.default_port ≡ default_port info.use_tls
      → url ≡ take i url ++ separator ++ drop (i + 3) url
      → x.lower (take i url) ≡ info.scheme
      → Parts (drop (i + 3) url) parts
      → HostParts parts.authority info.default_port hp
      → Describes x url (endpoint_of info parts hp)
  Parts-Describes info i parts hp d cut low (given, (no_at, (no_slash, (target, split))))
        (host, (no_colon, (valid, port))) =
      let e = endpoint_of info parts hp in
      let (tail, (whole, is_tail)) = IsTail-of e (drop (i + 3) url) parts.authority split in
      record {
        prefix = take i url;
        authority = parts.authority;
        tail = tail;
        url_parts = cut ∙ ap (λ r. take i url ++ separator ++ r) whole;
        scheme_lower = low;
        is_authority = IsAuthority-of e parts.authority info.default_port d port;
        is_tail = is_tail;
      }

  Parsed : SchemeInfo → Endpoint → Type 0
  Parsed info e =
      IsEndpoint e × (Describes x url e × ((e.scheme ≡ info.scheme) × (e.use_tls ≡ info.use_tls)))

  parse_endpoint-Parsed :
      (info : SchemeInfo) (e : Endpoint)
      → info.default_port ≡ default_port info.use_tls
      → parse_endpoint x url info ≡ some e
      → Parsed info e
  unfolding parse_endpoint Parsed
  parse_endpoint-Parsed info e d h =
      let (i, k, l) = >>=-eq-some (find_text separator url) _ h in
      let (low, m) = guarded_inv (not (same_bytes (x.lower (take i url)) info.scheme)) _ l in
      let (parts, pe, n) = >>=-eq-some (parse_url_parts (drop (i + 3) url)) _ m in
      let (hp, he, o) = >>=-eq-some (parse_host_port parts.authority info.default_port) _ n in
      let same : endpoint_of info parts hp ≡ e = cc o in
      let cut =
        find_text-eq-some separator url i k
        ∙ ap (λ r. take i url ++ separator ++ r) (sym (drop-add i 3 url)) in
      let lowered = same_bytes-eq (x.lower (take i url)) info.scheme (ground arith) in
      let p = parse_url_parts-Parts (drop (i + 3) url) parts pe in
      let q = parse_host_port-HostParts parts.authority info.default_port hp he in
      subst (Parsed info) same (
        Parts-IsEndpoint info (drop (i + 3) url) parts hp p q,
        (Parts-Describes info i parts hp d cut lowered p q, (refl, refl)),
      )

-- One of two schemes, the second with TLS.
IsScheme : Bytes → Bytes → SchemeInfo → Type 0
IsScheme plain secure info =
    (info.default_port ≡ default_port info.use_tls)
    × (((info.scheme ≡ plain) × (info.use_tls ≡ false))
        ⊎ ((info.scheme ≡ secure) × (info.use_tls ≡ true)))

IsScheme-inv :
    (plain secure scheme : Bytes) (info : SchemeInfo)
    → (if same_bytes scheme plain
        then some (record { scheme = scheme; default_port = codes "80"; use_tls = false })
        else if same_bytes scheme secure
        then some (record { scheme = scheme; default_port = codes "443"; use_tls = true })
        else none)
      ≡ some info
    → IsScheme plain secure info
unfolding IsScheme
IsScheme-inv plain secure scheme info h = elim (Bool-cases (same_bytes scheme plain)) [
  | inl e ↦
      let same : record { scheme = scheme; default_port = codes "80"; use_tls = false } ≡ info =
        ground arith in
      subst (IsScheme plain secure) same (refl, inl (same_bytes-eq scheme plain e, refl))
  | inr d ↦ elim (Bool-cases (same_bytes scheme secure)) [
    | inl e ↦
        let same : record { scheme = scheme; default_port = codes "443"; use_tls = true } ≡ info =
          ground arith in
        subst (IsScheme plain secure) same (refl, inr (same_bytes-eq scheme secure e, refl))
    | inr f ↦ ground arith
  ]
]

module _ (x : External) (url : Bytes) (e : Endpoint) where
  abbrev IsParsed : Bytes → Bytes → Type 0
  IsParsed plain secure =
      IsEndpoint e
      × (((e.scheme ≡ plain) × (e.use_tls ≡ false)) ⊎ ((e.scheme ≡ secure) × (e.use_tls ≡ true)))
      × Describes x url e

  -- A parser that reads the scheme in lower case as one of two.
  by_scheme :
      (plain secure : Bytes) (read : Bytes → Option SchemeInfo)
      → ((scheme : Bytes) (info : SchemeInfo)
          → read scheme ≡ some info
          → IsScheme plain secure info)
      → (find_text separator url >>= λ i. read (x.lower (take i url)) >>= parse_endpoint x url)
        ≡ some e
      → IsParsed plain secure
  unfolding IsScheme Parsed
  by_scheme plain secure read reads h =
      let (i, k, l) = >>=-eq-some (find_text separator url) _ h in
      let (info, m, n) = >>=-eq-some (read (x.lower (take i url))) _ l in
      let (d, known) = reads (x.lower (take i url)) info m in
      let (valid, (described, (scheme, tls))) = parse_endpoint-Parsed x url info e d n in
      (valid, rw scheme (rw tls known), described)

  -- The endpoint of a websocket, against its URL.
  pub parse_ws_endpoint-Describes :
      parse_ws_endpoint x url ≡ some e → IsEndpoint e × IsWsScheme e × Describes x url e
  unfolding parse_ws_endpoint parse_ws_scheme ws_scheme
  parse_ws_endpoint-Describes h =
      by_scheme (codes "ws") (codes "wss") ws_scheme (IsScheme-inv (codes "ws") (codes "wss")) h

  -- The endpoint of the REST interface, against its URL.
  pub parse_rest_endpoint-Describes :
      parse_rest_endpoint x url ≡ some e → IsEndpoint e × IsRestScheme e × Describes x url e
  unfolding parse_rest_endpoint parse_rest_scheme rest_scheme
  parse_rest_endpoint-Describes h =
      by_scheme (codes "http") (codes "https") rest_scheme
        (IsScheme-inv (codes "http") (codes "https")) h
