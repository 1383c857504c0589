-- ===== src/Common/Config/Url.antt =====
-- The endpoints of knight/src/common/config.h: the URLs of the builder, taken apart. Positions in a
-- URL are those of `std::string_view::find`.
pub mod Found
pub mod Port
pub mod Valid
pub mod Parsed
pub mod RoundTrip
use dex_knight.Prelude.{
  ℕ, suc, ◌^◌, ◌+◌, Bool, true, false, not, ◌||◌, ◌&&◌, Bytes, [], ◌∷◌, Option, none, some, take,
  drop, ltb, ◌==◌, same_bytes, if◌then◌else◌, ◌>>=◌,
}
use dex_knight.Prelude.Chars.{codes, from_chars}
use dex_knight.External.{External}

pub record Endpoint : Type 0 where
  pub scheme : Bytes
  pub host : Bytes
  pub port : Bytes
  pub target : Bytes
  pub use_tls : Bool

pub record SchemeInfo : Type 0 where
  pub scheme : Bytes
  pub default_port : Bytes
  pub use_tls : Bool

pub record UrlParts : Type 0 where
  pub authority : Bytes
  pub target : Bytes

pub record HostPort : Type 0 where
  pub host : Bytes
  pub port : Bytes

-- `find(c)`
unfoldable pub find_char : ℕ → Bytes → Option ℕ
find_char c [] = none
find_char c (a ∷ s) = if a == c then some 0 else (do i ← find_char c s; some (suc i))

-- The text starts with `prefix`.
unfoldable pub starts_with : Bytes → Bytes → Bool
starts_with [] s = true
starts_with (p ∷ prefix) [] = false
starts_with (p ∷ prefix) (a ∷ s) = a == p && starts_with prefix s

-- `find(text)`, of a text that is not empty
unfoldable pub find_text : Bytes → Bytes → Option ℕ
unfolding starts_with
find_text text [] = none
find_text text (a ∷ s) =
    if starts_with text (a ∷ s) then some 0 else (do i ← find_text text s; some (suc i))

abbrev pub is_empty : Bytes → Bool
is_empty [] = true
is_empty (a ∷ s) = false

abbrev pub is_found : Option ℕ → Bool
is_found none = false
is_found (some i) = true

-- The text up to a position that was found, from it on, and behind it.
abbrev pub up_to : Option ℕ → Bytes → Bytes
up_to none s = s
up_to (some i) s = take i s

abbrev pub from_or : Bytes → Option ℕ → Bytes → Bytes
from_or default none s = default
from_or default (some i) s = drop i s

abbrev pub behind_or : Bytes → Option ℕ → Bytes → Bytes
behind_or default none s = default
behind_or default (some i) s = drop (suc i) s

unfoldable pub is_valid_port : Bytes → Bool
is_valid_port port = elim (from_chars 10 (2 ^ 16) port) [
  | none ↦ false
  | some (value, rest) ↦ is_empty rest && ltb 0 value
]

-- `rest` is the URL from the start of its authority on.
unfoldable pub parse_url_parts : Bytes → Option UrlParts
unfolding find_char
parse_url_parts rest =
    let target_start = find_char b'/' rest in
    let authority = up_to target_start rest in
    let target = from_or (b'/' ∷ []) target_start rest in
    if is_empty authority || is_empty target || is_found (find_char b'@' authority)
    then none
    else some (record { authority = authority; target = target })

unfoldable pub parse_host_port : Bytes → Bytes → Option HostPort
unfolding find_char is_valid_port
parse_host_port authority default_port =
    let colon = find_char b':' authority in
    let host = up_to colon authority in
    let port = behind_or default_port colon authority in
    if is_found colon && is_found (find_char b':' (behind_or [] colon authority))
    then none
    else if is_empty host || not (is_valid_port port)
    then none
    else some (record { host = host; port = port })

abbrev pub separator : Bytes
separator = codes "://"

unfoldable pub ws_scheme : Bytes → Option SchemeInfo
ws_scheme scheme =
    if same_bytes scheme (codes "ws")
    then some (record { scheme = scheme; default_port = codes "80"; use_tls = false })
    else if same_bytes scheme (codes "wss")
    then some (record { scheme = scheme; default_port = codes "443"; use_tls = true })
    else none

unfoldable pub rest_scheme : Bytes → Option SchemeInfo
rest_scheme scheme =
    if same_bytes scheme (codes "http")
    then some (record { scheme = scheme; default_port = codes "80"; use_tls = false })
    else if same_bytes scheme (codes "https")
    then some (record { scheme = scheme; default_port = codes "443"; use_tls = true })
    else none

module _ (x : External) where
  unfoldable pub parse_ws_scheme : Bytes → Option SchemeInfo
  unfolding ws_scheme
  parse_ws_scheme scheme_raw = ws_scheme (x.lower scheme_raw)

  unfoldable pub parse_rest_scheme : Bytes → Option SchemeInfo
  unfolding rest_scheme
  parse_rest_scheme scheme_raw = rest_scheme (x.lower scheme_raw)

  unfoldable pub parse_endpoint : Bytes → SchemeInfo → Option Endpoint
  unfolding parse_url_parts parse_host_port find_text
  parse_endpoint url info = do
    scheme_end ← find_text separator url
    if not (same_bytes (x.lower (take scheme_end url)) info.scheme) then none else (do
      parts ← parse_url_parts (drop (scheme_end + 3) url)
      host_port ← parse_host_port parts.authority info.default_port
      some (record {
        scheme = info.scheme;
        host = host_port.host;
        port = host_port.port;
        target = parts.target;
        use_tls = info.use_tls;
      }))

  unfoldable pub parse_ws_endpoint : Bytes → Option Endpoint
  unfolding parse_ws_scheme parse_endpoint find_text
  parse_ws_endpoint url = do
    scheme_end ← find_text separator url
    info ← parse_ws_scheme (take scheme_end url)
    parse_endpoint url info

  unfoldable pub parse_rest_endpoint : Bytes → Option Endpoint
  unfolding parse_rest_scheme parse_endpoint find_text
  parse_rest_endpoint url = do
    scheme_end ← find_text separator url
    info ← parse_rest_scheme (take scheme_end url)
    parse_endpoint url info
