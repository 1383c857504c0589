-- ===== src/Common/Config/Url/Valid.antt =====
-- What makes an endpoint valid, and the parts of a URL.
use dex_knight.Prelude.{
  ℕ, suc, ◌≡◌, ◌≢◌, ◌⊎◌, inl, inr, refl, sym, ◌∙◌, ap, subst, Bool, true, false, arith, Bytes, [],
  ◌∷◌, ◌++◌, Option, none, some, take, drop, if◌then◌else◌, guarded_inv, not, ◌||◌, ◌&&◌,
}
use dex_knight.Common.Config.Url.{
  Endpoint, UrlParts, HostPort, find_char, is_empty, is_found, up_to, from_or, behind_or,
  is_valid_port, parse_url_parts, parse_host_port,
}
use dex_knight.Common.Config.Url.Found.{Lacks, find_char-eq-some}
use dex_knight.Common.Config.Url.Port.{IsPort}

-- The target starts with a slash.
abbrev pub IsTarget : Bytes → Type 0
IsTarget target = (rest : Bytes) × (target ≡ b'/' ∷ rest)

-- What a parsed endpoint satisfies, apart from its scheme.
pub record IsEndpoint (e : Endpoint) : Type 0 where
  pub host_given : e.host ≢ []
  pub no_colon : Lacks b':' e.host
  pub no_slash : Lacks b'/' e.host
  pub no_at : Lacks b'@' e.host
  pub port_valid : IsPort e.port
  pub target_valid : IsTarget e.target

given-not_empty : (s : Bytes) → is_empty s ≡ false → s ≢ []
given-not_empty [] h = cc
given-not_empty (a ∷ s) h = λ e. cc e

pub not_empty-given : (s : Bytes) → s ≢ [] → is_empty s ≡ false
not_empty-given [] h = absurd (h refl)
not_empty-given (a ∷ s) h = refl

unfound : (o : Option ℕ) → is_found o ≡ false → o ≡ none
unfound o h = ground arith

-- What a guard of three tests, or of two, lets through.
none_of_three : (a b c : Bool) → a || b || c ≡ false → (a ≡ false) × ((b ≡ false) × (c ≡ false))
none_of_three a b c h = ground arith

none_of_two : (a b : Bool) → a || b ≡ false → (a ≡ false) × (b ≡ false)
none_of_two a b h = ground arith

module _ (rest : Bytes) where
  -- The URL from its authority on, taken apart at its first slash.
  target_split :
      (t : Option ℕ)
      → find_char b'/' rest ≡ t
      → let authority = up_to t rest in
        let target = from_or (b'/' ∷ []) t rest in
        Lacks b'/' authority
        × (IsTarget target
            × ((rest ≡ authority ++ target) ⊎ ((rest ≡ authority) × (target ≡ b'/' ∷ []))))
  target_split none h = (h, (([], refl), inr (refl, refl)))
  target_split (some i) h =
      let (parts, lacks, dropped) = find_char-eq-some b'/' rest i h in
      (
        lacks,
        ((drop (suc i) rest, dropped), inl (parts ∙ ap (λ t. take i rest ++ t) (sym dropped))),
      )

  abbrev pub Parts : UrlParts → Type 0
  Parts parts =
      (parts.authority ≢ [])
      × (Lacks b'@' parts.authority
          × (Lacks b'/' parts.authority
              × (IsTarget parts.target
                  × ((rest ≡ parts.authority ++ parts.target)
                      ⊎ ((rest ≡ parts.authority) × (parts.target ≡ b'/' ∷ []))))))

  pub parse_url_parts-Parts : (parts : UrlParts) → parse_url_parts rest ≡ some parts → Parts parts
  unfolding parse_url_parts
  parse_url_parts-Parts parts h =
      let t = find_char b'/' rest in
      let authority = up_to t rest in
      let target = from_or (b'/' ∷ []) t rest in
      let parsed : UrlParts = record { authority = authority; target = target } in
      let (g, e) =
        guarded_inv (is_empty authority || is_empty target || is_found (find_char b'@' authority))
          (some parsed) h in
      let (given, (given', no_at)) =
        none_of_three (is_empty authority) (is_empty target) (is_found (find_char b'@' authority))
          g in
      let (lacks, (slash, split)) = target_split t refl in
      let same : parsed ≡ parts = cc e in
      subst Parts same (
        given-not_empty authority given,
        (unfound (find_char b'@' authority) no_at, (lacks, (slash, split))),
      )

module _ (authority default_port : Bytes) where
  abbrev pub HostParts : HostPort → Type 0
  HostParts hp =
      (hp.host ≢ [])
      × (Lacks b':' hp.host
          × ((is_valid_port hp.port ≡ true)
              × ((authority ≡ hp.host ++ b':' ∷ hp.port)
                  ⊎ ((authority ≡ hp.host) × (hp.port ≡ default_port)))))

  port_split :
      (t : Option ℕ)
      → find_char b':' authority ≡ t
      → let host = up_to t authority in
        let port = behind_or default_port t authority in
        Lacks b':' host
        × ((authority ≡ host ++ b':' ∷ port) ⊎ ((authority ≡ host) × (port ≡ default_port)))
  port_split none h = (h, inr (refl, refl))
  port_split (some i) h =
      let (parts, lacks, dropped) = find_char-eq-some b':' authority i h in (lacks, inl parts)

  pub parse_host_port-HostParts :
      (hp : HostPort) → parse_host_port authority default_port ≡ some hp → HostParts hp
  unfolding parse_host_port
  parse_host_port-HostParts hp h =
      let t = find_char b':' authority in
      let host = up_to t authority in
      let port = behind_or default_port t authority in
      let parsed : HostPort = record { host = host; port = port } in
      let (g, m) =
        guarded_inv (is_found t && is_found (find_char b':' (behind_or [] t authority)))
          (if is_empty host || not (is_valid_port port) then none else some parsed) h in
      let (g', e) = guarded_inv (is_empty host || not (is_valid_port port)) (some parsed) m in
      let (given, valid) = none_of_two (is_empty host) (not (is_valid_port port)) g' in
      let (lacks, split) = port_split t refl in
      let same : parsed ≡ hp = cc e in
      let accepted : is_valid_port port ≡ true = ground arith in
      subst HostParts same (given-not_empty host given, (lacks, (accepted, split)))
