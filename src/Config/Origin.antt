-- ===== src/Config/Origin.antt =====
-- internal/config/origin.go: the canonical form of a browser's or a server's origin. What url.Parse,
-- netip.ParseAddr, idna's lookup profile and strings.TrimSpace answer is given; the texts that are
-- lowered are ASCII.
use agent_whiteboard.Base.{
  ℕ, ◌+◌, Bool, true, false, not, ◌&&◌, ◌||◌, [], ◌∷◌, ◌++◌, Option, none, some, Str, str_eq, bytes,
  is_empty, any, all, length, map, keep, ltb, leb, ◌==◌, if◌then◌else◌,
}
use agent_whiteboard.Common.PageUrl.{parse_uint16, format_digits}

-- The parts of a parsed URL that the rules read: `User != nil` is `has_user`.
pub record OriginUrl : Type 0 where
  pub scheme : Str
  pub host : Str
  pub has_user : Bool
  pub opaque : Str
  pub path : Str
  pub raw_path : Str
  pub raw_query : Str
  pub force_query : Bool
  pub fragment : Str

-- `netip.Addr`: its `String()` and `Is6()`.
pub record Address : Type 0 where
  pub text : Str
  pub is_6 : Bool

pub record Network : Type 0 where
  pub parse_url : Str → Option OriginUrl
  pub parse_address : Str → Option Address
  pub to_ascii : Str → Option Str
  pub trim_space : Str → Str

abbrev lower_char : ℕ → ℕ
lower_char c = if leb b'A' c && leb c b'Z' then c + 32 else c

unfoldable pub to_lower : Str → Str
to_lower = map lower_char

abbrev has_char : ℕ → Str → Bool
has_char c = any (◌==◌ c)

-- The text before the first byte, and the text behind it; none if there is none.
unfoldable pub cut : ℕ → Str → Option (Str × Str)
cut c [] = none
cut c (x ∷ s) =
    let rest = cut c s in
    if x == c
    then some ([], s)
    else elim rest [ none ↦ none | some (before, behind) ↦ some (x ∷ before, behind) ]

abbrev after_bracket : Str → Str → Option (Str × Str)
after_bracket host [] = some (host, [])
after_bracket host (c ∷ []) = none
after_bracket host (c ∷ d ∷ s) = if c == b':' then some (host, d ∷ s) else none

abbrev bracketed : Str → Bool
bracketed [] = false
bracketed (c ∷ s) = c == b'['

split_bracketed : Option (Str × Str) → Option (Str × Str)
split_bracketed none = none
split_bracketed (some (host, remainder)) = after_bracket host remainder

-- One colon at most, so the first is the last.
split_plain : Str → Option (Str × Str) → Option (Str × Str)
split_plain hostport none = some (hostport, [])
split_plain hostport (some (host, port)) = if is_empty port then none else some (host, port)

-- `splitOriginHost`.
unfoldable pub split_origin_host : Str → Option (Str × Str)
unfolding split_bracketed split_plain
split_origin_host [] = some ([], [])
split_origin_host (c ∷ s) =
    if bracketed (c ∷ s)
    then split_bracketed (cut b']' s)
    else if ltb 1 (length (keep (◌==◌ b':') (c ∷ s)))
    then none
    else split_plain (c ∷ s) (cut b':' (c ∷ s))

-- `uint16` of the port's text, 0 without one; none is the error of a port out of its range.
unfoldable pub port_of : Str → Option ℕ
port_of [] = some 0
port_of (c ∷ s) = elim (parse_uint16 (c ∷ s)) [
  | none ↦ none
  | some n ↦ if n == 0 then none else some n
]

-- Behind the host, unless it is the port of the scheme.
unfoldable pub port_suffix : ℕ → ℕ → Str
port_suffix usual port = if port == 0 || port == usual then [] else b':' ∷ format_digits 5 port

abbrev with_port : Str → ℕ → Option ℕ → Option Str
with_port front usual none = none
with_port front usual (some port) = some (front ++ port_suffix usual port)

-- A dotted text of digits is an address or nothing.
unfoldable pub numeric_host : Str → Bool
numeric_host host = has_char b'.' host && all (λ c. c == b'.' || (leb b'0' c && leb c b'9')) host

module _ (n : Network) where
  address_host : Bool → Address → Option (Str × Bool)
  address_host bracket address =
      if bracket && not address.is_6 then none else some (to_lower address.text, address.is_6)

  name_host : Option Str → Option (Str × Bool)
  name_host none = none
  name_host (some ascii) =
      if is_empty ascii || has_char b':' ascii then none else some (to_lower ascii, false)

  -- `canonicalOriginHost`: the host, and whether it is an IPv6 address.
  unfoldable pub canonical_origin_host : Str → Bool → Option (Str × Bool)
  unfolding address_host name_host
  canonical_origin_host host bracket = elim (n.parse_address host) [
    | some address ↦ address_host bracket address
    | none ↦ if bracket then none else name_host (n.to_ascii host)
  ]

  unfoldable pub exact_text : Str → Bool
  exact_text value = not (is_empty value) && str_eq (n.trim_space value) value

  -- The test on the URL that both browser rules make, with the scheme that they want.
  unfoldable pub bare_origin : Str → OriginUrl → Bool
  bare_origin scheme u =
      str_eq (to_lower u.scheme) scheme
      && not (is_empty u.host)
      && not u.has_user
      && is_empty u.opaque
      && is_empty u.path
      && is_empty u.raw_path
      && is_empty u.raw_query
      && not u.force_query
      && is_empty u.fragment

  -- The host and the port's text of an origin, without the wildcards and zones that none may have.
  unfoldable pub origin_host : Str → Option (Str × Str)
  origin_host hostport = elim (split_origin_host hostport) [
    | none ↦ none
    | some (host, port) ↦
        if is_empty host || has_char b'*' host || has_char b'%' host
        then none
        else some (host, port)
  ]

  abbrev show_host : Str × Bool → Str
  show_host (host, true) = b'[' ∷ host ++ b']' ∷ []
  show_host (host, false) = host

  https_host : Bool → Option (Str × Str) → Option Str
  https_host bracket none = none
  https_host bracket (some (host, port)) = elim (canonical_origin_host host bracket) [
    | none ↦ none
    | some canonical ↦ with_port (bytes "https://" ++ show_host canonical) 443 (port_of port)
  ]

  https_origin : Option OriginUrl → Option Str
  https_origin none = none
  https_origin (some u) =
      if not (bare_origin (bytes "https") u)
      then none
      else https_host (bracketed u.host) (origin_host u.host)

  -- `CanonicalOrigin`; none is an error.
  unfoldable pub canonical_origin : Str → Option Str
  unfolding https_origin https_host
  canonical_origin value = if not (exact_text value) then none else https_origin (n.parse_url value)

  abbrev loopback_only : Str → Option (Str × Bool) → Option Str
  loopback_only port none = none
  loopback_only port (some (host, ipv6)) =
      if ipv6 || not (str_eq host (bytes "127.0.0.1"))
      then none
      else with_port (bytes "http://127.0.0.1") 80 (port_of port)

  loopback_host : Bool → Option (Str × Str) → Option Str
  loopback_host bracket none = none
  loopback_host bracket (some (host, port)) =
      if numeric_host host && elim (n.parse_address host) [ none ↦ true | some a ↦ false ]
      then none
      else loopback_only port (canonical_origin_host host bracket)

  loopback_origin : Option OriginUrl → Option Str
  loopback_origin none = none
  loopback_origin (some u) =
      if not (bare_origin (bytes "http") u)
      then none
      else loopback_host (bracketed u.host) (origin_host u.host)

  loopback_text : Str → Option Str
  loopback_text value = if not (exact_text value) then none else loopback_origin (n.parse_url value)

  -- `CanonicalBrowserOrigin`; none is an error.
  unfoldable pub canonical_browser_origin : Str → Option Str
  unfolding loopback_text loopback_origin loopback_host
  canonical_browser_origin value = elim (canonical_origin value) [
    | some canonical ↦ some canonical
    | none ↦ loopback_text value
  ]

  publishing_host : Str → Bool → Option (Str × Str) → Option Str
  publishing_host scheme bracket none = none
  publishing_host scheme bracket (some (host, port)) =
      if numeric_host host && elim (n.parse_address host) [ none ↦ true | some a ↦ false ]
      then none
      else elim (canonical_origin_host host bracket) [
        | none ↦ none
        | some canonical ↦
            with_port (scheme ++ bytes "://" ++ show_host canonical)
              (if str_eq scheme (bytes "http") then 80 else 443) (port_of port)
      ]

  abbrev root_path : Str → Bool
  root_path path = is_empty path || str_eq path (bytes "/")

  publishing_origin : Option OriginUrl → Option Str
  publishing_origin none = none
  publishing_origin (some u) =
      let scheme = to_lower u.scheme in
      if is_empty u.host
        || u.has_user
        || not (is_empty u.opaque)
        || not (is_empty u.raw_query)
        || u.force_query
        || not (is_empty u.fragment)
        || not (str_eq scheme (bytes "http") || str_eq scheme (bytes "https"))
        || not (root_path u.path)
        || not (root_path u.raw_path)
      then none
      else publishing_host scheme (bracketed u.host) (origin_host u.host)

  -- `CanonicalPublishingOrigin`; none is an error.
  unfoldable pub canonical_publishing_origin : Str → Option Str
  unfolding publishing_origin publishing_host
  canonical_publishing_origin value =
      if not (exact_text value) || has_char b'#' value
      then none
      else publishing_origin (n.parse_url value)
