-- ===== src/Common/PageUrl.antt =====
-- internal/common/page_url.go: which URLs a page may have.
use agent_whiteboard.Base.{
  ℕ, zero, suc, ◌+◌, ◌-◌, ◌*◌, ◌/◌, ◌%◌, Bool, true, false, not, ◌&&◌, ◌||◌, [], ◌∷◌, ◌++◌, Option,
  none, some, Str, str_eq, bytes, is_empty, leb, ltb, ◌==◌, if◌then◌else◌,
}
use agent_whiteboard.Agent.{Url}

-- `strings.TrimPrefix` where `strings.HasPrefix` holds, none where it does not.
unfoldable pub strip_prefix : Str → Str → Option Str
strip_prefix [] s = some s
strip_prefix (x ∷ p) [] = none
strip_prefix (x ∷ p) (y ∷ s) = if x == y then strip_prefix p s else none

unfoldable pub parse_digits : ℕ → Str → Option ℕ
parse_digits acc [] = some acc
parse_digits acc (c ∷ s) =
    let rest = parse_digits (acc * 10 + (c - b'0')) s in
    if leb b'0' c && leb c b'9' then rest else none

-- `strconv.ParseUint(text, 10, 16)`.
unfoldable pub parse_uint16 : Str → Option ℕ
unfolding parse_digits
parse_uint16 s =
    if is_empty s
    then none
    else elim (parse_digits 0 s) [ none ↦ none | some n ↦ if ltb n 65536 then some n else none ]

-- `strconv.FormatUint(n, 10)`; the fuel is the number of digits at most.
unfoldable pub format_digits : ℕ → ℕ → Str
format_digits zero n = []
format_digits (suc fuel) n =
    let front = format_digits fuel (n / 10) in
    if ltb n 10 then (n + b'0') ∷ [] else front ++ (n % 10 + b'0') ∷ []

unfoldable pub valid_port : Str → Bool
unfolding parse_uint16 format_digits
valid_port text = elim (parse_uint16 text) [
  | none ↦ false
  | some port ↦ not (port == 0) && not (port == 80) && str_eq (format_digits 5 port) text
]

loopback_host : Str → Bool
unfolding strip_prefix valid_port
loopback_host host =
    if str_eq host (bytes "127.0.0.1")
    then true
    else elim (strip_prefix (bytes "127.0.0.1:") host) [
      | none ↦ false
      | some port ↦ valid_port port
    ]

-- `ValidPageURL` on what `url.Parse` gave.
unfoldable pub valid_page_url : Option Url → Bool
unfolding loopback_host
valid_page_url none = false
valid_page_url (some u) =
    if is_empty u.hostname || u.has_user
    then false
    else if str_eq u.scheme (bytes "https")
    then true
    else if not (str_eq u.scheme (bytes "http")) || not (str_eq u.hostname (bytes "127.0.0.1"))
    then false
    else loopback_host u.host
