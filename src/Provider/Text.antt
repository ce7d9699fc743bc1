-- ===== src/Provider/Text.antt =====
-- The text rules of internal/agent/provider/provider.go, over the bytes of a Go string. A rune
-- below 0x80 is one byte, which no longer sequence contains, so a test on runes of that range is
-- the same test on bytes.
use agent_whiteboard.Base.{
  ℕ, Bool, true, false, not, ◌&&◌, ◌||◌, List, [], ◌∷◌, Option, none, some, Str, length, is_empty,
  any, all, ltb, leb, ◌==◌, if◌then◌else◌,
}

-- The ranges of the bytes that must follow a leading byte; none if no rune begins so.
unfoldable pub followers : ℕ → Option (List (ℕ × ℕ))
followers c =
    if ltb c 0x80
    then some []
    else if ltb c 0xc2
    then none
    else if ltb c 0xe0
    then some ((0x80, 0xbf) ∷ [])
    else if c == 0xe0
    then some ((0xa0, 0xbf) ∷ (0x80, 0xbf) ∷ [])
    else if c == 0xed
    then some ((0x80, 0x9f) ∷ (0x80, 0xbf) ∷ [])
    else if ltb c 0xf0
    then some ((0x80, 0xbf) ∷ (0x80, 0xbf) ∷ [])
    else if c == 0xf0
    then some ((0x90, 0xbf) ∷ (0x80, 0xbf) ∷ (0x80, 0xbf) ∷ [])
    else if ltb c 0xf4
    then some ((0x80, 0xbf) ∷ (0x80, 0xbf) ∷ (0x80, 0xbf) ∷ [])
    else if c == 0xf4
    then some ((0x80, 0x8f) ∷ (0x80, 0xbf) ∷ (0x80, 0xbf) ∷ [])
    else none

unfoldable pub utf8_from : List (ℕ × ℕ) → Str → Bool
utf8_from [] [] = true
utf8_from (r ∷ rs) [] = false
utf8_from [] (c ∷ s) = elim (followers c) [ none ↦ false | some rs ↦ utf8_from rs s ]
utf8_from ((lo, hi) ∷ rs) (c ∷ s) = leb lo c && leb c hi && utf8_from rs s

-- `utf8.ValidString` and `utf8.Valid`.
unfoldable pub valid_utf8 : Str → Bool
valid_utf8 = utf8_from []

unfoldable pub has_disallowed_c0 : Str → Bool
has_disallowed_c0 = any (λ c. ltb c 0x20 && not (c == 9) && not (c == 10) && not (c == 13))

unfoldable pub valid_bounded_text : Str → ℕ → Bool → Bool
valid_bounded_text value max_bytes nonempty =
    valid_utf8 value
    && leb (length value) max_bytes
    && (not nonempty || not (is_empty value))
    && not (has_disallowed_c0 value)

unfoldable pub valid_bounded_bytes : Str → ℕ → Bool → Bool
valid_bounded_bytes value max_bytes nonempty =
    valid_utf8 value && leb (length value) max_bytes && (not nonempty || not (is_empty value))

-- `validContextDigest`: 64 lowercase hexadecimal digits.
unfoldable pub valid_context_digest : Str → Bool
valid_context_digest value =
    length value == 64 && all (λ c. (leb b'0' c && leb c b'9') || (leb b'a' c && leb c b'f')) value
