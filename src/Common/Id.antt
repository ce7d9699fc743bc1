-- ===== src/Common/Id.antt =====
-- internal/common/id.go: resource identifiers are 24 random bytes in unpadded URL-safe base64.
-- The decoder is the one of encoding/base64: it skips carriage returns and line feeds, refuses a
-- character outside the alphabet and a length of 4 k + 1, and ignores trailing bits.
pub mod Codec
pub mod Generator
use agent_whiteboard.Base.{
  ℕ, ◌+◌, ◌-◌, ◌*◌, ◌/◌, ◌%◌, ◌||◌, Bool, true, false, List, [], ◌∷◌, Option, none, some, Str, ltb,
  ◌==◌, if◌then◌else◌, length, keep, not, ◌≡◌, refl, sym, is_empty,
}
use mathlib.Core.Option

-- The character of a sextet.
unfoldable pub enc_char : ℕ → ℕ
enc_char n =
    if ltb n 26
    then n + b'A'
    else if ltb n 52
    then n - 26 + b'a'
    else if ltb n 62
    then n - 52 + b'0'
    else if n == 62
    then b'-'
    else b'_'

unfoldable pub dec_char : ℕ → Option ℕ
dec_char c =
    if ltb c b'-'
    then none
    else if c == b'-'
    then some 62
    else if ltb c b'0'
    then none
    else if ltb c 58
    then some (c - b'0' + 52)
    else if ltb c b'A'
    then none
    else if ltb c 91
    then some (c - b'A')
    else if c == b'_'
    then some 63
    else if ltb c b'a'
    then none
    else if ltb c 123
    then some (c - b'a' + 26)
    else none

unfoldable pub encode : List ℕ → Str
encode [] = []
encode (a ∷ []) = enc_char (a / 4) ∷ enc_char (a % 4 * 16) ∷ []
encode (a ∷ b ∷ []) = enc_char (a / 4) ∷ enc_char (a % 4 * 16 + b / 16) ∷ enc_char (b % 16 * 4) ∷ []
encode (a ∷ b ∷ c ∷ r) =
    enc_char (a / 4)
    ∷ enc_char (a % 4 * 16 + b / 16)
    ∷ enc_char (b % 16 * 4 + c / 64)
    ∷ enc_char (c % 64)
    ∷ encode r

unfoldable pub is_line_break : ℕ → Bool
is_line_break c = c == 13 || c == 10

unfoldable pub sextets : Str → Option (List ℕ)
sextets [] = some []
sextets (c ∷ s) = elim (dec_char c) [ none ↦ none | some n ↦ Option.map (◌∷◌ n) (sextets s) ]

unfoldable pub join_sextets : List ℕ → Option (List ℕ)
join_sextets [] = some []
join_sextets (a ∷ []) = none
join_sextets (a ∷ b ∷ []) = some ((a * 4 + b / 16) ∷ [])
join_sextets (a ∷ b ∷ c ∷ []) = some ((a * 4 + b / 16) ∷ (b % 16 * 16 + c / 4) ∷ [])
join_sextets (a ∷ b ∷ c ∷ d ∷ r) =
    Option.map (λ t. (a * 4 + b / 16) ∷ (b % 16 * 16 + c / 4) ∷ (c % 4 * 64 + d) ∷ t)
      (join_sextets r)

unfoldable pub decode : Str → Option (List ℕ)
unfolding is_line_break
decode s = Option.bind (sextets (keep (λ c. not (is_line_break c)) s)) join_sextets

-- `CryptoIDGenerator.NewID`; `random` gives as many bytes as it is asked for, or none for its failure.
unfoldable pub new_id : (ℕ → Option (List ℕ)) → Option Str
new_id random = Option.map encode (random 24)

-- `ValidateID(id) == nil`.
unfoldable pub valid_id : Str → Bool
valid_id id =
    if length id == 32
    then elim (decode id) [ none ↦ false | some raw ↦ length raw == 24 ]
    else false

pub valid_id_nonempty : (id : Str) → valid_id id ≡ true → is_empty id ≡ false
unfolding valid_id
valid_id_nonempty [] h = sym h
valid_id_nonempty (x ∷ xs) h = refl
