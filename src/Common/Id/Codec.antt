-- ===== src/Common/Id/Codec.antt =====
-- internal/common/id.go: the codec of identifiers, and which texts are identifiers.
use mathlib.Core.Option
use agent_whiteboard.Base.{
  ℕ, zero, suc, ◌+◌, ◌*◌, ◌/◌, ◌%◌, ◌≤◌, ◌<◌, ◌≡◌, refl, Bool, true, false, List, [], ◌∷◌, Option,
  none, some, Str, length, All, arith, keep, not, ◌==◌, leb, ◌&&◌, ◌||◌, is_some, Option-cases, all,
  and-true, length-keep-le, if◌then◌else◌, subst, ◌↔◌, inl, inr,
}
use agent_whiteboard.Common.Id.{
  enc_char, dec_char, encode, sextets, join_sextets, decode, is_line_break, valid_id,
}

pub dec_char-enc_char : (n : ℕ) → n < 64 → dec_char (enc_char n) ≡ some n
unfolding dec_char enc_char
dec_char-enc_char n h = ground arith

pub not-is_line_break-enc_char : (n : ℕ) → is_line_break (enc_char n) ≡ false
unfolding is_line_break enc_char
not-is_line_break-enc_char n = ground arith

abbrev pub IsByte : ℕ → Type 0
IsByte b = b < 256

enc_chars : List ℕ → Str
enc_chars [] = []
enc_chars (n ∷ ns) = enc_char n ∷ enc_chars ns

-- The sextets of the input, in the order of the output.
to_sextets : List ℕ → List ℕ
to_sextets [] = []
to_sextets (a ∷ []) = (a / 4) ∷ (a % 4 * 16) ∷ []
to_sextets (a ∷ b ∷ []) = (a / 4) ∷ (a % 4 * 16 + b / 16) ∷ (b % 16 * 4) ∷ []
to_sextets (a ∷ b ∷ c ∷ r) =
    (a / 4) ∷ (a % 4 * 16 + b / 16) ∷ (b % 16 * 4 + c / 64) ∷ (c % 64) ∷ to_sextets r

encode-enc_chars : (raw : List ℕ) → encode raw ≡ enc_chars (to_sextets raw)
unfolding encode enc_chars to_sextets
encode-enc_chars [] = refl
encode-enc_chars (a ∷ []) = refl
encode-enc_chars (a ∷ b ∷ []) = refl
encode-enc_chars (a ∷ b ∷ c ∷ r) = rw (encode-enc_chars r)

abbrev IsSextet : ℕ → Type 0
IsSextet n = n < 64

to_sextets-IsSextet : (raw : List ℕ) → All IsByte raw → All IsSextet (to_sextets raw)
unfolding to_sextets
to_sextets-IsSextet [] h = tt
to_sextets-IsSextet (a ∷ []) h = omega arith
to_sextets-IsSextet (a ∷ b ∷ []) h = omega arith
to_sextets-IsSextet (a ∷ b ∷ c ∷ r) (ha, (hb, (hc, hr))) =
    (omega arith, (omega arith, (omega arith, (omega arith, to_sextets-IsSextet r hr))))

sextets-enc_chars : (ns : List ℕ) → All IsSextet ns → sextets (enc_chars ns) ≡ some ns
unfolding sextets enc_chars
sextets-enc_chars [] h = refl
sextets-enc_chars (n ∷ ns) (h, hs) =
    rw (dec_char-enc_char n h, sextets) (rw (sextets-enc_chars ns hs))

keep-enc_chars : (ns : List ℕ) → keep (λ c. not (is_line_break c)) (enc_chars ns) ≡ enc_chars ns
unfolding enc_chars
keep-enc_chars [] = refl
keep-enc_chars (n ∷ ns) = rw (not-is_line_break-enc_char n) (rw (keep-enc_chars ns))

join_sextets-to_sextets : (raw : List ℕ) → All IsByte raw → join_sextets (to_sextets raw) ≡ some raw
unfolding join_sextets to_sextets
join_sextets-to_sextets [] h = refl
join_sextets-to_sextets (a ∷ []) h = ground arith
join_sextets-to_sextets (a ∷ b ∷ []) h = ground arith
join_sextets-to_sextets (a ∷ b ∷ c ∷ r) (ha, (hb, (hc, hr))) =
    rw (join_sextets-to_sextets r hr) (ground arith)

-- What was encoded is decoded, at every length.
pub decode-encode : (raw : List ℕ) → All IsByte raw → decode (encode raw) ≡ some raw
unfolding decode Option.bind
decode-encode raw h =
    rw (encode-enc_chars raw, keep-enc_chars (to_sextets raw))
      (rw (sextets-enc_chars (to_sextets raw) (to_sextets-IsSextet raw h))
        (join_sextets-to_sextets raw h))

length-encode : (k : ℕ) (raw : List ℕ) → length raw ≡ 3 * k → length (encode raw) ≡ 4 * k
unfolding encode
length-encode zero [] h = refl
length-encode zero (a ∷ r) h = absurd (omega arith)
length-encode (suc k) [] h = absurd (omega arith)
length-encode (suc k) (a ∷ []) h = absurd (omega arith)
length-encode (suc k) (a ∷ b ∷ []) h = absurd (omega arith)
length-encode (suc k) (a ∷ b ∷ c ∷ r) h = omega (arith, length-encode k r (omega arith))

pub valid_id-encode :
    (raw : List ℕ) → All IsByte raw → length raw ≡ 24 → valid_id (encode raw) ≡ true
unfolding valid_id
valid_id-encode raw h n = ground (arith, length-encode 8 raw n, decode-encode raw h)

-- The characters of the alphabet.
unfoldable pub is_id_char : ℕ → Bool
is_id_char c =
    (leb b'A' c && leb c b'Z')
    || (leb b'a' c && leb c b'z')
    || (leb b'0' c && leb c b'9')
    || c == b'-'
    || c == b'_'

is_id_char-dec_char : (c : ℕ) → is_id_char c ≡ is_some (dec_char c)
unfolding is_id_char dec_char
is_id_char-dec_char c = ground arith

not-line_break-is_id_char : (c : ℕ) → is_line_break c ≡ true → is_id_char c ≡ false
unfolding is_id_char is_line_break
not-line_break-is_id_char c h = ground arith

length-sextets : (s : Str) (ns : List ℕ) → sextets s ≡ some ns → length ns ≡ length s
unfolding sextets
length-sextets [] ns h = ground arith
length-sextets (c ∷ s) ns h = elim (Option-cases (sextets s)) [
  | inl e ↦ ground (arith, e)
  | inr (m, e) ↦ ground (arith, e, length-sextets s m e)
]

length-join_sextets :
    (ns raw : List ℕ) → join_sextets ns ≡ some raw → length raw ≡ length ns * 3 / 4
unfolding join_sextets
length-join_sextets [] raw h = ground arith
length-join_sextets (a ∷ []) raw h = ground arith
length-join_sextets (a ∷ b ∷ []) raw h = ground arith
length-join_sextets (a ∷ b ∷ c ∷ []) raw h = ground arith
length-join_sextets (a ∷ b ∷ c ∷ d ∷ r) raw h = elim (Option-cases (join_sextets r)) [
  | inl e ↦ ground (arith, e)
  | inr (m, e) ↦ ground (arith, e, length-join_sextets r m e)
]

join_sextets_total :
    (k : ℕ) (ns : List ℕ) → length ns ≡ 4 * k → (raw : List ℕ) × (join_sextets ns ≡ some raw)
unfolding join_sextets
join_sextets_total k [] h = ([], refl)
join_sextets_total k (a ∷ []) h = absurd (omega arith)
join_sextets_total k (a ∷ b ∷ []) h = absurd (omega arith)
join_sextets_total k (a ∷ b ∷ c ∷ []) h = absurd (omega arith)
join_sextets_total zero (a ∷ b ∷ c ∷ d ∷ r) h = absurd (omega arith)
join_sextets_total (suc k) (a ∷ b ∷ c ∷ d ∷ r) h =
    let (t, e) = join_sextets_total k r (omega arith) in
    ((a * 4 + b / 16) ∷ (b % 16 * 16 + c / 4) ∷ (c % 4 * 64 + d) ∷ t, rw e)

keep_of_length : (p : ℕ → Bool) (s : Str) → length s ≤ length (keep p s) → all p s ≡ true
keep_of_length p [] h = refl
keep_of_length p (c ∷ s) h = ground (arith, length-keep-le p s, keep_of_length p s)

keep_of_all : (p : ℕ → Bool) (s : Str) → all p s ≡ true → keep p s ≡ s
keep_of_all p [] h = refl
keep_of_all p (c ∷ s) h = ground (arith, keep_of_all p s)

all-is_id_char : (s : Str) (ns : List ℕ) → sextets s ≡ some ns → all is_id_char s ≡ true
unfolding sextets
all-is_id_char [] ns h = refl
all-is_id_char (c ∷ s) ns h = elim (Option-cases (sextets s)) [
  | inl e ↦ ground (arith, e)
  | inr (m, e) ↦ ground (arith, e, is_id_char-dec_char c, all-is_id_char s m e)
]

sextets_total :
    (s : Str)
    → all is_id_char s ≡ true
    → (ns : List ℕ) × (sextets s ≡ some ns) × (keep (λ c. not (is_line_break c)) s ≡ s)
unfolding sextets
sextets_total [] h = ([], refl, refl)
sextets_total (c ∷ s) h =
    let (here, rest) = and-true (is_id_char c) (all is_id_char s) h in
    let (ns, e, k) = sextets_total s rest in
    elim (Option-cases (dec_char c)) [
      | inl e' ↦ ground (arith, is_id_char-dec_char c)
      | inr (n, e') ↦ (n ∷ ns, rw (e', sextets) (rw e), ground (arith, not-line_break-is_id_char c))
    ]

-- What a decoding of 24 bytes says of the text.
decoded_24 :
    (s : Str) (ns raw : List ℕ)
    → sextets (keep (λ c. not (is_line_break c)) s) ≡ some ns
    → join_sextets ns ≡ some raw
    → length s ≡ 32
    → length raw ≡ 24
    → all is_id_char s ≡ true
decoded_24 s ns raw e j n m =
    subst (λ t. all is_id_char t ≡ true)
      (keep_of_all plain s (
        keep_of_length plain s
          (omega (arith, length-sextets (keep plain s) ns e, length-join_sextets ns raw j))))
      (all-is_id_char (keep plain s) ns e)
  where
    plain : ℕ → Bool
    plain c = not (is_line_break c)

abbrev checked : Str → Option (List ℕ) → Bool
checked id q =
    if length id == 32 then elim q [ none ↦ false | some raw ↦ length raw == 24 ] else false

valid_id→ : (id : Str) → valid_id id ≡ true → (length id ≡ 32) × (all is_id_char id ≡ true)
unfolding valid_id decode Option.bind
valid_id→ id = parts (sextets (keep plain id)) _ refl refl
  where
    plain : ℕ → Bool
    plain c = not (is_line_break c)

    parts :
        (o q : Option (List ℕ))
        → sextets (keep plain id) ≡ o
        → Option.bind o join_sextets ≡ q
        → checked id q ≡ true
        → (length id ≡ 32) × (all is_id_char id ≡ true)
    parts none none e j h = ground arith
    parts none (some raw) e j h = ground arith
    parts (some ns) none e j h = ground arith
    parts (some ns) (some raw) e j h =
        (ground arith, decoded_24 id ns raw e j (ground arith) (ground arith))

→valid_id : (id : Str) → length id ≡ 32 → all is_id_char id ≡ true → valid_id id ≡ true
unfolding valid_id decode Option.bind
→valid_id id n h =
    let (ns, e, k) = sextets_total id h in
    let (raw, j) = join_sextets_total 8 ns (omega (arith, length-sextets id ns e)) in
    rw (k, e, j) (ground (arith, length-sextets id ns e, length-join_sextets ns raw j))

-- An identifier is a text of 32 characters of the alphabet, and any such text is one.
pub valid_id_iff :
    (id : Str) → (valid_id id ≡ true) ↔ ((length id ≡ 32) × (all is_id_char id ≡ true))
valid_id_iff id = (valid_id→ id, λ (n, h). →valid_id id n h)
