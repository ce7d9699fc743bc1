-- ===== src/Agent/Digest.antt =====
-- internal/agent/context_digest.go: the digest that binds a page's source and its creator context.
use agent_whiteboard.Base.{
  ℕ, ◌+◌, ◌/◌, ◌%◌, ◌^◌, ◌<◌, ◌≡◌, ◌≢◌, refl, List, [], ◌∷◌, ◌++◌, Option, none, some, Str, bytes,
  length, ltb, if◌then◌else◌, arith,
}
use agent_whiteboard.Agent.{Platform}

pub data PageKind : Type 0 where
  markdown html : PageKind
  unknown : Str → PageKind

-- `binary.BigEndian.PutUint64`.
unfoldable pub be64 : ℕ → List ℕ
be64 n =
    (n / 2 ^ 56 % 256)
    ∷ (n / 2 ^ 48 % 256)
    ∷ (n / 2 ^ 40 % 256)
    ∷ (n / 2 ^ 32 % 256)
    ∷ (n / 2 ^ 24 % 256)
    ∷ (n / 2 ^ 16 % 256)
    ∷ (n / 2 ^ 8 % 256)
    ∷ (n % 256)
    ∷ []

-- `writeLengthPrefixed`, in front of what is written next.
unfoldable pub length_prefixed : List ℕ → List ℕ → List ℕ
length_prefixed value rest = be64 (length value) ++ (value ++ rest)

unfoldable pub digest_input : Str → List ℕ → List ℕ → List ℕ
unfolding length_prefixed
digest_input domain source creator_context =
    domain ++ length_prefixed source (length_prefixed creator_context [])

unfoldable pub hex_digit : ℕ → ℕ
hex_digit n = if ltb n 10 then n + b'0' else n + 87

-- `hex.EncodeToString`.
unfoldable pub hex : List ℕ → Str
hex [] = []
hex (b ∷ bs) = hex_digit (b / 16) ∷ hex_digit (b % 16) ∷ hex bs

unfoldable pub domain_of : PageKind → Option Str
domain_of markdown = some (bytes "agent-whiteboard-context-v1")
domain_of html = some (bytes "agent-whiteboard-html-context-v1")
domain_of (unknown s) = none

-- `CalculateContextDigestForKind`; none is the error for an unknown kind.
unfoldable pub context_digest : Platform → PageKind → List ℕ → List ℕ → Option Str
context_digest p kind source creator_context = elim (domain_of kind) [
  | none ↦ none
  | some domain ↦ some (hex (p.sha256 (digest_input domain source creator_context)))
]

cancel_prefix : (d a b : List ℕ) → d ++ a ≡ d ++ b → a ≡ b
cancel_prefix [] a b h = h
cancel_prefix (x ∷ d) a b h = cancel_prefix d a b (cc)

split_equal : (s t x y : List ℕ) → length s ≡ length t → s ++ x ≡ t ++ y → (s ≡ t) × (x ≡ y)
split_equal [] [] x y n h = (refl, h)
split_equal [] (b ∷ t) x y n h = absurd (omega arith)
split_equal (a ∷ s) [] x y n h = absurd (omega arith)
split_equal (a ∷ s) (b ∷ t) x y n h =
    let (e, r) = split_equal s t x y (omega arith) (cc) in let head : a ≡ b = cc in (cc, r)

be64-injective : (m n : ℕ) → m < 2 ^ 64 → n < 2 ^ 64 → be64 m ≡ be64 n → m ≡ n
unfolding be64
be64-injective m n hm hn h = ground arith

length_prefixed-injective :
    (s t x y : List ℕ)
    → length s < 2 ^ 64
    → length t < 2 ^ 64
    → length_prefixed s x ≡ length_prefixed t y
    → (s ≡ t) × (x ≡ y)
unfolding length_prefixed
length_prefixed-injective s t x y hs ht h =
    let (n, r) = split_equal (be64 (length s)) (be64 (length t)) _ _ (unfold be64 in refl) h in
    split_equal s t x y (be64-injective (length s) (length t) hs ht n) r

-- Within one domain the hashed text determines the source and the creator context, byte for byte.
pub digest_input-injective :
    (domain s c s' c' : List ℕ)
    → length s < 2 ^ 64
    → length s' < 2 ^ 64
    → length c < 2 ^ 64
    → length c' < 2 ^ 64
    → digest_input domain s c ≡ digest_input domain s' c'
    → (s ≡ s') × (c ≡ c')
unfolding digest_input
digest_input-injective domain s c s' c' hs hs' hc hc' h =
    let (e, r) = length_prefixed-injective s s' _ _ hs hs' (cancel_prefix domain _ _ h) in
    (e, (length_prefixed-injective c c' [] [] hc hc' r).0)

-- A Markdown page and an HTML page never hash the same text.
pub domains_separate :
    (s c s' c' : List ℕ) (dm dh : Str)
    → domain_of markdown ≡ some dm
    → domain_of html ≡ some dh
    → digest_input dm s c ≢ digest_input dh s' c'
unfolding domain_of digest_input
domains_separate s c s' c' dm dh em eh h = ground arith
