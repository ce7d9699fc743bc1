-- ===== src/Protocol/Delta/Boundary.antt =====
-- internal/agent/protocol/protocol.go: in valid UTF-8 a rune ends within the last four bytes before any
-- place, and what follows the end of a rune is valid again.
use agent_whiteboard.Base.{
  ℕ, zero, suc, ◌+◌, ◌≤◌, ◌<◌, true, ◌&&◌, List, [], ◌∷◌, some, Str, length, prefix, drop, leb, ◌≡◌,
  refl, sym, ◌∙◌, ◌⊎◌, inl, inr, arith, Option-cases, and-true,
}
use agent_whiteboard.Provider.Text.{followers, utf8_from}

-- A rune has four bytes at most.
length-followers_le : (c : ℕ) (rs : List (ℕ × ℕ)) → followers c ≡ some rs → length rs ≤ 3
unfolding followers
length-followers_le c rs h = ground (arith, h)

-- A rune begins with this byte, and the text goes on as it asks.
utf8_from-start :
    (c : ℕ) (s : Str)
    → utf8_from [] (c ∷ s) ≡ true
    → (rs : List (ℕ × ℕ)) × (followers c ≡ some rs) × (utf8_from rs s ≡ true)
unfolding utf8_from
utf8_from-start c s h = elim (Option-cases (followers c)) [
  | inl e ↦ absurd (ground (arith, e, h))
  | inr (rs, e) ↦ (rs, e, ground (arith, e, h))
]

utf8_from-begin :
    (c : ℕ) (s : Str) (rs : List (ℕ × ℕ))
    → followers c ≡ some rs
    → utf8_from [] (c ∷ s) ≡ utf8_from rs s
unfolding utf8_from
utf8_from-begin c s rs e = ground (arith, e)

-- Before any place, either a rune that was open is open still, or the last end of a rune is near.
pub boundary :
    (rs : List (ℕ × ℕ)) (s : Str) (n : ℕ)
    → utf8_from rs s ≡ true
    → n ≤ length s
    → (n < length rs) ⊎ ((k : ℕ) × (k ≤ n) × (n < k + 4) × (utf8_from rs (prefix k s) ≡ true))
unfolding utf8_from
boundary [] s zero h l = inr (0, omega arith, omega arith, refl)
boundary (r ∷ rs) s zero h l = inl (omega arith)
boundary rs [] (suc n) h l = absurd (omega arith)
boundary [] (c ∷ s) (suc n) h l =
    let (rs, e, g) = utf8_from-start c s h in
    let short = length-followers_le c rs e in
    elim (boundary rs s n g (omega arith)) [
      | inl inside ↦ inr (0, omega arith, omega (arith, short, inside), refl)
      | inr (k, kn, nk, v) ↦
          inr (suc k, omega arith, omega arith, utf8_from-begin c (prefix k s) rs e ∙ v)
    ]
boundary ((lo, hi) ∷ rs) (c ∷ s) (suc n) h l =
    let (range, g) = and-true (leb lo c && leb c hi) (utf8_from rs s) h in
    elim (boundary rs s n g (omega arith)) [
      | inl inside ↦ inl (omega arith)
      | inr (k, kn, nk, v) ↦ inr (suc k, omega arith, omega arith, ground (arith, range, v))
    ]

pub drop-valid :
    (rs : List (ℕ × ℕ)) (s : Str) (k : ℕ)
    → utf8_from rs s ≡ true
    → utf8_from rs (prefix k s) ≡ true
    → utf8_from [] (drop k s) ≡ true
unfolding utf8_from
drop-valid [] s zero h v = h
drop-valid (r ∷ rs) s zero h v = ground arith
drop-valid rs [] (suc k) h v = refl
drop-valid [] (c ∷ s) (suc k) h v =
    let (rs, e, g) = utf8_from-start c s h in
    drop-valid rs s k g (sym (utf8_from-begin c (prefix k s) rs e) ∙ v)
drop-valid ((lo, hi) ∷ rs) (c ∷ s) (suc k) h v =
    drop-valid rs s k (and-true _ (utf8_from rs s) h).1 (and-true _ (utf8_from rs (prefix k s)) v).1
