-- ===== src/Protocol/Delta/Pieces.antt =====
-- internal/agent/protocol/protocol.go: the pieces that SplitDelta makes of a text.
use agent_whiteboard.Base.{
  ℕ, zero, suc, ◌≤◌, ◌<◌, true, false, List, [], ◌∷◌, ◌++◌, Option, none, some, Str, length, prefix,
  drop, concat, All, leb, ◌==◌, ==_iff, is_empty, prefix-drop, prefix-length, length-prefix_le,
  length-drop, ◌≡◌, refl, sym, ◌∙◌, ap, inl, inr, arith, Bool-cases, if◌then◌else◌,
}
use agent_whiteboard.Provider.Text.{valid_utf8, utf8_from}
use agent_whiteboard.Protocol.Delta.{
  max_delta_bytes, min, chunk_end, put, split_from, split_text, split_delta,
}
use agent_whiteboard.Protocol.Delta.Boundary.{boundary, drop-valid}

chunk_end-valid : (e : ℕ) (s : Str) → valid_utf8 (prefix (chunk_end e s) s) ≡ true
unfolding chunk_end
chunk_end-valid zero s = unfold valid_utf8 utf8_from in refl
chunk_end-valid (suc e) s = elim (Bool-cases (valid_utf8 (prefix (suc e) s))) [
  | inl h ↦ rw h h
  | inr h ↦ rw h (chunk_end-valid e s)
]

chunk_end_le : (e : ℕ) (s : Str) → chunk_end e s ≤ e
unfolding chunk_end
chunk_end_le zero s = omega arith
chunk_end_le (suc e) s = ground (arith, chunk_end_le e s)

-- No longer prefix within the limit is valid.
chunk_end-longest :
    (e : ℕ) (s : Str) (k : ℕ) → k ≤ e → valid_utf8 (prefix k s) ≡ true → k ≤ chunk_end e s
unfolding chunk_end
chunk_end-longest zero s k h v = h
chunk_end-longest (suc e) s k h v = elim (Bool-cases (k == suc e)) [
  | inl same ↦
      let end : k ≡ suc e = (==_iff k (suc e)).0 same in
      let valid : valid_utf8 (prefix (suc e) s) ≡ true =
        sym (ap (λ n. valid_utf8 (prefix n s)) end) ∙ v in
      ground (arith, valid, end)
  | inr other ↦
      let shorter : k ≤ e = ground (arith, h, other) in
      let longest = chunk_end-longest e s k shorter v in
      let least = chunk_end_le e s in ground (arith, shorter, longest)
]

-- The limit leaves room for a rune, so that each round takes a byte.
chunk_end-positive :
    (limit : ℕ) (c : ℕ) (s : Str)
    → 4 ≤ limit
    → valid_utf8 (c ∷ s) ≡ true
    → 0 < chunk_end (min (length (c ∷ s)) limit) (c ∷ s)
unfolding valid_utf8
chunk_end-positive limit c s room h = elim (Bool-cases (leb (length (c ∷ s)) limit)) [
  | inl short ↦
      let whole =
        chunk_end-longest (length (c ∷ s)) (c ∷ s) (length (c ∷ s)) (omega arith)
          (ap valid_utf8 (prefix-length (length (c ∷ s)) (c ∷ s) (omega arith)) ∙ h) in
      rw short (omega (arith, whole))
  | inr long ↦
      let over : limit < length (c ∷ s) = ground (arith, long) in
      elim (boundary [] (c ∷ s) limit h (omega (arith, over))) [
        | inl inside ↦ absurd (omega (arith, inside))
        | inr (k, kn, nk, v) ↦
            let reached = chunk_end-longest limit (c ∷ s) k kn v in
            rw long (omega (arith, room, nk, reached))
      ]
]

-- A piece is valid, not empty and within the limit.
abbrev pub Piece : ℕ → Str → Type 0
Piece limit piece = (valid_utf8 piece ≡ true) × (is_empty piece ≡ false) × (length piece ≤ limit)

-- The text in pieces.
abbrev pub Pieces : ℕ → Str → Option (List Str) → Type 0
Pieces limit text result =
    (pieces : List Str) × (result ≡ some pieces) × (concat pieces ≡ text) × All (Piece limit) pieces

is_empty-prefix : (n c : ℕ) (s : Str) → 0 < n → is_empty (prefix n (c ∷ s)) ≡ false
is_empty-prefix zero c s h = absurd (omega arith)
is_empty-prefix (suc n) c s h = refl

Pieces-put :
    (limit n c : ℕ) (s : Str) (rest : Option (List Str))
    → 0 < n
    → Piece limit (prefix n (c ∷ s))
    → Pieces limit (drop n (c ∷ s)) rest
    → Pieces limit (c ∷ s) (if n == 0 then none else put (prefix n (c ∷ s)) rest)
unfolding put
Pieces-put limit n c s rest positive piece (pieces, e, joined, all) = (
  prefix n (c ∷ s) ∷ pieces,
  ground (arith, positive, e),
  ap (λ t. prefix n (c ∷ s) ++ t) joined ∙ prefix-drop n (c ∷ s),
  (piece, all),
)

split_from-Pieces :
    (limit fuel : ℕ) (text : Str)
    → 4 ≤ limit
    → length text ≤ fuel
    → valid_utf8 text ≡ true
    → Pieces limit text (split_from limit fuel text)
unfolding split_from valid_utf8
split_from-Pieces limit fuel [] room f h = ([], refl, refl, tt)
split_from-Pieces limit zero (c ∷ s) room f h = absurd (omega (arith, f))
split_from-Pieces limit (suc fuel) (c ∷ s) room f h =
    let most = min (length (c ∷ s)) limit in
    let end = chunk_end most (c ∷ s) in
    let positive = chunk_end-positive limit c s room h in
    let within = chunk_end_le most (c ∷ s) in
    let bounded : (end ≤ length (c ∷ s)) × (end ≤ limit) = ground (arith, within) in
    let valid = chunk_end-valid most (c ∷ s) in
    let left = length-drop end (c ∷ s) bounded.0 in
    Pieces-put limit end c s (split_from limit fuel (drop end (c ∷ s))) positive
      (
        valid,
        is_empty-prefix end c s positive,
        omega (arith, bounded, length-prefix_le end (c ∷ s)),
      )
      (split_from-Pieces limit fuel (drop end (c ∷ s)) room (omega (arith, left, positive, f))
        (drop-valid [] (c ∷ s) end h valid))

-- A text that is UTF-8 is always cut: the loop ends, without an error, and the pieces joined are the
-- text, each of them UTF-8 of its own, not empty and of 32768 bytes at most.
pub split_delta-total :
    (text : Str) → valid_utf8 text ≡ true → Pieces max_delta_bytes text (split_delta text)
unfolding split_delta split_text
split_delta-total text h =
    rw h (split_from-Pieces max_delta_bytes (length text) text (omega arith) (omega arith) h)
