-- ===== src/Common/Id/Generator.antt =====
-- internal/common/id.go: the identifiers that NewID makes.
use agent_whiteboard.Base.{
  ℕ, ◌≡◌, sym, ◌∙◌, ap, true, List, Option, some, Str, length, All, arith, Option-cases, inl, inr,
}
use agent_whiteboard.Common.Id.{encode, decode, valid_id, new_id}
use agent_whiteboard.Common.Id.Codec.{IsByte, decode-encode, valid_id-encode}

-- A source of random bytes, which gives as many as it is asked for if it does not fail.
abbrev pub GivesBytes : (ℕ → Option (List ℕ)) → Type 0
GivesBytes random = (n : ℕ) (raw : List ℕ) → random n ≡ some raw → All IsByte raw × (length raw ≡ n)

-- Where the random sources give bytes, as many as they are asked for: an identifier that the generator
-- makes is valid, and from different bytes it makes different ones.
pub new_id_lem :
    (random random' : ℕ → Option (List ℕ)) (id : Str)
    → GivesBytes random
    → GivesBytes random'
    → new_id random ≡ some id
    → new_id random' ≡ some id
    → (valid_id id ≡ true) × (random 24 ≡ random' 24)
unfolding new_id
new_id_lem random random' id gives gives' h h' = elim (Option-cases (random 24)) [
  | inl e ↦ absurd (ground (arith, h, e))
  | inr (raw, e) ↦ elim (Option-cases (random' 24)) [
    | inl e' ↦ absurd (ground (arith, h', e'))
    | inr (raw', e') ↦
        let given = gives 24 raw e in
        let given' = gives' 24 raw' e' in
        let made : encode raw ≡ id = ground (arith, h, e) in
        let made' : encode raw' ≡ id = ground (arith, h', e') in
        let same : some raw ≡ some raw' =
          sym (decode-encode raw given.0)
          ∙ ap decode (made ∙ sym made')
          ∙ decode-encode raw' given'.0 in
        (ap valid_id (sym made) ∙ valid_id-encode raw given.0 given.1, e ∙ same ∙ sym e')
  ]
]
