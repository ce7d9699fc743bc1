-- ===== src/Provider/Message/Normal.antt =====
-- What `NormalizeMessageContent` keeps of a message.
use agent_whiteboard.Base.{
  ◌+◌, ◌≡◌, refl, true, List, [], ◌∷◌, ◌++◌, none, some, Str, length, sum_of, is_empty, arith,
  Bool-cases, Option-cases, inl, inr, append_assoc, append-nil, sum_of-append, length-append,
  push_back, sym, ◌∙◌, ap, subst,
}
use agent_whiteboard.Provider.Message.{
  PartKind, MessagePart, MessageContent, text_part, reference_part, skill_part, unknown_part,
  is_text, part_text, reference_image, part_bytes, semantic_bytes, images_of, inline_image_ids,
  plain_text_of, plain_text,
}
use agent_whiteboard.Provider.Message.Content.{
  append_text, normalize_part, normalize_parts, normalize, valid_content,
}

plain_text_of-append :
    (ps qs : List MessagePart) → plain_text_of (ps ++ qs) ≡ plain_text_of ps ++ plain_text_of qs
unfolding plain_text_of
plain_text_of-append [] qs = refl
plain_text_of-append (p ∷ ps) qs =
    rw (plain_text_of-append ps qs) (sym (append_assoc (part_text p) _ _))

images_of-append : (ps qs : List MessagePart) → images_of (ps ++ qs) ≡ images_of ps ++ images_of qs
unfolding images_of
images_of-append [] qs = refl
images_of-append (p ∷ ps) qs =
    rw (images_of-append ps qs) (sym (append_assoc (reference_image p.reference) _ _))

plain_text_of-append_text :
    (ps : List MessagePart) (t : Str) → plain_text_of (append_text ps t) ≡ plain_text_of ps ++ t
unfolding plain_text_of append_text
plain_text_of-append_text [] t = append-nil t
plain_text_of-append_text (p ∷ []) t = elim (Bool-cases (is_text p.kind)) [
  | inl e ↦ rw e (rw e (simp (append-nil)))
  | inr e ↦ simp (e, append-nil)
]
plain_text_of-append_text (p ∷ q ∷ ps) t =
    rw (plain_text_of-append_text (q ∷ ps) t) (sym (append_assoc (part_text p) _ t))

images_of-append_text :
    (ps : List MessagePart) (t : Str) → images_of (append_text ps t) ≡ images_of ps
unfolding images_of append_text
images_of-append_text [] t = refl
images_of-append_text (p ∷ []) t = ground arith
images_of-append_text (p ∷ q ∷ ps) t = rw (images_of-append_text (q ∷ ps) t)

bytes-append_text :
    (ps : List MessagePart) (t : Str)
    → sum_of part_bytes (append_text ps t) ≡ sum_of part_bytes ps + length t
unfolding part_bytes append_text
bytes-append_text [] t = omega arith
bytes-append_text (p ∷ []) t = ground (arith, length-append p.text t)
bytes-append_text (p ∷ q ∷ ps) t = omega (arith, bytes-append_text (q ∷ ps) t)

-- What the result of a round holds beside what stood before.
record Adds (result r : List MessagePart) (p : MessagePart) : Type 0 where
  text : plain_text_of r ≡ plain_text_of result ++ part_text p
  images : images_of r ≡ images_of result ++ reference_image p.reference
  size : sum_of part_bytes r ≡ sum_of part_bytes result + part_bytes p

push_back-Adds : (result : List MessagePart) (p : MessagePart) → Adds result (push_back result p) p
unfolding plain_text_of images_of
push_back-Adds result p = record {
  text = plain_text_of-append result (p ∷ []) ∙ ap (◌++◌ (plain_text_of result)) (append-nil _);
  images = images_of-append result (p ∷ []) ∙ ap (◌++◌ (images_of result)) (append-nil _);
  size = omega (arith, sum_of-append part_bytes result (p ∷ []));
}

append_text-Adds :
    (result : List MessagePart) (p : MessagePart)
    → p.kind ≡ text_part
    → p.reference ≡ none
    → Adds result (append_text result p.text) p
unfolding part_text part_bytes reference_image
append_text-Adds result p k r = record {
  text = ground (arith, plain_text_of-append_text result p.text);
  images = ground (arith, images_of-append_text result p.text, append-nil (images_of result));
  size = ground (arith, bytes-append_text result p.text);
}

-- An empty text adds nothing.
empty-Adds :
    (result : List MessagePart) (p : MessagePart)
    → p.kind ≡ text_part
    → p.reference ≡ none
    → is_empty p.text ≡ true
    → Adds result result p
unfolding part_text part_bytes reference_image
empty-Adds result p k r e = record {
  text = ground (arith, append-nil (plain_text_of result));
  images = ground (arith, append-nil (images_of result));
  size = ground arith;
}

normalize_part-Adds :
    (k : PartKind) (result r : List MessagePart) (p : MessagePart)
    → p.kind ≡ k
    → normalize_part k result p ≡ some r
    → Adds result r p
unfolding normalize_part
normalize_part-Adds text_part result r p e h = elim (Bool-cases (is_empty p.text)) [
  | inl empty ↦
      subst (λ r. Adds result r p) {x = result} (ground arith)
        (empty-Adds result p e (ground arith) empty)
  | inr full ↦
      subst (λ r. Adds result r p) {x = append_text result p.text} (ground arith)
        (append_text-Adds result p e (ground arith))
]
normalize_part-Adds reference_part result r p e h =
    subst (λ r. Adds result r p) {x = push_back result p} (ground arith) (push_back-Adds result p)
normalize_part-Adds skill_part result r p e h =
    subst (λ r. Adds result r p) {x = push_back result p} (ground arith) (push_back-Adds result p)
normalize_part-Adds (unknown_part k) result r p e h = ground arith

record Keeps (result ps r : List MessagePart) : Type 0 where
  text : plain_text_of r ≡ plain_text_of result ++ plain_text_of ps
  images : images_of r ≡ images_of result ++ images_of ps
  size : sum_of part_bytes r ≡ sum_of part_bytes result + sum_of part_bytes ps

normalize_parts-Keeps :
    (result ps r : List MessagePart) → normalize_parts result ps ≡ some r → Keeps result ps r
unfolding normalize_parts plain_text_of images_of
normalize_parts-Keeps result [] r h = record {
  text = ground (arith, append-nil (plain_text_of result));
  images = ground (arith, append-nil (images_of result));
  size = ground arith;
}
normalize_parts-Keeps result (p ∷ ps) r h = elim (Option-cases (normalize_part p.kind result p)) [
  | inl e ↦ ground (arith, e)
  | inr (m, e) ↦
      let one = normalize_part-Adds p.kind result m p refl e in
      let rest = normalize_parts-Keeps m ps r (rw (e, normalize_parts) at h) in
      record {
        text = rest.text ∙ rw one.text (append_assoc (plain_text_of result) (part_text p) _);
        images = rest.images ∙ rw one.images (append_assoc (images_of result) _ _);
        size = omega (arith, one, rest);
      }
]

-- A message that is normalised reads as it did: same plain text, same inline images in the same
-- order, same size, and it is valid.
pub normalize_keeps :
    (content result : MessageContent)
    → normalize content ≡ some result
    → (plain_text result ≡ plain_text content)
      × (inline_image_ids result ≡ inline_image_ids content)
      × (semantic_bytes result ≡ semantic_bytes content)
      × (valid_content result ≡ true)
unfolding normalize plain_text inline_image_ids semantic_bytes plain_text_of images_of
normalize_keeps content result h = elim (Option-cases (normalize_parts [] content.parts)) [
  | inl e ↦ ground (arith, e)
  | inr (r, e) ↦
      let kept = normalize_parts-Keeps [] content.parts r e in
      let same : r ≡ result.parts = ground arith in
      (rw (← same) kept.text, rw (← same) kept.images, ground arith, ground arith)
]
