-- ===== src/Broker/Content/Accepted.antt =====
-- internal/agent/broker/convert.go: which messages of a browser are passed on, and what they show then.
use agent_whiteboard.Base.{
  ℕ, ◌≡◌, refl, sym, ◌∙◌, ap, Bool, true, false, ◌&&◌, List, [], ◌∷◌, ◌++◌, Option, some, leb,
  length, is_some, arith, and-true, Option-cases, inl, inr, length-append,
}
use agent_whiteboard.Provider.Message.Reference.{max_images_per_turn}
use agent_whiteboard.Provider
use agent_whiteboard.Protocol
use agent_whiteboard.Broker.Content.{parts_to_provider, checked_parts, message_content_to_provider}
use agent_whiteboard.Broker.Content.Part.{
  to_scan, has_room, numbers-add, part_Passes, image_ids, ordinals, numbers,
}

abbrev AllPass : ℕ → List Protocol.Content.MessagePart → Protocol.Content.Valid.Scan → Type 0
AllPass n ps s =
    (qs : List Provider.Message.MessagePart) × (parts_to_provider n ps ≡ some qs)
    × (length qs ≡ length ps)
    × (is_some (Provider.Message.Content.scan_parts (to_scan s) qs)
        ≡ has_room n (length (Protocol.Content.images_of ps)))
    × (Provider.Message.images_of qs ≡ image_ids (Protocol.Content.images_of ps))
    × (ordinals qs ≡ numbers n (length (Protocol.Content.images_of ps)))

image_ids-append :
    (xs ys : List Protocol.Content.ImageReference)
    → image_ids (xs ++ ys) ≡ image_ids xs ++ image_ids ys
image_ids-append [] ys = refl
image_ids-append (x ∷ xs) ys = ap (λ zs. x.image_id ∷ zs) (image_ids-append xs ys)

parts_AllPass :
    (n : ℕ) (ps : List Protocol.Content.MessagePart) (s : Protocol.Content.Valid.Scan)
    → is_some (Protocol.Content.Valid.scan_parts false s ps) ≡ true
    → AllPass n ps s
unfolding Protocol.Content.Valid.scan_parts Protocol.Content.Valid.scan_part
    Protocol.Content.images_of Provider.Message.Content.scan_parts Provider.Message.images_of
    parts_to_provider
parts_AllPass n [] s h = ([], refl, refl, refl, refl, refl)
parts_AllPass n (p ∷ ps) s h = elim (Option-cases (Protocol.Content.Valid.scan_part false s p)) [
  | inl refused ↦ absurd (ground (arith, h, refused))
  | inr (t, passed) ↦
      let (m, q, e, counted, checked, image, placed) = part_Passes n p p.kind s t passed in
      let (qs, es, same_length, found, images, numbered) =
        parts_AllPass m ps t (ground (arith, h, passed)) in
      (
        q ∷ qs,
        ground (arith, e, es),
        ground (arith, same_length),
        ground (
          arith,
          counted,
          checked,
          found,
          length-append (Protocol.Content.part_image p) (Protocol.Content.images_of ps),
        ),
        ap (λ is. is ++ Provider.Message.images_of qs) image
            ∙ ap (λ is. image_ids (Protocol.Content.part_image p) ++ is) images
            ∙ sym
                (image_ids-append (Protocol.Content.part_image p) (Protocol.Content.images_of ps)),
        ap (λ is. is ++ ordinals qs) placed
            ∙ ap (λ is. numbers n (length (Protocol.Content.part_image p)) ++ is)
                (numbered ∙ ap (λ k. numbers k (length (Protocol.Content.images_of ps))) counted)
            ∙ sym (
                numbers-add n (length (Protocol.Content.part_image p))
                  (length (Protocol.Content.images_of ps)))
            ∙ ap (numbers n) (
                sym
                  (length-append (Protocol.Content.part_image p) (Protocol.Content.images_of ps))),
      )
]

-- The browser's message as the provider gets it.
abbrev converted_parts : List Protocol.Content.MessagePart → Option Provider.Message.MessageContent
converted_parts ps = checked_parts (parts_to_provider 0 ps)

converted-limited :
    (ps : List Protocol.Content.MessagePart)
    → leb (length ps) Protocol.Content.max_message_parts ≡ true
    → AllPass 0 ps Protocol.Content.Valid.fresh_scan
    → is_some (converted_parts ps)
      ≡ leb (length (Protocol.Content.images_of ps)) max_images_per_turn
unfolding Provider.Message.Content.valid_content
converted-limited ps few (qs, e, same_length, found, images, numbered) =
    ground (arith, few, e, same_length, found)

accepts :
    (content : Protocol.Content.MessageContent) (valid : Bool)
    → Protocol.Content.Valid.valid_content false content ≡ valid
    → is_some (message_content_to_provider content)
      ≡ (valid && leb (length (Protocol.Content.inline_images content)) max_images_per_turn)
unfolding message_content_to_provider Protocol.Content.Valid.valid_content
    Protocol.Content.inline_images
accepts content false v = ground (arith, v)
accepts content true v =
    let (few, scanned) =
      and-true (leb (length content.parts) Protocol.Content.max_message_parts)
        (is_some
          (Protocol.Content.Valid.scan_parts false Protocol.Content.Valid.fresh_scan content.parts))
        v in
    let passed = parts_AllPass 0 content.parts Protocol.Content.Valid.fresh_scan scanned in
    ground (arith, v, converted-limited content.parts few passed)

-- The broker passes a browser's message on to the provider exactly when it is valid as a command and
-- shows at most eight pictures.
pub message_content_to_provider_accepts :
    (content : Protocol.Content.MessageContent)
    → is_some (message_content_to_provider content) ≡ (
        Protocol.Content.Valid.valid_content false content
        && leb (length (Protocol.Content.inline_images content)) max_images_per_turn)
unfolding message_content_to_provider Protocol.Content.Valid.valid_content
    Protocol.Content.inline_images
message_content_to_provider_accepts content =
    accepts content (Protocol.Content.Valid.valid_content false content) refl

-- A message that is passed on shows the same pictures in the same order, numbered from 1, and has as
-- many parts.
pub message_content_to_provider_shows :
    (content : Protocol.Content.MessageContent) (converted : Provider.Message.MessageContent)
    → message_content_to_provider content ≡ some converted
    → (Provider.Message.inline_image_ids converted
        ≡ image_ids (Protocol.Content.inline_images content))
      × (ordinals converted.parts ≡ numbers 0 (length (Protocol.Content.inline_images content)))
      × (length converted.parts ≡ length content.parts)
unfolding message_content_to_provider Protocol.Content.inline_images
    Provider.Message.inline_image_ids Protocol.Content.Valid.valid_content
message_content_to_provider_shows content converted h =
    let valid : Protocol.Content.Valid.valid_content false content ≡ true = ground (arith, h) in
    let (qs, e, same_length, found, images, numbered) =
      parts_AllPass 0 content.parts Protocol.Content.Valid.fresh_scan
        (and-true (leb (length content.parts) Protocol.Content.max_message_parts)
          (is_some (
            Protocol.Content.Valid.scan_parts false Protocol.Content.Valid.fresh_scan
              content.parts))
          valid).1 in
    let same : converted.parts ≡ qs = ground (arith, h, e, valid) in
    (
      ap Provider.Message.images_of same ∙ images,
      ap ordinals same ∙ numbered,
      ap length same ∙ same_length,
    )
