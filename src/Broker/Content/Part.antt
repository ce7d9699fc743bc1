-- ===== src/Broker/Content/Part.antt =====
-- internal/agent/broker/convert.go: what becomes of a part of a message on its way from the browser
-- protocol to the provider, under the checks of both.
use agent_whiteboard.Base.{
  zero, suc, ℤ, ℕ, ◌+◌, ◌≡◌, refl, ◌∙◌, ap, Bool, true, false, List, [], ◌∷◌, ◌++◌, map, Option,
  none, some, Str, ◌||◌, ◌==◌, leb, length, if◌then◌else◌, pos, arith,
}
use agent_whiteboard.Provider.Message.{
  PartKind, text_part, reference_part, skill_part, unknown_part, SkillInvocation, text_message_part,
}
use agent_whiteboard.Provider.Message.Reference.{max_images_per_turn}
use agent_whiteboard.Provider
use agent_whiteboard.Protocol
use agent_whiteboard.Broker.Content.{reference_to_provider, next_ordinal, part_to_provider}
use agent_whiteboard.Broker.Content.Reference.{reference_fits, reference_bytes_more, untyped}

-- The provider's variables of the loop.
abbrev pub to_scan : Protocol.Content.Valid.Scan → Provider.Message.Content.Scan
to_scan s = record {
  seen_references = s.seen;
  seen_skill_ids = s.seen_skill_ids;
  seen_skill_names = s.seen_skill_names;
  references = s.references;
  skills = s.skills;
  total = s.total;
  previous_text = s.previous_text;
}

-- What a valid part becomes, after `n` pictures: a part that the provider's check accepts as the
-- browser protocol's did, if the pictures are not too many.
abbrev pub has_room : ℕ → ℕ → Bool
has_room n shown = shown == 0 || leb (n + shown) max_images_per_turn

abbrev pub image_ids : List Protocol.Content.ImageReference → List Str
image_ids = map (λ (i : Protocol.Content.ImageReference). i.image_id)

abbrev pub reference_ordinal : Option Provider.Message.ContextReference → List ℤ
reference_ordinal none = []
reference_ordinal (some r) = elim r.visual [ none ↦ [] | some v ↦ v.ordinal ∷ [] ]

-- The places that a message's pictures are given.
abbrev pub ordinals : List Provider.Message.MessagePart → List ℤ
ordinals [] = []
ordinals (p ∷ ps) = reference_ordinal p.reference ++ ordinals ps

abbrev pub numbers : ℕ → ℕ → List ℤ
numbers n zero = []
numbers n (suc k) = pos (n + 1) ∷ numbers (n + 1) k

the_sum : (k j : ℕ) → suc k + j ≡ suc (k + j)
the_sum k j = omega arith

pub numbers-add : (n k j : ℕ) → numbers n (k + j) ≡ numbers n k ++ numbers (n + k) j
numbers-add n zero j = ground arith
numbers-add n (suc k) j =
    ap (numbers n) (the_sum k j)
    ∙ ap (λ is. pos (n + 1) ∷ is)
        (numbers-add (n + 1) k j ∙ ap (λ m. numbers (n + 1) k ++ numbers m j) (omega arith))

abbrev pub Passes :
    ℕ
    → PartKind
    → Protocol.Content.MessagePart
    → Protocol.Content.Valid.Scan
    → Protocol.Content.Valid.Scan
    → Type 0
Passes n k p s t =
    (m : ℕ) × (q : Provider.Message.MessagePart) × (part_to_provider n k p ≡ some (m, q))
    × (m ≡ n + length (Protocol.Content.part_image p))
    × (Provider.Message.Content.scan_part (to_scan s) q
        ≡ (if has_room n (length (Protocol.Content.part_image p)) then some (to_scan t) else none))
    × (Provider.Message.reference_image q.reference ≡ image_ids (Protocol.Content.part_image p))
    × (reference_ordinal q.reference ≡ numbers n (length (Protocol.Content.part_image p)))

text_Passes :
    (n : ℕ) (p : Protocol.Content.MessagePart) (s t : Protocol.Content.Valid.Scan)
    → Protocol.Content.Valid.within_limits (Protocol.Content.Valid.scan_text s p) ≡ some t
    → Passes n text_part p s t
unfolding Protocol.Content.Valid.scan_text Provider.Message.Content.scan_part
    Provider.Message.Content.scan_kind Provider.Message.Content.scan_text
    Provider.Message.reference_image
text_Passes n p s t h = (
  n,
  text_message_part p.text,
  refl,
  ground (arith, h),
  ground (arith, h),
  ground (arith, h),
  ground (arith, h),
)

skill_Passes :
    (n : ℕ) (p : Protocol.Content.MessagePart) (k : Option SkillInvocation)
    (s t : Protocol.Content.Valid.Scan)
    → p.skill ≡ k
    → Protocol.Content.Valid.within_limits (Protocol.Content.Valid.scan_skill s p k) ≡ some t
    → Passes n skill_part p s t
unfolding Protocol.Content.Valid.scan_skill Provider.Message.Content.scan_part
    Provider.Message.Content.scan_kind Provider.Message.Content.scan_skill
    Provider.Message.Content.valid_skill Provider.Message.reference_image
skill_Passes n p none s t e h = absurd (ground (arith, h))
skill_Passes n p (some k) s t e h = (
  n,
  record { kind = skill_part; text = []; reference = none; skill = some k },
  ground (arith, e),
  ground (arith, h),
  ground (arith, h),
  ground (arith, h),
  ground (arith, h),
)

reference_Passes :
    (n : ℕ) (p : Protocol.Content.MessagePart) (r : Option Protocol.Content.ContextReference)
    (s t : Protocol.Content.Valid.Scan)
    → p.reference ≡ r
    → Protocol.Content.Valid.within_limits (Protocol.Content.Valid.scan_reference false s p r)
      ≡ some t
    → Passes n reference_part p s t
unfolding Protocol.Content.Valid.scan_reference Provider.Message.Content.scan_part
    Provider.Message.Content.scan_kind Provider.Message.Content.scan_reference
    Provider.Message.reference_image
reference_Passes n p none s t e h = absurd (ground (arith, h))
reference_Passes n p (some r) s t e h =
    let valid : Protocol.Content.Reference.valid_reference false r ≡ true = ground (arith, h) in
    (
      next_ordinal n r,
      record {
        kind = reference_part;
        text = [];
        reference = some (reference_to_provider (n + 1) r);
        skill = none;
      },
      ground (arith, e),
      ground (arith, e),
      ground (
        arith,
        h,
        valid,
        reference_fits n r valid,
        reference_bytes_more (n + 1) r,
        untyped r valid,
      ),
      ground (arith, e),
      ground (arith, e),
    )

pub part_Passes :
    (n : ℕ) (p : Protocol.Content.MessagePart) (k : PartKind) (s t : Protocol.Content.Valid.Scan)
    → Protocol.Content.Valid.within_limits (Protocol.Content.Valid.scan_kind false k s p) ≡ some t
    → Passes n k p s t
unfolding Protocol.Content.Valid.scan_kind
part_Passes n p text_part s t h = text_Passes n p s t h
part_Passes n p reference_part s t h = reference_Passes n p p.reference s t refl h
part_Passes n p skill_part s t h = skill_Passes n p p.skill s t refl h
part_Passes n p (unknown_part k) s t h = absurd (ground (arith, h))
