-- ===== src/Broker/Content.antt =====
-- internal/agent/broker/convert.go: a browser's message as one for the provider. A reference is copied
-- field by field into the provider's type; only its picture differs, which loses its media type and
-- gets its place among the message's pictures.
pub mod Reference
pub mod Part
pub mod Accepted
use agent_whiteboard.Base.{
  ℕ, ◌+◌, false, List, [], ◌∷◌, Option, none, some, if◌then◌else◌, pos, is_some,
}
use agent_whiteboard.Provider.Message.{
  PartKind, text_part, reference_part, skill_part, unknown_part, SkillInvocation, text_message_part,
}
use agent_whiteboard.Provider
use agent_whiteboard.Protocol

abbrev pub visual_to_provider :
    ℕ → Option Protocol.Content.ReferenceVisual → Option Provider.Message.ReferenceVisual
visual_to_provider ordinal none = none
visual_to_provider ordinal (some v) =
    some (record { image_id = v.image_id; name = v.name; alt = v.alt; ordinal = pos ordinal })

-- `contextReferenceToProvider`, with the place of the picture.
abbrev pub reference_to_provider :
    ℕ → Protocol.Content.ContextReference → Provider.Message.ContextReference
reference_to_provider ordinal r = record {
  id = r.id;
  kind = r.kind;
  label = r.label;
  source = r.source;
  quote = r.quote;
  markdown = r.markdown;
  section_lines = r.section_lines;
  component = r.component;
  visual = visual_to_provider ordinal r.visual;
}

-- How many pictures have been met once a reference is.
abbrev pub next_ordinal : ℕ → Protocol.Content.ContextReference → ℕ
next_ordinal n r = if is_some r.visual then n + 1 else n

abbrev reference_part_to_provider :
    ℕ → Option Protocol.Content.ContextReference → Option (ℕ × Provider.Message.MessagePart)
reference_part_to_provider n none = none
reference_part_to_provider n (some r) = some (
  next_ordinal n r,
  record {
    kind = reference_part;
    text = [];
    reference = some (reference_to_provider (n + 1) r);
    skill = none;
  },
)

abbrev skill_part_to_provider :
    ℕ → Option SkillInvocation → Option (ℕ × Provider.Message.MessagePart)
skill_part_to_provider n none = none
skill_part_to_provider n (some k) =
    some (n, record { kind = skill_part; text = []; reference = none; skill = some k })

-- A round of the loop: the number of pictures so far, and the part. A reference part without a
-- reference would stop the source; validation has refused it before.
abbrev pub part_to_provider :
    ℕ → PartKind → Protocol.Content.MessagePart → Option (ℕ × Provider.Message.MessagePart)
part_to_provider n text_part p = some (n, text_message_part p.text)
part_to_provider n reference_part p = reference_part_to_provider n p.reference
part_to_provider n skill_part p = skill_part_to_provider n p.skill
part_to_provider n (unknown_part k) p = none

abbrev followed_by :
    Provider.Message.MessagePart
    → Option (List Provider.Message.MessagePart)
    → Option (List Provider.Message.MessagePart)
followed_by p none = none
followed_by p (some ps) = some (p ∷ ps)

unfoldable pub parts_to_provider :
    ℕ → List Protocol.Content.MessagePart → Option (List Provider.Message.MessagePart)
parts_to_provider n [] = some []
parts_to_provider n (p ∷ ps) = elim (part_to_provider n p.kind p) [
  | none ↦ none
  | some converted ↦ followed_by converted.1 (parts_to_provider converted.0 ps)
]

abbrev pub checked_parts :
    Option (List Provider.Message.MessagePart) → Option Provider.Message.MessageContent
checked_parts none = none
checked_parts (some parts) =
    let converted : Provider.Message.MessageContent = record { parts = parts } in
    if Provider.Message.Content.valid_content converted then some converted else none

-- `messageContentToProvider`.
unfoldable pub message_content_to_provider :
    Protocol.Content.MessageContent → Option Provider.Message.MessageContent
unfolding parts_to_provider
message_content_to_provider content =
    if Protocol.Content.Valid.valid_content false content
    then checked_parts (parts_to_provider 0 content.parts)
    else none
