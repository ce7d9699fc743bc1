-- ===== src/Protocol/Content.antt =====
-- internal/agent/protocol/content.go: a message as a browser sends it, and as the broker shows it. The
-- types that have the same fields as those of internal/agent/provider are those; what differs is an
-- image, which has a media type here in events, and no ordinal.
pub mod Reference
pub mod Valid
use agent_whiteboard.Base.{
  ℕ, ◌+◌, ◌&&◌, ◌||◌, List, [], ◌∷◌, Option, none, some, Str, length, is_empty, sum_of, ◌==◌,
  if◌then◌else◌, ◌++◌,
}
use agent_whiteboard.Provider.Message.{
  PartKind, text_part, ReferenceKind, SkillInvocation, HeadingReference, ReferenceAnchor,
  ReferenceSource, SourceLineRange, ComponentReference, component_type_bytes,
}

pub record ReferenceVisual : Type 0 where
  pub image_id : Str
  pub name : Str
  pub alt : Str
  pub media_type : Str

pub record ContextReference : Type 0 where
  pub id : Str
  pub kind : ReferenceKind
  pub label : Str
  pub source : ReferenceSource
  pub quote : Str
  pub markdown : Str
  pub section_lines : Option SourceLineRange
  pub component : Option ComponentReference
  pub visual : Option ReferenceVisual

pub record MessagePart : Type 0 where
  pub kind : PartKind
  pub text : Str
  pub reference : Option ContextReference
  pub skill : Option SkillInvocation

pub record MessageContent : Type 0 where
  pub parts : List MessagePart

abbrev pub max_message_bytes : ℕ
max_message_bytes = 65536

abbrev pub max_message_parts : ℕ
max_message_parts = 64

abbrev pub max_message_references : ℕ
max_message_references = 16

abbrev pub max_message_skills : ℕ
max_message_skills = 16

abbrev pub max_image_name_bytes : ℕ
max_image_name_bytes = 255

unfoldable pub anchor_bytes : ReferenceAnchor → ℕ
anchor_bytes a =
    elim a.markdown [
      | none ↦ 0
      | some m ↦ sum_of (λ (h : HeadingReference). length h.title) m.heading_path
    ]
    + elim a.html [ none ↦ 0 | some h ↦ length h.element_id + length h.tag ]

-- `referenceBytes`.
unfoldable pub reference_bytes : ContextReference → ℕ
unfolding anchor_bytes
reference_bytes r =
    length r.id
    + length r.label
    + length r.quote
    + length r.markdown
    + length r.source.resource_id
    + length r.source.context_digest
    + anchor_bytes r.source.anchor
    + elim r.component [
      | none ↦ 0
      | some c ↦ length (component_type_bytes c.kind) + length c.source_excerpt
    ]
    + elim r.visual [
      | none ↦ 0
      | some v ↦ length v.image_id + length v.name + length v.alt + length v.media_type
    ]

-- `TextContent`.
unfoldable pub text_content : Str → MessageContent
text_content value = if is_empty value then record { parts = [] } else record {
  parts = record { kind = text_part; text = value; reference = none; skill = none } ∷ [];
}

abbrev pub part_bytes : MessagePart → ℕ
part_bytes p = elim p.kind [
  | text_part ↦ length p.text
  | _ ↦ elim p.reference [
    | some r ↦ reference_bytes r
    | none ↦ elim p.skill [ none ↦ 0 | some k ↦ length k.id + length k.name ]
  ]
]

-- `SemanticBytes`.
unfoldable pub semantic_bytes : MessageContent → ℕ
semantic_bytes content = sum_of part_bytes content.parts

pub record ImageReference : Type 0 where
  pub image_id : Str
  pub name : Str

abbrev pub part_image : MessagePart → List ImageReference
part_image p = elim p.reference [
  | none ↦ []
  | some r ↦ elim r.visual [
    | none ↦ []
    | some v ↦ record { image_id = v.image_id; name = v.name } ∷ []
  ]
]

unfoldable pub images_of : List MessagePart → List ImageReference
images_of [] = []
images_of (p ∷ ps) = part_image p ++ images_of ps

-- `InlineImages`.
unfoldable pub inline_images : MessageContent → List ImageReference
unfolding images_of
inline_images content = images_of content.parts
