-- ===== src/Provider/Message.antt =====
-- internal/agent/provider/message.go: the ordered content of a message. Kinds are open string types
-- in the source; `unknown` stands for a text that is none of the constants.
pub mod Reference
pub mod Content
pub mod Limits
pub mod Normal
use agent_whiteboard.Base.{
  ℕ, ◌+◌, Bool, true, false, List, [], ◌∷◌, ◌++◌, Option, none, some, Str, bytes, length, is_empty,
  ℤ, sum_of, if◌then◌else◌,
}

pub data PartKind : Type 0 where
  text_part reference_part skill_part : PartKind
  unknown_part : Str → PartKind

pub data ReferenceKind : Type 0 where
  text_reference section_reference image_reference component_reference : ReferenceKind
  unknown_reference : Str → ReferenceKind

pub data ComponentType : Type 0 where
  section_component image_component chart_component table_component : ComponentType
  code_component quote_component custom_component : ComponentType
  unknown_component : Str → ComponentType

pub data ResourceKind : Type 0 where
  markdown_resource html_resource : ResourceKind
  unknown_resource : Str → ResourceKind

pub record SkillInvocation : Type 0 where
  pub id : Str
  pub name : Str

pub record HeadingReference : Type 0 where
  pub level : ℤ
  pub title : Str
  pub ordinal : ℤ

pub record SourceAnchor : Type 0 where
  pub block : ℤ
  pub line : ℤ
  pub offset : ℤ

pub record MarkdownAnchor : Type 0 where
  pub heading_path : List HeadingReference
  pub start : SourceAnchor
  pub end : SourceAnchor

pub record HtmlAnchor : Type 0 where
  pub element_id : Str
  pub tag : Str
  pub ordinal : ℤ

pub record ReferenceAnchor : Type 0 where
  pub markdown : Option MarkdownAnchor
  pub html : Option HtmlAnchor

-- `resource_updated_at` counts from Go's zero time, so 0 is the time for which `IsZero` holds.
pub record ReferenceSource : Type 0 where
  pub resource_kind : ResourceKind
  pub resource_id : Str
  pub resource_updated_at : ℕ
  pub context_digest : Str
  pub anchor : ReferenceAnchor

pub record SourceLineRange : Type 0 where
  pub start : ℤ
  pub end : ℤ

pub record ComponentReference : Type 0 where
  pub kind : ComponentType
  pub source_excerpt : Str

pub record ReferenceVisual : Type 0 where
  pub image_id : Str
  pub name : Str
  pub alt : Str
  pub ordinal : ℤ

pub record ContextReference : Type 0 where
  pub id : Str
  pub kind : ReferenceKind
  pub label : Str
  pub source : ReferenceSource
  pub quote : Str
  pub markdown : Str
  pub section_lines : Option SourceLineRange
  pub component : Option ComponentReference
  pub visual : Option ReferenceVisual

pub record MessagePart : Type 0 where
  pub kind : PartKind
  pub text : Str
  pub reference : Option ContextReference
  pub skill : Option SkillInvocation

pub record MessageContent : Type 0 where
  pub parts : List MessagePart

abbrev pub text_message_part : Str → MessagePart
text_message_part value = record { kind = text_part; text = value; reference = none; skill = none }

unfoldable pub text_message : Str → MessageContent
text_message value =
    if is_empty value
    then record { parts = [] }
    else record { parts = text_message_part value ∷ [] }

abbrev pub is_text : PartKind → Bool
is_text text_part = true
is_text reference_part = false
is_text skill_part = false
is_text (unknown_part s) = false

abbrev pub component_type_bytes : ComponentType → Str
component_type_bytes section_component = bytes "section"
component_type_bytes image_component = bytes "image"
component_type_bytes chart_component = bytes "chart"
component_type_bytes table_component = bytes "table"
component_type_bytes code_component = bytes "code"
component_type_bytes quote_component = bytes "quote"
component_type_bytes custom_component = bytes "component"
component_type_bytes (unknown_component s) = s

unfoldable pub anchor_bytes : ReferenceAnchor → ℕ
anchor_bytes a =
    elim a.markdown [
      | none ↦ 0
      | some m ↦ sum_of (λ (h : HeadingReference). length h.title) m.heading_path
    ]
    + elim a.html [ none ↦ 0 | some h ↦ length h.element_id + length h.tag ]

-- `referenceSemanticBytes`.
unfoldable pub reference_semantic_bytes : ContextReference → ℕ
unfolding anchor_bytes
reference_semantic_bytes r =
    length r.id
    + length r.label
    + length r.quote
    + length r.markdown
    + length r.source.resource_id
    + length r.source.context_digest
    + anchor_bytes r.source.anchor
    + elim r.component [
      | none ↦ 0
      | some c ↦ length (component_type_bytes c.kind) + length c.source_excerpt
    ]
    + elim r.visual [ none ↦ 0 | some v ↦ length v.image_id + length v.name + length v.alt ]

unfoldable pub skill_bytes : Option SkillInvocation → ℕ
skill_bytes none = 0
skill_bytes (some s) = length s.id + length s.name

unfoldable pub structured_bytes : Option ContextReference → Option SkillInvocation → ℕ
unfolding skill_bytes
structured_bytes (some r) skill = reference_semantic_bytes r
structured_bytes none skill = skill_bytes skill

unfoldable pub part_bytes : MessagePart → ℕ
unfolding structured_bytes
part_bytes p = if is_text p.kind then length p.text else structured_bytes p.reference p.skill

-- `SemanticBytes`, the size that every byte bound of the broker counts.
unfoldable pub semantic_bytes : MessageContent → ℕ
semantic_bytes content = sum_of part_bytes content.parts

unfoldable pub reference_image : Option ContextReference → List Str
reference_image none = []
reference_image (some r) = elim r.visual [ none ↦ [] | some v ↦ v.image_id ∷ [] ]

unfoldable pub images_of : List MessagePart → List Str
unfolding reference_image
images_of [] = []
images_of (p ∷ ps) = reference_image p.reference ++ images_of ps

unfoldable pub inline_image_ids : MessageContent → List Str
inline_image_ids content = images_of content.parts

unfoldable pub text_only : MessageContent → Bool
text_only content = elim content.parts [
  | [] ↦ true
  | p ∷ rest ↦ elim rest [ [] ↦ is_text p.kind | q ∷ qs ↦ false ]
]

part_text : MessagePart → Str
part_text p = if is_text p.kind then p.text else elim p.reference [
  | some r ↦ b'[' ∷ (r.label ++ b']' ∷ [])
  | none ↦ elim p.skill [ none ↦ [] | some s ↦ b'$' ∷ s.name ]
]

unfoldable pub plain_text_of : List MessagePart → Str
unfolding part_text
plain_text_of [] = []
plain_text_of (p ∷ ps) = part_text p ++ plain_text_of ps

-- `PlainText`.
unfoldable pub plain_text : MessageContent → Str
plain_text content = plain_text_of content.parts
