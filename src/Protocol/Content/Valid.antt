-- ===== src/Protocol/Content/Valid.antt =====
-- internal/agent/protocol/content.go: which contents are valid, in commands and in events.
use agent_whiteboard.Base.{
  ℕ, ◌+◌, Bool, true, false, not, ◌&&◌, ◌||◌, List, [], ◌∷◌, Option, none, some, Str, length,
  is_empty, is_some, contains, leb, ltb, if◌then◌else◌,
}
use agent_whiteboard.Common.Id.{valid_id}
use agent_whiteboard.Provider.Text.{valid_bounded_text}
use agent_whiteboard.Provider.Message.{
  PartKind, text_part, reference_part, skill_part, unknown_part, SkillInvocation,
}
use agent_whiteboard.Protocol.Content.Reference.{valid_reference}
use agent_whiteboard.Protocol.Content.{
  ContextReference, MessageContent, MessagePart, max_message_bytes, max_message_parts,
  max_message_references, max_message_skills, reference_bytes,
}

-- The variables of the loop of `validate`.
pub record Scan : Type 0 where
  pub seen : List Str
  pub seen_skill_ids : List Str
  pub seen_skill_names : List Str
  pub references : ℕ
  pub skills : ℕ
  pub total : ℕ
  pub previous_text : Bool

abbrev pub fresh_scan : Scan
fresh_scan = record {
  seen = [];
  seen_skill_ids = [];
  seen_skill_names = [];
  references = 0;
  skills = 0;
  total = 0;
  previous_text = false;
}

unfoldable pub scan_text : Scan → MessagePart → Option Scan
scan_text s p =
    if is_some p.reference
      || is_some p.skill
      || is_empty p.text
      || s.previous_text
      || not (valid_bounded_text p.text max_message_bytes true)
    then none
    else some (record s { total = s.total + length p.text; previous_text = true })

unfoldable pub scan_reference : Bool → Scan → MessagePart → Option ContextReference → Option Scan
scan_reference event s p none = none
scan_reference event s p (some r) =
    if not (is_empty p.text)
      || is_some p.skill
      || not (valid_reference event r)
      || contains r.id s.seen
    then none
    else some (record s {
      seen = r.id ∷ s.seen;
      references = s.references + 1;
      total = s.total + reference_bytes r;
      previous_text = false;
    })

unfoldable pub scan_skill : Scan → MessagePart → Option SkillInvocation → Option Scan
scan_skill s p none = none
scan_skill s p (some k) =
    if not (is_empty p.text)
      || is_some p.reference
      || not (valid_id k.id)
      || not (valid_bounded_text k.name 512 true)
      || contains k.id s.seen_skill_ids
      || contains k.name s.seen_skill_names
    then none
    else some (record s {
      seen_skill_ids = k.id ∷ s.seen_skill_ids;
      seen_skill_names = k.name ∷ s.seen_skill_names;
      skills = s.skills + 1;
      total = s.total + (length k.id + length k.name);
      previous_text = false;
    })

unfoldable pub scan_kind : Bool → PartKind → Scan → MessagePart → Option Scan
unfolding scan_text scan_reference scan_skill
scan_kind event text_part s p = scan_text s p
scan_kind event reference_part s p = scan_reference event s p p.reference
scan_kind event skill_part s p = scan_skill s p p.skill
scan_kind event (unknown_part k) s p = none

abbrev pub within_limits : Option Scan → Option Scan
within_limits none = none
within_limits (some s) =
    if ltb max_message_bytes s.total
      || ltb max_message_references s.references
      || ltb max_message_skills s.skills
    then none
    else some s

unfoldable pub scan_part : Bool → Scan → MessagePart → Option Scan
unfolding scan_kind
scan_part event s p = within_limits (scan_kind event p.kind s p)

unfoldable pub scan_parts : Bool → Scan → List MessagePart → Option Scan
scan_parts event s [] = some s
scan_parts event s (p ∷ ps) = elim (scan_part event s p) [
  | none ↦ none
  | some s' ↦ scan_parts event s' ps
]

-- `validate`: of a command's content, and of an event's.
unfoldable pub valid_content : Bool → MessageContent → Bool
valid_content event content =
    leb (length content.parts) max_message_parts
    && is_some (scan_parts event fresh_scan content.parts)
