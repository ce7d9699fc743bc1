-- ===== src/Provider/Message/Content.antt =====
-- internal/agent/provider/message.go: what a valid message is, and the normal form of one.
use agent_whiteboard.Base.{
  ℕ, ◌+◌, Bool, true, false, not, ◌&&◌, ◌||◌, List, [], ◌∷◌, ◌++◌, Option, none, some, Str, length,
  is_empty, is_some, contains, ltb, if◌then◌else◌, push_back,
}
use agent_whiteboard.Common.Id.{valid_id}
use agent_whiteboard.Provider.Text.{valid_bounded_text}
use agent_whiteboard.Provider.Message.{
  PartKind, text_part, reference_part, skill_part, unknown_part, SkillInvocation, MessagePart,
  MessageContent, text_message_part, reference_semantic_bytes, is_text,
}
use agent_whiteboard.Provider.Message.Reference.{valid_reference}

abbrev pub max_turn_message_bytes : ℕ
max_turn_message_bytes = 65536

abbrev pub max_message_parts : ℕ
max_message_parts = 64

abbrev pub max_message_references : ℕ
max_message_references = 16

abbrev pub max_message_skills : ℕ
max_message_skills = 16

unfoldable pub valid_skill : SkillInvocation → Bool
valid_skill s = valid_id s.id && valid_bounded_text s.name 512 true

-- The variables of the loop of `Validate`.
pub record Scan : Type 0 where
  pub seen_references : List Str
  pub seen_skill_ids : List Str
  pub seen_skill_names : List Str
  pub references : ℕ
  pub skills : ℕ
  pub total : ℕ
  pub previous_text : Bool

abbrev pub fresh_scan : Scan
fresh_scan = record {
  seen_references = [];
  seen_skill_ids = [];
  seen_skill_names = [];
  references = 0;
  skills = 0;
  total = 0;
  previous_text = false;
}

unfoldable pub scan_text : Scan → MessagePart → Option Scan
scan_text s p =
    if is_some p.reference
      || is_some p.skill
      || is_empty p.text
      || s.previous_text
      || not (valid_bounded_text p.text max_turn_message_bytes true)
    then none
    else some (record s { total = s.total + length p.text; previous_text = true })

unfoldable pub scan_reference : Scan → MessagePart → Option Scan
scan_reference s p = elim p.reference [
  | none ↦ none
  | some r ↦
      if not (is_empty p.text) || is_some p.skill || not (valid_reference r)
      then none
      else if contains r.id s.seen_references
      then none
      else some (record s {
        seen_references = r.id ∷ s.seen_references;
        references = s.references + 1;
        total = s.total + reference_semantic_bytes r;
        previous_text = false;
      })
]

unfoldable pub scan_skill : Scan → MessagePart → Option Scan
scan_skill s p = elim p.skill [
  | none ↦ none
  | some k ↦
      if not (is_empty p.text) || is_some p.reference || not (valid_skill k)
      then none
      else if contains k.id s.seen_skill_ids
      then none
      else if contains k.name s.seen_skill_names
      then none
      else some (record s {
        seen_skill_ids = k.id ∷ s.seen_skill_ids;
        seen_skill_names = k.name ∷ s.seen_skill_names;
        skills = s.skills + 1;
        total = s.total + (length k.id + length k.name);
        previous_text = false;
      })
]

unfoldable pub scan_kind : PartKind → Scan → MessagePart → Option Scan
unfolding scan_text scan_reference scan_skill
scan_kind text_part s p = scan_text s p
scan_kind reference_part s p = scan_reference s p
scan_kind skill_part s p = scan_skill s p
scan_kind (unknown_part k) s p = none

abbrev pub within_limits : Option Scan → Option Scan
within_limits none = none
within_limits (some s) =
    if ltb max_turn_message_bytes s.total
      || ltb max_message_references s.references
      || ltb max_message_skills s.skills
    then none
    else some s

-- One round of the loop of `Validate`; none is an error.
unfoldable pub scan_part : Scan → MessagePart → Option Scan
unfolding scan_kind
scan_part s p = within_limits (scan_kind p.kind s p)

unfoldable pub scan_parts : Scan → List MessagePart → Option Scan
scan_parts s [] = some s
scan_parts s (p ∷ ps) = elim (scan_part s p) [ none ↦ none | some s' ↦ scan_parts s' ps ]

-- `content.Validate() == nil`.
unfoldable pub valid_content : MessageContent → Bool
unfolding scan_parts
valid_content content =
    if ltb max_message_parts (length content.parts)
    then false
    else is_some (scan_parts fresh_scan content.parts)

-- A text joins a text part that ends the result.
unfoldable pub append_text : List MessagePart → Str → List MessagePart
append_text [] text = text_message_part text ∷ []
append_text (p ∷ []) text =
    if is_text p.kind
    then record p { text = p.text ++ text } ∷ []
    else p ∷ text_message_part text ∷ []
append_text (p ∷ q ∷ ps) text = p ∷ append_text (q ∷ ps) text

unfoldable pub normalize_part :
    PartKind → List MessagePart → MessagePart → Option (List MessagePart)
normalize_part text_part result p =
    if is_some p.reference || is_some p.skill
    then none
    else if is_empty p.text
    then some result
    else some (append_text result p.text)
normalize_part reference_part result p =
    if not (is_empty p.text) || not (is_some p.reference) || is_some p.skill
    then none
    else some (push_back result p)
normalize_part skill_part result p =
    if not (is_empty p.text) || is_some p.reference || not (is_some p.skill)
    then none
    else some (push_back result p)
normalize_part (unknown_part k) result p = none

unfoldable pub normalize_parts : List MessagePart → List MessagePart → Option (List MessagePart)
normalize_parts result [] = some result
normalize_parts result (p ∷ ps) = elim (normalize_part p.kind result p) [
  | none ↦ none
  | some r ↦ normalize_parts r ps
]

abbrev checked_content : Option (List MessagePart) → Option MessageContent
checked_content none = none
checked_content (some parts) =
    let content : MessageContent = record { parts = parts } in
    if valid_content content then some content else none

-- `NormalizeMessageContent`.
unfoldable pub normalize : MessageContent → Option MessageContent
unfolding normalize_parts
normalize content = checked_content (normalize_parts [] content.parts)
