-- ===== src/Provider/Interaction/Valid.antt =====
-- internal/agent/provider/interaction.go: which requests and responses are valid.
use agent_whiteboard.Base.{
  ℕ, ◌+◌, Bool, true, false, not, ◌&&◌, ◌||◌, List, [], ◌∷◌, Option, none, some, Str, bytes, str_eq,
  length, is_empty, all, ltb, leb, ◌==◌, contains, if◌then◌else◌,
}
use agent_whiteboard.Common.Id.{valid_id}
use agent_whiteboard.Provider.Text.{valid_bounded_text}
use agent_whiteboard.Provider.Interaction.{
  max_interaction_text_bytes, max_interaction_options, max_interaction_questions,
  max_interaction_answers, InteractionKind, command_approval, file_approval, permission_approval,
  user_input, mcp_elicitation, unknown_kind, known_kind, FieldType, text_field, select_field,
  multi_select_field, known_field, InteractionOption, Question, Field, InteractionRequest,
  InteractionResponse,
}

abbrev is_alphanumeric : ℕ → Bool
is_alphanumeric c =
    (leb b'A' c && leb c b'Z') || (leb b'a' c && leb c b'z') || (leb b'0' c && leb c b'9')

-- The pattern of `validInteractionKey`.
unfoldable pub valid_key : Str → Bool
valid_key [] = false
valid_key (c ∷ cs) =
    is_alphanumeric c
    && leb (length cs) 63
    && all (λ d. is_alphanumeric d || d == b'_' || d == b'.' || d == b'-') cs

abbrev pub valid_option : InteractionOption → Bool
valid_option o =
    valid_key o.id
    && valid_bounded_text o.label 512 true
    && valid_bounded_text o.description 8192 false

-- `validateOptions`, after those with the identifiers `seen`.
unfoldable pub options_from : List Str → List InteractionOption → Bool
options_from seen [] = true
options_from seen (o ∷ os) =
    valid_option o && not (contains o.id seen) && options_from (o.id ∷ seen) os

abbrev pub valid_question : Question → Bool
valid_question q =
    valid_key q.id
    && valid_bounded_text q.header 512 true
    && valid_bounded_text q.prompt 8192 true
    && leb (length q.options) max_interaction_options
    && not (is_empty q.options && not q.allow_other)
    && options_from [] q.options

-- `!interactionFieldOptionsInvalid`.
abbrev pub field_options_fit : FieldType → List InteractionOption → Bool
field_options_fit select_field os = not (is_empty os)
field_options_fit multi_select_field os = not (is_empty os)
field_options_fit _ os = is_empty os

abbrev is_text_field : FieldType → Bool
is_text_field text_field = true
is_text_field _ = false

abbrev pub valid_field : Field → Bool
valid_field f =
    valid_key f.id
    && valid_bounded_text f.label 512 true
    && valid_bounded_text f.description 8192 false
    && known_field f.type
    && not (f.multiline && not (is_text_field f.type))
    && leb (length f.options) max_interaction_options
    && field_options_fit f.type f.options
    && options_from [] f.options

-- The loops over the questions and then the fields, which share the identifiers `seen`.
unfoldable pub fields_from : List Str → List Field → Bool
fields_from seen [] = true
fields_from seen (f ∷ fs) =
    valid_field f && not (contains f.id seen) && fields_from (f.id ∷ seen) fs

unfoldable pub questions_from : List Str → List Question → List Field → Bool
questions_from seen [] fields = fields_from seen fields
questions_from seen (q ∷ qs) fields =
    valid_question q && not (contains q.id seen) && questions_from (q.id ∷ seen) qs fields

-- `optionIDsEqual`.
unfoldable pub option_ids_equal : List InteractionOption → List Str → Bool
option_ids_equal options expected =
    length options == length expected
    && all (λ (o : InteractionOption). contains o.id expected) options

abbrev permission_field : List Field → Bool
permission_field (f ∷ []) =
    str_eq f.id (bytes "permissions")
    && elim f.type [ multi_select_field ↦ true | _ ↦ false ]
    && not (is_empty f.options)
permission_field _ = false

-- `validInteractionSurface`.
unfoldable pub valid_surface :
    InteractionKind → List InteractionOption → List Question → List Field → Bool
valid_surface command_approval os qs fs = not (is_empty os) && is_empty qs && is_empty fs
valid_surface file_approval os qs fs = not (is_empty os) && is_empty qs && is_empty fs
valid_surface permission_approval os qs fs =
    option_ids_equal os (bytes "grantTurn" ∷ bytes "grantSession" ∷ bytes "decline" ∷ [])
    && is_empty qs
    && permission_field fs
valid_surface user_input os qs fs = is_empty os && not (is_empty qs) && is_empty fs
valid_surface mcp_elicitation os qs fs =
    option_ids_equal os (bytes "accept" ∷ bytes "decline" ∷ bytes "cancel" ∷ []) && is_empty qs
valid_surface (unknown_kind s) os qs fs = false

abbrev optional_id : Str → Bool
optional_id id = is_empty id || valid_id id

-- `InteractionRequest.Validate`.
unfoldable pub valid_request : InteractionRequest → Bool
valid_request r =
    valid_id r.id
    && optional_id r.turn_id
    && known_kind r.kind
    && valid_bounded_text r.title 512 true
    && valid_bounded_text r.summary 8192 false
    && valid_bounded_text r.command max_interaction_text_bytes false
    && valid_bounded_text r.working_directory 8192 false
    && leb (length r.options) max_interaction_options
    && leb (length r.questions) max_interaction_questions
    && leb (length r.fields) max_interaction_answers
    && elim r.local_deadline [ none ↦ true | some d ↦ not (d.instant == 0) && d.utc ]
    && options_from [] r.options
    && questions_from [] r.questions r.fields
    && valid_surface r.kind r.options r.questions r.fields

-- The total of the bytes of the answers after `total`, none if a loop of `Validate` refuses.
unfoldable pub answer_bytes : ℕ → List Str → Option ℕ
answer_bytes total [] = some total
answer_bytes total (a ∷ as') =
    if not (valid_bounded_text a max_interaction_text_bytes true)
    then none
    else if ltb max_interaction_text_bytes (total + length a)
    then none
    else answer_bytes (total + length a) as'

unfoldable pub answers_from : ℕ → List (Str × List Str) → Bool
answers_from total [] = true
answers_from total ((key, values) ∷ answers) =
    valid_key key
    && not (is_empty values)
    && leb (length values) max_interaction_answers
    && elim (answer_bytes total values) [ none ↦ false | some total' ↦ answers_from total' answers ]

abbrev optional_key : Str → Bool
optional_key key = is_empty key || valid_key key

-- `InteractionResponse.Validate`.
unfoldable pub valid_response : InteractionResponse → Bool
valid_response r =
    valid_id r.request_id
    && known_kind r.kind
    && optional_key r.option_id
    && leb (length r.answers) max_interaction_answers
    && not (is_empty r.option_id && is_empty r.answers)
    && answers_from 0 r.answers
