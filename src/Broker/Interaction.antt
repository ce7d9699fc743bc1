-- ===== src/Broker/Interaction.antt =====
-- internal/agent/broker/interaction.go: the interactions that wait for a reader, and which responses
-- of a browser fit them. The payload of the browser has the fields of `InteractionResponse`, whose
-- type stands for both. `canonical_number` stands for the test that strconv parses a text as a finite
-- binary64 number and formats that as the same text.
pub mod Answerable
pub mod Defaults
pub mod Pending
pub mod Respond
use agent_whiteboard.Base.{
  ◌+◌, Bool, true, false, not, ◌&&◌, ◌||◌, List, [], ◌∷◌, Option, none, some, Str, bytes, str_eq,
  length, is_empty, all, any, ◌==◌, contains, lookup, insert, if◌then◌else◌,
}
use agent_whiteboard.Provider.Interaction.{
  InteractionKind, command_approval, file_approval, permission_approval, user_input,
  mcp_elicitation, unknown_kind, kind_text, FieldType, text_field, number_field, boolean_field,
  select_field, multi_select_field, unknown_field, InteractionOption, Question, Field,
  InteractionRequest, InteractionResponse,
}

-- `interactionOptionOffered`.
abbrev pub offered : List InteractionOption → Str → Bool
offered options selected = any (λ (o : InteractionOption). str_eq o.id selected) options

-- `validInteractionOption`.
unfoldable pub valid_selection : List InteractionOption → Str → Bool
valid_selection options selected =
    if is_empty options
    then is_empty selected
    else not (is_empty selected) && offered options selected

-- `validQuestionAnswers`.
unfoldable pub valid_question_answers : Question → List Str → Bool
valid_question_answers q values =
    (q.multiple || length values == 1)
    && all (λ v. not (is_empty v) && (offered q.options v || is_empty q.options || q.allow_other))
        values

abbrev one_value : (Str → Bool) → List Str → Bool
one_value p (v ∷ []) = p v
one_value p _ = false

-- `answers[key]`, with nil where there is none.
abbrev pub answer_for : Str → List (Str × List Str) → List Str
answer_for key answers = elim (lookup key answers) [ none ↦ [] | some values ↦ values ]

-- `hasDuplicateInteractionAnswer`, after the values `seen`.
unfoldable pub has_duplicate : List Str → List Str → Bool
has_duplicate seen [] = false
has_duplicate seen (v ∷ vs) = contains v seen || has_duplicate (v ∷ seen) vs

-- `answerSurface`.
pub data Surface : Type 0 where
  asks : Question → Surface
  takes : Field → Surface

-- `allowed`, filled by the loops over the fields and over the questions.
unfoldable pub allow_fields : List (Str × Surface) → List Field → List (Str × Surface)
allow_fields allowed [] = allowed
allow_fields allowed (f ∷ fs) = allow_fields (insert f.id (takes f) allowed) fs

unfoldable pub allow_questions : List (Str × Surface) → List Question → List (Str × Surface)
allow_questions allowed [] = allowed
allow_questions allowed (q ∷ qs) = allow_questions (insert q.id (asks q) allowed) qs

module _ (canonical_number : Str → Bool) where
  field_type_answers : FieldType → List InteractionOption → List Str → Bool
  field_type_answers text_field os values = one_value (λ v. true) values
  field_type_answers number_field os values = one_value canonical_number values
  field_type_answers boolean_field os values =
      one_value (λ v. str_eq v (bytes "true") || str_eq v (bytes "false")) values
  field_type_answers select_field os values = one_value (offered os) values
  field_type_answers multi_select_field os values = all (offered os) values
  field_type_answers (unknown_field s) os values = false

  -- `validFieldAnswers`.
  unfoldable pub valid_field_answers : Field → List Str → Bool
  unfolding field_type_answers
  valid_field_answers f values =
      all (λ v. not (is_empty v)) values && field_type_answers f.type f.options values

  unfoldable pub surface_answers : Option Surface → List Str → Bool
  surface_answers none values = false
  surface_answers (some (asks q)) values = valid_question_answers q values
  surface_answers (some (takes f)) values = valid_field_answers f values

  -- The loop over the answers.
  abbrev pub answer_fits : List (Str × Surface) → Str × List Str → Bool
  answer_fits allowed (key, values) =
      not (is_empty values)
      && not (has_duplicate [] values)
      && surface_answers (lookup key allowed) values

  -- `validInteractionAnswers`.
  unfoldable pub valid_answers : List Question → List Field → List (Str × List Str) → Bool → Bool
  unfolding surface_answers
  valid_answers questions fields answers enforce_required =
      all (λ (q : Question). not (is_empty (answer_for q.id answers))) questions
      && all
          (λ (f : Field).
            not (enforce_required && f.required && is_empty (answer_for f.id answers)))
          fields
      && all (answer_fits (allow_fields (allow_questions [] questions) fields)) answers

  -- The cases of `validInteractionResponseForRequest`.
  response_fits : InteractionKind → List Question → List Field → Str → List (Str × List Str) → Bool
  response_fits command_approval qs fs option answers = not (is_empty option) && is_empty answers
  response_fits file_approval qs fs option answers = not (is_empty option) && is_empty answers
  response_fits permission_approval qs fs option answers =
      if str_eq option (bytes "grantTurn") || str_eq option (bytes "grantSession")
      then length answers == 1
        && not (is_empty (answer_for (bytes "permissions") answers))
        && valid_answers qs fs answers false
      else str_eq option (bytes "decline") && is_empty answers
  response_fits user_input qs fs option answers =
      is_empty option && not (is_empty answers) && valid_answers qs fs answers false
  response_fits mcp_elicitation qs fs option answers =
      if str_eq option (bytes "accept")
      then valid_answers qs fs answers true
      else (str_eq option (bytes "decline") || str_eq option (bytes "cancel")) && is_empty answers
  response_fits (unknown_kind s) qs fs option answers = false

  -- `validInteractionResponseForRequest`.
  unfoldable pub valid_response_for_request : InteractionRequest → InteractionResponse → Bool
  unfolding response_fits
  valid_response_for_request request response =
      str_eq request.id response.request_id
      && str_eq (kind_text request.kind) (kind_text response.kind)
      && valid_selection request.options response.option_id
      && response_fits request.kind request.questions request.fields response.option_id
          response.answers
