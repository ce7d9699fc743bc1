-- ===== src/Broker/Interaction/Answerable.antt =====
-- Responses that the broker accepts to a valid request.
use agent_whiteboard.Base.{
  ◌≡◌, refl, Bool, true, false, not, List, [], ◌∷◌, Str, bytes, str_eq, str_eq_refl, is_empty, all,
  lookup, arith,
}
use agent_whiteboard.Provider.Interaction.{
  InteractionKind, command_approval, file_approval, permission_approval, user_input,
  mcp_elicitation, unknown_kind, kind_text, InteractionOption, Question, Field, InteractionRequest,
}
use agent_whiteboard.Provider.Interaction.Valid.{
  options_from, questions_from, option_ids_equal, valid_surface, valid_request,
}
use agent_whiteboard.Broker.Interaction.{
  valid_selection, answer_for, allow_fields, valid_answers, response_fits,
  valid_response_for_request,
}
use agent_whiteboard.Broker.Interaction.Defaults.{
  valid_key_nonempty, last_offered, selection_offered, default_answer, default_answers,
  default_single, defaults_fit,
}

-- Each question finds its answer.
answered_more :
    (id : Str) (values : List Str) (answers : List (Str × List Str)) (qs : List Question)
    → is_empty values ≡ false
    → all (λ (q : Question). not (is_empty (answer_for q.id answers))) qs ≡ true
    → all (λ (q : Question). not (is_empty (answer_for q.id ((id, values) ∷ answers)))) qs ≡ true
unfolding lookup
answered_more id values answers [] e h = refl
answered_more id values answers (q ∷ qs) e h =
    ground (arith, e, h, answered_more id values answers qs e)

defaults_answer :
    (qs : List Question)
    → all (λ (q : Question). not (is_empty (answer_for q.id (default_answers qs)))) qs ≡ true
unfolding lookup
defaults_answer [] = refl
defaults_answer (q ∷ qs) = ground (
  arith,
  str_eq_refl q.id,
  default_single q,
  answered_more q.id (default_answer q) (default_answers qs) qs (default_single q).0
      (defaults_answer qs),
)

module _ (canonical_number : Str → Bool) where
  -- The response to each kind of request.
  abbrev Accepts : InteractionKind → List InteractionOption → List Question → List Field → Type 0
  Accepts kind os qs fs =
      (option : Str) × (answers : List (Str × List Str)) × (valid_selection os option ≡ true)
      × (response_fits canonical_number kind qs fs option answers ≡ true)

  Accepts-first :
      (kind : InteractionKind) (os : List InteractionOption) (qs : List Question) (fs : List Field)
      → ((option : Str)
          → is_empty option ≡ false
          → response_fits canonical_number kind qs fs option [] ≡ true)
      → options_from [] os ≡ true
      → is_empty os ≡ false
      → Accepts kind os qs fs
  unfolding options_from valid_selection
  Accepts-first kind [] qs fs fits h some_option = ground (arith, some_option)
  Accepts-first kind (o ∷ os) qs fs fits h some_option =
      let named : is_empty o.id ≡ false = ground (arith, h, valid_key_nonempty o.id) in
      (o.id, [], ground (arith, named, str_eq_refl o.id), fits o.id named)

  Accepts-last :
      (kind : InteractionKind) (a b c : Str) (os : List InteractionOption) (qs : List Question)
      (fs : List Field)
      → response_fits canonical_number kind qs fs c [] ≡ true
      → is_empty c ≡ false
      → options_from [] os ≡ true
      → option_ids_equal os (a ∷ b ∷ c ∷ []) ≡ true
      → Accepts kind os qs fs
  unfolding valid_selection
  Accepts-last kind a b c os qs fs fits named h e =
      let there = last_offered a b c os h e in (c, [], selection_offered os c there named, fits)

  surface-Accepts :
      (kind : InteractionKind) (os : List InteractionOption) (qs : List Question) (fs : List Field)
      → options_from [] os ≡ true
      → questions_from [] qs fs ≡ true
      → valid_surface kind os qs fs ≡ true
      → Accepts kind os qs fs
  unfolding valid_surface response_fits valid_answers valid_selection allow_fields
  surface-Accepts command_approval os qs fs h v s =
      Accepts-first command_approval os qs fs (λ option named. ground (arith, named)) h
        (ground (arith, s))
  surface-Accepts file_approval os qs fs h v s =
      Accepts-first file_approval os qs fs (λ option named. ground (arith, named)) h
        (ground (arith, s))
  surface-Accepts permission_approval os qs fs h v s =
      Accepts-last permission_approval (bytes "grantTurn") (bytes "grantSession") (bytes "decline")
        os qs fs (unfold str_eq in refl) refl h (ground (arith, s))
  surface-Accepts mcp_elicitation os qs fs h v s =
      Accepts-last mcp_elicitation (bytes "accept") (bytes "decline") (bytes "cancel") os qs fs
        (unfold str_eq in refl) refl h (ground (arith, s))
  surface-Accepts user_input [] (q ∷ qs) [] h v s = (
    [],
    default_answers (q ∷ qs),
    refl,
    ground (arith, defaults_answer (q ∷ qs), defaults_fit canonical_number [] [] (q ∷ qs) [] v),
  )
  surface-Accepts user_input (o ∷ os) qs fs h v s = ground (arith, s)
  surface-Accepts user_input [] [] fs h v s = ground (arith, s)
  surface-Accepts user_input [] (q ∷ qs) (f ∷ fs) h v s = ground (arith, s)
  surface-Accepts (unknown_kind k) os qs fs h v s = ground (arith, s)

  -- Every valid request has a response, under its identifier and of its kind, that the broker's check
  -- accepts.
  pub answerable :
      (request : InteractionRequest)
      → valid_request request ≡ true
      → (option : Str) × (answers : List (Str × List Str)) × (valid_response_for_request
            canonical_number request
            (record {
              request_id = request.id;
              kind = request.kind;
              option_id = option;
              answers = answers;
            })
          ≡ true)
  unfolding valid_request valid_response_for_request
  answerable request h =
      let (option, answers, selected, fits) =
        surface-Accepts request.kind request.options request.questions request.fields
          (ground (arith, h)) (ground (arith, h)) (ground (arith, h)) in
      (
        option,
        answers,
        ground
            (arith, selected, fits, str_eq_refl request.id, str_eq_refl (kind_text request.kind)),
      )
