-- ===== src/Broker/Interaction/Defaults.antt =====
-- Answers that fit the questions of a valid request.
use agent_whiteboard.Base.{
  ◌≡◌, refl, sym, ◌∙◌, Bool, true, false, not, ◌&&◌, List, [], ◌∷◌, some, Str, bytes, str_eq_refl,
  str_eq_iff, str_eq_symm, is_empty, all, map, contains, lookup, insert, lookup-insert, arith,
}
use agent_whiteboard.Provider.Interaction.{InteractionOption, Question, Field}
use agent_whiteboard.Provider.Interaction.Valid.{
  valid_key, options_from, valid_question, questions_from, option_ids_equal,
}
use agent_whiteboard.Broker.Interaction.{
  offered, valid_selection, valid_question_answers, has_duplicate, Surface, asks, allow_questions,
  surface_answers, answer_fits,
}

pub valid_key_nonempty : (id : Str) → valid_key id ≡ true → is_empty id ≡ false
unfolding valid_key
valid_key_nonempty [] h = sym h
valid_key_nonempty (c ∷ cs) h = refl

-- Three different identifiers among three are all of them.
pub last_offered :
    (a b c : Str) (os : List InteractionOption)
    → options_from [] os ≡ true
    → option_ids_equal os (a ∷ b ∷ c ∷ []) ≡ true
    → offered os c ≡ true
unfolding options_from option_ids_equal
last_offered a b c [] h e = ground (arith, e)
last_offered a b c (x ∷ []) h e = ground (arith, e)
last_offered a b c (x ∷ y ∷ []) h e = ground (arith, e)
last_offered a b c (x ∷ y ∷ z ∷ []) h e = ground (
  arith,
  h,
  e,
  str_eq_iff x.id a,
  str_eq_iff y.id a,
  str_eq_iff z.id a,
  str_eq_iff x.id b,
  str_eq_iff y.id b,
  str_eq_iff z.id b,
  str_eq_iff y.id x.id,
  str_eq_iff z.id x.id,
  str_eq_iff z.id y.id,
)
last_offered a b c (x ∷ y ∷ z ∷ w ∷ os) h e = ground (arith, e)

pub selection_offered :
    (os : List InteractionOption) (c : Str)
    → offered os c ≡ true
    → is_empty c ≡ false
    → valid_selection os c ≡ true
unfolding valid_selection
selection_offered [] c h named = ground (arith, h)
selection_offered (o ∷ os) c h named = ground (arith, h, named)

-- The first option, or any text where the question takes others.
abbrev default_of : List InteractionOption → List Str
default_of [] = bytes "x" ∷ []
default_of (o ∷ os) = o.id ∷ []

abbrev pub default_answer : Question → List Str
default_answer q = default_of q.options

abbrev pub default_answers : List Question → List (Str × List Str)
default_answers = map λ (q : Question). (q.id, default_answer q)

default_options :
    (q : Question) (os : List InteractionOption)
    → options_from [] os ≡ true
    → not (is_empty os && not q.allow_other) ≡ true
    → valid_question_answers (record q { options = os }) (default_of os) ≡ true
unfolding valid_question_answers options_from
default_options q [] h other = ground (arith, other)
default_options q (o ∷ os) h other = ground (arith, h, valid_key_nonempty o.id, str_eq_refl o.id)

default_answer_valid :
    (q : Question) → valid_question q ≡ true → valid_question_answers q (default_answer q) ≡ true
default_answer_valid q h = default_options q q.options (ground (arith, h)) (ground (arith, h))

default_of_single :
    (os : List InteractionOption)
    → (is_empty (default_of os) ≡ false) × (has_duplicate [] (default_of os) ≡ false)
unfolding has_duplicate
default_of_single [] = (refl, refl)
default_of_single (o ∷ os) = (refl, refl)

pub default_single :
    (q : Question)
    → (is_empty (default_answer q) ≡ false) × (has_duplicate [] (default_answer q) ≡ false)
default_single q = default_of_single q.options

-- Every question has a valid answer, its identifier being new.
allow_questions_absent :
    (id : Str) (allowed : List (Str × Surface)) (qs : List Question)
    → contains id (map (λ (q : Question). q.id) qs) ≡ false
    → lookup id (allow_questions allowed qs) ≡ lookup id allowed
unfolding allow_questions
allow_questions_absent id allowed [] h = refl
allow_questions_absent id allowed (q ∷ qs) h = ground (
  arith,
  h,
  str_eq_symm q.id id,
  lookup-insert q.id id (asks q) allowed,
  allow_questions_absent id (insert q.id (asks q) allowed) qs,
)

questions_unseen :
    (id : Str) (seen : List Str) (qs : List Question) (fields : List Field)
    → contains id seen ≡ true
    → questions_from seen qs fields ≡ true
    → contains id (map (λ (q : Question). q.id) qs) ≡ false
unfolding questions_from
questions_unseen id seen [] fields h v = refl
questions_unseen id seen (q ∷ qs) fields h v =
    ground (arith, h, v, str_eq_iff id q.id, questions_unseen id (q.id ∷ seen) qs fields)

module _ (canonical_number : Str → Bool) where
  pub defaults_fit :
      (seen : List Str) (allowed : List (Str × Surface)) (qs : List Question) (fields : List Field)
      → questions_from seen qs fields ≡ true
      → all (answer_fits canonical_number (allow_questions allowed qs)) (default_answers qs) ≡ true
  unfolding questions_from allow_questions surface_answers
  defaults_fit seen allowed [] fields v = refl
  defaults_fit seen allowed (q ∷ qs) fields v =
      let unseen =
        questions_unseen q.id (q.id ∷ seen) qs fields (ground (arith, str_eq_refl q.id))
          (ground (arith, v)) in
      let here : lookup q.id (allow_questions (insert q.id (asks q) allowed) qs) ≡ some (asks q) =
        allow_questions_absent q.id (insert q.id (asks q) allowed) qs unseen
        ∙ ground (arith, lookup-insert q.id q.id (asks q) allowed, str_eq_refl q.id) in
      ground (
        arith,
        v,
        here,
        default_single q,
        default_answer_valid q,
        defaults_fit (q.id ∷ seen) (insert q.id (asks q) allowed) qs fields,
      )
