-- ===== src/Examples/Interaction.antt =====
-- The interactions of internal/agent/broker/interaction.go on a concrete request.
use agent_whiteboard.Base.{
  ◌+◌, Bool, true, false, ◌∷◌, ◌≡◌, ◌==◌, refl, [], none, some, Option, Str, List, lookup, bytes,
  insert,
}
use agent_whiteboard.Provider.Interaction.{
  user_input, Question, InteractionRequest, InteractionResponse,
}
use agent_whiteboard.Provider.Interaction.Valid.{
  valid_request, valid_response, options_from, questions_from, fields_from, valid_surface,
  valid_key, answers_from, answer_bytes,
}
use agent_whiteboard.Broker.Interaction.{
  valid_response_for_request, valid_selection, valid_question_answers, valid_answers, has_duplicate,
  allow_fields, allow_questions, surface_answers,
}
use agent_whiteboard.Broker.Interaction.Answerable.{answerable}
use agent_whiteboard.Broker.Interaction.Pending.{
  Pending, Interactions, Code, accepted, invalid_state, provider_crashed, responds, stops_worker,
  resolved, completes_command, remember, ok, fresh_pending, WorkerResult, result_code,
  handle_result, request_size,
}
use agent_whiteboard.Broker.Interaction.Respond.{respond}
use agent_whiteboard.Broker.Interaction.Respond.Delivery.{report, respond_once}
use agent_whiteboard.Broker.Interaction.Respond.Invariant.{Inv}
use agent_whiteboard.Broker.Interaction.Respond.History.{
  no_interactions, remembers, responds_with, reports, cancels_all, ends_call, expires, run,
  interactions_run-Inv, resolves, forgets,
}
use agent_whiteboard.Examples.Data.{queue_runs, turn_a, turn_b, message_a}

-- No text counts as a number.
abbrev no_number : Str → Bool
no_number v = false

abbrev name_question : Question
name_question = record {
  id = bytes "name";
  header = bytes "Name";
  prompt = bytes "Which name?";
  options = [];
  allow_other = true;
  secret = false;
  multiple = false;
}

abbrev ask_name : InteractionRequest
ask_name = record {
  id = turn_a;
  turn_id = [];
  kind = user_input;
  title = bytes "Input";
  summary = [];
  command = [];
  working_directory = [];
  options = [];
  questions = name_question ∷ [];
  fields = [];
  local_deadline = none;
}

abbrev give_name : InteractionResponse
give_name = record {
  request_id = turn_a;
  kind = user_input;
  option_id = [];
  answers = (bytes "name", bytes "Ada" ∷ []) ∷ [];
}

ask_name_valid : valid_request ask_name ≡ true
unfolding queue_runs valid_request options_from questions_from fields_from valid_surface valid_key
ask_name_valid = refl

answerable_example :
    (option : Str) × (answers : List (Str × List Str)) × (valid_response_for_request no_number
        ask_name
        (record { request_id = turn_a; kind = user_input; option_id = option; answers = answers })
      ≡ true)
answerable_example = answerable no_number ask_name ask_name_valid

abbrev asked : Interactions
asked = record {
  pending = (turn_a, fresh_pending ask_name 1) ∷ [];
  bytes = 162;
  next_token = 1;
  calls = 0;
}

remember_name : remember ask_name no_interactions ≡ ok asked
unfolding queue_runs valid_request options_from questions_from fields_from valid_surface valid_key
    remember lookup insert request_size
remember_name = refl

abbrev answered : Interactions
answered = record asked {
  pending =
      (
        turn_a,
        record {
          request = ask_name;
          request_bytes = request_size ask_name + 64;
          token = 1;
          resolving = true;
          response = some give_name;
          command_id = turn_b;
          client_id = message_a;
          cancel = true;
        },
      )
      ∷ [];
  calls = 1;
}

respond_name :
    respond no_number true turn_b message_a give_name asked
    ≡ (accepted, answered, responds 1 give_name ∷ [])
unfolding queue_runs respond lookup insert valid_response_for_request valid_selection valid_answers
    valid_question_answers has_duplicate allow_fields allow_questions surface_answers valid_response
    answers_from answer_bytes valid_key
respond_name = refl

respond_once_example :
    (p : Pending) × (responds 1 give_name ∷ []
      ≡ responds p.token (record give_name { kind = p.request.kind }) ∷ [])
    × ((later : Interactions)
        → lookup turn_a later.pending ≡ lookup turn_a answered.pending
        → ((again : Bool) (command' client' : Str) (other : InteractionResponse)
            → other.request_id ≡ turn_a
            → respond no_number again command' client' other later ≡ (invalid_state, later, []))
          × ((r : WorkerResult)
              → r.request_id ≡ turn_a
              → (p.token == r.token) ≡ false
              → handle_result r later ≡ (later, []))
          × ((failure : Option Code)
              → let (s3, settled) =
                  handle_result (report turn_b message_a give_name p.token failure) later in
                (settled
                  ≡ stops_worker p.token
                    ∷ resolved turn_a p.request.kind []
                    ∷ completes_command turn_b message_a (result_code failure)
                    ∷ [])
                × ((r : WorkerResult) → r.request_id ≡ turn_a → handle_result r s3 ≡ (s3, []))))
respond_once_example =
    respond_once no_number true turn_b message_a give_name asked answered
      (responds 1 give_name ∷ []) refl respond_name

interactions_run-Inv_example : Inv (
    run no_number
      (remembers ask_name
        ∷ responds_with true turn_b message_a give_name
        ∷ reports (report turn_b message_a give_name 1 none)
        ∷ ends_call
        ∷ cancels_all
        ∷ remembers ask_name
        ∷ resolves ask_name.id ask_name.kind
        ∷ forgets ask_name.id
        ∷ expires provider_crashed
        ∷ [])
      no_interactions)
interactions_run-Inv_example = interactions_run-Inv no_number (
    remembers ask_name
    ∷ responds_with true turn_b message_a give_name
    ∷ reports (report turn_b message_a give_name 1 none)
    ∷ ends_call
    ∷ cancels_all
    ∷ remembers ask_name
    ∷ resolves ask_name.id ask_name.kind
    ∷ forgets ask_name.id
    ∷ expires provider_crashed
    ∷ [])
