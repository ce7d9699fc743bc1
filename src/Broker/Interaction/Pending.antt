-- ===== src/Broker/Interaction/Pending.antt =====
-- internal/agent/broker/interaction.go: the conversation's table of pending interactions. Calls of the
-- adapter and what is sent to browsers are effects, in order; `calls` counts the places that are taken
-- in `interactionCallBudget`. A map's iteration order is that of the association list.
use agent_whiteboard.Base.{
  ℕ, suc, ◌+◌, ◌-◌, Bool, false, not, ◌&&◌, ◌||◌, List, [], ◌∷◌, ◌++◌, Option, none, some, Str,
  length, is_some, is_empty, str_eq, ltb, leb, ◌==◌, lookup, insert, delete, sum_of, if◌then◌else◌,
}
use agent_whiteboard.Provider.Interaction.{
  InteractionKind, kind_text, field_text, InteractionOption, Question, Field, InteractionRequest,
  InteractionResponse,
}
use agent_whiteboard.Provider.Interaction.Valid.{valid_request}
use agent_whiteboard.Broker.Replay.{max_replay_bytes}

abbrev pub max_pending_interactions : ℕ
max_pending_interactions = 32

-- `pendingInteraction`; `cancel` tells whether the function to cancel its worker is set.
pub record Pending : Type 0 where
  pub request : InteractionRequest
  pub request_bytes : ℕ
  pub token : ℕ
  pub resolving : Bool
  pub response : Option InteractionResponse
  pub command_id : Str
  pub client_id : Str
  pub cancel : Bool

-- The fields of `conversation` for interactions.
pub record Interactions : Type 0 where
  pub pending : List (Str × Pending)
  pub bytes : ℕ
  pub next_token : ℕ
  pub calls : ℕ

-- The browser's error codes, `accepted` for none.
pub data Code : Type 0 where
  accepted invalid_state invalid_command provider_crashed malformed_stream : Code
  mapped_error : ℕ → Code

pub data Effect : Type 0 where
  responds : ℕ → InteractionResponse → Effect
  cancels : ℕ → Str → Effect
  stops_worker : ℕ → Effect
  resolved : Str → InteractionKind → Str → Effect
  completes_command : Str → Str → Code → Effect
  publishes_error : Code → Effect

pub data RememberError : Type 0 where
  invalid_request duplicate_request exceeds_limit tokens_exhausted : RememberError

pub data Remembered : Type 0 where
  ok : Interactions → Remembered
  err : RememberError → Remembered

abbrev options_size : List InteractionOption → ℕ
options_size =
    sum_of λ (o : InteractionOption). length o.id + length o.label + length o.description + 16

-- `interactionRequestSize`.
unfoldable pub request_size : InteractionRequest → ℕ
request_size r =
    length r.id
    + length r.turn_id
    + length (kind_text r.kind)
    + length r.title
    + length r.summary
    + length r.command
    + length r.working_directory
    + options_size r.options
    + sum_of
        (λ (q : Question).
          length q.id + length q.header + length q.prompt + 32 + options_size q.options)
        r.questions
    + sum_of
        (λ (f : Field).
          length f.id
          + length f.label
          + length f.description
          + length (field_text f.type)
          + 32
          + options_size f.options)
        r.fields

abbrev pub fresh_pending : InteractionRequest → ℕ → Pending
fresh_pending request token = record {
  request = request;
  request_bytes = request_size request + 64;
  token = token;
  resolving = false;
  response = none;
  command_id = [];
  client_id = [];
  cancel = false;
}

-- `rememberInteraction`.
unfoldable pub remember : InteractionRequest → Interactions → Remembered
remember request s =
    if not (valid_request request)
    then err invalid_request
    else if is_some (lookup request.id s.pending)
    then err duplicate_request
    else if leb max_pending_interactions (length s.pending)
        || ltb max_replay_bytes (request_size request + 64 + s.bytes)
    then err exceeds_limit
    else if s.next_token == 18446744073709551615
    then err tokens_exhausted
    else ok (record s {
      pending = insert request.id (fresh_pending request (suc s.next_token)) s.pending;
      bytes = s.bytes + (request_size request + 64);
      next_token = suc s.next_token;
    })

abbrev pub stop : Pending → List Effect
stop p = if p.cancel then stops_worker p.token ∷ [] else []

-- `forgetInteraction` of an interaction that there is.
abbrev pub forget_found : Str → Pending → Interactions → Interactions
forget_found id p s = record s { pending = delete id s.pending; bytes = s.bytes - p.request_bytes }

-- `forgetInteraction`.
unfoldable pub forget_any : Str → Interactions → Option Pending → Interactions × List Effect
forget_any id s none = (s, [])
forget_any id s (some p) = (forget_found id p s, stop p)

unfoldable pub forget : Str → Interactions → Interactions × List Effect
unfolding forget_any
forget id s = forget_any id s (lookup id s.pending)

abbrev pub complete_command : Pending → Code → List Effect
complete_command p code =
    if is_empty p.command_id then [] else completes_command p.command_id p.client_id code ∷ []

unfoldable pub retire_found :
    Str → ℕ → Str → Bool → Code → Interactions → Option Pending → Interactions × List Effect
retire_found id token option publish code s none = (s, [])
retire_found id token option publish code s (some p) = if not (p.token == token) then (s, []) else (
  forget_found id p s,
  stop p
      ++ (if publish then resolved id p.request.kind option ∷ [] else [])
      ++ complete_command p code,
)

-- `retireInteraction`, whose worker is stopped once.
unfoldable pub retire : Str → ℕ → Str → Bool → Code → Interactions → Interactions × List Effect
unfolding retire_found
retire id token option publish code s =
    retire_found id token option publish code s (lookup id s.pending)

unfoldable pub resolved_found :
    Str → InteractionKind → Interactions → Option Pending → Interactions × List Effect
resolved_found id kind s none = (s, [])
resolved_found id kind s (some p) =
    if not (str_eq (kind_text p.request.kind) (kind_text kind))
    then (s, publishes_error malformed_stream ∷ [])
    else retire id p.token [] false invalid_state s

-- What `publishProviderEvent` of conversation.go does first when the provider reports an interaction as
-- resolved; the event that follows tells the browsers.
unfoldable pub provider_resolves : Str → InteractionKind → Interactions → Interactions × List Effect
unfolding resolved_found
provider_resolves id kind s = resolved_found id kind s (lookup id s.pending)

-- `interactionWorkerResult`; `failure` is `MapError(err).Code()`.
pub record WorkerResult : Type 0 where
  pub request_id : Str
  pub token : ℕ
  pub command_id : Str
  pub client_id : Str
  pub option_id : Str
  pub failure : Option Code
  pub automatic : Bool

abbrev pub result_code : Option Code → Code
result_code none = accepted
result_code (some code) = code

unfoldable pub result_found :
    WorkerResult → Interactions → Option Pending → Interactions × List Effect
result_found r s none = (s, [])
result_found r s (some p) = if not (p.token == r.token) || not p.resolving then (s, []) else (
  forget_found r.request_id p s,
  stop p
      ++ resolved r.request_id p.request.kind r.option_id
        ∷ (if not r.automatic && not (is_empty r.command_id)
            then completes_command r.command_id r.client_id (result_code r.failure) ∷ []
            else []),
)

-- `handleInteractionResult`.
unfoldable pub handle_result : WorkerResult → Interactions → Interactions × List Effect
unfolding result_found
handle_result r s = result_found r s (lookup r.request_id s.pending)
