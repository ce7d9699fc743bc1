-- ===== src/Broker/Interaction/Respond.antt =====
-- internal/agent/broker/interaction.go: the calls that settle pending interactions: a browser's
-- response, the cancellation of all, and the end of the session.
pub mod Delivery
pub mod Invariant
pub mod Table
pub mod History
use agent_whiteboard.Base.{
  suc, ◌+◌, ◌-◌, Bool, true, not, ◌&&◌, ◌||◌, List, [], ◌∷◌, ◌++◌, Option, none, some, Str, str_eq,
  leb, ◌==◌, lookup, insert, if◌then◌else◌,
}
use agent_whiteboard.Provider.Interaction.{kind_text, InteractionResponse}
use agent_whiteboard.Provider.Interaction.Valid.{valid_response}
use agent_whiteboard.Broker.Interaction.{valid_response_for_request}
use agent_whiteboard.Broker.Interaction.Pending.{
  max_pending_interactions, Pending, Interactions, Code, accepted, invalid_state, invalid_command,
  Effect, responds, cancels, retire,
}

-- The answer `invalid_state` of a response that found no free place.
abbrev refuse : Interactions × List Effect → Code × Interactions × List Effect
refuse (s, effects) = (invalid_state, s, effects)

module _ (canonical_number : Str → Bool) where
  respond_to :
      Str → Str → InteractionResponse → Interactions → Pending → Code × Interactions × List Effect
  respond_to command client payload s p =
      let response : InteractionResponse = record {
        request_id = payload.request_id;
        kind = p.request.kind;
        option_id = payload.option_id;
        answers = payload.answers;
      } in
      if p.resolving
        || not (str_eq (kind_text p.request.kind) (kind_text payload.kind))
        || not (valid_response_for_request canonical_number p.request payload)
      then (invalid_state, s, [])
      else if not (valid_response response)
      then (invalid_command, s, [])
      else if leb max_pending_interactions s.calls
      then refuse (retire payload.request_id p.token payload.option_id true accepted s)
      else (
        accepted,
        record s {
          pending =
              insert payload.request_id
                (record p {
                  resolving = true;
                  response = some response;
                  command_id = command;
                  client_id = client;
                  cancel = true;
                })
                s.pending;
          calls = suc s.calls;
        },
        responds p.token response ∷ [],
      )

  respond_found :
      Bool
      → Str
      → Str
      → InteractionResponse
      → Interactions
      → Option Pending
      → Code × Interactions × List Effect
  respond_found interactive command client payload s none = (invalid_state, s, [])
  respond_found interactive command client payload s (some p) =
      if interactive then respond_to command client payload s p else (invalid_state, s, [])

  -- `commandInteractionRespond`; `interactive` tells whether the session takes responses.
  unfoldable pub respond :
      Bool → Str → Str → InteractionResponse → Interactions → Code × Interactions × List Effect
  unfolding respond_found respond_to
  respond interactive command client payload s =
      respond_found interactive command client payload s (lookup payload.request_id s.pending)

cancel_found : Str → Interactions → Option Pending → Interactions × List Effect
cancel_found id s none = (s, [])
cancel_found id s (some p) =
    if p.resolving
    then (s, [])
    else if leb max_pending_interactions s.calls
    then retire id p.token [] true accepted s
    else (
      record s {
        pending = insert id (record p { resolving = true; cancel = true }) s.pending;
        calls = suc s.calls;
      },
      cancels p.token id ∷ [],
    )

-- The loop of `cancelPendingInteractions` over the identifiers of the table.
unfoldable pub cancel_each : List Str → Interactions → Interactions × List Effect
unfolding cancel_found
cancel_each [] s = (s, [])
cancel_each (id ∷ ids) s =
    let (s1, effects) = cancel_found id s (lookup id s.pending) in
    let (s2, rest) = cancel_each ids s1 in (s2, effects ++ rest)

abbrev response_option : Pending → Str
response_option p = elim p.response [ none ↦ [] | some response ↦ response.option_id ]

expire_found : Code → Str → Interactions → Option Pending → Interactions × List Effect
expire_found code id s none = (s, [])
expire_found code id s (some p) = retire id p.token (response_option p) true code s

-- The loop of `expireTerminatedSessionInteractions`, with `provider_crashed`, and of
-- `expirePendingInteractions`, with `invalid_state`.
unfoldable pub expire_each : Code → List Str → Interactions → Interactions × List Effect
unfolding expire_found
expire_each code [] s = (s, [])
expire_each code (id ∷ ids) s =
    let (s1, effects) = expire_found code id s (lookup id s.pending) in
    let (s2, rest) = expire_each code ids s1 in (s2, effects ++ rest)
