-- ===== src/Broker/Interaction/Respond/Delivery.antt =====
-- How a pending interaction is answered and resolved.
use agent_whiteboard.Base.{
  ℕ, ◌≡◌, refl, ◌∙◌, ap, Bool, true, false, List, [], ◌∷◌, Option, none, some, Str, str_eq_refl,
  is_empty, ◌==◌, lookup, lookup-insert, lookup-delete, arith, Option-cases, inl, inr,
}
use agent_whiteboard.Provider.Interaction.{InteractionResponse}
use agent_whiteboard.Broker.Interaction.Pending.{
  Pending, Interactions, Code, accepted, invalid_state, Effect, responds, stops_worker, resolved,
  completes_command, WorkerResult, result_code, result_found, handle_result,
}
use agent_whiteboard.Broker.Interaction.Respond.{respond_to, respond_found, respond}

-- What the worker of a response reports.
abbrev pub report : Str → Str → InteractionResponse → ℕ → Option Code → WorkerResult
report command client payload token failure = record {
  request_id = payload.request_id;
  token = token;
  command_id = command;
  client_id = client;
  option_id = payload.option_id;
  failure = failure;
  automatic = false;
}

module _ (canonical_number : Str → Bool) where
  -- The entry of an interaction for which a response was taken.
  abbrev taken : Str → Str → InteractionResponse → Pending → Pending
  taken command client payload p = record p {
    resolving = true;
    response = some (record {
      request_id = payload.request_id;
      kind = p.request.kind;
      option_id = payload.option_id;
      answers = payload.answers;
    });
    command_id = command;
    client_id = client;
    cancel = true;
  }

  respond-taken :
      (interactive : Bool) (command client : Str) (payload : InteractionResponse)
      → (s s' : Interactions) (effects : List Effect)
      → respond canonical_number interactive command client payload s ≡ (accepted, s', effects)
      → (p : Pending) × (lookup payload.request_id s.pending ≡ some p)
        × (p.resolving ≡ false)
        × (lookup payload.request_id s'.pending ≡ some (taken command client payload p))
        × (effects
            ≡ responds p.token (record {
              request_id = payload.request_id;
              kind = p.request.kind;
              option_id = payload.option_id;
              answers = payload.answers;
            })
              ∷ [])
  unfolding respond respond_found respond_to
  respond-taken interactive command client payload s s' effects h =
      elim (Option-cases (lookup payload.request_id s.pending)) [
        | inl e ↦ ground (arith, h, e)
        | inr (p, e) ↦ (
          p,
          e,
          ground (arith, h, e),
          ground (
            arith,
            h,
            e,
            str_eq_refl payload.request_id,
            lookup-insert payload.request_id payload.request_id (taken command client payload p)
                s.pending,
          ),
          ground (arith, h, e),
        )
      ]

  -- While the response is under way every other one is refused, and a result for another token is
  -- dropped.
  taken_exclusive :
      (id : Str) (p : Pending) (s : Interactions)
      → lookup id s.pending ≡ some p
      → p.resolving ≡ true
      → ((interactive : Bool) (command client : Str) (other : InteractionResponse)
          → other.request_id ≡ id
          → respond canonical_number interactive command client other s ≡ (invalid_state, s, []))
        × ((r : WorkerResult)
            → r.request_id ≡ id
            → (p.token == r.token) ≡ false
            → handle_result r s ≡ (s, []))
  unfolding respond respond_found respond_to handle_result result_found
  taken_exclusive id p s found busy = (
    λ interactive command client other e. rw (e, found) (ground (arith, busy)),
    λ r e stale. rw (e, found) (ground (arith, stale)),
  )

  -- The result of the response removes the interaction.
  taken_settles :
      (command client : Str) (payload : InteractionResponse) (failure : Option Code) (p : Pending)
      (s : Interactions)
      → lookup payload.request_id s.pending ≡ some (taken command client payload p)
      → is_empty command ≡ false
      → let (s', effects) = handle_result (report command client payload p.token failure) s in
        (lookup payload.request_id s'.pending ≡ none)
        × (effects
            ≡ stops_worker p.token
              ∷ resolved payload.request_id p.request.kind payload.option_id
              ∷ completes_command command client (result_code failure)
              ∷ [])
  unfolding handle_result result_found
  taken_settles command client payload failure p s found named = rw found (
    ground (
      arith,
      lookup-delete payload.request_id payload.request_id s.pending,
      str_eq_refl payload.request_id,
    ),
    ground (arith, named),
  )

  gone_drops :
      (r : WorkerResult) (s : Interactions)
      → lookup r.request_id s.pending ≡ none
      → handle_result r s ≡ (s, [])
  unfolding handle_result result_found
  gone_drops r s h = rw h refl

  -- A response that is accepted for a named command is the one call of the adapter. As long as the
  -- interaction's entry stays, whatever else happens in between, every other response to it is
  -- refused without effect and results for other tokens are dropped; its worker's result stops the
  -- worker, resolves the interaction and completes the command, once each, and after that every
  -- result for the interaction is dropped.
  pub respond_once :
      (interactive : Bool) (command client : Str) (payload : InteractionResponse)
      → (s s' : Interactions) (effects : List Effect) → is_empty command ≡ false
      → respond canonical_number interactive command client payload s ≡ (accepted, s', effects)
      → (p : Pending) × (effects ≡ responds p.token (record payload { kind = p.request.kind }) ∷ [])
        × ((later : Interactions)
            → lookup payload.request_id later.pending ≡ lookup payload.request_id s'.pending
            → ((again : Bool) (command' client' : Str) (other : InteractionResponse)
                → other.request_id ≡ payload.request_id
                → respond canonical_number again command' client' other later
                  ≡ (invalid_state, later, []))
              × ((r : WorkerResult)
                  → r.request_id ≡ payload.request_id
                  → (p.token == r.token) ≡ false
                  → handle_result r later ≡ (later, []))
              × ((failure : Option Code)
                  → let (s3, settled) =
                      handle_result (report command client payload p.token failure) later in
                    (settled
                      ≡ stops_worker p.token
                        ∷ resolved payload.request_id p.request.kind payload.option_id
                        ∷ completes_command command client (result_code failure)
                        ∷ [])
                    × ((r : WorkerResult)
                        → r.request_id ≡ payload.request_id
                        → handle_result r s3 ≡ (s3, []))))
  respond_once interactive command client payload s s' effects named h =
      let (p, before, idle, found, sent) =
        respond-taken interactive command client payload s s' effects h in
      (
        p,
        sent,
        λ later same.
            let now = same ∙ found in
            let (refused, stale) =
              taken_exclusive payload.request_id (taken command client payload p) later now refl in
            (
              refused,
              stale,
              λ failure.
                  let s3 =
                    (handle_result (report command client payload p.token failure) later).0 in
                  let (gone, settled) =
                    taken_settles command client payload failure p later now named in
                  (settled, λ r e. gone_drops r s3 (ap (λ id. lookup id s3.pending) e ∙ gone)),
            ),
      )
