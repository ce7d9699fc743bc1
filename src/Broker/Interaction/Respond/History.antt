-- ===== src/Broker/Interaction/Respond/History.antt =====
-- Pending interactions as calls leave them: any sequence of calls, refused ones included.
use agent_whiteboard.Base.{
  ◌-◌, ◌≡◌, refl, Bool, true, false, not, ◌||◌, List, [], ◌∷◌, Option, none, some, Str, str_eq, leb,
  lookup, map, arith, Bool-cases, inl, inr,
}
use agent_whiteboard.Provider.Interaction.{
  InteractionKind, kind_text, InteractionRequest, InteractionResponse,
}
use agent_whiteboard.Provider.Interaction.Valid.{valid_response}
use agent_whiteboard.Broker.Interaction.{valid_response_for_request}
use agent_whiteboard.Broker.Interaction.Pending.{
  max_pending_interactions, Pending, Interactions, Code, accepted, Remembered, ok, err, remember,
  WorkerResult, handle_result, forget, provider_resolves,
}
use agent_whiteboard.Broker.Interaction.Respond.{
  respond_to, respond_found, respond, cancel_found, cancel_each, expire_found, expire_each,
  response_option,
}
use agent_whiteboard.Broker.Interaction.Respond.Table.{table_bytes, Keyed}
use agent_whiteboard.Broker.Interaction.Respond.Invariant.{
  Inv, replace-Inv, retire-Inv, handle_result-Inv, remember-Inv, forget_call-Inv,
  provider_resolves-Inv,
}

-- No interaction yet.
abbrev pub no_interactions : Interactions
no_interactions = record { pending = []; bytes = 0; next_token = 0; calls = 0 }

abbrev ids_of : List (Str × Pending) → List Str
ids_of = map λ (entry : Str × Pending). entry.0

-- One call; `ends_call` is the end of a worker, which gives back its place in the budget.
pub data Call : Type 0 where
  remembers : InteractionRequest → Call
  responds_with : Bool → Str → Str → InteractionResponse → Call
  reports : WorkerResult → Call
  cancels_all ends_call : Call
  expires : Code → Call
  forgets : Str → Call
  resolves : Str → InteractionKind → Call

after_remember : Remembered → Interactions → Interactions
after_remember (ok s') s = s'
after_remember (err e) s = s

module _ (canonical_number : Str → Bool) where
  unfoldable pub step : Call → Interactions → Interactions
  unfolding after_remember
  step (remembers request) s = after_remember (remember request s) s
  step (responds_with interactive command client payload) s =
      (respond canonical_number interactive command client payload s).1
  step (reports r) s = (handle_result r s).0
  step cancels_all s = (cancel_each (ids_of s.pending) s).0
  step ends_call s = record s { calls = s.calls - 1 }
  step (expires code) s = (expire_each code (ids_of s.pending) s).0
  step (forgets id) s = (forget id s).0
  step (resolves id kind) s = (provider_resolves id kind s).0

  unfoldable pub run : List Call → Interactions → Interactions
  run [] s = s
  run (c ∷ cs) s = run cs (step c s)

after_remember-Inv :
    (r : Remembered) (s : Interactions)
    → ((s' : Interactions) → r ≡ ok s' → Inv s')
    → Inv s
    → Inv (after_remember r s)
unfolding after_remember
after_remember-Inv (ok s') s h v = h s' refl
after_remember-Inv (err e) s h v = v

cancel_found-Inv :
    (id : Str) (s : Interactions) (found : Option Pending)
    → lookup id s.pending ≡ found
    → Inv s
    → Inv (cancel_found id s found).0
unfolding cancel_found
cancel_found-Inv id s none h v = v
cancel_found-Inv id s (some p) h v = elim (Bool-cases p.resolving) [
  | inl e ↦ rw e v
  | inr e ↦ elim (Bool-cases (leb max_pending_interactions s.calls)) [
    | inl f ↦ rw (e, f) (retire-Inv id p.token [] true accepted s v)
    | inr f ↦
        rw (e, f) (replace-Inv id p (record p { resolving = true; cancel = true }) s h refl f v)
  ]
]

cancel_each-Inv : (ids : List Str) (s : Interactions) → Inv s → Inv (cancel_each ids s).0
unfolding cancel_each
cancel_each-Inv [] s v = v
cancel_each-Inv (id ∷ ids) s v =
    cancel_each-Inv ids (cancel_found id s (lookup id s.pending)).0
      (cancel_found-Inv id s (lookup id s.pending) refl v)

expire_found-Inv :
    (code : Code) (id : Str) (s : Interactions) (found : Option Pending)
    → Inv s
    → Inv (expire_found code id s found).0
unfolding expire_found
expire_found-Inv code id s none v = v
expire_found-Inv code id s (some p) v = retire-Inv id p.token (response_option p) true code s v

expire_each-Inv :
    (code : Code) (ids : List Str) (s : Interactions) → Inv s → Inv (expire_each code ids s).0
unfolding expire_each
expire_each-Inv code [] s v = v
expire_each-Inv code (id ∷ ids) s v =
    expire_each-Inv code ids (expire_found code id s (lookup id s.pending)).0
      (expire_found-Inv code id s (lookup id s.pending) v)

no_interactions-Inv : Inv no_interactions
unfolding table_bytes Keyed
no_interactions-Inv = record {
  keyed = tt;
  counted = refl;
  bytes_bound = omega arith;
  count_bound = omega arith;
  calls_bound = omega arith;
}

module _ (canonical_number : Str → Bool) where
  respond_to-Inv :
      (command client : Str) (payload : InteractionResponse) (s : Interactions) (p : Pending)
      → lookup payload.request_id s.pending ≡ some p
      → Inv s
      → Inv (respond_to canonical_number command client payload s p).1
  unfolding respond_to
  respond_to-Inv command client payload s p h v =
      let response : InteractionResponse = record payload { kind = p.request.kind } in
      let refused =
        p.resolving
        || not (str_eq (kind_text p.request.kind) (kind_text payload.kind))
        || not (valid_response_for_request canonical_number p.request payload) in
      elim (Bool-cases refused) [
        | inl a ↦ rw a v
        | inr a ↦ elim (Bool-cases (not (valid_response response))) [
          | inl b ↦ rw (a, b) v
          | inr b ↦ elim (Bool-cases (leb max_pending_interactions s.calls)) [
            | inl c ↦
                rw (a, b, c)
                  (retire-Inv payload.request_id p.token payload.option_id true accepted s v)
            | inr c ↦
                rw (a, b, c)
                  (replace-Inv payload.request_id p
                    (record p {
                      resolving = true;
                      response = some response;
                      command_id = command;
                      client_id = client;
                      cancel = true;
                    })
                    s h refl c v)
          ]
        ]
      ]

  respond_found-Inv :
      (interactive : Bool) (command client : Str) (payload : InteractionResponse) (s : Interactions)
      → (found : Option Pending) → lookup payload.request_id s.pending ≡ found
      → Inv s
      → Inv (respond_found canonical_number interactive command client payload s found).1
  unfolding respond_found
  respond_found-Inv interactive command client payload s none h v = v
  respond_found-Inv true command client payload s (some p) h v =
      respond_to-Inv command client payload s p h v
  respond_found-Inv false command client payload s (some p) h v = v

  step-Inv : (c : Call) (s : Interactions) → Inv s → Inv (step canonical_number c s)
  unfolding step respond
  step-Inv (remembers request) s v =
      after_remember-Inv (remember request s) s (λ s'. remember-Inv request s s' v) v
  step-Inv (responds_with interactive command client payload) s v =
      respond_found-Inv interactive command client payload s (lookup payload.request_id s.pending)
        refl v
  step-Inv (reports r) s v = handle_result-Inv r s v
  step-Inv cancels_all s v = cancel_each-Inv (ids_of s.pending) s v
  step-Inv ends_call s v = record {
    keyed = v.keyed;
    counted = v.counted;
    bytes_bound = v.bytes_bound;
    count_bound = v.count_bound;
    calls_bound = omega (arith, v.calls_bound);
  }
  step-Inv (expires code) s v = expire_each-Inv code (ids_of s.pending) s v
  step-Inv (forgets id) s v = forget_call-Inv id s v
  step-Inv (resolves id kind) s v = provider_resolves-Inv id kind s v

  run_from-Inv : (cs : List Call) (s : Interactions) → Inv s → Inv (run canonical_number cs s)
  unfolding run
  run_from-Inv [] s v = v
  run_from-Inv (c ∷ cs) s v = run_from-Inv cs (step canonical_number c s) (step-Inv c s v)

  -- After any sequence of calls, refused ones included, at most 32 interactions are pending, each
  -- under one identifier, their bytes are counted exactly and are at most 8 MiB, and at most 32 calls
  -- of the adapter are under way.
  pub interactions_run-Inv : (cs : List Call) → Inv (run canonical_number cs no_interactions)
  interactions_run-Inv cs = run_from-Inv cs no_interactions no_interactions-Inv
