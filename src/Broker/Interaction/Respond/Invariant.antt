-- ===== src/Broker/Interaction/Respond/Invariant.antt =====
-- What holds of the pending interactions between two calls.
use agent_whiteboard.Base.{
  ℕ, suc, ◌+◌, ◌≤◌, ◌≡◌, refl, subst, Bool, false, not, ◌||◌, Option, none, some, Str, length, leb,
  ◌==◌, lookup, insert, length-insert, length-delete_le, arith, Bool-cases, inl, inr, [], str_eq,
}
use agent_whiteboard.Provider.Interaction.{InteractionKind, kind_text, InteractionRequest}
use agent_whiteboard.Broker.Replay.{max_replay_bytes}
use agent_whiteboard.Broker.Interaction.Pending.{
  max_pending_interactions, Pending, Interactions, Code, ok, request_size, fresh_pending, remember,
  forget_found, forget, forget_any, provider_resolves, resolved_found, invalid_state, retire,
  retire_found, WorkerResult, result_found, handle_result,
}
use agent_whiteboard.Broker.Interaction.Respond.Table.{
  table_bytes, Keyed, table_bytes-delete, Keyed-delete, table_bytes-replace, table_bytes-new,
  Keyed-insert,
}

pub record Inv (s : Interactions) : Type 0 where
  pub keyed : Keyed s.pending
  pub counted : s.bytes ≡ table_bytes s.pending
  pub bytes_bound : s.bytes ≤ max_replay_bytes
  pub count_bound : length s.pending ≤ max_pending_interactions
  pub calls_bound : s.calls ≤ max_pending_interactions

-- An interaction leaves.
forget-Inv :
    (id : Str) (p : Pending) (s : Interactions)
    → lookup id s.pending ≡ some p
    → Inv s
    → Inv (forget_found id p s)
forget-Inv id p s found v =
    let bytes = table_bytes-delete id p s.pending v.keyed found in
    record {
      keyed = Keyed-delete id s.pending v.keyed;
      counted = omega (arith, v.counted, bytes);
      bytes_bound = omega (arith, v.bytes_bound);
      count_bound = omega (arith, v.count_bound, length-delete_le id s.pending);
      calls_bound = v.calls_bound;
    }

-- An entry takes the place of one of the same size, and one more call is under way.
pub replace-Inv :
    (id : Str) (p q : Pending) (s : Interactions)
    → lookup id s.pending ≡ some p
    → p.request_bytes ≡ q.request_bytes
    → leb max_pending_interactions s.calls ≡ false
    → Inv s
    → Inv (record s { pending = insert id q s.pending; calls = suc s.calls })
replace-Inv id p q s found same room v = record {
  keyed = Keyed-insert id q s.pending v.keyed;
  counted = omega (arith, v.counted, table_bytes-replace id p q s.pending same found);
  bytes_bound = v.bytes_bound;
  count_bound = ground (arith, v.count_bound, found, length-insert id q s.pending);
  calls_bound = ground (arith, room);
}

retire_found-Inv :
    (id : Str) (token : ℕ) (option : Str) (publish : Bool) (code : Code) (s : Interactions)
    → (found : Option Pending) → lookup id s.pending ≡ found
    → Inv s
    → Inv (retire_found id token option publish code s found).0
unfolding retire_found
retire_found-Inv id token option publish code s none h v = v
retire_found-Inv id token option publish code s (some p) h v =
    elim (Bool-cases (p.token == token)) [ inl e ↦ rw e (forget-Inv id p s h v) | inr e ↦ rw e v ]

forget_any-Inv :
    (id : Str) (s : Interactions) (found : Option Pending)
    → lookup id s.pending ≡ found
    → Inv s
    → Inv (forget_any id s found).0
unfolding forget_any
forget_any-Inv id s none h v = v
forget_any-Inv id s (some p) h v = forget-Inv id p s h v

pub forget_call-Inv : (id : Str) (s : Interactions) → Inv s → Inv (forget id s).0
unfolding forget
forget_call-Inv id s v = forget_any-Inv id s (lookup id s.pending) refl v

pub retire-Inv :
    (id : Str) (token : ℕ) (option : Str) (publish : Bool) (code : Code) (s : Interactions)
    → Inv s
    → Inv (retire id token option publish code s).0
unfolding retire
retire-Inv id token option publish code s =
    retire_found-Inv id token option publish code s (lookup id s.pending) refl

resolved_found-Inv :
    (id : Str) (kind : InteractionKind) (s : Interactions) (found : Option Pending)
    → Inv s
    → Inv (resolved_found id kind s found).0
unfolding resolved_found
resolved_found-Inv id kind s none v = v
resolved_found-Inv id kind s (some p) v =
    elim (Bool-cases (str_eq (kind_text p.request.kind) (kind_text kind))) [
      | inl c ↦ rw c (retire-Inv id p.token [] false invalid_state s v)
      | inr c ↦ rw c v
    ]

pub provider_resolves-Inv :
    (id : Str) (kind : InteractionKind) (s : Interactions)
    → Inv s
    → Inv (provider_resolves id kind s).0
unfolding provider_resolves
provider_resolves-Inv id kind s v = resolved_found-Inv id kind s (lookup id s.pending) v

result_found-Inv :
    (r : WorkerResult) (s : Interactions) (found : Option Pending)
    → lookup r.request_id s.pending ≡ found
    → Inv s
    → Inv (result_found r s found).0
unfolding result_found
result_found-Inv r s none h v = v
result_found-Inv r s (some p) h v =
    elim (Bool-cases (not (p.token == r.token) || not p.resolving)) [
      | inl e ↦ rw e v
      | inr e ↦ rw e (forget-Inv r.request_id p s h v)
    ]

pub handle_result-Inv : (r : WorkerResult) (s : Interactions) → Inv s → Inv (handle_result r s).0
unfolding handle_result
handle_result-Inv r s = result_found-Inv r s (lookup r.request_id s.pending) refl

pub remember-Inv :
    (request : InteractionRequest) (s s' : Interactions)
    → Inv s
    → remember request s ≡ ok s'
    → Inv s'
unfolding remember
remember-Inv request s s' v h =
    let q = fresh_pending request (suc s.next_token) in
    let absent : lookup request.id s.pending ≡ none = ground (arith, h) in
    subst Inv
      {x = record s {
        pending = insert request.id q s.pending;
        bytes = s.bytes + (request_size request + 64);
        next_token = suc s.next_token;
      }}
      {y = s'} (ground (arith, h))
      (record {
        keyed = Keyed-insert request.id q s.pending v.keyed;
        counted = omega (arith, v.counted, table_bytes-new request.id q s.pending absent);
        bytes_bound = ground (arith, h);
        count_bound = ground (arith, h, absent, length-insert request.id q s.pending);
        calls_bound = v.calls_bound;
      })
