-- ===== src/Broker/Repair/Proven.antt =====
-- internal/agent/broker/state_repair.go: what the mapping that a repair returns has to do with
-- the one that is stored.
use agent_whiteboard.Base.{
  inl, inr, ℕ, Bool, true, false, Option, none, some, Str, lookup, ◌≡◌, refl, sym, ◌∙◌, ap, arith,
  subst,
}
use agent_whiteboard.Agent.{Platform}
use agent_whiteboard.Config.Origin.{Network}
use agent_whiteboard.State.{Time, Identity, Mapping}
use agent_whiteboard.State.Equal.{eq_mapping-Decides}
use agent_whiteboard.State.Valid.{conversation_key}
use agent_whiteboard.State.Store.{Io, Store, Commit, applied, Result, ok, err}
use agent_whiteboard.State.Store.Access.{load}
use agent_whiteboard.State.Store.Effect.{Read, load-Read}
use agent_whiteboard.State.Calls.{promotes, update}
use agent_whiteboard.Broker.Repair.{
  Classified, mapping_invalid, mapping_other, mapping_precondition, mapping_target, Attempt,
  mutation_time, succeeded, Repaired, classify_loaded, classified, classify_loaded_state, judged,
  mutated, attempt_at, predicted, attempt, give_up, mutate_twice, accepted_turn, promote_turn,
  promote_accepted, promoted_mapping,
}
use agent_whiteboard.Broker.Repair.Foretold.{store_writes_foretold}

mutation_time-utc : (now : ℕ) (at : Time) → mutation_time now ≡ some at → at.utc ≡ true
mutation_time-utc now at h = ground (arith, h)

succeeded-applied : (c : Commit) → succeeded c ≡ true → c.outcome ≡ applied
succeeded-applied c h = ground (arith, h)

module _ (p : Platform) (n : Network) (identity : Identity) (key : Str) (old : Mapping) where
  -- What a classification says of the file of the key.
  abbrev Told : Mapping → Classified × Store → Type 0
  Told target (c, t) =
      ((m : Mapping) → c ≡ mapping_target m → (m ≡ target) × (lookup key t.files ≡ some (some m)))
      × ((m : Mapping)
          → c ≡ mapping_precondition m
          → (m ≡ old) × (lookup key t.files ≡ some (some m)))

  classify-target :
      (target x m : Mapping)
      → classify_loaded p n identity old target (ok x) ≡ mapping_target m
      → (x ≡ m) × (m ≡ target)
  unfolding classify_loaded
  classify-target target x m h = ground (arith, h, eq_mapping-Decides x target)

  classify-precondition :
      (target x m : Mapping)
      → classify_loaded p n identity old target (ok x) ≡ mapping_precondition m
      → (x ≡ m) × (m ≡ old)
  unfolding classify_loaded
  classify-precondition target x m h = ground (arith, h, eq_mapping-Decides x old)

  Told-loaded :
      (target : Mapping) (s t : Store) (r : Result Mapping)
      → conversation_key p n identity ≡ some key
      → Read p n identity s (r, t)
      → Told target (classified p n identity old target (r, t))
  unfolding classified
  Told-loaded target s t (err e) k read =
      (λ m h. unfold classify_loaded in ground arith, λ m h. unfold classify_loaded in ground arith)
  Told-loaded target s t (ok x) k (same, read) =
      let (j, kj, (found, valid)) = read x refl in
      let at_key : j ≡ key = ground (arith, k, kj) in
      let stored : lookup key t.files ≡ some (some x) =
        ap (lookup key) same ∙ sym (ap (λ i. lookup i s.files) at_key) ∙ found in
      (
        λ m h. let (e, f) = classify-target target x m h in (f, stored ∙ ap (λ y. some (some y)) e),
        λ m h.
            let (e, f) = classify-precondition target x m h in
            (f, stored ∙ ap (λ y. some (some y)) e),
      )

  classify_loaded_state-Told :
      (io : Io) (target : Mapping) (s : Store)
      → conversation_key p n identity ≡ some key
      → Told target (classify_loaded_state p n identity io old target s)
  unfolding classify_loaded_state
  classify_loaded_state-Told io target s k =
      let r = load p n io identity s in Told-loaded target s r.1 r.0 k (load-Read p n io identity s)

  module _ (call : Io → Time → Store → Commit × Store)
      (predict : Time → Mapping → Option Mapping) where
    -- A call that reports success has written what was foretold of the mapping that was stored.
    abbrev Truthful : Type 0
    Truthful =
        (io : Io) (at : Time) (s : Store) (target : Mapping)
        → at.utc ≡ true
        → lookup key s.files ≡ some (some old)
        → predict at old ≡ some target
        → succeeded (call io at s).0 ≡ true
        → lookup key (call io at s).1.files ≡ some (some target)

    -- A mapping that is returned is foretold, and is the one that is stored.
    abbrev Proven : Repaired → Type 0
    Proven (r, t) =
        (m : Mapping)
        → r ≡ some m
        → (lookup key t.files ≡ some (some m))
          × ((at : Time) × (at.utc ≡ true) × (predict at old ≡ some m))

    abbrev Retries : (Mapping → Store → Repaired) → Type 0
    Retries retry = (s : Store) → lookup key s.files ≡ some (some old) → Proven (retry old s)

    Proven-judged :
        (retry : Mapping → Store → Repaired) (at : Time) (target : Mapping) (c : Classified)
        (s : Store)
        → Retries retry
        → at.utc ≡ true
        → predict at old ≡ some target
        → Told target (c, s)
        → Proven (judged retry (c, s))
    unfolding judged
    Proven-judged retry at target mapping_invalid s re u f told = λ m h. ground arith
    Proven-judged retry at target mapping_other s re u f told = λ m h. ground arith
    Proven-judged retry at target (mapping_target x) s re u f told = λ m h.
        let (e, stored) = told.0 x refl in
        let same : x ≡ m = ground (arith, h) in
        (stored ∙ ap (λ y. some (some y)) same, (at, u, f ∙ ap some (sym e ∙ same)))
    Proven-judged retry at target (mapping_precondition x) s re u f told =
        let (e, stored) = told.1 x refl in
        subst (λ y. Proven (retry y s)) (sym e) (re s (stored ∙ ap (λ y. some (some y)) e))

    Proven-mutated :
        (b : Bool) (retry : Mapping → Store → Repaired) (io : Io) (at : Time) (target : Mapping)
        (s : Store)
        → Retries retry
        → conversation_key p n identity ≡ some key
        → at.utc ≡ true
        → predict at old ≡ some target
        → (b ≡ true → lookup key s.files ≡ some (some target))
        → Proven (mutated p n identity b retry io old target s)
    unfolding mutated
    Proven-mutated true retry io at target s re k u f done = λ m h.
        let same : target ≡ m = ground (arith, h) in
        (done refl ∙ ap (λ y. some (some y)) same, (at, u, f ∙ ap some same))
    Proven-mutated false retry io at target s re k u f done =
        let r = classify_loaded_state p n identity io old target s in
        Proven-judged retry at target r.0 r.1 re u f (classify_loaded_state-Told io target s k)

    Proven-attempt_at :
        (retry : Mapping → Store → Repaired) (try : Attempt) (time : Option Time)
        (target : Option Mapping) (s : Store)
        → Truthful
        → Retries retry
        → conversation_key p n identity ≡ some key
        → lookup key s.files ≡ some (some old)
        → ((at : Time) → time ≡ some at → (at.utc ≡ true) × (target ≡ predict at old))
        → Proven (attempt_at p n identity call predict retry try old time target s)
    unfolding attempt_at
    Proven-attempt_at retry try none target s truth re k l f = λ m h. ground arith
    Proven-attempt_at retry try (some at) none s truth re k l f = λ m h. ground arith
    Proven-attempt_at retry try (some at) (some target) s truth re k l f =
        let (u, e) = f at refl in
        let r = call try.mutation at s in
        Proven-mutated (succeeded r.0) retry try.reading at target r.1 re k u (sym e)
          (λ done. truth try.mutation at s target u l (sym e) done)

    predicted-time :
        (now : ℕ) (at : Time)
        → mutation_time now ≡ some at
        → (at.utc ≡ true)
          × (predicted p n identity call predict (mutation_time now) old ≡ predict at old)
    unfolding predicted
    predicted-time now at h =
        (mutation_time-utc now at h, ap (λ t. predicted p n identity call predict t old) h)

    Proven-attempt :
        (retry : Mapping → Store → Repaired) (try : Attempt) (s : Store)
        → Truthful
        → Retries retry
        → conversation_key p n identity ≡ some key
        → lookup key s.files ≡ some (some old)
        → Proven (attempt p n identity call predict retry try old s)
    unfolding attempt
    Proven-attempt retry try s truth re k l =
        Proven-attempt_at retry try (mutation_time try.now) _ s truth re k l
          (predicted-time try.now)

    pub Proven-mutate_twice :
        (first second : Attempt) (s : Store)
        → Truthful
        → conversation_key p n identity ≡ some key
        → lookup key s.files ≡ some (some old)
        → Proven (mutate_twice p n identity call predict first second old s)
    unfolding mutate_twice
    Proven-mutate_twice first second s truth k l =
        Proven-attempt (attempt p n identity call predict give_up second) first s truth
          (λ t h.
            Proven-attempt give_up second t truth (λ u e m f. unfold give_up in ground arith) k h)
          k l

  promotion-Truthful :
      (turn_id : Str)
      → conversation_key p n identity ≡ some key
      → Truthful
          (λ io at. update p n io identity none (promotes turn_id) at)
          (λ at m. some (promoted_mapping at m))
  promotion-Truthful turn_id k io at s target u l f done =
      let o = succeeded-applied _ done in
      elim (store_writes_foretold p n io identity none (promotes turn_id) at s key old k l u refl) [
        | inl (e, written) ↦ written ∙ ap some f
        | inr (inl (e, same)) ↦ absurd (ground (arith, o, e))
        | inr (inr (e, either)) ↦ absurd (ground (arith, o, e))
      ]

  promote_turn-proven :
      (turn : Option Str) (first second : Attempt) (s : Store) (m : Mapping)
      → conversation_key p n identity ≡ some key
      → lookup key s.files ≡ some (some old)
      → (promote_turn p n identity turn first second old s).0 ≡ some m
      → (lookup key (promote_turn p n identity turn first second old s).1.files ≡ some (some m))
        × ((at : Time) × (at.utc ≡ true) × (m ≡ promoted_mapping at old))
  unfolding promote_turn
  promote_turn-proven none first second s m k l h = absurd (ground arith)
  promote_turn-proven (some turn_id) first second s m k l h =
      let (stored, (at, u, f)) =
        Proven-mutate_twice (λ io at. update p n io identity none (promotes turn_id) at)
          (λ at m. some (promoted_mapping at m)) first second s (promotion-Truthful turn_id k) k l m
          h in
      (stored, (at, u, ground (arith, f)))

  -- A promotion that the broker reports is durable. Whatever the clock and the system answer to the
  -- two tries of the store and to the reading after each, if the broker returns a mapping from a
  -- repair of the mapping that the identity's file has, then the file now has the mapping returned,
  -- and it is the one before with its prepared revision promoted.
  pub promote_accepted_proven :
      (first second : Attempt) (s : Store) (m : Mapping)
      → conversation_key p n identity ≡ some key
      → lookup key s.files ≡ some (some old)
      → (promote_accepted p n identity first second old s).0 ≡ some m
      → (lookup key (promote_accepted p n identity first second old s).1.files ≡ some (some m))
        × ((at : Time) × (at.utc ≡ true) × (m ≡ promoted_mapping at old))
  unfolding promote_accepted
  promote_accepted_proven first second s m =
      promote_turn-proven (accepted_turn p n identity old) first second s m
