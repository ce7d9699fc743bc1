-- ===== src/State/Transition/Index.antt =====
-- internal/agent/state/store.go: the maps by conversation that the check of an update builds, against
-- the sessions themselves.
use agent_whiteboard.Base.{
  Bool, true, false, List, [], ◌∷◌, Option, none, some, Str, str_eq, str_eq_iff, str_eq_refl, all,
  contains, lookup, insert, lookup-insert, All, or-false, if◌then◌else◌, ◌≡◌, refl, sym, ◌∙◌, arith,
  Distinct, Bool-cases, inl, inr,
}
use agent_whiteboard.State.{Session}
use agent_whiteboard.State.Valid.Unique.{ids}
use agent_whiteboard.State.Transition.{index_sessions, map_option}

-- The first session of a conversation.
unfoldable pub find_session : Str → List Session → Option Session
find_session id [] = none
find_session id (s ∷ ss) = if str_eq s.conversation_id id then some s else find_session id ss

pub find_session-id :
    (id : Str) (ss : List Session) (s : Session)
    → find_session id ss ≡ some s
    → s.conversation_id ≡ id
unfolding find_session
find_session-id id [] s h = ground arith
find_session-id id (x ∷ ss) s h = elim (Bool-cases (str_eq x.conversation_id id)) [
  | inl e ↦ ground (arith, e, h, (str_eq_iff x.conversation_id id).0 e)
  | inr e ↦ find_session-id id ss s (ground (arith, e, h))
]

find_session-absent :
    (id : Str) (ss : List Session) → contains id (ids ss) ≡ false → find_session id ss ≡ none
unfolding find_session
find_session-absent id [] h = refl
find_session-absent id (s ∷ ss) h = ground (
  arith,
  find_session-absent id ss,
  str_eq_iff s.conversation_id id,
  str_eq_iff id s.conversation_id,
)

abbrev or_else {ℓ} : {V : Type ℓ} → Option V → Option V → Option V
or_else none v = v
or_else (some w) v = some w

or_else-none {ℓ} : {V : Type ℓ} (o : Option V) → or_else o none ≡ o
or_else-none none = refl
or_else-none (some v) = refl

lookup-index {ℓ} :
    {V : Type ℓ} (value : Session → V) (id : Str) (found : List (Str × V)) (ss : List Session)
    → Distinct (ids ss)
    → lookup id (index_sessions value found ss)
      ≡ or_else (map_option value (find_session id ss)) (lookup id found)
unfolding index_sessions find_session
lookup-index value id found [] d = refl
lookup-index value id found (s ∷ ss) d =
    lookup-index value id (insert s.conversation_id (value s) found) ss d.1
    ∙ ground (
      arith,
      lookup-insert s.conversation_id id (value s) found,
      find_session-absent s.conversation_id ss d.0,
      str_eq_iff s.conversation_id id,
    )

pub lookup-indexed {ℓ} :
    {V : Type ℓ} (value : Session → V) (id : Str) (ss : List Session)
    → Distinct (ids ss)
    → lookup id (index_sessions value [] ss) ≡ map_option value (find_session id ss)
unfolding lookup
lookup-indexed value id ss d =
    lookup-index value id [] ss d ∙ or_else-none (map_option value (find_session id ss))

pub all-lookup {ℓ} :
    {V : Type ℓ} (f : Str × V → Bool) (m : List (Str × V)) (k : Str) (v : V)
    → all f m ≡ true
    → lookup k m ≡ some v
    → f (k, v) ≡ true
unfolding lookup
all-lookup f [] k v h l = ground arith
all-lookup f ((j, w) ∷ m) k v h l = elim (Bool-cases (str_eq j k)) [
  | inl e ↦
      let key : k ≡ j = sym ((str_eq_iff j k).0 e) in
      let value : v ≡ w = ground (arith, e, l) in rw key (rw value (ground (arith, h)))
  | inr e ↦ all-lookup f m k v (ground (arith, h)) (ground (arith, e, l))
]

All-zip {ℓ κ μ ν} :
    {A : Type ℓ} (P : A → Type κ) (Q : A → Type μ) (R : A → Type ν) (xs : List A)
    → ((x : A) → P x → Q x → R x)
    → All P xs
    → All Q xs
    → All R xs
All-zip P Q R [] f p q = tt
All-zip P Q R (x ∷ xs) f p q = (f x p.0 q.0, All-zip P Q R xs f p.1 q.1)

ids-differ :
    (id : Str) (ss : List Session)
    → contains id (ids ss) ≡ false
    → All (λ s. str_eq id s.conversation_id ≡ false) ss
ids-differ id [] h = tt
ids-differ id (s ∷ ss) h = (
  (or-false (str_eq id s.conversation_id) _ h).0,
  ids-differ id ss (or-false _ (contains id (ids ss)) h).1,
)

-- Each of the sessions is the one found under its conversation.
pub find_session-own :
    (ss : List Session)
    → Distinct (ids ss)
    → All (λ s. find_session s.conversation_id ss ≡ some s) ss
unfolding find_session
find_session-own [] d = tt
find_session-own (s ∷ ss) d = (
  ground (arith, str_eq_refl s.conversation_id),
  All-zip (λ t. str_eq s.conversation_id t.conversation_id ≡ false)
      (λ t. find_session t.conversation_id ss ≡ some t)
      (λ t. find_session t.conversation_id (s ∷ ss) ≡ some t) ss
      (λ t differs found. ground (arith, differs, found)) (ids-differ s.conversation_id ss d.0)
      (find_session-own ss d.1),
)

pub All-map {ℓ κ μ} :
    {A : Type ℓ} (P : A → Type κ) (Q : A → Type μ) (xs : List A)
    → ((x : A) → P x → Q x)
    → All P xs
    → All Q xs
All-map P Q [] f p = tt
All-map P Q (x ∷ xs) f p = (f x p.0, All-map P Q xs f p.1)
