-- ===== src/Broker/Archive/Order.antt =====
-- The order of the archives: newest first, and none lost or repeated.
use agent_whiteboard.Base.{
  suc, ◌≡◌, refl, ◌∙◌, Bool, true, false, not, ◌&&◌, List, [], ◌∷◌, Str, str_eq_symm, length, all,
  map, contains, Distinct, ltb, arith, Bool-cases, inl, inr,
}
use agent_whiteboard.Broker.Archive.{Session, place, newest_first}

abbrev pub session_ids : List Session → List Str
session_ids = map λ (s : Session). s.conversation_id

-- No session before one that was updated later.
abbrev pub Descending : List Session → Type 0
Descending [] = Unit {0}
Descending (s ∷ ss) =
    (all (λ (t : Session). not (ltb s.updated_at t.updated_at)) ss ≡ true) × Descending ss

all-place :
    (p : Session → Bool) (s : Session) (ss : List Session) → all p (place s ss) ≡ (p s && all p ss)
unfolding place
all-place p s [] = refl
all-place p s (t ∷ ts) = ground (arith, all-place p s ts)

pub all-newest_first : (p : Session → Bool) (ss : List Session) → all p (newest_first ss) ≡ all p ss
unfolding newest_first
all-newest_first p [] = refl
all-newest_first p (s ∷ ss) = ground (arith, all-place p s (newest_first ss), all-newest_first p ss)

contains-place :
    (id : Str) (s : Session) (ss : List Session)
    → contains id (session_ids (place s ss)) ≡ contains id (session_ids (s ∷ ss))
unfolding place
contains-place id s [] = refl
contains-place id s (t ∷ ts) = ground (arith, contains-place id s ts)

pub contains-newest_first :
    (id : Str) (ss : List Session)
    → contains id (session_ids (newest_first ss)) ≡ contains id (session_ids ss)
unfolding newest_first
contains-newest_first id [] = refl
contains-newest_first id (s ∷ ss) =
    ground (arith, contains-place id s (newest_first ss), contains-newest_first id ss)

length-place : (s : Session) (ss : List Session) → length (place s ss) ≡ suc (length ss)
unfolding place
length-place s [] = refl
length-place s (t ∷ ts) = ground (arith, length-place s ts)

pub length-newest_first : (ss : List Session) → length (newest_first ss) ≡ length ss
unfolding newest_first
length-newest_first [] = refl
length-newest_first (s ∷ ss) =
    omega (arith, length-place s (newest_first ss), length-newest_first ss)

Distinct-place :
    (s : Session) (ss : List Session)
    → contains s.conversation_id (session_ids ss) ≡ false
    → Distinct (session_ids ss)
    → Distinct (session_ids (place s ss))
unfolding place
Distinct-place s [] n d = (refl, tt)
Distinct-place s (t ∷ ts) n d = elim (Bool-cases (ltb s.updated_at t.updated_at)) [
  | inl e ↦ rw e (
    ground (
      arith,
      n,
      d.0,
      contains-place t.conversation_id s ts,
      str_eq_symm t.conversation_id s.conversation_id,
    ),
    Distinct-place s ts (ground (arith, n)) d.1,
  )
  | inr e ↦ rw e (n, d)
]

pub Distinct-newest_first :
    (ss : List Session) → Distinct (session_ids ss) → Distinct (session_ids (newest_first ss))
unfolding newest_first
Distinct-newest_first [] d = tt
Distinct-newest_first (s ∷ ss) d =
    Distinct-place s (newest_first ss) (contains-newest_first s.conversation_id ss ∙ d.0)
      (Distinct-newest_first ss d.1)

older_all :
    (s t : Session) (ts : List Session)
    → ltb s.updated_at t.updated_at ≡ false
    → all (λ (x : Session). not (ltb t.updated_at x.updated_at)) ts ≡ true
    → all (λ (x : Session). not (ltb s.updated_at x.updated_at)) ts ≡ true
older_all s t [] h a = refl
older_all s t (u ∷ ts) h a = ground (arith, h, a, older_all s t ts h)

Descending-place : (s : Session) (ss : List Session) → Descending ss → Descending (place s ss)
unfolding place
Descending-place s [] d = (refl, tt)
Descending-place s (t ∷ ts) d = elim (Bool-cases (ltb s.updated_at t.updated_at)) [
  | inl e ↦ rw e (
    ground (arith, e, d.0, all-place (λ (x : Session). not (ltb t.updated_at x.updated_at)) s ts),
    Descending-place s ts d.1,
  )
  | inr e ↦ rw e (ground (arith, e, older_all s t ts e d.0), d)
]

pub Descending-newest_first : (ss : List Session) → Descending (newest_first ss)
unfolding newest_first
Descending-newest_first [] = tt
Descending-newest_first (s ∷ ss) = Descending-place s (newest_first ss) (Descending-newest_first ss)
