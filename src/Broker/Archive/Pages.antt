-- ===== src/Broker/Archive/Pages.antt =====
-- How a page of archives splits the list, and what its cursor leads to.
use agent_whiteboard.Base.{
  ℕ, suc, zero, ◌≤◌, ◌<◌, ◌≡◌, refl, ap, false, List, [], ◌∷◌, ◌++◌, Option, none, some, Str,
  str_eq_refl, length, is_empty, map-append, contains, contains-append, Distinct, arith,
}
use agent_whiteboard.Broker.Archive.{
  Session, Mapping, ArchiveItem, ok, err, after_session, take, last_id, archive_page,
}
use agent_whiteboard.Broker.Archive.Order.{session_ids}

-- What a browser gathers that asks for page after page, on fuel; none if a page is refused or the fuel
-- does not do.
unfoldable pub gather : ℕ → Mapping → Str → ℕ → Option (List ArchiveItem)
gather zero m before limit = none
gather (suc fuel) m before limit = elim (archive_page m before limit) [
  | err e ↦ none
  | ok page ↦ elim page.next [
    | none ↦ some page.items
    | some cursor ↦ elim (gather fuel m cursor limit) [
      | none ↦ none
      | some more ↦ some (page.items ++ more)
    ]
  ]
]

-- A full page ends in a session, from which the rest goes on.
pub page_split :
    (k : ℕ) (ss : List Session)
    → k < length ss
    → (q : List Session) × (s : Session) × (rest : List Session) × (ss ≡ q ++ s ∷ rest)
      × (take (suc k) ss ≡ q ++ s ∷ [])
      × (length q ≡ k)
page_split k [] h = ground (arith, h)
page_split zero (s ∷ ss) h = ([], s, ss, refl, refl, refl)
page_split (suc k) (t ∷ ss) h =
    let (q, s, rest, a, b, c) = page_split k ss (omega (arith, h)) in
    (t ∷ q, s, rest, ap (λ xs. t ∷ xs) a, ap (λ xs. t ∷ xs) b, ap suc c)

pub last_id-append :
    (q : List Session) (s : Session) → last_id (q ++ s ∷ []) ≡ some s.conversation_id
last_id-append [] s = refl
last_id-append (t ∷ []) s = refl
last_id-append (t ∷ u ∷ q) s = last_id-append (u ∷ q) s

pub take-all : (n : ℕ) (ss : List Session) → length ss ≤ n → take n ss ≡ ss
take-all zero [] h = refl
take-all (suc n) [] h = refl
take-all zero (s ∷ ss) h = ground (arith, h)
take-all (suc n) (s ∷ ss) h = ap (λ xs. s ∷ xs) (take-all n ss (omega (arith, h)))

pub nonempty_push : (q : List Session) (s : Session) → is_empty (q ++ s ∷ []) ≡ false
nonempty_push [] s = refl
nonempty_push (t ∷ q) s = refl

pub after_session-middle :
    (p rest : List Session) (s : Session)
    → Distinct (session_ids (p ++ s ∷ rest))
    → after_session s.conversation_id (p ++ s ∷ rest) ≡ some rest
unfolding after_session
after_session-middle [] rest s d = ground (arith, str_eq_refl s.conversation_id)
after_session-middle (t ∷ p) rest s d = ground (
  arith,
  str_eq_refl s.conversation_id,
  d.0,
  ap (contains t.conversation_id) (map-append (λ (x : Session). x.conversation_id) p (s ∷ rest)),
  contains-append t.conversation_id (session_ids p) (session_ids (s ∷ rest)),
  after_session-middle p rest s d.1,
)
