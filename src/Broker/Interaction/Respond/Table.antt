-- ===== src/Broker/Interaction/Respond/Table.antt =====
-- The table of pending interactions: its bytes, and that no identifier stands twice.
use agent_whiteboard.Base.{
  ℕ, ◌+◌, ◌≡◌, refl, ap, List, [], ◌∷◌, none, some, Str, str_eq, str_eq_refl, str_eq_iff, lookup,
  insert, delete, lookup-insert, lookup-delete, arith, Bool-cases, inl, inr,
}
use agent_whiteboard.Broker.Interaction.Pending.{Pending}

-- The bytes of the entries of a table.
unfoldable pub table_bytes : List (Str × Pending) → ℕ
table_bytes [] = 0
table_bytes ((id, p) ∷ table) = p.request_bytes + table_bytes table

-- No identifier stands twice in a table.
unfoldable pub Keyed : List (Str × Pending) → Type 0
Keyed [] = Unit {0}
Keyed ((id, p) ∷ table) = (lookup id table ≡ none) × Keyed table

delete_absent :
    (id : Str) (table : List (Str × Pending)) → lookup id table ≡ none → delete id table ≡ table
unfolding lookup delete
delete_absent id [] h = refl
delete_absent id ((j, p) ∷ table) h = ground (arith, h, delete_absent id table)

pub table_bytes-delete :
    (id : Str) (p : Pending) (table : List (Str × Pending))
    → Keyed table
    → lookup id table ≡ some p
    → p.request_bytes + table_bytes (delete id table) ≡ table_bytes table
unfolding lookup delete table_bytes Keyed
table_bytes-delete id p [] k h = cc
table_bytes-delete id p ((j, q) ∷ table) k h = ground (
  arith,
  h,
  k.0,
  str_eq_iff j id,
  ap table_bytes (delete_absent j table k.0),
  table_bytes-delete id p table k.1,
)

pub Keyed-delete : (id : Str) (table : List (Str × Pending)) → Keyed table → Keyed (delete id table)
unfolding delete Keyed
Keyed-delete id [] k = k
Keyed-delete id ((j, q) ∷ table) k = elim (Bool-cases (str_eq j id)) [
  | inl e ↦ rw e (Keyed-delete id table k.1)
  | inr e ↦ rw e (ground (arith, k.0, lookup-delete id j table), Keyed-delete id table k.1)
]

pub table_bytes-replace :
    (id : Str) (p q : Pending) (table : List (Str × Pending))
    → p.request_bytes ≡ q.request_bytes
    → lookup id table ≡ some p
    → table_bytes (insert id q table) ≡ table_bytes table
unfolding lookup insert table_bytes
table_bytes-replace id p q [] e h = cc
table_bytes-replace id p q ((j, r) ∷ table) e h =
    ground (arith, h, e, table_bytes-replace id p q table e)

pub table_bytes-new :
    (id : Str) (q : Pending) (table : List (Str × Pending))
    → lookup id table ≡ none
    → table_bytes (insert id q table) ≡ table_bytes table + q.request_bytes
unfolding lookup insert table_bytes
table_bytes-new id q [] h = omega arith
table_bytes-new id q ((j, r) ∷ table) h = ground (arith, h, table_bytes-new id q table)

pub Keyed-insert :
    (id : Str) (q : Pending) (table : List (Str × Pending))
    → Keyed table
    → Keyed (insert id q table)
unfolding lookup insert Keyed
Keyed-insert id q [] k = (refl, tt)
Keyed-insert id q ((j, r) ∷ table) k = elim (Bool-cases (str_eq j id)) [
  | inl e ↦ rw e (ground (arith, k.0, e, str_eq_iff j id), k.1)
  | inr e ↦ rw e (
    ground (arith, k.0, e, str_eq_iff id j, str_eq_refl j, lookup-insert id j q table),
    Keyed-insert id q table k.1,
  )
]
