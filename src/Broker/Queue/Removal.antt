-- ===== src/Broker/Queue/Removal.antt =====
-- What `Remove`, `discardContext` and `attachContextToHead` keep of a queue.
use agent_whiteboard.Base.{
  ℕ, suc, ◌+◌, ◌-◌, ◌≡◌, refl, Bool, true, false, List, [], ◌∷◌, Option, none, some, Str, str_eq,
  length, is_some, contains, sum_of, All, map, if◌then◌else◌, arith, Bool-cases, Option-cases, inl,
  inr, Distinct, subst, ap,
}
use agent_whiteboard.Agent.{Platform}
use agent_whiteboard.Provider.Turn.{PageContext, valid_context, valid_turn}
use agent_whiteboard.Broker.Queue.{
  Queue, QueueItem, ok, remove, discard_context, attach_context_to_head, find_item, remove_item,
  item_bytes, set_head_context, drop_contexts, valid_item, Erased,
}
use agent_whiteboard.Broker.Queue.Invariant.{turn_ids, message_ids, context_count, Inv}

-- What `remove_item` takes from a list that has the message.
sum_of-remove_item :
    (f : QueueItem → ℕ) (id : Str) (is : List QueueItem) (i : QueueItem)
    → find_item id is ≡ some i
    → sum_of f is ≡ f i + sum_of f (remove_item id is)
unfolding find_item remove_item
sum_of-remove_item f id [] i h = cc
sum_of-remove_item f id (x ∷ is) i h = ground (arith, sum_of-remove_item f id is i)

pub length-remove_item :
    (id : Str) (is : List QueueItem) (i : QueueItem)
    → find_item id is ≡ some i
    → length is ≡ suc (length (remove_item id is))
unfolding find_item remove_item
length-remove_item id [] i h = cc
length-remove_item id (x ∷ is) i h = ground (arith, length-remove_item id is i)

module _ (g : QueueItem → Str) (id : Str) where
  contains-remove_item :
      (a : Str) (is : List QueueItem)
      → contains a (map g is) ≡ false
      → contains a (map g (remove_item id is)) ≡ false
  unfolding remove_item
  contains-remove_item a [] h = refl
  contains-remove_item a (i ∷ is) h = ground (arith, contains-remove_item a is)

  Distinct-remove_item :
      (is : List QueueItem) → Distinct (map g is) → Distinct (map g (remove_item id is))
  unfolding remove_item
  Distinct-remove_item [] d = tt
  Distinct-remove_item (i ∷ is) d = elim (Bool-cases (str_eq i.message_id id)) [
    | inl e ↦ rw e d.1
    | inr e ↦ rw e (contains-remove_item (g i) is d.0, Distinct-remove_item is d.1)
  ]

All-remove_item :
    (P : QueueItem → Type 0) (id : Str) (is : List QueueItem) → All P is → All P (remove_item id is)
unfolding remove_item
All-remove_item P id [] a = tt
All-remove_item P id (i ∷ is) a = elim (Bool-cases (str_eq i.message_id id)) [
  | inl e ↦ rw e a.1
  | inr e ↦ rw e (a.0, All-remove_item P id is a.1)
]

abbrev context_weight : QueueItem → ℕ
context_weight i = if is_some i.context then 1 else 0

module _ (os : Platform) where
  removed-Inv :
      (id : Str) (i : QueueItem) (q : Queue)
      → Inv os q
      → find_item id q.items ≡ some i
      → Inv os (record {
        items = remove_item id q.items;
        total = q.total - item_bytes i;
        has_context = if is_some i.context then false else q.has_context;
      })
  removed-Inv id i q v e = record {
    counted = omega (arith, v.counted, sum_of-remove_item item_bytes id q.items i e);
    bytes_bound = omega (arith, v.bytes_bound);
    items_bound = omega (arith, v.items_bound, length-remove_item id q.items i e);
    one_context = ground (arith, v.one_context, sum_of-remove_item context_weight id q.items i e);
    turns_distinct = Distinct-remove_item (λ i. i.turn_id) id q.items v.turns_distinct;
    messages_distinct = Distinct-remove_item (λ i. i.message_id) id q.items v.messages_distinct;
    each = All-remove_item _ id q.items v.each;
  }

  -- So does removing a message.
  pub remove-Inv :
      (id : Str) (q q' : Queue) {erased : List Erased}
      → Inv os q
      → remove id q ≡ ok (q', erased)
      → Inv os q'
  unfolding remove
  remove-Inv id q q' v h = elim (Option-cases (find_item id q.items)) [
    | inl e ↦ ground (arith, e)
    | inr (i, e) ↦ subst (Inv os) (ground (arith, e)) (removed-Inv id i q v e)
  ]

-- An item whose context is replaced by a valid one, or by none, is as valid as it was.
module _ (os : Platform) where
  valid_item-context :
      (i : QueueItem) (c : Option PageContext)
      → valid_item os i ≡ true
      → elim c [ none ↦ true | some p ↦ valid_context os p ] ≡ true
      → valid_item os (record i { context = c }) ≡ true
  unfolding valid_item valid_turn
  valid_item-context i c v h = ground arith

  drop_contexts-each :
      (is : List QueueItem)
      → All (λ i. valid_item os i ≡ true) is
      → All (λ i. valid_item os i ≡ true) (drop_contexts is)
  unfolding drop_contexts
  drop_contexts-each [] a = tt
  drop_contexts-each (i ∷ is) a = (valid_item-context i none a.0 refl, drop_contexts-each is a.1)

pub drop_contexts_keeps :
    (is : List QueueItem)
    → (turn_ids (drop_contexts is) ≡ turn_ids is)
      × (message_ids (drop_contexts is) ≡ message_ids is)
      × (sum_of item_bytes (drop_contexts is) ≡ sum_of item_bytes is)
      × (context_count (drop_contexts is) ≡ 0)
      × (length (drop_contexts is) ≡ length is)
unfolding drop_contexts item_bytes
drop_contexts_keeps [] = (refl, refl, refl, refl, refl)
drop_contexts_keeps (i ∷ is) =
    let rest = drop_contexts_keeps is in
    (
      ap (◌∷◌ i.turn_id) rest.0,
      ap (◌∷◌ i.message_id) rest.1,
      omega (arith, rest),
      omega (arith, rest),
      omega (arith, rest),
    )

module _ (os : Platform) where
  dropped-Inv :
      (q : Queue)
      → Inv os q
      → Inv os (record q { items = drop_contexts q.items; has_context = false })
  dropped-Inv q v =
      let kept = drop_contexts_keeps q.items in
      record {
        counted = omega (arith, v.counted, kept);
        bytes_bound = v.bytes_bound;
        items_bound = omega (arith, v.items_bound, kept);
        one_context = kept.3;
        turns_distinct = rw kept.0 v.turns_distinct;
        messages_distinct = rw kept.1 v.messages_distinct;
        each = drop_contexts-each os q.items v.each;
      }

  -- So does discarding the context.
  pub discard_context-Inv : (q : Queue) → Inv os q → Inv os (discard_context q).0
  unfolding discard_context
  discard_context-Inv q v = elim (Bool-cases q.has_context) [
    | inl e ↦ rw e (dropped-Inv q v)
    | inr e ↦ subst (Inv os) {x = q} (ground arith) v
  ]

-- The context that the head receives was the only one that the queue lacked.
set_head-Inv :
    (os : Platform) (c : PageContext) (i : QueueItem) (is : List QueueItem) (total : ℕ)
    → valid_context os c ≡ true
    → Inv os (record { items = i ∷ is; total = total; has_context = false })
    → Inv os (record { items = set_head_context c (i ∷ is); total = total; has_context = true })
unfolding set_head_context item_bytes
set_head-Inv os c i is total h v = record {
  counted = v.counted;
  bytes_bound = v.bytes_bound;
  items_bound = v.items_bound;
  one_context = ground (arith, v.one_context);
  turns_distinct = v.turns_distinct;
  messages_distinct = v.messages_distinct;
  each = (valid_item-context os i (some c) v.each.0 h, v.each.1);
}

module _ (os : Platform) where
  attach_items :
      (items : List QueueItem) (total : ℕ) (has : Bool) (page : Option PageContext) (q' : Queue)
      → Inv os (record { items = items; total = total; has_context = has })
      → attach_context_to_head os page (record { items = items; total = total; has_context = has })
        ≡ ok q'
      → Inv os q'
  unfolding attach_context_to_head
  attach_items items total has none q' v h = cc
  attach_items [] total has (some c) q' v h = cc
  attach_items (i ∷ is) total true (some c) q' v h = ground arith
  attach_items (i ∷ is) total false (some c) q' v h =
      subst (Inv os) (ground arith) (set_head-Inv os c i is total (ground arith) v)

  -- So does handing the head a context.
  pub attach_context_to_head-Inv :
      (page : Option PageContext) (q q' : Queue)
      → Inv os q
      → attach_context_to_head os page q ≡ ok q'
      → Inv os q'
  attach_context_to_head-Inv page q q' v h = attach_items q.items q.total q.has_context page q' v h
