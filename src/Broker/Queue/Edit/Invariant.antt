-- ===== src/Broker/Queue/Edit/Invariant.antt =====
-- What an edit keeps of the queue.
use agent_whiteboard.Base.{
  ℕ, ◌+◌, ◌-◌, ◌≤◌, ◌≡◌, refl, true, List, [], ◌∷◌, some, Str, str_eq, str_eq_iff, length, is_some,
  sum_of, All, map, if◌then◌else◌, arith, Bool-cases, Option-cases, inl, inr, subst, ap, ◌∙◌,
}
use agent_whiteboard.Agent.{Platform}
use agent_whiteboard.Provider.Message.{MessageContent, semantic_bytes}
use agent_whiteboard.Provider.Turn.{ImageInput, valid_turn}
use agent_whiteboard.Broker.Queue.{
  Queue, QueueItem, ImageDescriptor, Result, ok, err, find_item, item_bytes, valid_item,
  descriptors_match, max_queue_bytes,
}
use agent_whiteboard.Broker.Queue.Invariant.{Inv}
use agent_whiteboard.Broker.Queue.Edit.{
  reorder_edited_images, replace_item, edit_request, edit_item, edit,
}
use agent_whiteboard.Broker.Queue.Edit.References.{reorder_edited_images_lem}

pub find_item_message :
    (id : Str) (is : List QueueItem) (i : QueueItem) → find_item id is ≡ some i → i.message_id ≡ id
unfolding find_item
find_item_message id [] i h = cc
find_item_message id (x ∷ is) i h =
    ground (arith, find_item_message id is i, str_eq_iff x.message_id id)

pub find_item-All :
    (P : QueueItem → Type 0) (id : Str) (is : List QueueItem) (i : QueueItem)
    → find_item id is ≡ some i
    → All P is
    → P i
unfolding find_item
find_item-All P id [] i h a = cc
find_item-All P id (x ∷ is) i h a = elim (Bool-cases (str_eq x.message_id id)) [
  | inl e ↦ subst P {x = x} (ground arith) a.0
  | inr e ↦ find_item-All P id is i (ground arith) a.1
]

module _ (os : Platform) where
  -- What an edit changes of an item, and that the item stays valid.
  pub record Edited (content : MessageContent) (i i' : QueueItem) : Type 0 where
    pub turn : i'.turn_id ≡ i.turn_id
    pub message : i'.message_id ≡ i.message_id
    pub context : i'.context ≡ i.context
    pub new_content : i'.content ≡ content
    pub size : item_bytes i' + semantic_bytes i.content ≡ item_bytes i + semantic_bytes content
    pub still_valid : valid_item os i' ≡ true

  edited :
      (id : Str) (content : MessageContent) (i : QueueItem) (is : List ImageInput)
      (ds : List ImageDescriptor)
      → valid_item os i ≡ true
      → descriptors_match is ds ≡ true
      → valid_turn os (edit_request os id content is i) ≡ true
      → Edited content i (record i { content = content; images = is; descriptors = ds })
  unfolding item_bytes valid_item valid_turn edit_request
  edited id content i is ds v d t = record {
    turn = refl;
    message = refl;
    context = refl;
    new_content = refl;
    size = omega arith;
    still_valid = ground arith;
  }

  pub edit_item-Edited :
      (id : Str) (content : MessageContent) (i i' : QueueItem)
      → valid_item os i ≡ true
      → edit_item os id content i ≡ ok i'
      → Edited content i i'
  unfolding edit_item
  edit_item-Edited id content i i' v h = elim (Option-cases (reorder_edited_images i content)) [
    | inl e ↦ ground (arith, e)
    | inr ((is, ds), e) ↦
        subst (Edited content i) {x = record i { content = content; images = is; descriptors = ds }}
          (ground (arith, e))
          (edited id content i is ds v
            (reorder_edited_images_lem i content is ds (unfold valid_item in ground (arith, v)) e).1
            (ground (arith, e)))
  ]

sum_of-replace_item :
    (f : QueueItem → ℕ) (id : Str) (i i' : QueueItem) (is : List QueueItem)
    → find_item id is ≡ some i
    → sum_of f (replace_item id i' is) + f i ≡ sum_of f is + f i'
unfolding find_item replace_item
sum_of-replace_item f id i i' [] h = cc
sum_of-replace_item f id i i' (x ∷ is) h = ground (arith, sum_of-replace_item f id i i' is)

-- An item of the queue is counted in its total.
le_sum_of :
    (f : QueueItem → ℕ) (id : Str) (i : QueueItem) (is : List QueueItem)
    → find_item id is ≡ some i
    → f i ≤ sum_of f is
unfolding find_item
le_sum_of f id i [] h = cc
le_sum_of f id i (x ∷ is) h = ground (arith, le_sum_of f id i is)

length-replace_item :
    (id : Str) (i' : QueueItem) (is : List QueueItem) → length (replace_item id i' is) ≡ length is
unfolding replace_item
length-replace_item id i' [] = refl
length-replace_item id i' (x ∷ is) = ground (arith, length-replace_item id i' is)

pub map-replace_item :
    (g : QueueItem → Str) (id : Str) (i i' : QueueItem) (is : List QueueItem)
    → find_item id is ≡ some i
    → g i' ≡ g i
    → map g (replace_item id i' is) ≡ map g is
unfolding find_item replace_item
map-replace_item g id i i' [] h e = refl
map-replace_item g id i i' (x ∷ is) h e = elim (Bool-cases (str_eq x.message_id id)) [
  | inl c ↦ let same : i ≡ x = ground arith in rw c (ap (λ t. t ∷ map g is) (e ∙ ap g same))
  | inr c ↦ rw c (ap (◌∷◌ (g x)) (map-replace_item g id i i' is (ground arith) e))
]

All-replace_item :
    (P : QueueItem → Type 0) (id : Str) (i' : QueueItem) (is : List QueueItem)
    → P i'
    → All P is
    → All P (replace_item id i' is)
unfolding replace_item
All-replace_item P id i' [] p a = tt
All-replace_item P id i' (x ∷ is) p a = elim (Bool-cases (str_eq x.message_id id)) [
  | inl c ↦ rw c (p, a.1)
  | inr c ↦ rw c (a.0, All-replace_item P id i' is p a.1)
]

abbrev context_weight : QueueItem → ℕ
context_weight i = if is_some i.context then 1 else 0

module _ (os : Platform) where
  replaced-Inv :
      (id : Str) (content : MessageContent) (i i' : QueueItem) (q : Queue)
      → Inv os q
      → find_item id q.items ≡ some i
      → Edited os content i i'
      → q.total - semantic_bytes i.content + semantic_bytes content ≤ max_queue_bytes
      → Inv os (record q {
        items = replace_item id i' q.items;
        total = q.total - semantic_bytes i.content + semantic_bytes content;
      })
  unfolding item_bytes
  replaced-Inv id content i i' q v e d b = record {
    counted = omega (
      arith,
      v.counted,
      d.size,
      sum_of-replace_item item_bytes id i i' q.items e,
      le_sum_of item_bytes id i q.items e,
    );
    bytes_bound = b;
    items_bound = omega (arith, v.items_bound, length-replace_item id i' q.items);
    one_context =
        ground
          (arith, v.one_context, d.context, sum_of-replace_item context_weight id i i' q.items e);
    turns_distinct =
        rw (map-replace_item (λ i. i.turn_id) id i i' q.items e d.turn) v.turns_distinct;
    messages_distinct =
        rw (map-replace_item (λ i. i.message_id) id i i' q.items e d.message) v.messages_distinct;
    each = All-replace_item _ id i' q.items d.still_valid v.each;
  }

  -- So does an edit.
  pub edit-Inv :
      (id : Str) (content : MessageContent) (q q' : Queue) {removed : List Str}
      → Inv os q
      → edit os id content q ≡ ok (q', removed)
      → Inv os q'
  unfolding edit
  edit-Inv id content q q' v h = elim (Option-cases (find_item id q.items)) [
    | inl e ↦ ground (arith, e)
    | inr (i, e) ↦ edited_result i e (edit_item os id content i) refl
  ]
    where
      edited_result :
          (i : QueueItem)
          → find_item id q.items ≡ some i
          → (r : Result QueueItem) → edit_item os id content i ≡ r
          → Inv os q'
      edited_result i e (err x) e' = ground (arith, e, e')
      edited_result i e (ok i') e' =
          let d = edit_item-Edited os id content i i' (find_item-All _ id q.items i e v.each) e' in
          subst (Inv os)
            {x = record q {
              items = replace_item id i' q.items;
              total = q.total - semantic_bytes i.content + semantic_bytes content;
            }}
            (ground (arith, e, e')) (replaced-Inv id content i i' q v e d (ground (arith, e, e')))
