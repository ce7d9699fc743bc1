-- ===== src/Broker/Queue/Invariant.antt =====
-- What holds of a queue between two calls, and that every call keeps it.
use agent_whiteboard.Base.{
  ℕ, suc, ◌+◌, ◌-◌, ◌≤◌, ◌≡◌, refl, Bool, true, false, ◌&&◌, ◌||◌, List, [], ◌∷◌, some, Str,
  str_eq_symm, length, is_some, contains, any, sum_of, All, map, push_back, if◌then◌else◌, arith,
  Distinct, Distinct-push_back, length-append, sum_of-append, map-append, All-append, subst,
}
use agent_whiteboard.Agent.{Platform}
use agent_whiteboard.Provider.Turn.{TurnRequest}
use agent_whiteboard.Broker.Queue.{
  Queue, QueueItem, ok, new, enqueue, dequeue, same_id, item_bytes, valid_item, max_queue_items,
  max_queue_bytes,
}

abbrev pub turn_ids : List QueueItem → List Str
turn_ids = map λ i. i.turn_id

abbrev pub message_ids : List QueueItem → List Str
message_ids = map λ i. i.message_id

abbrev pub context_count : List QueueItem → ℕ
context_count = sum_of λ i. if is_some i.context then 1 else 0

module _ (os : Platform) where
  pub record Inv (q : Queue) : Type 0 where
    pub counted : q.total ≡ sum_of item_bytes q.items
    pub bytes_bound : q.total ≤ max_queue_bytes
    pub items_bound : length q.items ≤ max_queue_items
    pub one_context : context_count q.items ≡ (if q.has_context then 1 else 0)
    pub turns_distinct : Distinct (turn_ids q.items)
    pub messages_distinct : Distinct (message_ids q.items)
    pub each : All (λ i. valid_item os i ≡ true) q.items

  pub new-Inv : Inv new
  unfolding new
  new-Inv = record {
    counted = refl;
    bytes_bound = omega arith;
    items_bound = omega arith;
    one_context = refl;
    turns_distinct = tt;
    messages_distinct = tt;
    each = tt;
  }

-- A turn that repeats no identifier of the queue.
fresh_turn :
    (turn : QueueItem) (is : List QueueItem)
    → any (same_id turn) is ≡ false
    → (contains turn.turn_id (turn_ids is) ≡ false)
      × (contains turn.message_id (message_ids is) ≡ false)
unfolding same_id
fresh_turn turn [] h = (refl, refl)
fresh_turn turn (i ∷ is) h =
    let rest = fresh_turn turn is (ground arith) in
    (
      ground (arith, str_eq_symm i.turn_id turn.turn_id),
      ground (arith, str_eq_symm i.message_id turn.message_id),
    )

module _ (os : Platform) where
  push_back-Inv :
      (turn : QueueItem) (q : Queue)
      → Inv os q
      → valid_item os turn ≡ true
      → any (same_id turn) q.items ≡ false
      → (is_some turn.context && q.has_context) ≡ false
      → suc (length q.items) ≤ max_queue_items
      → q.total + item_bytes turn ≤ max_queue_bytes
      → Inv os (record {
        items = push_back q.items turn;
        total = q.total + item_bytes turn;
        has_context = q.has_context || is_some turn.context;
      })
  push_back-Inv turn q v ok_turn fresh one room bytes =
      let new_ids = fresh_turn turn q.items fresh in
      record {
        counted = omega (arith, v.counted, sum_of-append item_bytes q.items (turn ∷ []));
        bytes_bound = bytes;
        items_bound = omega (arith, length-append q.items (turn ∷ []));
        one_context = ground (
          arith,
          v.one_context,
          sum_of-append (λ (i : QueueItem). if is_some i.context then 1 else 0) q.items (turn ∷ []),
        );
        turns_distinct =
            rw map-append
              (Distinct-push_back (turn_ids q.items) turn.turn_id new_ids.0 v.turns_distinct);
        messages_distinct = rw map-append (
            Distinct-push_back (message_ids q.items) turn.message_id new_ids.1 v.messages_distinct);
        each = All-append _ q.items (turn ∷ []) v.each (ok_turn, tt);
      }

  -- A message that is admitted keeps the invariant.
  pub enqueue-Inv :
      (turn : QueueItem) (q q' : Queue) → Inv os q → enqueue os turn q ≡ ok q' → Inv os q'
  unfolding enqueue
  enqueue-Inv turn q q' v h =
      subst (Inv os)
        {x = record {
          items = push_back q.items turn;
          total = q.total + item_bytes turn;
          has_context = q.has_context || is_some turn.context;
        }}
        (ground arith)
        (push_back-Inv turn q v (ground arith) (ground arith) (ground arith) (ground arith)
          (ground arith))

  tail-Inv :
      (i : QueueItem) (is : List QueueItem) (total : ℕ) (has : Bool)
      → Inv os (record { items = i ∷ is; total = total; has_context = has })
      → Inv os (record {
        items = is;
        total = total - item_bytes i;
        has_context = if is_some i.context then false else has;
      })
  tail-Inv i is total has v = record {
    counted = omega (arith, v.counted);
    bytes_bound = omega (arith, v.bytes_bound);
    items_bound = omega (arith, v.items_bound);
    one_context = ground (arith, v.one_context);
    turns_distinct = v.turns_distinct.1;
    messages_distinct = v.messages_distinct.1;
    each = v.each.1;
  }

  dequeue_items :
      (items : List QueueItem) (total : ℕ) (has : Bool) (r : TurnRequest) (q' : Queue)
      → Inv os (record { items = items; total = total; has_context = has })
      → dequeue (record { items = items; total = total; has_context = has }) ≡ some (r, q')
      → Inv os q'
  unfolding dequeue
  dequeue_items [] total has r q' v h = cc
  dequeue_items (i ∷ is) total has r q' v h =
      subst (Inv os) (ground arith) (tail-Inv i is total has v)

  -- So does taking the head.
  pub dequeue-Inv :
      (q q' : Queue) (r : TurnRequest) → Inv os q → dequeue q ≡ some (r, q') → Inv os q'
  dequeue-Inv q q' r v h = dequeue_items q.items q.total q.has_context r q' v h
