-- ===== src/Broker/Queue/Order.antt =====
-- The order of the messages, seen as the list of their identifiers.
use agent_whiteboard.Base.{
  ℕ, ◌≡◌, refl, sym, Bool, List, [], ◌∷◌, ◌++◌, Option, none, some, Str, map-append, append_assoc,
  append-nil, arith, Bool-cases, Option-cases, inl, inr, push_back, ap, ◌∙◌,
}
use agent_whiteboard.Agent.{Platform}
use agent_whiteboard.Provider.Message.{MessageContent}
use agent_whiteboard.Provider.Turn.{PageContext, TurnRequest}
use agent_whiteboard.Broker.Queue.{
  Queue, QueueItem, Result, ok, err, enqueue, dequeue, discard_context, attach_context_to_head,
  set_head_context, find_item,
}
use agent_whiteboard.Broker.Queue.Invariant.{message_ids, Inv, enqueue-Inv, dequeue-Inv}
use agent_whiteboard.Broker.Queue.Removal.{
  drop_contexts_keeps, discard_context-Inv, attach_context_to_head-Inv,
}
use agent_whiteboard.Broker.Queue.Edit.{edit, edit_item, replace_item}
use agent_whiteboard.Broker.Queue.Edit.Invariant.{
  edit-Inv, edit_item-Edited, map-replace_item, find_item-All,
}

-- The calls that take no message out of its turn.
pub data FifoCall : Type 0 where
  enqueues : QueueItem → FifoCall
  edits : Str → MessageContent → FifoCall
  attaches : PageContext → FifoCall
  dequeues discards : FifoCall

-- The messages that were accepted and those that were handed out so far, oldest first.
pub record Traffic : Type 0 where
  pub queue : Queue
  pub entered : List Str
  pub left : List Str

accepted : Traffic → Str → Result Queue → Traffic
accepted t id (ok q) = record t { queue = q; entered = push_back t.entered id }
accepted t id (err e) = t

updated : Traffic → Result Queue → Traffic
updated t (ok q) = record t { queue = q }
updated t (err e) = t

updated_first : Traffic → Result (Queue × List Str) → Traffic
updated_first t (ok (q, removed)) = record t { queue = q }
updated_first t (err e) = t

handed_out : Traffic → Option (TurnRequest × Queue) → Traffic
handed_out t none = t
handed_out t (some (r, q)) = record t { queue = q; left = push_back t.left r.message_id }

module _ (os : Platform) where
  unfoldable pub step : Traffic → FifoCall → Traffic
  unfolding accepted updated updated_first handed_out
  step t (enqueues turn) = accepted t turn.message_id (enqueue os turn t.queue)
  step t (edits id content) = updated_first t (edit os id content t.queue)
  step t (attaches page) = updated t (attach_context_to_head os (some page) t.queue)
  step t dequeues = handed_out t (dequeue t.queue)
  step t discards = record t { queue = (discard_context t.queue).0 }

  unfoldable pub run : Traffic → List FifoCall → Traffic
  run t [] = t
  run t (c ∷ cs) = run (step t c) cs

-- Each call, on the identifiers.
pub enqueue-message_ids :
    (os : Platform) (turn : QueueItem) (q q' : Queue)
    → enqueue os turn q ≡ ok q'
    → message_ids q'.items ≡ message_ids q.items ++ turn.message_id ∷ []
unfolding enqueue
enqueue-message_ids os turn q q' h =
    ap message_ids {x = q'.items} {y = push_back q.items turn} (ground arith)
    ∙ map-append _ q.items (turn ∷ [])

dequeue_items :
    (items : List QueueItem) (total : ℕ) (has : Bool) (q' : Queue) (r : TurnRequest)
    → dequeue (record { items = items; total = total; has_context = has }) ≡ some (r, q')
    → message_ids items ≡ r.message_id ∷ message_ids q'.items
unfolding dequeue
dequeue_items [] total has q' r h = cc
dequeue_items (i ∷ is) total has q' r h = ground arith

pub dequeue-message_ids :
    (q q' : Queue) (r : TurnRequest)
    → dequeue q ≡ some (r, q')
    → message_ids q.items ≡ r.message_id ∷ message_ids q'.items
dequeue-message_ids q q' r h = dequeue_items q.items q.total q.has_context q' r h

edit-message_ids :
    (os : Platform) (id : Str) (content : MessageContent) (q q' : Queue) (removed : List Str)
    → Inv os q
    → edit os id content q ≡ ok (q', removed)
    → message_ids q'.items ≡ message_ids q.items
unfolding edit
edit-message_ids os id content q q' removed v h = elim (Option-cases (find_item id q.items)) [
  | inl e ↦ ground (arith, e)
  | inr (i, e) ↦ by_result i e (edit_item os id content i) refl
]
  where
    by_result :
        (i : QueueItem)
        → find_item id q.items ≡ some i
        → (r : Result QueueItem) → edit_item os id content i ≡ r
        → message_ids q'.items ≡ message_ids q.items
    by_result i e (err x) e' = ground (arith, e, e')
    by_result i e (ok i') e' =
        let d = edit_item-Edited os id content i i' (find_item-All _ id q.items i e v.each) e' in
        ap message_ids {x = q'.items} {y = replace_item id i' q.items} (ground (arith, e, e'))
        ∙ map-replace_item (λ i. i.message_id) id i i' q.items e d.message

attach-message_ids :
    (os : Platform) (page : PageContext) (items : List QueueItem) (total : ℕ) (has : Bool)
    (q' : Queue)
    → attach_context_to_head os
        (some page)
        (record { items = items; total = total; has_context = has })
      ≡ ok q'
    → message_ids q'.items ≡ message_ids items
unfolding attach_context_to_head set_head_context
attach-message_ids os page [] total has q' h = cc
attach-message_ids os page (i ∷ is) total has q' h = ground arith

discard-message_ids : (q : Queue) → message_ids (discard_context q).0.items ≡ message_ids q.items
unfolding discard_context
discard-message_ids q = elim (Bool-cases q.has_context) [
  | inl e ↦ rw e (drop_contexts_keeps q.items).1
  | inr e ↦ rw e refl
]

module _ (os : Platform) (waiting : List Str) where
  -- What entered, after what waited at the start, is what left and then what waits.
  record InOrder (t : Traffic) : Type 0 where
    well : Inv os t.queue
    order : waiting ++ t.entered ≡ t.left ++ message_ids t.queue.items

  accepted-InOrder :
      (t : Traffic) (turn : QueueItem) (r : Result Queue)
      → InOrder t
      → enqueue os turn t.queue ≡ r
      → InOrder (accepted t turn.message_id r)
  unfolding accepted
  accepted-InOrder t turn (err e) v h = v
  accepted-InOrder t turn (ok q) v h = record {
    well = enqueue-Inv os turn t.queue q v.well h;
    order =
        sym (append_assoc waiting t.entered (turn.message_id ∷ []))
        ∙ rw (v.order, enqueue-message_ids os turn t.queue q h)
            (append_assoc t.left (message_ids t.queue.items) (turn.message_id ∷ []));
  }

  same-InOrder :
      (t : Traffic) (q : Queue)
      → InOrder t
      → Inv os q
      → message_ids q.items ≡ message_ids t.queue.items
      → InOrder (record t { queue = q })
  same-InOrder t q v w e = record { well = w; order = rw e v.order }

  updated-InOrder :
      (t : Traffic) (page : PageContext) (r : Result Queue)
      → InOrder t
      → attach_context_to_head os (some page) t.queue ≡ r
      → InOrder (updated t r)
  unfolding updated
  updated-InOrder t page (err e) v h = v
  updated-InOrder t page (ok q) v h =
      same-InOrder t q v (attach_context_to_head-Inv os (some page) t.queue q v.well h)
        (attach-message_ids os page t.queue.items t.queue.total t.queue.has_context q h)

  updated_first-InOrder :
      (t : Traffic) (id : Str) (content : MessageContent) (r : Result (Queue × List Str))
      → InOrder t
      → edit os id content t.queue ≡ r
      → InOrder (updated_first t r)
  unfolding updated_first
  updated_first-InOrder t id content (err e) v h = v
  updated_first-InOrder t id content (ok (q, removed)) v h =
      same-InOrder t q v (edit-Inv os id content t.queue q v.well h)
        (edit-message_ids os id content t.queue q removed v.well h)

  handed_out-InOrder :
      (t : Traffic) (r : Option (TurnRequest × Queue))
      → InOrder t
      → dequeue t.queue ≡ r
      → InOrder (handed_out t r)
  unfolding handed_out
  handed_out-InOrder t none v h = v
  handed_out-InOrder t (some (r, q)) v h = record {
    well = dequeue-Inv os t.queue q r v.well h;
    order =
        v.order
        ∙ rw (dequeue-message_ids t.queue q r h)
            (sym (append_assoc t.left (r.message_id ∷ []) (message_ids q.items)));
  }

  step-InOrder : (t : Traffic) (c : FifoCall) → InOrder t → InOrder (step os t c)
  unfolding step
  step-InOrder t (enqueues turn) v = accepted-InOrder t turn _ v refl
  step-InOrder t (edits id content) v = updated_first-InOrder t id content _ v refl
  step-InOrder t (attaches page) v = updated-InOrder t page _ v refl
  step-InOrder t dequeues v = handed_out-InOrder t _ v refl
  step-InOrder t discards v =
      same-InOrder t (discard_context t.queue).0 v (discard_context-Inv os t.queue v.well)
        (discard-message_ids t.queue)

  run-InOrder : (t : Traffic) (cs : List FifoCall) → InOrder t → InOrder (run os t cs)
  unfolding run
  run-InOrder t [] v = v
  run-InOrder t (c ∷ cs) v = run-InOrder (step os t c) cs (step-InOrder t c v)

-- First in, first out. From a well-formed queue, whatever is enqueued, edited, handed out or given a
-- context, refused or not: the messages that waited at the start, followed by those that were
-- accepted, are those that were handed out followed by those that wait, in this order.
pub fifo :
    (os : Platform) (q : Queue) (cs : List FifoCall)
    → Inv os q
    → let t = run os (record { queue = q; entered = []; left = [] }) cs in
      message_ids q.items ++ t.entered ≡ t.left ++ message_ids t.queue.items
fifo os q cs v =
    (run-InOrder os (message_ids q.items) (record { queue = q; entered = []; left = [] }) cs
      (record { well = v; order = append-nil (message_ids q.items) })).order
