-- ===== src/Broker/Queue/Erasure.antt =====
-- What becomes of a removed message, and of the page bytes that the queue owned.
use agent_whiteboard.Base.{
  ◌+◌, if◌then◌else◌, ℕ, suc, ◌≡◌, refl, sym, false, List, [], ◌∷◌, Option, none, some, Str, str_eq,
  str_eq_iff, str_eq_refl, str_eq_symm, length, length-append, contains, All, All-append, map,
  arith, Bool-cases, Option-cases, inl, inr, Distinct,
}
use agent_whiteboard.Agent.{Platform}
use agent_whiteboard.Provider.Turn.{PageContext}
use agent_whiteboard.Broker.Queue.{
  Queue, QueueItem, ok, err, not_found, Erased, drop_contexts, new, remove, clear, discard_context,
  erase, erase_all, zero_context, find_item, remove_item,
}
use agent_whiteboard.Broker.Queue.Invariant.{message_ids, context_count, Inv}
use agent_whiteboard.Broker.Queue.Removal.{drop_contexts_keeps, length-remove_item}

-- Nothing of the page is left, in the record or in the buffers.
pub record IsErased (e : Erased) : Type 0 where
  pub source : e.context.source ≡ []
  pub creator_context : e.context.creator_context ≡ []
  pub title : e.context.title ≡ []
  pub url : e.context.url ≡ []
  pub digest : e.context.digest ≡ []
  pub source_bytes : All (λ (b : ℕ). b ≡ 0) e.source_buffer
  pub creator_bytes : All (λ (b : ℕ). b ≡ 0) e.creator_buffer

All-zeros : (bs : List ℕ) → All (λ (b : ℕ). b ≡ 0) (map (λ _. 0) bs)
All-zeros [] = tt
All-zeros (b ∷ bs) = (refl, All-zeros bs)

erase-IsErased : (c : Option PageContext) → All IsErased (erase c)
unfolding erase zero_context
erase-IsErased none = tt
erase-IsErased (some c) = (
  record {
    source = refl;
    creator_context = refl;
    title = refl;
    url = refl;
    digest = refl;
    source_bytes = All-zeros c.source;
    creator_bytes = All-zeros c.creator_context;
  },
  tt,
)

erase_all-IsErased : (is : List QueueItem) → All IsErased (erase_all is)
unfolding erase_all
erase_all-IsErased [] = tt
erase_all-IsErased (i ∷ is) =
    All-append IsErased (erase i.context) (erase_all is) (erase-IsErased i.context)
      (erase_all-IsErased is)

length-erase_all : (is : List QueueItem) → length (erase_all is) ≡ context_count is
unfolding erase_all erase
length-erase_all [] = refl
length-erase_all (i ∷ is) =
    ground (arith, length-append (erase i.context) (erase_all is), length-erase_all is)

-- Clearing the queue erases every context that it owned and leaves a new queue.
pub clear_erases :
    (q : Queue)
    → ((clear q).0 ≡ new) × (length (clear q).1 ≡ context_count q.items) × All IsErased (clear q).1
unfolding clear
clear_erases q = (refl, length-erase_all q.items, erase_all-IsErased q.items)

-- A message whose context has been taken from it.
abbrev pub without_context : QueueItem → QueueItem
without_context i = record i { context = none }

no_contexts : (is : List QueueItem) → context_count is ≡ 0 → map without_context is ≡ is
no_contexts [] h = refl
no_contexts (i ∷ is) h = ground (arith, h, no_contexts is)

-- Discarding the context of a well-formed queue erases the one context that it owned, if any, leaves
-- none, and changes nothing else of the messages, and not the byte count.
pub discard_context_erases :
    (os : Platform) (q : Queue)
    → Inv os q
    → let (q', erased) = discard_context q in
      (context_count q'.items ≡ 0)
      × (q'.has_context ≡ false)
      × (length erased ≡ context_count q.items)
      × All IsErased erased
      × (q'.items ≡ map without_context q.items)
      × (q'.total ≡ q.total)
unfolding discard_context drop_contexts
discard_context_erases os q v = elim (Bool-cases q.has_context) [
  | inl e ↦
      let kept = drop_contexts_keeps q.items in
      rw e (kept.3, refl, length-erase_all q.items, erase_all-IsErased q.items, refl, refl)
  | inr e ↦
      let none_there : context_count q.items ≡ 0 = ground (arith, v.one_context, e) in
      rw e (none_there, refl, sym none_there, tt, sym (no_contexts q.items none_there), refl)
]

absent :
    (id : Str) (is : List QueueItem) → contains id (message_ids is) ≡ false → find_item id is ≡ none
unfolding find_item
absent id [] h = refl
absent id (i ∷ is) h = ground (arith, str_eq_symm i.message_id id, absent id is)

find_item-remove_item :
    (id other : Str) (is : List QueueItem)
    → Distinct (message_ids is)
    → find_item other (remove_item id is) ≡ (if str_eq id other then none else find_item other is)
unfolding find_item remove_item
find_item-remove_item id other [] d = ground arith
find_item-remove_item id other (i ∷ is) d = ground (
  arith,
  d.0,
  absent i.message_id is,
  find_item-remove_item id other is d.1,
  str_eq_iff i.message_id id,
  str_eq_iff i.message_id other,
  str_eq_iff id other,
)

count-remove_item :
    (id : Str) (i : QueueItem) (is : List QueueItem)
    → find_item id is ≡ some i
    → length (erase i.context) + context_count (remove_item id is) ≡ context_count is
unfolding find_item remove_item erase
count-remove_item id i [] h = cc
count-remove_item id i (x ∷ is) h = ground (arith, h, count-remove_item id i is)

missing : (id : Str) (q : Queue) → find_item id q.items ≡ none → remove id q ≡ err not_found
unfolding remove
missing id q e = rw (e, remove)

-- Removing a message of a well-formed queue takes that message and no other: no message has its
-- identifier any more, so that it cannot be removed again, every other one is found as before, and there
-- is one less. The contexts that the queue owned are those that it still owns and those that were erased.
pub remove_lem :
    (os : Platform) (id other : Str) (q q' : Queue) (erased : List Erased)
    → Inv os q
    → remove id q ≡ ok (q', erased)
    → (find_item other q'.items ≡ (if str_eq id other then none else find_item other q.items))
      × (remove id q' ≡ err not_found)
      × (suc (length q'.items) ≡ length q.items)
      × (length erased + context_count q'.items ≡ context_count q.items)
      × All IsErased erased
unfolding remove
remove_lem os id other q q' erased v h = elim (Option-cases (find_item id q.items)) [
  | inl e ↦ absurd (ground (arith, h, e))
  | inr (i, e) ↦
      let items : q'.items ≡ remove_item id q.items = ground (arith, h, e) in
      let out : erased ≡ erase i.context = ground (arith, h, e) in
      (
        rw items (find_item-remove_item id other q.items v.messages_distinct),
        missing id q' (
            rw (items, find_item-remove_item id id q.items v.messages_distinct, str_eq_refl id)
              refl),
        rw items (sym (length-remove_item id q.items i e)),
        rw (items, out) (count-remove_item id i q.items e),
        rw out (erase-IsErased i.context),
      )
]
