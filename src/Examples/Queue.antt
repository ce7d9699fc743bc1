-- ===== src/Examples/Queue.antt =====
-- The queue of internal/agent/broker/queue.go on concrete messages.
use agent_whiteboard.Base.{
  ◌+◌, true, none, some, Str, map, lookup, insert, if◌then◌else◌, str_eq, bytes, ℕ_discrete, ◌∷◌,
  ◌++◌, ◌≡◌, refl, false, [], All, length,
}
use mathlib.Core.List.{Mem}
use agent_whiteboard.Broker.Queue.{
  Queue, QueueItem, descriptors_match, ok, err, duplicate_id, not_found, new, enqueue, remove,
  clear, discard_context, find_item, remove_item, erase,
}
use agent_whiteboard.Broker.Queue.Invariant.{Inv, message_ids, context_count, new-Inv, enqueue-Inv}
use agent_whiteboard.Broker.Queue.History.{enqueues, removes, dequeues, run, run-Inv}
use agent_whiteboard.Broker.Queue.Order
use agent_whiteboard.Broker.Queue.Erasure.{
  IsErased, without_context, clear_erases, discard_context_erases, remove_lem,
}
use agent_whiteboard.Provider.Message.{inline_image_ids}
use agent_whiteboard.Provider.Text.{valid_context_digest}
use agent_whiteboard.Broker.Queue.Edit.{
  ContextReference-discrete, references_are_immutable, remember_references, without_ordinal,
  reorder_edited_images, edit,
}
use agent_whiteboard.Broker.Queue.Edit.References.{Holds, here, there}
use agent_whiteboard.Broker.Queue.Edit.Outcome.{
  image_ids, attachment_ids, edit_keeps_references, edit_orders_images,
}
use agent_whiteboard.Examples.Data.{
  text_content, quotation, quoting, platform, queue_runs, item_a, item_b, one_item, two_items,
  message_a, message_b,
}

enqueue_first : enqueue platform item_a new ≡ ok one_item
unfolding queue_runs
enqueue_first = refl

enqueue_second : enqueue platform item_b one_item ≡ ok two_items
unfolding queue_runs
enqueue_second = refl

enqueue_again : enqueue platform item_b two_items ≡ err duplicate_id
unfolding queue_runs
enqueue_again = refl

two_items-Inv : Inv platform two_items
two_items-Inv =
    enqueue-Inv platform item_b one_item two_items
      (enqueue-Inv platform item_a new one_item (new-Inv platform) enqueue_first) enqueue_second

run-Inv_example :
    Inv platform (run platform new (enqueues item_a ∷ removes message_b ∷ dequeues ∷ []))
run-Inv_example = run-Inv platform (enqueues item_a ∷ removes message_b ∷ dequeues ∷ [])

fifo_example :
    let t =
      Order.run platform
        (record { queue = two_items; entered = []; left = [] })
        (Order.dequeues ∷ Order.discards ∷ Order.enqueues item_a ∷ []) in
    (message_a ∷ message_b ∷ []) ++ t.entered ≡ t.left ++ message_ids t.queue.items
fifo_example =
    Order.fifo platform two_items (Order.dequeues ∷ Order.discards ∷ Order.enqueues item_a ∷ [])
      two_items-Inv

clear_erases_example :
    ((clear two_items).0 ≡ new)
    × (length (clear two_items).1 ≡ 1)
    × All IsErased (clear two_items).1
clear_erases_example = clear_erases two_items

discard_context_erases_example :
    let (q', erased) = discard_context two_items in
    (context_count q'.items ≡ 0)
    × (q'.has_context ≡ false)
    × (length erased ≡ 1)
    × All IsErased erased
    × (q'.items ≡ map without_context two_items.items)
    × (q'.total ≡ 19)
discard_context_erases_example = discard_context_erases platform two_items two_items-Inv

abbrev only_b : Queue
only_b = record { items = item_b ∷ []; total = 5; has_context = false }

remove_lem_example :
    (find_item message_b only_b.items
      ≡ (if str_eq message_a message_b then none else find_item message_b two_items.items))
    × (remove message_a only_b ≡ err not_found)
    × (2 ≡ length two_items.items)
    × (length (erase item_a.context) + context_count only_b.items ≡ context_count two_items.items)
    × All IsErased (erase item_a.context)
remove_lem_example =
    remove_lem platform message_a message_b two_items only_b (erase item_a.context) two_items-Inv
      (unfold queue_runs remove find_item remove_item in refl)

abbrev edited_a : QueueItem
edited_a = record item_a { content = text_content (bytes "x") }

abbrev edited_items : Queue
edited_items = record { items = edited_a ∷ item_b ∷ []; total = 15; has_context = true }

edit_orders_images_example :
    (old new : QueueItem) × (find_item message_a two_items.items ≡ some old)
    × (find_item message_a edited_items.items ≡ some new)
    × (image_ids new ≡ inline_image_ids (text_content (bytes "x")) ++ attachment_ids old)
    × All (λ i. Mem i old.images) new.images
    × (descriptors_match new.images new.descriptors ≡ true)
edit_orders_images_example =
    edit_orders_images platform message_a (text_content (bytes "x")) two_items edited_items []
      two_items-Inv
      (unfold queue_runs edit lookup insert find_item references_are_immutable remember_references
          reorder_edited_images in
        refl)

-- A message with a quotation, before and after its text is edited.
abbrev quoting_items : Str → Queue
quoting_items text = record {
  items = record item_b { content = quoting text } ∷ [];
  total = 138;
  has_context = false;
}

edit_keeps_references_example :
    (old new : QueueItem) × (find_item message_b (quoting_items (bytes "old")).items ≡ some old)
    × (find_item message_b (quoting_items (bytes "new")).items ≡ some new)
    × (new.content ≡ quoting (bytes "new"))
    × Holds quotation old.content.parts
edit_keeps_references_example =
    edit_keeps_references platform message_b (quoting (bytes "new")) (quoting_items (bytes "old"))
      (quoting_items (bytes "new")) [] quotation
      (unfold queue_runs edit lookup insert ContextReference-discrete ℕ_discrete without_ordinal
          find_item references_are_immutable remember_references reorder_edited_images
          valid_context_digest agent_whiteboard.Provider.Message.reference_semantic_bytes in
        refl)
      (there (here quotation refl (unfold without_ordinal in refl)))
