-- ===== src/Broker/Queue/Edit/Outcome.antt =====
-- internal/agent/broker/queue.go: what an edit that is accepted makes of the message, its
-- references and its images.
use mathlib.Core.List.{Mem}
use agent_whiteboard.Base.{
  ◌⊎◌, ◌≡◌, refl, ◌∙◌, ap, true, not, List, [], ◌∷◌, ◌++◌, some, Str, str_eq_iff, contains, keep,
  map, arith, Option-cases, inl, inr, All,
}
use agent_whiteboard.Agent.{Platform}
use agent_whiteboard.Provider.Message.{MessageContent, ContextReference, inline_image_ids}
use agent_whiteboard.Provider.Turn.{ImageInput}
use agent_whiteboard.Broker.Queue.{
  Queue, QueueItem, QueueError, Result, ok, err, find_item, descriptors_match, valid_item,
}
use agent_whiteboard.Broker.Queue.Invariant.{Inv}
use agent_whiteboard.Broker.Queue.Edit.{
  reorder_edited_images, ordered_ids, references_are_immutable, replace_item, edit_item, edit,
}
use agent_whiteboard.Broker.Queue.Edit.References.{
  reorder_edited_images-Mem, Holds, references_are_immutable_lem, reorder_edited_images_lem,
}
use agent_whiteboard.Broker.Queue.Edit.Invariant.{find_item_message, find_item-All}

find_item-replace_item :
    (id : Str) (new old : QueueItem) (is : List QueueItem)
    → find_item id is ≡ some old
    → new.message_id ≡ id
    → find_item id (replace_item id new is) ≡ some new
unfolding find_item replace_item
find_item-replace_item id new old [] h e = cc
find_item-replace_item id new old (x ∷ is) h e =
    ground (arith, h, e, str_eq_iff new.message_id id, find_item-replace_item id new old is)

Result-cases :
    {A : Type 0} (r : Result A) → ((e : QueueError) × (r ≡ err e)) ⊎ ((a : A) × (r ≡ ok a))
Result-cases (ok a) = inr (a, refl)
Result-cases (err e) = inl (e, refl)

abbrev pub image_ids : QueueItem → List Str
image_ids item = map (λ (i : ImageInput). i.id) item.images

-- The images of a message that its content does not show.
abbrev pub attachment_ids : QueueItem → List Str
attachment_ids item =
    keep (λ id. not (contains id (inline_image_ids item.content))) (image_ids item)

module _ (os : Platform) where
  edit_item-message :
      (id : Str) (content : MessageContent) (old new : QueueItem)
      → edit_item os id content old ≡ ok new
      → (new.message_id ≡ old.message_id)
        × (new.content ≡ content)
        × (references_are_immutable old.content content ≡ true)
        × (reorder_edited_images old content ≡ some (new.images, new.descriptors))
  unfolding edit_item
  edit_item-message id content old new h = ground (arith, h)

  -- An accepted edit replaces the message that has the identifier.
  edit-replaces :
      (id : Str) (content : MessageContent) (q q' : Queue) (removed : List Str)
      → edit os id content q ≡ ok (q', removed)
      → (old new : QueueItem) × (find_item id q.items ≡ some old)
        × (find_item id q'.items ≡ some new)
        × (edit_item os id content old ≡ ok new)
  unfolding edit
  edit-replaces id content q q' removed h = elim (Option-cases (find_item id q.items)) [
    | inl e ↦ absurd (ground (arith, h, e))
    | inr (old, e) ↦ elim (Result-cases (edit_item os id content old)) [
      | inl (x, f) ↦ absurd (ground (arith, h, e, f))
      | inr (new, f) ↦
          let items : q'.items ≡ replace_item id new q.items = ground (arith, h, e, f) in
          let named : new.message_id ≡ id =
            (edit_item-message id content old new f).0 ∙ find_item_message id q.items old e in
          (
            old,
            new,
            e,
            ap (find_item id) items ∙ find_item-replace_item id new old q.items e named,
            f,
          )
    ]
  ]

  -- An accepted edit adds no reference to the message that it changes and alters none: the message is
  -- there with the new content, and every reference of that stood in the old content, the same but for
  -- the place of its picture among the images.
  pub edit_keeps_references :
      (id : Str) (content : MessageContent) (q q' : Queue) (removed : List Str)
      (r : ContextReference)
      → edit os id content q ≡ ok (q', removed)
      → Holds r content.parts
      → (old new : QueueItem) × (find_item id q.items ≡ some old)
        × (find_item id q'.items ≡ some new)
        × (new.content ≡ content)
        × Holds r old.content.parts
  edit_keeps_references id content q q' removed r h held =
      let (old, new, found, replaced, made) = edit-replaces id content q q' removed h in
      let (named, same, kept, images) = edit_item-message id content old new made in
      (
        old,
        new,
        found,
        replaced,
        same,
        references_are_immutable_lem old.content content r kept held,
      )

  -- An accepted edit of a message of a well-formed queue leaves it with the pictures that its new content
  -- shows, in that order, and after them the images that its old content did not show, in their order.
  -- Each is an image that the message had, and has a descriptor that describes it.
  pub edit_orders_images :
      (id : Str) (content : MessageContent) (q q' : Queue) (removed : List Str)
      → Inv os q
      → edit os id content q ≡ ok (q', removed)
      → (old new : QueueItem) × (find_item id q.items ≡ some old)
        × (find_item id q'.items ≡ some new)
        × (image_ids new ≡ inline_image_ids content ++ attachment_ids old)
        × All (λ i. Mem i old.images) new.images
        × (descriptors_match new.images new.descriptors ≡ true)
  edit_orders_images id content q q' removed v h =
      let (old, new, found, replaced, made) = edit-replaces id content q q' removed h in
      let (named, same, kept, images) = edit_item-message id content old new made in
      let valid = find_item-All (λ i. valid_item os i ≡ true) id q.items old found v.each in
      let ordered =
        reorder_edited_images_lem old content new.images new.descriptors
          (unfold valid_item in ground (arith, valid)) images in
      (
        old,
        new,
        found,
        replaced,
        ordered.0 ∙ unfold ordered_ids in refl,
        reorder_edited_images-Mem old content new.images new.descriptors images,
        ordered.1,
      )
