-- ===== src/Broker/Queue/Edit.antt =====
-- internal/agent/broker/queue.go: editing a message that is still queued.
pub mod References
pub mod Invariant
pub mod Outcome
use agent_whiteboard.Base.{
  ◌+◌, ◌-◌, Bool, true, false, not, ◌&&◌, ◌||◌, List, [], ◌∷◌, ◌++◌, Option, none, some, Str, bytes,
  str_eq, lookup, insert, contains, keep, map, ltb, pos, if◌then◌else◌, ℕ_discrete, ite,
}
use agent_whiteboard.Agent.{Platform}
use agent_whiteboard.Provider.Message.{
  ContextReference, MessagePart, MessageContent, semantic_bytes, inline_image_ids,
}
use agent_whiteboard.Provider.Turn.{ImageInput, TurnRequest, valid_turn}
use agent_whiteboard.Broker.Queue.{
  QueueItem, Queue, ImageDescriptor, Result, ok, err, invalid, full, not_found, max_queue_bytes,
  find_item,
}

-- `reflect.DeepEqual` on references, which compares values at any depth. Two times are equal if
-- they are one instant: the source reads them from JSON, in UTC.
unfoldable pub ContextReference-discrete : Discrete ContextReference
ContextReference-discrete = hlevel ℕ_discrete

-- A reference as it is compared: the place of its picture among the inputs may change.
unfoldable pub without_ordinal : ContextReference → ContextReference
without_ordinal r = record r {
  visual = elim r.visual [ none ↦ none | some v ↦ some (record v { ordinal = pos 0 }) ];
}

unfoldable pub remember_references :
    List MessagePart → List (Str × ContextReference) → List (Str × ContextReference)
remember_references [] old = old
remember_references (p ∷ ps) old =
    remember_references ps
      (elim p.reference [ none ↦ old | some r ↦ insert r.id (without_ordinal r) old ])

unchanged : Option ContextReference → ContextReference → Bool
unchanged none r = false
unchanged (some previous) r =
    ite (ContextReference-discrete previous (without_ordinal r)) true false

unfoldable pub references_known : List (Str × ContextReference) → List MessagePart → Bool
unfolding unchanged
references_known old [] = true
references_known old (p ∷ ps) =
    elim p.reference [ none ↦ true | some r ↦ unchanged (lookup r.id old) r ]
    && references_known old ps

-- `referencesAreImmutable`: an edit may drop references and adds or changes none.
unfoldable pub references_are_immutable : MessageContent → MessageContent → Bool
unfolding references_known
references_are_immutable before after =
    references_known (remember_references before.parts []) after.parts

-- The maps of `reorderEditedImages`, which have the same keys. Every input has its descriptor.
unfoldable pub image_map :
    List ImageInput
    → List ImageDescriptor
    → List (Str × (ImageInput × ImageDescriptor))
    → List (Str × (ImageInput × ImageDescriptor))
image_map [] ds m = m
image_map (i ∷ is) [] m = m
image_map (i ∷ is) (d ∷ ds) m = image_map is ds (insert i.id (i, d) m)

unfoldable pub pick :
    List (Str × (ImageInput × ImageDescriptor))
    → List Str
    → Option (List ImageInput × List ImageDescriptor)
pick m [] = some ([], [])
pick m (id ∷ ids) = elim (lookup id m) [
  | none ↦ none
  | some (i, d) ↦ elim (pick m ids) [ none ↦ none | some (is, ds) ↦ some (i ∷ is, d ∷ ds) ]
]

-- First the pictures that the new content shows, in its order, then the attachments that the old
-- content does not show.
unfoldable pub ordered_ids : QueueItem → MessageContent → List Str
ordered_ids item content =
    inline_image_ids content
    ++ keep (λ id. not (contains id (inline_image_ids item.content)))
        (map (λ (i : ImageInput). i.id) item.images)

-- `reorderEditedImages`; none is the result `false`.
unfoldable pub reorder_edited_images :
    QueueItem → MessageContent → Option (List ImageInput × List ImageDescriptor)
unfolding image_map pick ordered_ids
reorder_edited_images item content =
    pick (image_map item.images item.descriptors []) (ordered_ids item content)

-- The pictures of the old content that the new one does not show.
unfoldable pub removed_images : MessageContent → MessageContent → List Str
removed_images before after =
    keep (λ id. not (contains id (inline_image_ids after))) (inline_image_ids before)

unfoldable pub replace_item : Str → QueueItem → List QueueItem → List QueueItem
replace_item id item [] = []
replace_item id item (i ∷ is) =
    if str_eq i.message_id id then item ∷ is else i ∷ replace_item id item is

abbrev pub valid_queue_id : Str
valid_queue_id = bytes "AAAAAAAAAAAAAAAAAAAAAAAAAAAAAAAA"

module _ (os : Platform) where
  -- The request that stands for the edited message when it is validated.
  unfoldable pub edit_request : Str → MessageContent → List ImageInput → QueueItem → TurnRequest
  edit_request id content images item = record {
    turn_id = valid_queue_id;
    message_id = id;
    content = content;
    images = images;
    context = none;
    settings = item.settings;
  }

  -- The item with its new content, or the error.
  unfoldable pub edit_item : Str → MessageContent → QueueItem → Result QueueItem
  unfolding edit_request
  edit_item id content item =
      if not (references_are_immutable item.content content)
      then err invalid
      else elim (reorder_edited_images item content) [
        | none ↦ err invalid
        | some (images, descriptors) ↦
            if not (valid_turn os (edit_request id content images item))
            then err invalid
            else ok (record item { content = content; images = images; descriptors = descriptors })
      ]

  -- `EditAndRemovedImages`; `Edit` is the same without the list.
  unfoldable pub edit : Str → MessageContent → Queue → Result (Queue × List Str)
  unfolding edit_item removed_images replace_item
  edit id content q = elim (find_item id q.items) [
    | none ↦ err not_found
    | some item ↦ elim (edit_item id content item) [
      | err e ↦ err e
      | ok item' ↦
          let new_total = q.total - semantic_bytes item.content + semantic_bytes content in
          if ltb max_queue_bytes new_total
          then err full
          else ok (
            record q { items = replace_item id item' q.items; total = new_total },
            removed_images item.content content,
          )
    ]
  ]
