-- ===== src/Broker/Queue.antt =====
-- internal/agent/broker/queue.go: the bounded queue of follow-up messages of one conversation.
-- A method takes the queue and returns the new one; a nil receiver does not occur in the broker and
-- is left out. `QueuedTurn` and `queueItem` have the same fields and are one record here. Copies
-- (`Clone`, `append(nil, …)`) are the values themselves. What a method erases it also returns.
pub mod Edit
pub mod Invariant
pub mod Removal
pub mod History
pub mod Order
pub mod Erasure
use agent_whiteboard.Base.{
  ℕ, ◌+◌, ◌-◌, Bool, true, false, not, ◌&&◌, ◌||◌, List, [], ◌∷◌, ◌++◌, Option, none, some, Str,
  str_eq, length, is_empty, is_some, contains, any, keep, map, leb, ltb, ◌==◌, push_back,
  if◌then◌else◌,
}
use agent_whiteboard.Agent.{Platform}
use agent_whiteboard.Agent.Digest.{unknown}
use agent_whiteboard.Provider.Message.{MessageContent, semantic_bytes, inline_image_ids}
use agent_whiteboard.Provider.Turn.{
  ExecutionSettings, ModelPresentation, Resource, PageContext, ImageInput, TurnRequest, speed_bytes,
  valid_presentation, valid_context, valid_turn,
}

abbrev pub max_queue_items : ℕ
max_queue_items = 64

abbrev pub max_queue_bytes : ℕ
max_queue_bytes = 98304

pub data QueueError : Type 0 where
  invalid duplicate_id context_conflict full not_found : QueueError

pub data Result {ℓ} (A : Type ℓ) : Type ℓ where
  ok : A → Result A
  err : QueueError → Result A

pub record ImageDescriptor : Type 0 where
  pub image_id : Str
  pub name : Str
  pub media_type : Str

pub record QueueItem : Type 0 where
  pub turn_id : Str
  pub message_id : Str
  pub content : MessageContent
  pub images : List ImageInput
  pub descriptors : List ImageDescriptor
  pub context : Option PageContext
  pub settings : Option ExecutionSettings
  pub presentation : Option ModelPresentation

pub record Queue : Type 0 where
  pub items : List QueueItem
  pub total : ℕ
  pub has_context : Bool

unfoldable pub new : Queue
new = record { items = []; total = 0; has_context = false }

-- `providerSettingsBytes`.
unfoldable pub settings_bytes : Option ExecutionSettings → Option ModelPresentation → ℕ
settings_bytes (some s) (some p) =
    length s.model + length s.effort + length (speed_bytes s.speed) + length p.model_display_name
settings_bytes none p = 0
settings_bytes (some s) none = 0

-- What an item counts for in `bytes`.
unfoldable pub item_bytes : QueueItem → ℕ
item_bytes i = semantic_bytes i.content + settings_bytes i.settings i.presentation

unfoldable pub contains_turn_id : Str → Queue → Bool
contains_turn_id id q = any (λ (i : QueueItem). str_eq i.turn_id id) q.items

unfoldable pub contains_message_id : Str → Queue → Bool
contains_message_id id q = any (λ (i : QueueItem). str_eq i.message_id id) q.items

-- The memory of a context that `zeroProviderContext` has erased: the record, and the two buffers
-- that it pointed to.
pub record Erased : Type 0 where
  pub context : PageContext
  pub source_buffer : List ℕ
  pub creator_buffer : List ℕ

abbrev zero_resource : Resource
zero_resource = record {
  kind = unknown [];
  id = [];
  created_at = 0;
  updated_at = 0;
  expires_at = none;
}

unfoldable pub zero_context : PageContext → Erased
zero_context c = record {
  context = record c {
    source = [];
    creator_context = [];
    title = [];
    url = [];
    resource = zero_resource;
    digest = [];
  };
  source_buffer = map (λ _. 0) c.source;
  creator_buffer = map (λ _. 0) c.creator_context;
}

unfoldable pub erase : Option PageContext → List Erased
erase none = []
erase (some c) = zero_context c ∷ []

unfoldable pub erase_all : List QueueItem → List Erased
erase_all [] = []
erase_all (i ∷ is) = erase i.context ++ erase_all is

set_head_context : PageContext → List QueueItem → List QueueItem
set_head_context page [] = []
set_head_context page (i ∷ is) = record i { context = some page } ∷ is

unfoldable pub drop_contexts : List QueueItem → List QueueItem
drop_contexts = map λ (i : QueueItem). record i { context = none }

-- `discardContext`.
unfoldable pub discard_context : Queue → Queue × List Erased
discard_context q =
    if q.has_context
    then (record q { items = drop_contexts q.items; has_context = false }, erase_all q.items)
    else (q, [])

describes : ImageDescriptor → ImageInput → Bool
describes d i = str_eq d.image_id i.id && str_eq d.name i.name && str_eq d.media_type i.media_type

unfoldable pub descriptors_match : List ImageInput → List ImageDescriptor → Bool
unfolding describes
descriptors_match [] [] = true
descriptors_match [] (d ∷ ds) = false
descriptors_match (i ∷ is) [] = false
descriptors_match (i ∷ is) (d ∷ ds) = describes d i && descriptors_match is ds

valid_pair : Option ExecutionSettings → Option ModelPresentation → Bool
valid_pair none none = true
valid_pair none (some p) = false
valid_pair (some s) none = false
valid_pair (some s) (some p) = valid_presentation p

abbrev pub turn_request : QueueItem → TurnRequest
turn_request i = record {
  turn_id = i.turn_id;
  message_id = i.message_id;
  content = i.content;
  images = i.images;
  context = i.context;
  settings = i.settings;
}

unfoldable pub same_id : QueueItem → QueueItem → Bool
same_id turn i = str_eq i.turn_id turn.turn_id || str_eq i.message_id turn.message_id

-- `peek`: the head, which stays in the queue.
unfoldable pub peek : Queue → Option TurnRequest
peek q = elim q.items [ [] ↦ none | i ∷ is ↦ some (turn_request i) ]

-- `Dequeue`: the caller now owns the context.
unfoldable pub dequeue : Queue → Option (TurnRequest × Queue)
dequeue q = elim q.items [
  | [] ↦ none
  | i ∷ is ↦ some (
    turn_request i,
    record {
      items = is;
      total = q.total - item_bytes i;
      has_context = if is_some i.context then false else q.has_context;
    },
  )
]

-- `Clear`.
unfoldable pub clear : Queue → Queue × List Erased
unfolding new
clear q = (new, erase_all q.items)

unfoldable pub find_item : Str → List QueueItem → Option QueueItem
find_item id [] = none
find_item id (i ∷ is) = if str_eq i.message_id id then some i else find_item id is

unfoldable pub remove_item : Str → List QueueItem → List QueueItem
remove_item id [] = []
remove_item id (i ∷ is) = if str_eq i.message_id id then is else i ∷ remove_item id is

-- `Remove`.
unfoldable pub remove : Str → Queue → Result (Queue × List Erased)
remove id q = elim (find_item id q.items) [
  | none ↦ err not_found
  | some i ↦ ok (
    record {
      items = remove_item id q.items;
      total = q.total - item_bytes i;
      has_context = if is_some i.context then false else q.has_context;
    },
    erase i.context,
  )
]

-- `imageMessageIDs`.
unfoldable pub image_message_ids : List QueueItem → List Str
image_message_ids [] = []
image_message_ids (i ∷ is) =
    if is_empty i.images then image_message_ids is else i.message_id ∷ image_message_ids is

-- `ordinaryImageDescriptors`.
unfoldable pub ordinary_image_descriptors :
    MessageContent → List ImageDescriptor → List ImageDescriptor
ordinary_image_descriptors content =
    keep λ (d : ImageDescriptor). not (contains d.image_id (inline_image_ids content))

module _ (os : Platform) where
  -- `turn.validate() == nil`.
  unfoldable pub valid_item : QueueItem → Bool
  unfolding valid_pair
  valid_item turn =
      valid_turn os (turn_request turn)
      && valid_pair turn.settings turn.presentation
      && descriptors_match turn.images turn.descriptors

  -- `Enqueue`.
  unfoldable pub enqueue : QueueItem → Queue → Result Queue
  enqueue turn q =
      let added = item_bytes turn in
      if not (valid_item turn)
      then err invalid
      else if any (same_id turn) q.items
      then err duplicate_id
      else if is_some turn.context && q.has_context
      then err context_conflict
      else if leb max_queue_items (length q.items) || ltb max_queue_bytes (q.total + added)
      then err full
      else ok (record {
        items = push_back q.items turn;
        total = q.total + added;
        has_context = q.has_context || is_some turn.context;
      })

  -- `attachContextToHead`; the queue keeps the caller's page without copying it.
  unfoldable pub attach_context_to_head : Option PageContext → Queue → Result Queue
  unfolding set_head_context
  attach_context_to_head page q = elim page [
    | none ↦ err context_conflict
    | some c ↦
        if is_empty q.items || not (valid_context os c) || q.has_context
        then err context_conflict
        else ok (record q { items = set_head_context c q.items; has_context = true })
  ]
