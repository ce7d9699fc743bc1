-- ===== src/Broker/Queue/Edit/References.antt =====
-- What an edit may do to the references and to the images of a queued message.
use mathlib.Core.List.{Mem, mem-cons_self, mem-cons_of_mem}
use agent_whiteboard.Base.{
  ◌≡◌, true, List, [], ◌∷◌, Option, none, some, Str, str_eq, str_eq_refl, str_eq_iff, lookup,
  insert, lookup-insert, All, map, arith, Bool-cases, Option-cases, inl, inr, subst, ap, ◌⊎◌,
  if_neg, false≢true,
}
use agent_whiteboard.Provider.Message.{MessagePart, MessageContent, ContextReference}
use agent_whiteboard.Provider.Turn.{ImageInput}
use agent_whiteboard.Broker.Queue.{QueueItem, ImageDescriptor, describes, descriptors_match}
use agent_whiteboard.Broker.Queue.Edit.{
  ContextReference-discrete, without_ordinal, remember_references, unchanged, references_known,
  references_are_immutable, image_map, pick, ordered_ids, reorder_edited_images,
}

abbrev Images : Type 0
Images = List (Str × (ImageInput × ImageDescriptor))

-- Every entry pairs an input with its own descriptor, under the input's identifier.
abbrev Described : Images → Type 0
Described = All λ e. (str_eq e.1.0.id e.0 ≡ true) × (describes e.1.1 e.1.0 ≡ true)

insert-Described :
    (i : ImageInput) (d : ImageDescriptor) (m : Images)
    → describes d i ≡ true
    → Described m
    → Described (insert i.id (i, d) m)
unfolding insert
insert-Described i d [] h a = ((str_eq_refl i.id, h), tt)
insert-Described i d ((j, e) ∷ m) h a = elim (Bool-cases (str_eq j i.id)) [
  | inl c ↦ rw c ((str_eq_refl i.id, h), a.1)
  | inr c ↦ rw c (a.0, insert-Described i d m h a.1)
]

image_map-Described :
    (is : List ImageInput) (ds : List ImageDescriptor) (m : Images)
    → descriptors_match is ds ≡ true
    → Described m
    → Described (image_map is ds m)
unfolding image_map descriptors_match
image_map-Described [] ds m h a = a
image_map-Described (i ∷ is) [] m h a = a
image_map-Described (i ∷ is) (d ∷ ds) m h a =
    image_map-Described is ds (insert i.id (i, d) m) (ground arith)
      (insert-Described i d m (ground arith) a)

lookup-Described :
    (id : Str) (m : Images) (i : ImageInput) (d : ImageDescriptor)
    → Described m
    → lookup id m ≡ some (i, d)
    → (str_eq i.id id ≡ true) × (describes d i ≡ true)
unfolding lookup
lookup-Described id [] i d a h = cc
lookup-Described id ((j, e) ∷ m) i d a h =
    ground
      (arith, lookup-Described id m i d, str_eq_iff j id, str_eq_iff i.id id, str_eq_iff e.0.id j)

pick-Described :
    (m : Images) (ids : List Str) (is : List ImageInput) (ds : List ImageDescriptor)
    → Described m
    → pick m ids ≡ some (is, ds)
    → (map (λ i. i.id) is ≡ ids) × (descriptors_match is ds ≡ true)
unfolding pick descriptors_match
pick-Described m [] is ds a h = ground arith
pick-Described m (id ∷ ids) is ds a h = elim (Option-cases (lookup id m)) [
  | inl e ↦ ground (arith, e)
  | inr ((i, d), e) ↦ elim (Option-cases (pick m ids)) [
    | inl e' ↦ ground (arith, e, e')
    | inr ((is', ds'), e') ↦
        let found = lookup-Described id m i d a e in
        let rest = pick-Described m ids is' ds' a e' in
        ground (arith, e, e', found, rest, str_eq_iff i.id id)
  ]
]

-- The images of an edited message are the pictures that its new content shows, in that order,
-- followed by the attachments that it had, and each keeps its own descriptor.
pub reorder_edited_images_lem :
    (item : QueueItem) (content : MessageContent) (is : List ImageInput) (ds : List ImageDescriptor)
    → descriptors_match item.images item.descriptors ≡ true
    → reorder_edited_images item content ≡ some (is, ds)
    → (map (λ i. i.id) is ≡ ordered_ids item content) × (descriptors_match is ds ≡ true)
unfolding reorder_edited_images
reorder_edited_images_lem item content is ds h e =
    pick-Described (image_map item.images item.descriptors []) (ordered_ids item content) is ds
      (image_map-Described item.images item.descriptors [] h tt) e

-- A property of all images of a message is one of those that an edit picks.
insert-All :
    (P : ImageInput → Type 0) (k : Str) (i : ImageInput) (d : ImageDescriptor) (m : Images)
    → P i
    → All (λ e. P e.1.0) m
    → All (λ e. P e.1.0) (insert k (i, d) m)
unfolding insert
insert-All P k i d [] h a = (h, tt)
insert-All P k i d ((j, e) ∷ m) h a = elim (Bool-cases (str_eq j k)) [
  | inl c ↦ rw c (h, a.1)
  | inr c ↦ rw c (a.0, insert-All P k i d m h a.1)
]

image_map-All :
    (P : ImageInput → Type 0) (is : List ImageInput) (ds : List ImageDescriptor) (m : Images)
    → All P is
    → All (λ e. P e.1.0) m
    → All (λ e. P e.1.0) (image_map is ds m)
unfolding image_map
image_map-All P [] ds m h a = a
image_map-All P (i ∷ is) [] m h a = a
image_map-All P (i ∷ is) (d ∷ ds) m h a =
    image_map-All P is ds (insert i.id (i, d) m) h.1 (insert-All P i.id i d m h.0 a)

lookup-All :
    (P : ImageInput → Type 0) (id : Str) (m : Images) (i : ImageInput) (d : ImageDescriptor)
    → All (λ e. P e.1.0) m
    → lookup id m ≡ some (i, d)
    → P i
unfolding lookup
lookup-All P id [] i d a h = cc
lookup-All P id ((j, e) ∷ m) i d a h = elim (Bool-cases (str_eq j id)) [
  | inl c ↦ subst P {x = e.0} (ground (arith, h, c)) a.0
  | inr c ↦ lookup-All P id m i d a.1 (ground (arith, h, c))
]

pick-All :
    (P : ImageInput → Type 0) (m : Images) (ids : List Str) (is : List ImageInput)
    (ds : List ImageDescriptor)
    → All (λ e. P e.1.0) m
    → pick m ids ≡ some (is, ds)
    → All P is
unfolding pick
pick-All P m [] is ds a h = subst (All P) {x = []} (ground (arith, h)) tt
pick-All P m (id ∷ ids) is ds a h = elim (Option-cases (lookup id m)) [
  | inl e ↦ absurd (ground (arith, h, e))
  | inr ((i, d), e) ↦ elim (Option-cases (pick m ids)) [
    | inl e' ↦ absurd (ground (arith, h, e, e'))
    | inr ((is', ds'), e') ↦
        subst (All P) {x = i ∷ is'} (ground (arith, h, e, e'))
          (lookup-All P id m i d a e, pick-All P m ids is' ds' a e')
  ]
]

All-Mem-cons :
    (x : ImageInput) (is js : List ImageInput)
    → All (λ i. Mem i js) is
    → All (λ i. Mem i (x ∷ js)) is
All-Mem-cons x [] js a = tt
All-Mem-cons x (i ∷ is) js a = (mem-cons_of_mem x a.0, All-Mem-cons x is js a.1)

each-Mem : (is : List ImageInput) → All (λ i. Mem i is) is
each-Mem [] = tt
each-Mem (i ∷ is) = (mem-cons_self, All-Mem-cons i is is (each-Mem is))

pub reorder_edited_images-Mem :
    (item : QueueItem) (content : MessageContent) (is : List ImageInput) (ds : List ImageDescriptor)
    → reorder_edited_images item content ≡ some (is, ds)
    → All (λ i. Mem i item.images) is
unfolding reorder_edited_images
reorder_edited_images-Mem item content is ds e =
    pick-All (λ i. Mem i item.images) (image_map item.images item.descriptors [])
      (ordered_ids item content) is ds
      (image_map-All (λ i. Mem i item.images) item.images item.descriptors [] (each-Mem item.images)
        tt)
      e

-- The references of a message that its edit must keep as they are.
abbrev References : Type 0
References = List (Str × ContextReference)

-- A reference of a list of parts, up to the ordinal of its picture.
pub data Holds (r : ContextReference) : List MessagePart → Type 0 where
  here :
      {p : MessagePart} {ps : List MessagePart} (q : ContextReference)
      → p.reference ≡ some q
      → without_ordinal q ≡ r
      → Holds r (p ∷ ps)
  there : {p : MessagePart} {ps : List MessagePart} → Holds r ps → Holds r (p ∷ ps)

remember_references-lookup :
    (id : Str) (ps : List MessagePart) (old : References) (r : ContextReference)
    → lookup id (remember_references ps old) ≡ some r
    → Holds r ps ⊎ (lookup id old ≡ some r)
unfolding remember_references
remember_references-lookup id [] old r h = inr h
remember_references-lookup id (p ∷ ps) old r h = elim (Option-cases p.reference) [
  | inl e ↦ elim (remember_references-lookup id ps old r (rw (e, remember_references) at h)) [
    | inl x ↦ inl (there x)
    | inr x ↦ inr x
  ]
  | inr (q, e) ↦
      elim (remember_references-lookup id ps (insert q.id (without_ordinal q) old) r
        (rw (e, remember_references) at h)) [
          | inl x ↦ inl (there x)
          | inr x ↦ elim (Bool-cases (str_eq q.id id)) [
            | inl c ↦ inl (here q e (ground (arith, lookup-insert q.id id (without_ordinal q) old)))
            | inr c ↦ inr (ground (arith, lookup-insert q.id id (without_ordinal q) old))
          ]
        ]
]

unchanged→eq :
    (o : Option ContextReference) (q : ContextReference)
    → unchanged o q ≡ true
    → o ≡ some (without_ordinal q)
unfolding unchanged
unchanged→eq none q h = ground arith
unchanged→eq (some r) q h = elim (ContextReference-discrete r (without_ordinal q)) [
  | yes e ↦ ap some e
  | no n ↦ absurd (false≢true (rw (if_neg _ n) at h))
]

references_known-Holds :
    (old : References) (before : List MessagePart) (r : ContextReference) {after : List MessagePart}
    → ((id : Str) (r : ContextReference) → lookup id old ≡ some r → Holds r before)
    → references_known old after ≡ true
    → Holds r after
    → Holds r before
unfolding references_known
references_known-Holds old before r k h (here {p} {ps} q e w) =
    subst (λ r. Holds r before) w
      (k q.id (without_ordinal q) (unchanged→eq (lookup q.id old) q (ground (arith, e))))
references_known-Holds old before r k h (there {p} {ps} x) =
    references_known-Holds old before r k (ground arith) x

-- An edit adds no reference and changes none: every reference of the new content stands in the old
-- one, the same but for the place of its picture among the images.
pub references_are_immutable_lem :
    (before after : MessageContent) (r : ContextReference)
    → references_are_immutable before after ≡ true
    → Holds r after.parts
    → Holds r before.parts
unfolding references_are_immutable lookup
references_are_immutable_lem before after r h =
    references_known-Holds (remember_references before.parts []) before.parts r
      (λ id q e. elim (remember_references-lookup id before.parts [] q e) [
        | inl x ↦ x
        | inr x ↦ cc
      ])
      h
