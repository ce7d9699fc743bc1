-- ===== src/Provider/Turn/Images.antt =====
-- What `validateImageInputs` guarantees of the images of a turn.
use agent_whiteboard.Base.{
  ℕ, ◌+◌, ◌≤◌, ◌≡◌, true, List, [], ◌∷◌, Str, length, sum_of, All, map, arith, Distinct, Unseen,
  Unseen-tail, contains-Unseen, to_ℕ,
}
use agent_whiteboard.Agent.{Platform}
use agent_whiteboard.Provider.Turn.{
  ImageInput, max_turn_image_bytes, valid_image, images_from, valid_images,
}
use agent_whiteboard.Provider.Message.Reference.{max_images_per_turn}

abbrev pub image_ids : List ImageInput → List Str
image_ids = map λ i. i.id

abbrev pub image_paths : List ImageInput → List Str
image_paths = map λ i. i.path

abbrev pub image_bytes : List ImageInput → ℕ
image_bytes = sum_of λ i. to_ℕ i.size

pub record IsImageSet (os : Platform) (images : List ImageInput) : Type 0 where
  pub each : All (λ i. valid_image os i ≡ true) images
  pub total : image_bytes images ≤ max_turn_image_bytes
  pub distinct_ids : Distinct (image_ids images)
  pub distinct_paths : Distinct (image_paths images)

module _ (os : Platform) where
  record Rest (ids paths : List Str) (total : ℕ) (is : List ImageInput) : Type 0 where
    each : All (λ i. valid_image os i ≡ true) is
    bound : total + image_bytes is ≤ max_turn_image_bytes
    ids_unseen : Unseen ids (image_ids is)
    paths_unseen : Unseen paths (image_paths is)
    ids_distinct : Distinct (image_ids is)
    paths_distinct : Distinct (image_paths is)

  images_from-Rest :
      (ids paths : List Str) (total : ℕ) (is : List ImageInput)
      → total ≤ max_turn_image_bytes
      → images_from os ids paths total is ≡ true
      → Rest ids paths total is
  unfolding images_from
  images_from-Rest ids paths total [] b h = record {
    each = tt;
    bound = omega arith;
    ids_unseen = tt;
    paths_unseen = tt;
    ids_distinct = tt;
    paths_distinct = tt;
  }
  images_from-Rest ids paths total (i ∷ is) b h =
      let r =
        images_from-Rest (i.id ∷ ids) (i.path ∷ paths) (total + to_ℕ i.size) is (ground arith)
          (ground arith) in
      record {
        each = (ground arith, r.each);
        bound = omega (arith, r.bound);
        ids_unseen = (ground arith, Unseen-tail i.id ids _ r.ids_unseen);
        paths_unseen = (ground arith, Unseen-tail i.path paths _ r.paths_unseen);
        ids_distinct = (contains-Unseen i.id ids _ r.ids_unseen, r.ids_distinct);
        paths_distinct = (contains-Unseen i.path paths _ r.paths_unseen, r.paths_distinct);
      }

  -- Image inputs that pass validation are at most 8, each valid, 20 MiB together, and no two have
  -- one identifier or one path.
  pub valid_images-IsImageSet :
      (images : List ImageInput)
      → valid_images os images ≡ true
      → (length images ≤ max_images_per_turn) × IsImageSet os images
  unfolding valid_images
  valid_images-IsImageSet images h =
      let r = images_from-Rest [] [] 0 images (omega arith) (ground arith) in
      (
        ground arith,
        record {
          each = r.each;
          total = omega (arith, r.bound);
          distinct_ids = r.ids_distinct;
          distinct_paths = r.paths_distinct;
        },
      )
