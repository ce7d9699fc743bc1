-- ===== src/Attachment/Stage/Limits.antt =====
-- The limits on images, turns and conversations.
use agent_whiteboard.Base.{
  ℕ, ◌+◌, ◌≤◌, ◌<◌, ◌≡◌, refl, sym, ◌∙◌, ap, subst, true, ◌&&◌, List, [], ◌∷◌, ◌++◌, Option, Str,
  str_eq, str_eq_refl, is_empty, insert, length, keep-append, sum_of-append, length-append,
  push_back, arith, Bool-cases, Option-cases, inl, inr,
}
use agent_whiteboard.Agent.{Platform}
use agent_whiteboard.Attachment.{
  max_images_per_turn, max_image_bytes, max_turn_image_bytes, max_conversation_image_bytes,
  ImageRecord, ok, Directory, Saving, saved, save_lost, save_unsynced, save, remove_files,
  RasterFormat, fresh_records, expired, expired_files, drafts_of, total_size, StageRequest,
  is_staged,
}
use agent_whiteboard.Attachment.Stage.{StageIo, staged_record, stage_fresh, stage}

-- What holds after an image of a client was taken in as `id`.
pub record Accepted (client id : Str) (before : List ImageRecord) (d : Directory) : Type 0 where
  pub new : ImageRecord
  pub added : d.records ≡ push_back before new
  pub named : new.image_id ≡ id
  pub owned : is_staged new.state && str_eq new.client_id client ≡ true
  pub image_bound : new.size ≤ max_image_bytes
  pub draft_count : length (drafts_of client d.records) ≤ max_images_per_turn
  pub draft_bytes : total_size (drafts_of client d.records) ≤ max_turn_image_bytes
  pub conversation_bytes : total_size d.records ≤ max_conversation_image_bytes

pub save-true :
    (s : Saving) (records : List ImageRecord) (d : Directory)
    → (save s records d).1 ≡ true
    → (save s records d).0 ≡ record d { records = records }
unfolding save
save-true saved records d h = refl
save-true save_lost records d h = ground (arith, h)
save-true save_unsynced records d h = ground (arith, h)

-- With no expired record all of them stay.
none_expired :
    (now : ℕ) (rs : List ImageRecord)
    → is_empty (expired_files now rs) ≡ true
    → fresh_records now rs ≡ rs
none_expired now [] h = refl
none_expired now (r ∷ rs) h = elim (Bool-cases (expired now r)) [
  | inl e ↦ ground (arith, h, e)
  | inr e ↦ ground (arith, h, e, none_expired now rs)
]

Accepted-push :
    (client id : Str) (new : ImageRecord) (d : Directory)
    → new.image_id ≡ id
    → is_staged new.state && str_eq new.client_id client ≡ true
    → new.size ≤ max_image_bytes
    → length (drafts_of client d.records) < max_images_per_turn
    → total_size (drafts_of client d.records) + new.size ≤ max_turn_image_bytes
    → total_size d.records + new.size ≤ max_conversation_image_bytes
    → (d' : Directory) → d'.records ≡ push_back d.records new
    → Accepted client id d.records d'
Accepted-push client id new d named owned image count bytes all_bytes d' e =
    let mine =
      ap (drafts_of client) e
      ∙ keep-append (λ (r : ImageRecord). is_staged r.state && str_eq r.client_id client) d.records
          (new ∷ []) in
    let last : drafts_of client (new ∷ []) ≡ new ∷ [] = ground (arith, owned) in
    let drafts = mine ∙ ap (λ xs. drafts_of client d.records ++ xs) last in
    record {
      new = new;
      added = e;
      named = named;
      owned = owned;
      image_bound = image;
      draft_count =
          omega
            (arith, count, ap length drafts, length-append (drafts_of client d.records) (new ∷ []));
      draft_bytes = omega (
        arith,
        bytes,
        ap total_size drafts,
        sum_of-append (λ (r : ImageRecord). r.size) (drafts_of client d.records) (new ∷ []),
      );
      conversation_bytes = omega (
        arith,
        all_bytes,
        ap total_size e,
        sum_of-append (λ (r : ImageRecord). r.size) d.records (new ∷ []),
      );
    }

module _ (os : Platform) (detect : Str → Option RasterFormat) where
  stage_fresh-Accepted :
      (io : StageIo) (now : ℕ) (r : StageRequest) (d d' : Directory) (id : Str)
      → stage_fresh os detect io now r d ≡ (ok id, d')
      → Accepted r.client_id id d.records d'
  unfolding stage_fresh
  stage_fresh-Accepted io now r d d' id h = elim (Option-cases io.id) [
    | inl e ↦ ground (arith, h, e)
    | inr (fresh, e) ↦ elim (Option-cases (detect r.content)) [
      | inl f ↦ ground (arith, h, e, f)
      | inr (format, f) ↦
          let new = staged_record os r now fresh format in
          let stored =
            save-true io.stored (push_back d.records new)
              (record d { files = insert new.filename new.size d.files }) in
          Accepted-push r.client_id id new d (ground (arith, h, e, f))
            (ground (arith, str_eq_refl r.client_id)) (ground (arith, h, e, f))
            (ground (arith, h, e, f)) (ground (arith, h, e, f)) (ground (arith, h, e, f)) d'
            (ground (arith, h, e, f, stored))
    ]
  ]

  -- An image that is taken in is the one new record after those that had not expired; it is a draft of
  -- the client of at most 10 MiB, and with it the client has at most 8 drafts of at most 20 MiB and the
  -- conversation at most 512 MiB.
  pub stage-Accepted :
      (io : StageIo) (now : ℕ) (r : StageRequest) (d d' : Directory) (id : Str)
      → stage os detect io now r d ≡ (ok id, d')
      → Accepted r.client_id id (fresh_records now d.records) d'
  unfolding stage
  stage-Accepted io now r d d' id h = elim (Bool-cases (is_empty (expired_files now d.records))) [
    | inl e ↦
        subst (λ rs. Accepted r.client_id id rs d') (sym (none_expired now d.records e))
          (stage_fresh-Accepted io now r d d' id (ground (arith, h, e)))
    | inr e ↦
        let (d1, stored) = save io.expiry_saved (fresh_records now d.records) d in
        let (files, removed) =
          remove_files io.expiry_removed (expired_files now d.records) d1.files in
        let kept =
          save-true io.expiry_saved (fresh_records now d.records) d (ground (arith, h, e)) in
        subst (λ rs. Accepted r.client_id id rs d') (ap (λ (x : Directory). x.records) kept)
          (stage_fresh-Accepted io now r (record d1 { files = files }) d' id (ground (arith, h, e)))
  ]
