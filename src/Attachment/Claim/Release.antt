-- ===== src/Attachment/Claim/Release.antt =====
-- What becomes of the images of a message that is released.
use agent_whiteboard.Base.{
  ◌∙◌, ap, any, contains, lookup, delete, lookup-delete, map, if◌then◌else◌, zero, suc, some, ℕ,
  ◌≡◌, refl, Bool, true, false, not, ◌&&◌, List, [], ◌∷◌, Option, none, Str, str_eq, str_eq_symm,
  str_eq_iff, is_empty, keep, arith, Bool-cases, List-cases, inl, inr,
}
use agent_whiteboard.Common.Id.{valid_id}
use agent_whiteboard.Attachment.{ImageRecord, Directory, Saving, save, remove_files, is_claimed, ok}
use agent_whiteboard.Attachment.Stage.Limits.{save-true}
use agent_whiteboard.Attachment.Claim.{
  of_message, images_for_message, release_where, release_message,
}

keep_all :
    (p : ImageRecord → Bool) (rs : List ImageRecord)
    → is_empty (keep p rs) ≡ true
    → keep (λ e. not (p e)) rs ≡ rs
keep_all p [] h = refl
keep_all p (r ∷ rs) h = ground (arith, h, keep_all p rs)

-- Releasing leaves the other records, whether there was one to release or none.
release_where_records :
    (saving : Saving) (failure : Option ℕ) (picked : ImageRecord → Bool) (d d' : Directory)
    → release_where saving failure picked d ≡ (none, d')
    → d'.records ≡ keep (λ e. not (picked e)) d.records
unfolding release_where
release_where_records saving failure picked d d' h =
    elim (Bool-cases (is_empty (keep picked d.records))) [
      | inl e ↦ ground (arith, h, e, keep_all picked d.records e)
      | inr e ↦
          let stored : (save saving (keep (λ e. not (picked e)) d.records) d).1 ≡ true =
            ground (arith, h, e) in
          ground (arith, h, e, save-true saving (keep (λ e. not (picked e)) d.records) d stored)
    ]

kept_without :
    (message : Str) (rs : List ImageRecord)
    → keep
        (λ e. is_claimed e.state && of_message message e)
        (keep (λ e. not (of_message message e)) rs)
      ≡ []
kept_without message [] = refl
kept_without message (r ∷ rs) = elim (Bool-cases (of_message message r)) [
  | inl e ↦ rw e (kept_without message rs)
  | inr e ↦ ground (arith, e, kept_without message rs)
]

kept_others :
    (message other : Str) (rs : List ImageRecord)
    → str_eq message other ≡ false
    → keep
        (λ e. is_claimed e.state && of_message other e)
        (keep (λ e. not (of_message message e)) rs)
      ≡ keep (λ e. is_claimed e.state && of_message other e) rs
kept_others message other [] h = refl
kept_others message other (r ∷ rs) h = ground (
  arith,
  h,
  str_eq_iff r.message_id message,
  str_eq_iff r.message_id other,
  str_eq_iff message other,
  kept_others message other rs h,
)

remove_files-all :
    (failure : Option ℕ) (names : List Str) (files : List (Str × ℕ)) (name : Str)
    → (remove_files failure names files).1 ≡ true
    → lookup name (remove_files failure names files).0
      ≡ (if contains name names then none else lookup name files)
unfolding remove_files
remove_files-all failure [] files name h = refl
remove_files-all none (n ∷ names) files name h = ground (
  arith,
  remove_files-all none names (delete n files) name h,
  lookup-delete n name files,
  str_eq_symm n name,
)
remove_files-all (some zero) (n ∷ names) files name h = absurd (ground (arith, h))
remove_files-all (some (suc k)) (n ∷ names) files name h = ground (
  arith,
  remove_files-all (some k) names (delete n files) name h,
  lookup-delete n name files,
  str_eq_symm n name,
)

-- Whether a message has an image in the file of this name.
abbrev pub holds_file : Str → Str → List ImageRecord → Bool
holds_file message name = any λ e. str_eq e.message_id message && str_eq e.filename name

release_where_files :
    (saving : Saving) (failure : Option ℕ) (picked : ImageRecord → Bool) (name : Str)
    (d d' : Directory)
    → release_where saving failure picked d ≡ (none, d')
    → lookup name d'.files ≡ (
        if contains name (map (λ (e : ImageRecord). e.filename) (keep picked d.records))
        then none
        else lookup name d.files)
unfolding release_where
release_where_files saving failure picked name d d' h =
    elim (Bool-cases (is_empty (keep picked d.records))) [
      | inl e ↦ ground (arith, h, e, List-cases (keep picked d.records))
      | inr e ↦
          let records = keep (λ e. not (picked e)) d.records in
          let names = map (λ (e : ImageRecord). e.filename) (keep picked d.records) in
          let stored : (save saving records d).1 ≡ true = ground (arith, h, e) in
          let after = save-true saving records d stored in
          let removed : (remove_files failure names d.files).1 ≡ true =
            ground (arith, h, e, stored, after) in
          ground (
            arith,
            h,
            e,
            stored,
            after,
            removed,
            remove_files-all failure names d.files name removed,
          )
    ]

held_file :
    (message name : Str) (rs : List ImageRecord)
    → contains name (map (λ (e : ImageRecord). e.filename) (keep (of_message message) rs))
      ≡ holds_file message name rs
held_file message name [] = refl
held_file message name (r ∷ rs) =
    ground (arith, str_eq_symm name r.filename, held_file message name rs)

-- A message that was released without error has no images any more, and every other message has the
-- images that it had. The manifest keeps every record that is not of the message, the drafts among them;
-- the files of the message are gone, and every other file is there as before.
pub release_message_lem :
    (saving : Saving) (failure : Option ℕ) (conversation message other name : Str)
    (d d' : Directory)
    → valid_id conversation ≡ true
    → valid_id message ≡ true
    → str_eq message other ≡ false
    → release_message true saving failure conversation message d ≡ (none, d')
    → (images_for_message true conversation message d' ≡ ok [])
      × (images_for_message true conversation other d'
          ≡ images_for_message true conversation other d)
      × (d'.records ≡ keep (λ e. not (str_eq e.message_id message)) d.records)
      × (lookup name d'.files
          ≡ (if holds_file message name d.records then none else lookup name d.files))
unfolding release_message images_for_message
release_message_lem saving failure conversation message other name d d' c m differs h =
    let done : release_where saving failure (of_message message) d ≡ (none, d') =
      ground (arith, h, c, m) in
    let records = release_where_records saving failure (of_message message) d d' done in
    (
      rw (c, m, records, kept_without message d.records) refl,
      rw (records, kept_others message other d.records differs) refl,
      records,
      release_where_files saving failure (of_message message) name d d' done
          ∙ ap (λ b. if b then none else lookup name d.files) (held_file message name d.records),
    )
