-- ===== src/Provider/Message/Limits.antt =====
-- What `Validate` guarantees of a message.
use agent_whiteboard.Base.{
  ◌+◌, ◌≤◌, ◌≡◌, true, false, List, [], ◌∷◌, ◌++◌, none, some, Str, length, sum_of, contains, arith,
  Option-cases, inl, inr, Distinct, Unseen, Unseen-tail, contains-Unseen, subst,
}
use agent_whiteboard.Provider.Message.{MessagePart, MessageContent, part_bytes, semantic_bytes}
use agent_whiteboard.Provider.Message.Content.{
  max_turn_message_bytes, max_message_parts, max_message_references, max_message_skills, Scan,
  fresh_scan, scan_part, scan_parts, valid_content,
}

-- The identifiers of the references, and of the skills, of a message.
abbrev pub reference_ids : List MessagePart → List Str
reference_ids [] = []
reference_ids (p ∷ ps) = elim p.reference [
  | none ↦ reference_ids ps
  | some r ↦ r.id ∷ reference_ids ps
]

abbrev pub skill_ids : List MessagePart → List Str
skill_ids [] = []
skill_ids (p ∷ ps) = elim p.skill [ none ↦ skill_ids ps | some k ↦ k.id ∷ skill_ids ps ]

-- What one round adds to the counts.
scan_part_total :
    (s t : Scan) (p : MessagePart)
    → scan_part s p ≡ some t
    → (t.total ≡ s.total + part_bytes p) × (t.total ≤ max_turn_message_bytes)
unfolding scan_part part_bytes
scan_part_total s t p h = ground arith

scan_part_counts :
    (s t : Scan) (p : MessagePart)
    → scan_part s p ≡ some t
    → (t.references ≡ s.references + length (reference_ids (p ∷ [])))
      × (t.skills ≡ s.skills + length (skill_ids (p ∷ [])))
      × (t.references ≤ max_message_references)
      × (t.skills ≤ max_message_skills)
unfolding scan_part
scan_part_counts s t p h = ground arith

-- What one round does to the identifiers that it has seen.
abbrev Fresh : List Str → List Str → List Str → Type 0
Fresh seen seen' [] = seen' ≡ seen
Fresh seen seen' (x ∷ xs) = (seen' ≡ x ∷ seen) × (contains x seen ≡ false)

scan_part-Fresh :
    (s t : Scan) (p : MessagePart)
    → scan_part s p ≡ some t
    → Fresh s.seen_references t.seen_references (reference_ids (p ∷ []))
      × Fresh s.seen_skill_ids t.seen_skill_ids (skill_ids (p ∷ []))
unfolding scan_part
scan_part-Fresh s t p h = ground arith

pub record IsBounded (parts : List MessagePart) (s t : Scan) : Type 0 where
  total : t.total ≡ s.total + sum_of part_bytes parts
  references : t.references ≡ s.references + length (reference_ids parts)
  skills : t.skills ≡ s.skills + length (skill_ids parts)
  total_bound : t.total ≤ max_turn_message_bytes
  references_bound : t.references ≤ max_message_references
  skills_bound : t.skills ≤ max_message_skills

length-reference_ids :
    (p : MessagePart) (ps : List MessagePart)
    → length (reference_ids (p ∷ ps)) ≡ length (reference_ids (p ∷ [])) + length (reference_ids ps)
length-reference_ids p ps = ground arith

length-skill_ids :
    (p : MessagePart) (ps : List MessagePart)
    → length (skill_ids (p ∷ ps)) ≡ length (skill_ids (p ∷ [])) + length (skill_ids ps)
length-skill_ids p ps = ground arith

scan_parts-IsBounded :
    (ps : List MessagePart) (s t : Scan)
    → s.total ≤ max_turn_message_bytes
    → s.references ≤ max_message_references
    → s.skills ≤ max_message_skills
    → scan_parts s ps ≡ some t
    → IsBounded ps s t
unfolding scan_parts
scan_parts-IsBounded [] s t b r k h = ground arith
scan_parts-IsBounded (p ∷ ps) s t b r k h = elim (Option-cases (scan_part s p)) [
  | inl e ↦ ground (arith, e)
  | inr (m, e) ↦
      let one = scan_part_total s m p e in
      let two = scan_part_counts s m p e in
      let rest = scan_parts-IsBounded ps m t one.1 two.2 two.3 (rw (e, scan_parts) at h) in
      ground (arith, rest, length-reference_ids p ps, length-skill_ids p ps)
]

-- The identifiers that one round adds (at most one) stand before those of the rest.
Distinct-Fresh :
    (seen seen' new rest : List Str)
    → length new ≤ 1
    → Fresh seen seen' new
    → Unseen seen' rest × Distinct rest
    → Unseen seen (new ++ rest) × Distinct (new ++ rest)
Distinct-Fresh seen seen' [] rest l f (u, d) = (subst (λ s. Unseen s rest) f u, d)
Distinct-Fresh seen seen' (x ∷ []) rest l (e, c) (u, d) =
    let u' : Unseen (x ∷ seen) rest = subst (λ s. Unseen s rest) e u in
    ((c, Unseen-tail x seen rest u'), (contains-Unseen x seen rest u', d))
Distinct-Fresh seen seen' (x ∷ y ∷ ys) rest l f h = absurd (omega arith)

reference_ids-cons :
    (p : MessagePart) (ps : List MessagePart)
    → reference_ids (p ∷ ps) ≡ reference_ids (p ∷ []) ++ reference_ids ps
reference_ids-cons p ps = ground arith

skill_ids-cons :
    (p : MessagePart) (ps : List MessagePart)
    → skill_ids (p ∷ ps) ≡ skill_ids (p ∷ []) ++ skill_ids ps
skill_ids-cons p ps = ground arith

scan_parts-Distinct :
    (ps : List MessagePart) (s t : Scan)
    → scan_parts s ps ≡ some t
    → (Unseen s.seen_references (reference_ids ps) × Distinct (reference_ids ps))
      × (Unseen s.seen_skill_ids (skill_ids ps) × Distinct (skill_ids ps))
unfolding scan_parts
scan_parts-Distinct [] s t h = ((tt, tt), (tt, tt))
scan_parts-Distinct (p ∷ ps) s t h = elim (Option-cases (scan_part s p)) [
  | inl e ↦ ground (arith, e)
  | inr (m, e) ↦
      let fresh = scan_part-Fresh s m p e in
      let rest = scan_parts-Distinct ps m t (rw (e, scan_parts) at h) in
      rw (reference_ids-cons p ps, skill_ids-cons p ps)
        (
          Distinct-Fresh _ m.seen_references (reference_ids (p ∷ [])) _ (ground arith) fresh.0
              rest.0,
          Distinct-Fresh _ m.seen_skill_ids (skill_ids (p ∷ [])) _ (ground arith) fresh.1 rest.1,
        )
]

-- What a valid message is limited to.
pub record IsLimited (content : MessageContent) : Type 0 where
  pub parts : length content.parts ≤ max_message_parts
  pub size : semantic_bytes content ≤ max_turn_message_bytes
  pub references : length (reference_ids content.parts) ≤ max_message_references
  pub skills : length (skill_ids content.parts) ≤ max_message_skills
  pub distinct_references : Distinct (reference_ids content.parts)
  pub distinct_skills : Distinct (skill_ids content.parts)

-- A message that passes `Validate` has at most 64 parts, 64 KiB of text, 16 references and 16
-- skills, and no two references and no two skills with one identifier.
pub valid_content-IsLimited :
    (content : MessageContent) → valid_content content ≡ true → IsLimited content
unfolding valid_content semantic_bytes
valid_content-IsLimited content h = elim (Option-cases (scan_parts fresh_scan content.parts)) [
  | inl e ↦ ground (arith, e)
  | inr (t, e) ↦
      let b =
        scan_parts-IsBounded content.parts fresh_scan t (omega arith) (omega arith) (omega arith)
          e in
      let d = scan_parts-Distinct content.parts fresh_scan t e in
      record {
        parts = ground arith;
        size = omega (arith, b);
        references = omega (arith, b);
        skills = omega (arith, b);
        distinct_references = d.0.1;
        distinct_skills = d.1.1;
      }
]
