-- ===== src/State/Calls/Kept.antt =====
-- internal/agent/state/store.go: files that `decodeMapping` accepts for their own key, and what writing
-- or removing one makes of that.
use agent_whiteboard.Base.{
  true, some, Str, lookup, insert, delete, ◌≡◌, sym, ◌∙◌, ap, inl, inr, arith, subst, str_eq,
  str_eq_iff, lookup-insert, lookup-delete, Bool-cases,
}
use agent_whiteboard.Agent.{Platform}
use agent_whiteboard.Config.Origin.{Network}
use agent_whiteboard.State.{Mapping}
use agent_whiteboard.State.Valid.{valid_mapping, conversation_key}
use agent_whiteboard.State.Store.{Store, Commit}
use agent_whiteboard.State.Store.Outcome.{Written}
use agent_whiteboard.State.Store.Removal.{Removed}
use agent_whiteboard.State.Store.Wrote.{Wrote}

module _ (p : Platform) (n : Network) where
  abbrev pub Sound : Store → Type 0
  Sound s =
      (key : Str) (m : Mapping)
      → lookup key s.files ≡ some (some m)
      → (valid_mapping p n m ≡ true) × (conversation_key p n m.identity ≡ some key)

  pub Sound-same : (s t : Store) → t.files ≡ s.files → Sound s → Sound t
  Sound-same s t h sound key m found = sound key m (ap (lookup key) (sym h) ∙ found)

  pub Sound-insert :
      (key : Str) (new : Mapping) (s t : Store)
      → t.files ≡ insert key (some new) s.files
      → valid_mapping p n new ≡ true
      → conversation_key p n new.identity ≡ some key
      → Sound s
      → Sound t
  Sound-insert key new s t h valid k sound j m found =
      let e = sym (lookup-insert key j (some new) s.files) ∙ ap (lookup j) (sym h) ∙ found in
      elim (Bool-cases (str_eq key j)) [
        | inl same ↦
            let at : key ≡ j = (str_eq_iff key j).0 same in
            let same_mapping : new ≡ m = ground (arith, e, same) in
            (
              subst (λ x. valid_mapping p n x ≡ true) same_mapping valid,
              ap (λ x. conversation_key p n x.identity) (sym same_mapping) ∙ k ∙ ap some at,
            )
        | inr other ↦ sound j m (ground (arith, e, other))
      ]

  pub Sound-delete : (key : Str) (s t : Store) → t.files ≡ delete key s.files → Sound s → Sound t
  Sound-delete key s t h sound j m found =
      let e = sym (lookup-delete key j s.files) ∙ ap (lookup j) (sym h) ∙ found in
      sound j m (ground (arith, e))

  pub Sound-Written :
      (key : Str) (new : Mapping) (s : Store) (r : Commit × Store)
      → valid_mapping p n new ≡ true
      → conversation_key p n new.identity ≡ some key
      → Written key new s r
      → Sound s
      → Sound r.1
  Sound-Written key new s r valid k w sound = elim w.0 [
    | inl same ↦ Sound-same s r.1 same sound
    | inr inserted ↦ Sound-insert key new s r.1 inserted valid k sound
  ]

  pub Sound-Wrote :
      (P : Str → Mapping → Type 0) (s : Store) (r : Commit × Store)
      → ((key : Str) (new : Mapping) → P key new → conversation_key p n new.identity ≡ some key)
      → Wrote p n P s r
      → Sound s
      → Sound r.1
  Sound-Wrote P s r k w sound = elim w [
    | inl (same, o) ↦ Sound-same s r.1 same sound
    | inr (key, new, holds, valid, written) ↦
        Sound-Written key new s r valid (k key new holds) written sound
  ]

  pub Sound-Removed :
      (key : Str) (s : Store) (r : Commit × Store) → Removed key s r → Sound s → Sound r.1
  Sound-Removed key s r w sound = elim w.0 [
    | inl same ↦ Sound-same s r.1 same sound
    | inr deleted ↦ Sound-delete key s r.1 deleted sound
  ]
