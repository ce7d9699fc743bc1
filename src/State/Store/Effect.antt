-- ===== src/State/Store/Effect.antt =====
-- internal/agent/state/store.go: what a call did to the files, whatever the system answered.
use agent_whiteboard.Base.{
  Bool, true, false, Option, none, some, Str, lookup, ◌≡◌, refl, sym, ◌∙◌, ap, ◌⊎◌, inl, inr, arith,
  subst,
}
use agent_whiteboard.Agent.{Platform}
use agent_whiteboard.Config.Origin.{Network}
use agent_whiteboard.State.{Identity, Mapping}
use agent_whiteboard.State.Valid.{valid_mapping_of, conversation_key}
use agent_whiteboard.State.Store.{
  not_applied, Io, Store, Commit, StateError, Result, ok, err, fail, verify_layout, begin,
  begin_verified, invalid,
}
use agent_whiteboard.State.Store.Access.{
  on_key, with_begin, keyed, load_locked, decoded, verified_mapping, load_verified, load, load_at,
}
use agent_whiteboard.State.Store.Outcome.{files-verify_layout}

-- A call that changed nothing and says so.
abbrev pub Untouched : Store → Commit × Store → Type 0
Untouched s (c, t) = (t.files ≡ s.files) × (c.outcome ≡ not_applied)

pub files-begin : (b : Bool) (s : Store) → (begin b s).1.files ≡ s.files
unfolding begin begin_verified verify_layout
files-begin b s = ground arith

pub Result-cases {ℓ} :
    {A : Type ℓ} (r : Result A) → ((e : StateError) × (r ≡ err e)) ⊎ ((a : A) × (r ≡ ok a))
Result-cases (err e) = inl (e, refl)
Result-cases (ok a) = inr (a, refl)

-- A call that the store did not let in, with the files as they were.
abbrev pub Refused {ℓ} : {A : Type ℓ} → (StateError → A) → Store → A × Store → Type ℓ
Refused refuse s r = (e : StateError) × (t : Store) × (t.files ≡ s.files) × (r ≡ (refuse e, t))

module _ {ℓ} {A : Type ℓ} (refuse : StateError → A) (call : Str → Store → A × Store) where
  pub with_begin-cases :
      (key : Str) (begun : Option StateError × Store)
      → Refused refuse begun.1 (with_begin refuse call key begun)
        ⊎ (with_begin refuse call key begun ≡ call key begun.1)
  unfolding with_begin
  with_begin-cases key (none, s) = inr refl
  with_begin-cases key (some e, s) = inl (e, s, refl, refl)

  pub keyed-cases :
      (b : Bool) (found : Option Str) (s : Store)
      → Refused refuse s (keyed refuse call b found s)
        ⊎ ((key : Str) × (found ≡ some key)
            × (keyed refuse call b found s ≡ call key (begin b s).1))
  unfolding keyed
  keyed-cases b none s = inl (invalid, s, refl, refl)
  keyed-cases b (some key) s = elim (with_begin-cases key (begin b s)) [
    | inl (e, t, h, r) ↦ inl (e, t, h ∙ files-begin b s, r)
    | inr e ↦ inr (key, refl, e)
  ]

pub verified_mapping-same :
    (x : Mapping) (verified : Bool × Store)
    → ((verified_mapping x verified).1.files ≡ verified.1.files)
      × ((m : Mapping) → (verified_mapping x verified).0 ≡ ok m → x ≡ m)
unfolding verified_mapping
verified_mapping-same x (true, s) = (refl, λ m e. ground arith)
verified_mapping-same x (false, s) = (refl, λ m e. ground arith)

module _ (p : Platform) (n : Network) where
  -- The file of the key is a mapping of the identity.
  abbrev pub Loaded : Identity → Str → Store → Mapping → Type 0
  Loaded identity key s m =
      (lookup key s.files ≡ some (some m)) × (valid_mapping_of p n identity m ≡ true)

  pub decoded-ok :
      (identity : Identity) (file : Option (Option Mapping)) (m : Mapping)
      → decoded p n identity file ≡ ok m
      → (file ≡ some (some m)) × (valid_mapping_of p n identity m ≡ true)
  unfolding decoded
  decoded-ok identity none m h = ground arith
  decoded-ok identity (some none) m h = ground arith
  decoded-ok identity (some (some x)) m h = ground arith

  pub load_locked-Loaded :
      (b : Bool) (identity : Identity) (key : Str) (s : Store) (m : Mapping)
      → load_locked p n b identity key s ≡ ok m
      → Loaded identity key s m
  unfolding load_locked
  load_locked-Loaded true identity key s m h = decoded-ok identity (lookup key s.files) m h
  load_locked-Loaded false identity key s m h = ground arith

  -- A call on a key is refused, or is made with the files as they were.
  pub on_key-Refused {ℓ} :
      {A : Type ℓ} (refuse : StateError → A) (call : Str → Store → A × Store) (b : Bool)
      (identity : Identity) (s : Store)
      → Refused refuse s (on_key p n refuse call b identity s)
        ⊎ ((key : Str) × (t : Store) × (t.files ≡ s.files)
            × (conversation_key p n identity ≡ some key)
            × (on_key p n refuse call b identity s ≡ call key t))
  unfolding on_key
  on_key-Refused refuse call b identity s =
      elim (keyed-cases refuse call b (conversation_key p n identity) s) [
        | inl u ↦ inl u
        | inr (key, h, e) ↦ inr (key, (begin b s).1, files-begin b s, h, e)
      ]

  pub on_key-cases :
      (call : Str → Store → Commit × Store) (b : Bool) (identity : Identity) (s : Store)
      → Untouched s (on_key p n fail call b identity s)
        ⊎ ((key : Str) × (t : Store) × (t.files ≡ s.files)
            × (conversation_key p n identity ≡ some key)
            × (on_key p n fail call b identity s ≡ call key t))
  on_key-cases call b identity s = elim (on_key-Refused fail call b identity s) [
    | inl (e, t, h, r) ↦
        inl
          (ap (λ (x : Commit × Store). x.1.files) r ∙ h, ap (λ (x : Commit × Store). x.0.outcome) r)
    | inr called ↦ inr called
  ]

  -- What was read is what the file has, and reading changed no file.
  abbrev pub Read : Identity → Store → Result Mapping × Store → Type 0
  Read identity s (r, t) =
      (t.files ≡ s.files)
      × ((m : Mapping)
          → r ≡ ok m
          → (key : Str) × (conversation_key p n identity ≡ some key) × Loaded identity key s m)

  pub load_verified-Read :
      (io : Io) (identity : Identity) (key : Str) (s t : Store) (r : Result Mapping)
      → t.files ≡ s.files
      → conversation_key p n identity ≡ some key
      → load_locked p n io.readable identity key t ≡ r
      → Read identity s (load_verified p n io r t)
  unfolding load_verified
  load_verified-Read io identity key s t (err e) h k l = (h, λ m e. ground arith)
  load_verified-Read io identity key s t (ok x) h k l =
      let (found, valid) = load_locked-Loaded io.readable identity key t x l in
      let (same, is) = verified_mapping-same x (verify_layout io.end_verifies t) in
      (
        same ∙ files-verify_layout io.end_verifies t ∙ h,
        λ m e.
            let known : x ≡ m = is m e in
            (key, k, subst (Loaded identity key s) known (ap (lookup key) (sym h) ∙ found, valid)),
      )

  pub load-Read :
      (io : Io) (identity : Identity) (s : Store) → Read identity s (load p n io identity s)
  unfolding load load_at
  load-Read io identity s =
      elim (on_key-Refused err (load_at p n io identity) io.begin_verifies identity s) [
        | inl (e, t, h, r) ↦ subst (Read identity s) (sym r) (h, λ m x. ground arith)
        | inr (key, t, h, k, r) ↦
            subst (Read identity s) (sym r) (load_verified-Read io identity key s t _ h k refl)
      ]
