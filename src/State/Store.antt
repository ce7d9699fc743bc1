-- ===== src/State/Store.antt =====
-- internal/agent/state/store.go: the store of mappings, one file for each identity. A file holds the
-- mapping that its JSON text encodes, or a text that is none; only `encodeMapping` writes such a text, so
-- to compare mappings is to compare the texts. The layout's directories, temporary files and the
-- system's calls answer as an `Io` says, which comes with each call. Calls on one key follow one
-- another, which the locks of the source ensure. Workspaces and provider directories are left out.
pub mod Access
pub mod Outcome
pub mod Removal
pub mod Effect
pub mod Wrote
pub mod Change
use agent_whiteboard.Base.{
  Bool, true, false, not, ◌&&◌, ◌||◌, List, [], ◌∷◌, Option, none, some, Str, is_some, lookup,
  insert, delete, if◌then◌else◌,
}
use agent_whiteboard.State.{Mapping}
use agent_whiteboard.State.Equal.{eq_option, eq_mapping}

pub data CommitOutcome : Type 0 where
  not_applied applied uncertain : CommitOutcome

pub data StateError : Type 0 where
  invalid closed missing already_exists changed refused layout_changed storage : StateError

pub data Result {ℓ} (A : Type ℓ) : Type ℓ where
  ok : A → Result A
  err : StateError → Result A

-- What an update of a file did: whether it returned no error, and whether it took effect where it
-- returned one.
pub data Attempt : Type 0 where
  done : Attempt
  failed : Bool → Attempt

-- Whether the layout verifies at the start of a call, before and after the file is written; whether the
-- file can be read, then and for the inspection after a failure; whether the temporary file could be
-- written; the attempt to publish it or to remove the file; and the synchronisation after it.
pub record Io : Type 0 where
  pub begin_verifies : Bool
  pub readable : Bool
  pub commit_verifies : Bool
  pub staged : Bool
  pub attempt : Attempt
  pub inspectable : Bool
  pub synced : Bool
  pub end_verifies : Bool

pub record Store : Type 0 where
  pub closed : Bool
  pub invalid_layout : Bool
  pub files : List (Str × Option Mapping)

pub record Commit : Type 0 where
  pub outcome : CommitOutcome
  pub error : Option StateError

abbrev pub fail : StateError → Commit
fail e = record { outcome = not_applied; error = some e }

-- `Close`.
abbrev pub close : Store → Store
close s = record s { closed = true }

-- `verifyLayout`: a layout once found changed stays so.
unfoldable pub verify_layout : Bool → Store → Bool × Store
verify_layout verifies s =
    if s.invalid_layout
    then (false, s)
    else if verifies
    then (true, s)
    else (false, record s { invalid_layout = true })

begin_verified : Bool × Store → Option StateError × Store
begin_verified (true, s) = (none, s)
begin_verified (false, s) = (some layout_changed, s)

-- `begin`.
unfoldable pub begin : Bool → Store → Option StateError × Store
unfolding begin_verified
begin verifies s = if s.closed then (some closed, s) else begin_verified (verify_layout verifies s)

abbrev after_attempt : Attempt → Bool
after_attempt done = true
after_attempt (failed effect) = effect

finish_verified : Option StateError → Bool × Store → Commit × Store
finish_verified error (true, s) = (record { outcome = applied; error = error }, s)
finish_verified error (false, s) = (record { outcome = uncertain; error = some layout_changed }, s)

-- The synchronisation and the last verification; `error` is what the attempt returned.
unfoldable pub finish : Io → Option StateError → Store → Commit × Store
unfolding finish_verified
finish io error s =
    if not io.synced
    then (record { outcome = uncertain; error = some storage }, s)
    else finish_verified error (verify_layout io.end_verifies s)

-- `inspectExpected`.
inspect_expected : Bool → Mapping → Option (Option Mapping) → CommitOutcome
inspect_expected inspectable expected file = if not inspectable then uncertain else elim file [
  | none ↦ not_applied
  | some content ↦ if eq_option eq_mapping content (some expected) then applied else not_applied
]

inspected : Io → CommitOutcome → Store → Commit × Store
inspected io applied s = finish io (some storage) s
inspected io outcome s = (record { outcome = outcome; error = some storage }, s)

write_file : Str → Mapping → Store → Store
write_file key m s = record s { files = insert key (some m) s.files }

publish : Io → Attempt → Str → Mapping → Store → Commit × Store
publish io done key m s = finish io none (write_file key m s)
publish io (failed effect) key m s =
    let t = if effect then write_file key m s else s in
    inspected io (inspect_expected io.inspectable m (lookup key t.files)) t

commit_encoded : Io → Bool → Str → Mapping → Store → Commit × Store
commit_encoded io false key m s = (fail storage, s)
commit_encoded io true key m s = publish io io.attempt key m s

commit_verified : Io → Str → Mapping → Bool → Bool × Store → Commit × Store
commit_verified io key m valid (false, s) = (fail layout_changed, s)
commit_verified io key m false (true, s) = (fail invalid, s)
commit_verified io key m true (true, s) = commit_encoded io io.staged key m s

removed_inspected : Io → Bool → Bool → Store → Commit × Store
removed_inspected io inspectable present s =
    if not inspectable
    then (record { outcome = uncertain; error = some storage }, s)
    else if present
    then (fail storage, s)
    else finish io (some storage) s

remove_file : Io → Attempt → Str → Store → Commit × Store
remove_file io done key s = finish io none (record s { files = delete key s.files })
remove_file io (failed effect) key s =
    let t = if effect then record s { files = delete key s.files } else s in
    removed_inspected io io.inspectable (is_some (lookup key t.files)) t

remove_verified : Io → Str → Bool × Store → Commit × Store
remove_verified io key (false, s) = (fail layout_changed, s)
remove_verified io key (true, s) = remove_file io io.attempt key s

-- `removeLocked`.
unfoldable pub remove_locked : Io → Str → Store → Commit × Store
unfolding remove_verified remove_file removed_inspected finish finish_verified
remove_locked io key s = remove_verified io key (verify_layout io.commit_verifies s)
