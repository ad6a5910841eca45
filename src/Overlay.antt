-- ===== src/Overlay.antt =====
-- internal/overlay/store.go: the writable layer. The table overlay_entries is a list of rows with
-- the path as its key, and backing files lie under `upper_dir`. time.Now is the argument `now`.
pub mod Write
pub mod Rename
pub mod Reconcile
pub mod View
pub mod Moves
pub mod Stale
pub mod Rows
pub mod Valid
pub mod History
pub mod Guard
pub mod Fresh
pub mod Prefix
pub mod Samples
mod Tests
use artifact_fs_extropic.Base.{
  ℕ, zero, suc, ◌+◌, ◌≡◌, Bool, true, false, not, ◌&&◌, ◌||◌, List, [], ◌∷◌, ◌++◌, reverse, Option,
  none, some, Text, text, Text_eq, ◌==◌, if◌then◌else◌, find, put, delete, keep, length, sort_by,
  Error, not_exist, empty_path, constraint, is_not_exist, Result, ok, err, Exec, pure, raise, gets,
  catch, ignore, handle, ◌>>=◌, ◌>>◌,
}
use artifact_fs_extropic.Path.{clean_path, filepath_join, filepath_dir, dot, slash}
use artifact_fs_extropic.Model.{
  BaseNode, OverlayEntry, OverlayKind, OverlayKind_eq, FileType, FileType_eq, RepoConfig,
  is_deleted,
}
use artifact_fs_extropic.Platform.{Platform, Statement}

pub record Store (D : Type 0) : Type 0 where
  pub repo : RepoConfig
  pub upper_dir : Text
  pub entries : List OverlayEntry
  pub disk : D

abbrev pub row_key : OverlayEntry → Text
row_key e = e.path

-- Get. The id of the repository is not a column: it is filled in when a row is read.
abbrev pub scan : {D : Type 0} → Store D → OverlayEntry → OverlayEntry
scan s e = record e { repo_id = s.repo.id }

unfoldable pub get : {D : Type 0} → Store D → Text → Option OverlayEntry
get s path = elim (find row_key (clean_path path) s.entries) [
  | none ↦ none
  | some e ↦ some (scan s e)
]

-- backingPath
unfoldable pub backing_path : {D : Type 0} → Store D → Text → Text
backing_path s path = filepath_join s.upper_dir (clean_path path)

module _ (p : Platform) where
  open p use {Disk, db_fault}

  -- A call on the disk.
  abbrev pub on_disk : {A : Type 0} → Exec Disk A → Exec (Store Disk) A
  on_disk m s = let (r, d) = m s.disk in (r, record s { disk = d })

  -- A single statement, which changes the rows if it does not fail.
  abbrev pub exec :
      Statement → (List OverlayEntry → List OverlayEntry) → Exec (Store Disk) (Unit {0})
  exec st f s = elim (db_fault s.disk st) [
    | some e ↦ (err e, s)
    | none ↦ (ok tt, record s { entries = f s.entries })
  ]

  -- upsertEntry
  unfoldable pub upsert_entry : OverlayEntry → Exec (Store Disk) (Unit {0})
  upsert_entry e s =
      if e.path == []
      then (err empty_path, s)
      else exec (Statement.upsert_row e.path) (put row_key e) s

  -- copyFileContents
  unfoldable pub copy_file_contents : Text → Text → ℕ → Exec Disk (Unit {0})
  copy_file_contents src dst mode = do
    contents ← p.read_all src
    p.open_trunc dst mode
    catch (p.append dst contents) (λ e. do ignore (p.close dst); raise e)
    catch (p.sync dst) (λ e. do ignore (p.close dst); raise e)
    p.close dst
