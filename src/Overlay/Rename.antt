-- ===== src/Overlay/Rename.antt =====
-- internal/overlay/store.go: Rename. The transaction comes first, then the file moves.
use artifact_fs_extropic.Base.{
  ℕ, List, [], none, some, Text, Text_eq, ◌==◌, if◌then◌else◌, put, find, delete, not_exist,
  constraint, Result, ok, err, Exec, pure, raise, catch, ignore, ◌>>◌,
}
use artifact_fs_extropic.Path.{clean_path, filepath_dir}
use artifact_fs_extropic.Model.{OverlayEntry, OverlayKind, OverlayKind_eq, is_deleted}
use artifact_fs_extropic.Platform.{Platform, Statement}
use artifact_fs_extropic.Overlay.{Store, get, backing_path, on_disk, exec, row_key}
use artifact_fs_extropic.Overlay.Write.{blank_entry}

-- INSERT without ON CONFLICT: the key must be new.
abbrev pub insert_new : OverlayEntry → List OverlayEntry → Result (List OverlayEntry)
insert_new e rows = elim (find row_key e.path rows) [
  | none ↦ ok (put row_key e rows)
  | some _ ↦ err constraint
]

-- INSERT … ON CONFLICT(path) DO UPDATE SET kind='delete', mtime_unix_ns=excluded.mtime_unix_ns
abbrev pub insert_whiteout : OverlayEntry → List OverlayEntry → List OverlayEntry
insert_whiteout w rows = elim (find row_key w.path rows) [
  | none ↦ put row_key w rows
  | some old ↦
      put row_key (record old { kind = OverlayKind.delete; mtime_unix_ns = w.mtime_unix_ns }) rows
]

-- The row at the new path.
abbrev pub renamed : OverlayEntry → Text → Text → ℕ → OverlayEntry
renamed e new_path new_backing now = record e {
  path = new_path;
  kind = OverlayKind.rename;
  backing_path = new_backing;
  mtime_unix_ns = now;
  target_path = new_path;
}

module _ (p : Platform) where
  open p use {Disk, db_fault}

  abbrev pub statement_ok : Disk → Statement → Result (Unit {0})
  statement_ok d st = elim (db_fault d st) [ none ↦ ok tt | some e ↦ err e ]

  abbrev pub after {ℓ κ} : {A : Type ℓ} {B : Type κ} → Result A → (A → Result B) → Result B
  after (ok a) f = f a
  after (err e) f = err e

  -- The rows that the transaction commits; an error in it rolls everything back.
  unfoldable pub rename_rows :
      Disk → Text → OverlayEntry → OverlayEntry → List OverlayEntry → Result (List OverlayEntry)
  rename_rows d old_path moved whiteout rows = after (statement_ok d Statement.begin) λ _.
      after (statement_ok d (Statement.delete_row old_path)) λ _.
        after (statement_ok d (Statement.insert_row moved.path)) λ _.
          after (insert_new moved (delete row_key old_path rows)) λ rows'.
            after (statement_ok d (Statement.upsert_row old_path))
              λ _. after (statement_ok d Statement.commit) λ _. ok (insert_whiteout whiteout rows')

  unfoldable pub commit_rename : Text → OverlayEntry → OverlayEntry → Exec (Store Disk) (Unit {0})
  commit_rename old_path moved whiteout s =
      elim (rename_rows s.disk old_path moved whiteout s.entries) [
        | ok rows ↦ (ok tt, record s { entries = rows })
        | err e ↦ (err e, s)
      ]

  -- The file moves after the commit; if it does not, the rows are put back.
  unfoldable pub move_backing : Text → Text → OverlayEntry → Text → Exec (Store Disk) (Unit {0})
  move_backing old_path new_path e new_backing =
      if e.backing_path == []
      then pure tt
      else catch (on_disk p (p.move e.backing_path new_backing)) λ failure. do
        ignore (exec p (Statement.delete_row new_path) (delete row_key new_path))
        ignore (exec p (Statement.upsert_row old_path) (put row_key (record e { path = old_path })))
        raise failure

  unfoldable pub rename_entry : Text → Text → OverlayEntry → ℕ → Exec (Store Disk) (Unit {0})
  rename_entry old_path new_path e now s =
      let new_backing = backing_path s new_path in
      let run : Exec (Store Disk) (Unit {0}) = do
        on_disk p (p.mkdir_all (filepath_dir new_backing) 0o755)
        commit_rename old_path (renamed e new_path new_backing now)
            (blank_entry s.repo.id old_path OverlayKind.delete now)
        move_backing old_path new_path e new_backing
      in run s

  unfoldable pub rename : Text → Text → ℕ → Exec (Store Disk) (Unit {0})
  rename old_path new_path now s = elim (get s (clean_path old_path)) [
    | none ↦ (err not_exist, s)
    | some e ↦
        if is_deleted e
        then (err not_exist, s)
        else rename_entry (clean_path old_path) (clean_path new_path) e now s
  ]
