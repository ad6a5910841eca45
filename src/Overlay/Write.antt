-- ===== src/Overlay/Write.antt =====
-- internal/overlay/store.go: EnsureCopyOnWrite, CreateFile, WriteFile, Remove, Mkdir, SetMtime.
use artifact_fs_extropic.Base.{
  ℕ, List, [], ◌++◌, Option, none, some, Text, text, Text_eq, ◌==◌, if◌then◌else◌, put, find,
  not_exist, is_not_exist, ok, err, Exec, pure, raise, gets, catch, ignore, handle, ◌>>=◌, ◌>>◌,
}
use artifact_fs_extropic.Path.{clean_path, filepath_join, filepath_dir}
use artifact_fs_extropic.Model.{
  BaseNode, OverlayEntry, OverlayKind, OverlayKind_eq, RepoConfig, is_deleted,
}
use artifact_fs_extropic.Platform.{Platform, Statement}
use artifact_fs_extropic.Overlay.{
  Store, get, backing_path, upsert_entry, copy_file_contents, on_disk, exec, row_key,
}

-- An entry with the columns that the source leaves at their zero values.
abbrev pub blank_entry : Text → Text → OverlayKind → ℕ → OverlayEntry
blank_entry id path kind now = record {
  repo_id = id;
  path = path;
  kind = kind;
  backing_path = [];
  mode = 0;
  size_bytes = 0;
  mtime_unix_ns = now;
  source_oid = [];
  target_path = [];
}

-- The rows that carry a new modification time for a path.
abbrev pub set_row_mtime : Text → ℕ → List OverlayEntry → List OverlayEntry
set_row_mtime path t rows = elim (find row_key path rows) [
  | none ↦ rows
  | some e ↦ put row_key (record e { mtime_unix_ns = t }) rows
]

-- The entry that WriteFile stores: a created file stays one.
abbrev pub written : OverlayEntry → ℕ → ℕ → OverlayEntry
written e size now = record e {
  size_bytes = size;
  mtime_unix_ns = now;
  kind = if e.kind == OverlayKind.create then e.kind else OverlayKind.modify;
}

module _ (p : Platform) where
  open p use {Disk}

  -- `if err := s.upsertEntry(ctx, e); err != nil { … }; return e, nil`
  unfoldable pub store_entry : OverlayEntry → Exec (Store Disk) OverlayEntry
  store_entry e = upsert_entry p e >> pure e

  -- EnsureCopyOnWrite: the blob is copied if the cache has it, and the file starts empty if not
  copy_blob : RepoConfig → BaseNode → Text → Exec Disk (Unit {0})
  unfolding copy_file_contents
  copy_blob repo base tmp =
      if base.object_oid == []
      then pure tt
      else catch
          (copy_file_contents p (filepath_join repo.blob_cache_dir base.object_oid) tmp base.mode)
          λ e. if is_not_exist e then pure tt else do ignore (p.unlink tmp); raise e

  -- EnsureCopyOnWrite: the backing file, by way of a temporary one; its size
  pub stage_file : RepoConfig → BaseNode → Text → Exec Disk ℕ
  unfolding copy_blob
  stage_file repo base backing = do
    p.mkdir_all (filepath_dir backing) 0o755
    p.write_empty (backing ++ text ".tmp") base.mode
    copy_blob repo base (backing ++ text ".tmp")
    p.move (backing ++ text ".tmp") backing
    p.stat_size backing

  -- EnsureCopyOnWrite: the entry of the promoted file
  abbrev pub promoted : Store Disk → Text → BaseNode → ℕ → ℕ → OverlayEntry
  promoted s path base now size =
      record (blank_entry s.repo.id (clean_path path) OverlayKind.modify now) {
        backing_path = backing_path s path;
        mode = base.mode;
        size_bytes = size;
        source_oid = base.object_oid;
      }

  -- EnsureCopyOnWrite, past the test for an entry that is there already
  unfoldable pub copy_up : RepoConfig → Text → BaseNode → ℕ → Exec (Store Disk) OverlayEntry
  copy_up repo path base now s =
      handle (λ size. store_entry (promoted s path base now size)) raise
        (on_disk p (stage_file repo base (backing_path s path)) s)

  unfoldable pub ensure_copy_on_write :
      RepoConfig → Text → BaseNode → ℕ → Exec (Store Disk) OverlayEntry
  ensure_copy_on_write repo path base now s = elim (get s path) [
    | none ↦ copy_up repo path base now s
    | some e ↦ if is_deleted e then copy_up repo path base now s else (ok e, s)
  ]

  unfoldable pub create_file : Text → ℕ → ℕ → Exec (Store Disk) OverlayEntry
  create_file path mode now s =
      let backing = backing_path s path in
      let e : OverlayEntry =
        record (blank_entry s.repo.id (clean_path path) OverlayKind.create now) {
          backing_path = backing;
          mode = mode;
        } in
      let run : Exec (Store Disk) OverlayEntry = do
        on_disk p (p.mkdir_all (filepath_dir backing) 0o755)
        on_disk p (p.write_empty backing mode)
        store_entry e
      in run s

  -- WriteFile, for an entry that is there; a failed WriteAt loses the count of bytes in the model
  unfoldable pub write_entry : OverlayEntry → ℕ → Text → ℕ → Exec (Store Disk) ℕ
  write_entry e off data' now = do
    on_disk p (p.open_create e.backing_path e.mode)
    n ← on_disk p (p.write_at e.backing_path off data')
    size ← gets (λ s. p.file_size e.backing_path s.disk)
    upsert_entry p (written e size now)
    pure n

  unfoldable pub write_file : Text → ℕ → Text → ℕ → Exec (Store Disk) ℕ
  write_file path off data' now s = elim (get s path) [
    | none ↦ (err not_exist, s)
    | some e ↦ if is_deleted e then (err not_exist, s) else write_entry e off data' now s
  ]

  unfoldable pub remove_backing : Option OverlayEntry → Exec (Store Disk) (Unit {0})
  remove_backing none = pure tt
  remove_backing (some e) =
      if e.backing_path == [] then pure tt else ignore (on_disk p (p.unlink e.backing_path))

  unfoldable pub remove : Text → ℕ → Exec (Store Disk) (Unit {0})
  remove path now s =
      let path' = clean_path path in
      let run : Exec (Store Disk) (Unit {0}) = do
        remove_backing (get s path')
        upsert_entry p (blank_entry s.repo.id path' OverlayKind.delete now)
      in run s

  unfoldable pub mkdir : Text → ℕ → ℕ → Exec (Store Disk) (Unit {0})
  mkdir path mode now s =
      let path' = clean_path path in
      let run : Exec (Store Disk) (Unit {0}) = do
        on_disk p (p.mkdir_all (backing_path s path') mode)
        upsert_entry p (record (blank_entry s.repo.id path' OverlayKind.mkdir now) {
          backing_path = backing_path s path';
          mode = mode;
        })
      in run s

  unfoldable pub set_mtime : Text → ℕ → Exec (Store Disk) (Unit {0})
  set_mtime path t =
      exec p (Statement.update_row (clean_path path)) (set_row_mtime (clean_path path) t)
