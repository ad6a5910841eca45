-- ===== src/Engine.antt =====
-- internal/fusefs/ops.go: what the FUSE operations do to the merged tree. The overlay and the resolver
-- are the models of their modules; the hydrator is an interface (model.Hydrator). The state is that
-- of the overlay, whose disk the hydrator shares.
pub mod Views
pub mod Effects
pub mod Samples
mod Tests
use artifact_fs_extropic.Base.{
  ℕ, ◌≡◌, Bool, true, false, not, ◌&&◌, ◌||◌, List, [], ◌∷◌, Option, none, some, Text, text,
  Text_eq, ◌==◌, if◌then◌else◌, ℤ, pos, Error, not_exist, exists, is_not_exist, Result, ok, err,
  Exec,
}
use artifact_fs_extropic.Path.{clean_path, filepath_join}
use artifact_fs_extropic.Model.{
  BaseNode, RepoConfig, FileType, FileType_eq, SizeState, OverlayEntry, is_deleted,
}
use artifact_fs_extropic.Platform.{Platform}
use artifact_fs_extropic.Overlay.{Store, get, on_disk}
use artifact_fs_extropic.Overlay.Write.{
  ensure_copy_on_write, create_file, write_file, remove, mkdir, set_mtime,
}
use artifact_fs_extropic.Overlay.Rename.{rename}
use artifact_fs_extropic.Overlay.Reconcile.{list_by_prefix}
use artifact_fs_extropic.Resolver.{
  BaseView, OverlayView, Resolver, ResolvedNode, from_overlay, from_base, resolve_path, getattr,
  Attributes, ReaddirEntry, readdir_typed, readdir,
}
use artifact_fs_extropic.Hydrator.{HydrationTask, classify_priority}

-- model.Hydrator, as far as the engine uses it; EnsureHydrated gives the path of the cached blob
pub record BlobSource (D : Type 0) : Type 0 where
  pub ensure_hydrated : RepoConfig → BaseNode → Exec D Text
  pub enqueue : HydrationTask → D → D
  pub read_blob : RepoConfig → BaseNode → ℤ → Exec D Text

-- The fields of Engine that do not change, and the resolver's: its snapshot and generation.
pub record Mount : Type 0 where
  pub repo : RepoConfig
  pub generation : ℕ
  pub commit_time : ℕ
  pub snapshot : BaseView

-- The zero value, which ResolvedNode has for Base where it is from the overlay.
abbrev pub no_node : BaseNode
no_node = record {
  repo_id = [];
  path = [];
  type = FileType.file;
  mode = 0;
  object_oid = [];
  size_state = SizeState.unknown;
  size_bytes = pos 0;
}

abbrev pub base_of : ResolvedNode → BaseNode
base_of (from_overlay e) = no_node
base_of (from_base n) = n

module _ (p : Platform) (source : BlobSource p.Disk) (m : Mount) where
  open p use {Disk}

  -- The engine's resolver on the overlay as it is now.
  abbrev pub resolver : Store Disk → Resolver
  resolver s = record {
    generation = m.generation;
    commit_time = m.commit_time;
    snapshot = m.snapshot;
    overlay = record { get = get s; list_by_prefix = λ dir. (list_by_prefix p dir s).0 };
  }

  -- ensureOverlay, where the path is one of the snapshot
  unfoldable pub hydrate : BaseNode → Exec (Store Disk) (Unit {0})
  hydrate n s =
      if n.object_oid == []
      then (ok tt, s)
      else let (r, s') = on_disk p (source.ensure_hydrated m.repo n) s in
        (elim r [ err e ↦ err e | ok _ ↦ ok tt ], s')

  unfoldable pub promote : Text → BaseNode → ℕ → Exec (Store Disk) (Unit {0})
  promote path n now s =
      let (r, s') = hydrate n s in
      elim r [
        | err e ↦ (err e, s')
        | ok _ ↦
            let (q, s'') = ensure_copy_on_write p m.repo path n now s' in
            (elim q [ err e ↦ err e | ok _ ↦ ok tt ], s'')
      ]

  -- ensureOverlay
  unfoldable pub ensure_overlay : Text → ℕ → Exec (Store Disk) (Unit {0})
  ensure_overlay path now s = elim (get s path) [
    | some _ ↦ (ok tt, s)
    | none ↦ elim (resolve_path (resolver s) path) [
      | err e ↦ (err e, s)
      | ok n ↦ promote path (base_of n) now s
    ]
  ]

  -- Read, where the path has no entry in the overlay
  unfoldable pub read_base : BaseNode → ℕ → ℕ → Exec (Store Disk) Text
  read_base n off size s =
      let (r, s') = on_disk p (source.ensure_hydrated m.repo n) s in
      elim r [
        | err e ↦ (err e, s')
        | ok cache_path ↦ on_disk p (p.read_chunk cache_path off size) s'
      ]

  -- Read
  unfoldable pub read : Text → ℕ → ℕ → Exec (Store Disk) Text
  read path off size s = elim (get s path) [
    | some ov ↦
        if is_deleted ov
        then (err not_exist, s)
        else on_disk p (p.read_chunk ov.backing_path off size) s
    | none ↦ elim (resolve_path (resolver s) path) [
      | err e ↦ (err e, s)
      | ok n ↦ read_base (base_of n) off size s
    ]
  ]

  -- Write; `now` is read by each call of the overlay
  unfoldable pub create_and_write : Text → ℕ → Text → ℕ → Exec (Store Disk) ℕ
  create_and_write path off data' now s =
      let (r, s') = create_file p path 0o644 now s in
      elim r [ err e ↦ (err e, s') | ok _ ↦ write_file p path off data' now s' ]

  unfoldable pub write : Text → ℕ → Text → ℕ → Exec (Store Disk) ℕ
  write path off data' now s =
      let (r, s') = ensure_overlay path now s in
      elim r [
        | ok _ ↦ write_file p path off data' now s'
        | err e ↦ if is_not_exist e then create_and_write path off data' now s' else (err e, s')
      ]

  -- Create
  unfoldable pub create : Text → ℕ → ℕ → Exec (Store Disk) (Unit {0})
  create path mode now s =
      let (r, s') = create_file p path mode now s in (elim r [ err e ↦ err e | ok _ ↦ ok tt ], s')

  -- Unlink
  abbrev pub unlink : Text → ℕ → Exec (Store Disk) (Unit {0})
  unlink path now s = remove p path now s

  -- Mkdir
  abbrev pub make_dir : Text → ℕ → ℕ → Exec (Store Disk) (Unit {0})
  make_dir path mode now s = mkdir p path mode now s

  -- Rename: a tracked directory gets an entry, and a tracked file is promoted
  unfoldable pub promote_old : Text → ℕ → Exec (Store Disk) (Unit {0})
  promote_old path now s = elim (get s path) [
    | some _ ↦ (ok tt, s)
    | none ↦ elim (resolve_path (resolver s) path) [
      | err e ↦ (err e, s)
      | ok n ↦
          if (base_of n).type == FileType.dir
          then mkdir p path (base_of n).mode now s
          else ensure_overlay path now s
    ]
  ]

  unfoldable pub rename_path : Text → Text → ℕ → Exec (Store Disk) (Unit {0})
  rename_path old new now s =
      let (r, s') = promote_old old now s in
      elim r [ err e ↦ (err e, s') | ok _ ↦ rename p old new now s' ]

  -- Rmdir
  unfoldable pub rmdir : Text → ℕ → Exec (Store Disk) (Unit {0})
  rmdir path now s = elim (readdir (resolver s) path) [
    | err e ↦ (err e, s)
    | ok [] ↦ remove p path now s
    | ok (_ ∷ _) ↦ (err exists, s)
  ]

  -- SetMtime
  abbrev pub touch : Text → ℕ → Store Disk → Store Disk
  touch path t s = (set_mtime p path t s).1

  -- Truncate
  unfoldable pub truncate_entry : Option OverlayEntry → ℕ → Exec (Store Disk) (Unit {0})
  truncate_entry none size s = (err not_exist, s)
  truncate_entry (some ov) size s = on_disk p (p.truncate ov.backing_path size) s

  unfoldable pub truncate : Text → ℕ → ℕ → Exec (Store Disk) (Unit {0})
  truncate path size now s =
      let (r, s') = ensure_overlay path now s in
      elim r [ err e ↦ (err e, s') | ok _ ↦ truncate_entry (get s' path) size s' ]

  -- PrefetchDir: the task for one entry of a listing
  abbrev pub prefetch_task : Text → Text → ℕ → HydrationTask
  prefetch_task path oid now = record {
    repo_id = m.repo.id;
    path = path;
    object_oid = oid;
    priority = classify_priority path;
    reason = text "prefetch";
    enqueued_at = now;
  }

  abbrev pub node_task : Text → ℕ → Option BaseNode → Option HydrationTask
  node_task path now none = none
  node_task path now (some n) =
      if n.object_oid == [] then none else some (prefetch_task path n.object_oid now)

  unfoldable pub entry_task : Text → ℕ → ReaddirEntry → Option HydrationTask
  entry_task dir_path now e =
      if not (e.type == FileType.file)
      then none
      else let path = clean_path (filepath_join dir_path e.name) in
        node_task path now (m.snapshot.get_node m.generation path)

  abbrev pub enqueue_task : Option HydrationTask → Store Disk → Store Disk
  enqueue_task none s = s
  enqueue_task (some t) s = record s { disk = source.enqueue t s.disk }

  -- PrefetchDir
  unfoldable pub prefetch_dir : Text → List ReaddirEntry → ℕ → Store Disk → Store Disk
  unfolding entry_task
  prefetch_dir dir_path [] now s = s
  prefetch_dir dir_path (e ∷ es) now s =
      prefetch_dir dir_path es now (enqueue_task (entry_task dir_path now e) s)
