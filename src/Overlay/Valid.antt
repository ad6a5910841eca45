-- ===== src/Overlay/Valid.antt =====
-- The primary key of the overlay holds at every point, and all keys are cleaned paths.
use artifact_fs_extropic.Base.{
  ℕ, ◌≡◌, inl, inr, List, reverse, [], ◌∷◌, Option, none, some, Text, Text_eq, put, delete,
  Bool-cases, Option-cases, Result-cases, arith, Result, ok, err, Exec, handle, raise, pure, ◌>>=◌,
  Error,
}
use artifact_fs_extropic.Path.{clean_path, filepath_dir}
use artifact_fs_extropic.Path.Clean.{clean_path_idem}
use artifact_fs_extropic.Model.{
  OverlayEntry, OverlayKind, OverlayKind_eq, is_deleted, BaseNode, RepoConfig,
}
use artifact_fs_extropic.Platform.{Platform}
use artifact_fs_extropic.Overlay.{Store, get, row_key, upsert_entry, backing_path, on_disk}
use artifact_fs_extropic.Overlay.Write.{
  blank_entry, remove, create_file, mkdir, write_file, written, write_entry, set_mtime,
  ensure_copy_on_write, copy_up, store_entry, stage_file, promoted, remove_backing,
}
use artifact_fs_extropic.Overlay.Rename.{
  insert_whiteout, rename, rename_entry, commit_rename, rename_rows, move_backing,
}
use artifact_fs_extropic.Overlay.Reconcile.{
  delete_versions, remove_stale, reconcile, stale_entries, query_entries, unlink_all,
}
use artifact_fs_extropic.Overlay.View.{get-path}
use artifact_fs_extropic.Overlay.Rows.{
  ValidRows, put-ValidRows, delete-ValidRows, delete_versions-ValidRows, set_row_mtime-ValidRows,
  insert_whiteout-ValidRows,
}

-- A call that keeps the rows valid, on every branch, and the rules for the calls it is made of.
abbrev pub Keeps : {D A : Type 0} → Exec (Store D) A → Type 0
Keeps {D} m = (s : Store D) → ValidRows s.entries → ValidRows (m s).1.entries

module _ {D A B : Type 0} where
  Keeps-handle :
      (f : A → Exec (Store D) B) (h : Error → Exec (Store D) B)
      → ((a : A) → Keeps (f a))
      → ((e : Error) → Keeps (h e))
      → (r : Result A × Store D) → ValidRows r.1.entries
      → ValidRows (handle f h r).1.entries
  Keeps-handle f h kf kh (ok a, s) v = kf a s v
  Keeps-handle f h kf kh (err e, s) v = kh e s v

  Keeps-bind :
      (m : Exec (Store D) A) (f : A → Exec (Store D) B)
      → Keeps m
      → ((a : A) → Keeps (f a))
      → Keeps (m >>= f)
  Keeps-bind m f km kf s v = Keeps-handle f raise kf (λ e t w. w) (m s) (km s v)

module _ (p : Platform) where
  open p use {Disk}

  upsert_entry-Keeps : (e : OverlayEntry) → clean_path e.path ≡ e.path → Keeps (upsert_entry p e)
  unfolding upsert_entry
  upsert_entry-Keeps e h s v = ground (arith, put-ValidRows e s.entries h v)

  store_entry-Keeps : (e : OverlayEntry) → clean_path e.path ≡ e.path → Keeps (store_entry p e)
  unfolding store_entry
  store_entry-Keeps e h =
      Keeps-bind (upsert_entry p e) (λ _. pure e) (upsert_entry-Keeps e h) (λ _ s v. v)

  remove_backing-Keeps : (o : Option OverlayEntry) → Keeps (remove_backing p o)
  unfolding remove_backing
  remove_backing-Keeps none s v = v
  remove_backing-Keeps (some e) s v = ground arith

  pub remove-Keeps : (path : Text) (now : ℕ) → Keeps (remove p path now)
  unfolding remove
  remove-Keeps path now s v =
      Keeps-bind (remove_backing p (get s (clean_path path))) _ (remove_backing-Keeps _)
        (λ _.
          upsert_entry-Keeps (blank_entry s.repo.id (clean_path path) OverlayKind.delete now)
            (clean_path_idem path))
        s v

  pub mkdir-Keeps : (path : Text) (mode now : ℕ) → Keeps (mkdir p path mode now)
  unfolding mkdir
  mkdir-Keeps path mode now s v =
      Keeps-bind (on_disk p (p.mkdir_all (backing_path s (clean_path path)) mode)) _ (λ t w. w)
        (λ _. upsert_entry-Keeps _ (clean_path_idem path)) s v

  pub create_file-Keeps : (path : Text) (mode now : ℕ) → Keeps (create_file p path mode now)
  unfolding create_file
  create_file-Keeps path mode now s v =
      Keeps-bind (on_disk p (p.mkdir_all (filepath_dir (backing_path s path)) 0o755)) _ (λ t w. w)
        (λ _.
          Keeps-bind (on_disk p (p.write_empty (backing_path s path) mode)) _ (λ t w. w)
            (λ _. store_entry-Keeps _ (clean_path_idem path)))
        s v

  copy_up-Keeps :
      (repo : RepoConfig) (path : Text) (base : BaseNode) (now : ℕ)
      → Keeps (copy_up p repo path base now)
  unfolding copy_up
  copy_up-Keeps repo path base now s v =
      Keeps-bind (on_disk p (stage_file p repo base (backing_path s path))) _ (λ t w. w)
        (λ size. store_entry-Keeps (promoted p s path base now size) (clean_path_idem path)) s v

  pub ensure_copy_on_write-Keeps :
      (repo : RepoConfig) (path : Text) (base : BaseNode) (now : ℕ)
      → Keeps (ensure_copy_on_write p repo path base now)
  unfolding ensure_copy_on_write
  ensure_copy_on_write-Keeps repo path base now s v =
      ground (arith, copy_up-Keeps repo path base now s v)

  write_entry-Keeps :
      (e : OverlayEntry) (off : ℕ) (data' : Text) (now : ℕ)
      → clean_path e.path ≡ e.path
      → Keeps (write_entry p e off data' now)
  unfolding write_entry
  write_entry-Keeps e off data' now h =
      Keeps-bind (on_disk p (p.open_create e.backing_path e.mode)) _ (λ t w. w)
        λ _.
          Keeps-bind (on_disk p (p.write_at e.backing_path off data')) _ (λ t w. w)
            λ n. λ t w.
              Keeps-bind (upsert_entry p (written e (p.file_size e.backing_path t.disk) now))
                (λ _. pure n)
                (upsert_entry-Keeps (written e (p.file_size e.backing_path t.disk) now) h)
                (λ _ u x. x) t w

  pub write_file-Keeps :
      (path : Text) (off : ℕ) (data' : Text) (now : ℕ) → Keeps (write_file p path off data' now)
  unfolding write_file
  write_file-Keeps path off data' now s v = elim (Option-cases (get s path)) [
    | inl missing ↦ rw (missing, write_file) v
    | inr (e, h) ↦
        let k = (get-path s path e h).0 in
        let clean : clean_path e.path ≡ e.path = rw k (clean_path_idem path) in
        rw (h, write_file) (ground (arith, write_entry-Keeps e off data' now clean s v))
  ]

  pub set_mtime-Keeps : (path : Text) (t : ℕ) → Keeps (set_mtime p path t)
  unfolding set_mtime
  set_mtime-Keeps path t s v =
      ground (arith, set_row_mtime-ValidRows (clean_path path) t s.entries v)

  rename_rows-ValidRows :
      (d : Disk) (old : Text) (moved w : OverlayEntry) (rows rows' : List OverlayEntry)
      → clean_path moved.path ≡ moved.path
      → clean_path w.path ≡ w.path
      → ValidRows rows
      → rename_rows p d old moved w rows ≡ ok rows'
      → ValidRows rows'
  unfolding rename_rows
  rename_rows-ValidRows d old moved w rows rows' hm hw v h =
      let kept = delete-ValidRows old rows v in
      let grown = put-ValidRows moved (delete row_key old rows) hm kept in
      let done =
        insert_whiteout-ValidRows w (put row_key moved (delete row_key old rows)) hw grown in
      let e : insert_whiteout w (put row_key moved (delete row_key old rows)) ≡ rows' =
        ground arith in
      rw e at done

  commit_rename-Keeps :
      (old : Text) (moved w : OverlayEntry)
      → clean_path moved.path ≡ moved.path
      → clean_path w.path ≡ w.path
      → Keeps (commit_rename p old moved w)
  unfolding commit_rename
  commit_rename-Keeps old moved w hm hw s v =
      elim (Result-cases (rename_rows p s.disk old moved w s.entries)) [
        | inl (rows, h) ↦
            rw (h, commit_rename)
              (rename_rows-ValidRows s.disk old moved w s.entries rows hm hw v h)
        | inr (f, h) ↦ rw (h, commit_rename) v
      ]

  move_backing-Keeps :
      (old new : Text) (e : OverlayEntry) (backing : Text)
      → clean_path old ≡ old
      → Keeps (move_backing p old new e backing)
  unfolding move_backing
  move_backing-Keeps old new e backing h s v =
      let back = put-ValidRows (record e { path = old }) in
      let d = (p.move e.backing_path backing s.disk).1 in
      ground (
        arith,
        delete-ValidRows new s.entries v,
        back s.entries h v,
        back (delete row_key new s.entries) h,
      )

  pub rename-Keeps : (old new : Text) (now : ℕ) → Keeps (rename p old new now)
  unfolding rename rename_entry
  rename-Keeps old new now s v = elim (Option-cases (get s (clean_path old))) [
    | inl missing ↦ rw (missing, rename) v
    | inr (e, h) ↦ elim (Bool-cases (is_deleted e)) [
      | inl gone ↦ rw (h, rename, gone) v
      | inr kept ↦
          rw (h, rename, kept)
            (Keeps-bind
              (on_disk p (p.mkdir_all (filepath_dir (backing_path s (clean_path new))) 0o755)) _
              (λ t w. w)
              (λ _.
                Keeps-bind _ _
                  (commit_rename-Keeps (clean_path old) _ _ (clean_path_idem new)
                    (clean_path_idem old))
                  (λ _.
                    move_backing-Keeps (clean_path old) (clean_path new) e _ (clean_path_idem old)))
              s v)
    ]
  ]

  unlink_all-Keeps : (es : List OverlayEntry) → Keeps (unlink_all p es)
  unfolding unlink_all
  unlink_all-Keeps [] s v = v
  unlink_all-Keeps (e ∷ es) s v = unlink_all-Keeps es _ (ground arith)

  remove_stale-Keeps : (es : List OverlayEntry) → Keeps (remove_stale p es)
  unfolding remove_stale
  remove_stale-Keeps [] s v = v
  remove_stale-Keeps (e ∷ es) s v =
      let left = delete_versions (e ∷ es) s.entries in
      ground (
        arith,
        unlink_all-Keeps (reverse (e ∷ es)) (record s { entries = left })
            (delete_versions-ValidRows (e ∷ es) s.entries v),
      )

  pub reconcile-Keeps : (l : Option (Text → Option BaseNode)) → Keeps (reconcile p l)
  unfolding reconcile stale_entries query_entries
  reconcile-Keeps none s v = v
  reconcile-Keeps (some l) s v =
      Keeps-bind (stale_entries p l) (remove_stale p) (λ t w. ground arith) remove_stale-Keeps s v
