-- ===== src/Engine/Effects.antt =====
-- What reading, writing, truncating, renaming and removing directories do to the merged tree.
use artifact_fs_extropic.Base.{
  arith, ℕ, ◌≡◌, ◌≢◌, refl, sym, ap, ◌∙◌, inl, inr, false, List, [], ◌∷◌, some, Text, Text_eq,
  text_eq, text_eq_iff, ◌==◌, if◌then◌else◌, Bool-cases, Option-cases, Result-cases, not_exist,
  is_not_exist, Result, ok, err, pos,
}
use artifact_fs_extropic.Path.{clean_path}
use artifact_fs_extropic.Model.{
  OverlayEntry, OverlayKind, OverlayKind_eq, is_deleted, node_type, FileType, FileType_eq,
}
use artifact_fs_extropic.Platform.{Platform}
use artifact_fs_extropic.Overlay.{Store, get, backing_path}
use artifact_fs_extropic.Overlay.Write.{
  create_file, write_file, remove, mkdir, blank_entry, written,
}
use artifact_fs_extropic.Overlay.View.{mkdir-view, write_file-view}
use artifact_fs_extropic.Overlay.Rename.{rename, renamed}
use artifact_fs_extropic.Overlay.Moves.{rename-view}
use artifact_fs_extropic.Resolver.{from_overlay, getattr, Attributes, readdir}
use artifact_fs_extropic.Engine.{
  BlobSource, Mount, base_of, resolver, ensure_overlay, read_base, read, create_and_write, write,
  promote_old, rename_path, rmdir, truncate_entry, truncate,
}
use artifact_fs_extropic.Engine.Views.{
  resolve, merged, resolve-merged, resolve-same, unlink-resolve, ensure_overlay-get,
}

no_names : (names : List Text) → ((n : Text) (ns : List Text) → names ≢ n ∷ ns) → names ≡ []
no_names [] h = refl
no_names (n ∷ ns) h = absurd (h n ns refl)

module _ (p : Platform) (source : BlobSource p.Disk) (m : Mount) where
  open p use {Disk}

  -- x
  pub read-entries :
      (path : Text) (off size : ℕ) (s : Store Disk)
      → (read p source m path off size s).1.entries ≡ s.entries
  unfolding read read_base
  read-entries path off size s = ground arith

  -- If Rmdir ends well, the listing of the directory was empty, the merged tree shows nothing at
  -- the path afterwards, and at any other path what it showed before.
  pub rmdir-empty :
      (path : Text) (now : ℕ) (s : Store Disk)
      → (rmdir p source m path now s).0 ≡ ok tt
      → let s' = (rmdir p source m path now s).1 in
        (readdir (resolver p source m s) path ≡ ok [])
        × (resolve p source m s' path ≡ err not_exist)
        × ((q : Text)
            → text_eq (clean_path path) (clean_path q) ≡ false
            → resolve p source m s' q ≡ resolve p source m s q)
  unfolding rmdir
  rmdir-empty path now s h = elim (Result-cases (readdir (resolver p source m s) path)) [
    | inr (e, failed) ↦ absurd (ground (arith, failed))
    | inl (names, listed) ↦
        let empty = no_names names (λ n ns q. ground (arith, listed, q)) in
        let done : (remove p path now s).0 ≡ ok tt = ground (arith, listed, empty) in
        let (gone, same) = unlink-resolve p source m path now s done in
        let e : (rmdir p source m path now s).1 ≡ (remove p path now s).1 =
          ground (arith, listed, empty) in
        rw (listed, rmdir, empty) (refl, gone, same)
  ]

  -- The attributes of what the overlay has at a path.
  abbrev shown_attributes : OverlayEntry → Result Attributes
  shown_attributes e =
      if is_deleted e
      then err not_exist
      else ok (record {
        mode = e.mode;
        size = pos (e.size_bytes);
        type = node_type e;
        mtime = e.mtime_unix_ns;
      })

  getattr-overlay :
      (s : Store Disk) (path : Text) (e : OverlayEntry)
      → get s path ≡ some e
      → getattr (resolver p source m s) path ≡ shown_attributes e
  unfolding getattr
  getattr-overlay s path e h =
      let shown : resolve p source m s path ≡ merged p source m (some e) path =
        resolve-merged p source m s path ∙ ap (λ o. merged p source m o path) h in
      elim (Bool-cases (is_deleted e)) [
        | inl gone ↦ ground (arith, shown, gone)
        | inr kept ↦ ground (arith, shown, kept)
      ]

  truncate-get :
      (path : Text) (size now : ℕ) (s : Store Disk) (e : OverlayEntry)
      → get s path ≡ some e
      → get (truncate p source m path size now s).1 path ≡ some e
  unfolding truncate truncate_entry ensure_overlay
  truncate-get path size now s e h = unfold get in ground (arith, h)

  -- Truncate of a path with an entry in the overlay changes none of the attributes that Getattr
  -- gives for it, the size included, whether it ends well or not.
  pub truncate-getattr :
      (path : Text) (size now : ℕ) (s : Store Disk) (e : OverlayEntry)
      → get s path ≡ some e
      → let s' = (truncate p source m path size now s).1 in
        getattr (resolver p source m s') path ≡ getattr (resolver p source m s) path
  truncate-getattr path size now s e h =
      getattr-overlay (truncate p source m path size now s).1 path e
        (truncate-get path size now s e h)
      ∙ sym (getattr-overlay s path e h)

  -- WriteFile leaves an entry that is no whiteout, with the size that its file has then.
  write_file-there :
      (path : Text) (off : ℕ) (data' : Text) (now n : ℕ) (s : Store Disk)
      → (write_file p path off data' now s).0 ≡ ok n
      → let s' = (write_file p path off data' now s).1 in
        (e : OverlayEntry) × (get s' path ≡ some e)
        × (is_deleted e ≡ false)
        × (e.size_bytes ≡ p.file_size e.backing_path s'.disk)
  unfolding write_file
  write_file-there path off data' now n s h = elim (Option-cases (get s path)) [
    | inl missing ↦ absurd (ground (arith, missing))
    | inr (e, found) ↦ elim (Bool-cases (is_deleted e)) [
      | inl gone ↦ absurd (ground (arith, found, gone))
      | inr kept ↦
          let s' = (write_file p path off data' now s).1 in
          let view = write_file-view p path off data' now s e path found kept in
          (
            written e (p.file_size e.backing_path s'.disk) now,
            ground (arith, h, view, text_eq_iff (clean_path path) (clean_path path)),
            ground (arith, kept),
            refl,
          )
    ]
  ]

  write_file-resolve :
      (path : Text) (off : ℕ) (data' : Text) (now n : ℕ) (s : Store Disk)
      → (write_file p path off data' now s).0 ≡ ok n
      → let s' = (write_file p path off data' now s).1 in
        (e : OverlayEntry) × (resolve p source m s' path ≡ ok (from_overlay e))
        × (e.size_bytes ≡ p.file_size e.backing_path s'.disk)
  write_file-resolve path off data' now n s h =
      let s' = (write_file p path off data' now s).1 in
      let (e, there, kept, sized) = write_file-there path off data' now n s h in
      (
        e,
        resolve-merged p source m s' path
            ∙ ap (λ o. merged p source m o path) there
            ∙ ground (arith, kept),
        sized,
      )

  -- The tree shows an entry of the overlay at a path, with the size of its file.
  abbrev pub IsWritten : Text → Store Disk → Type 0
  IsWritten path s =
      (e : OverlayEntry) × (resolve p source m s path ≡ ok (from_overlay e))
      × (e.size_bytes ≡ p.file_size e.backing_path s.disk)

  create_and_write-resolve :
      (path : Text) (off : ℕ) (data' : Text) (now n : ℕ) (s : Store Disk)
      → (create_and_write p source m path off data' now s).0 ≡ ok n
      → IsWritten path (create_and_write p source m path off data' now s).1
  unfolding create_and_write
  create_and_write-resolve path off data' now n s h =
      let s₁ = (create_file p path 0o644 now s).1 in
      elim (Result-cases (create_file p path 0o644 now s).0) [
        | inr (f, failed) ↦ absurd (ground (arith, failed))
        | inl (x, created) ↦
            rw (created, create_and_write)
              (write_file-resolve path off data' now n s₁ (ground (arith, created)))
      ]

  -- After a Write that ended well, whether the path was tracked, had an entry or was new, the
  -- merged tree shows an entry of the overlay at it, with the size that its backing file has.
  pub write-resolve :
      (path : Text) (off : ℕ) (data' : Text) (now n : ℕ) (s : Store Disk)
      → (write p source m path off data' now s).0 ≡ ok n
      → IsWritten path (write p source m path off data' now s).1
  unfolding write
  write-resolve path off data' now n s h =
      let s₁ = (ensure_overlay p source m path now s).1 in
      elim (Result-cases (ensure_overlay p source m path now s).0) [
        | inl (x, there) ↦
            rw (there, write) (write_file-resolve path off data' now n s₁ (ground (arith, there)))
        | inr (e, failed) ↦ elim (Bool-cases (is_not_exist e)) [
          | inr other_error ↦ absurd (ground (arith, failed, other_error))
          | inl missing ↦
              rw (failed, write, missing)
                (create_and_write-resolve path off data' now n s₁ (ground (arith, failed, missing)))
        ]
      ]

  promote_old-get :
      (old : Text) (now : ℕ) (s : Store Disk) (q : Text)
      → (promote_old p source m old now s).0 ≡ ok tt
      → let s' = (promote_old p source m old now s).1 in
        (text_eq (clean_path old) (clean_path q) ≡ false → get s' q ≡ get s q)
        × ((e : OverlayEntry) × (get s' old ≡ some e))
  unfolding promote_old
  promote_old-get old now s q h = elim (Option-cases (get s old)) [
    | inr (e, there) ↦ rw (there, promote_old) (λ _. refl, (e, there))
    | inl missing ↦ elim (Result-cases (resolve p source m s old)) [
      | inr (e, failed) ↦ absurd (ground (arith, missing, failed))
      | inl (n, found) ↦ elim (Bool-cases ((base_of n).type == FileType.dir)) [
        | inl is_dir ↦
            let made : (mkdir p old (base_of n).mode now s).0 ≡ ok tt =
              ground (arith, missing, found, is_dir) in
            rw (missing, promote_old, found, is_dir)
              (
                λ apart. ground (arith, made, apart, mkdir-view p old (base_of n).mode now s q),
                (
                  record (blank_entry s.repo.id (clean_path old) OverlayKind.mkdir now) {
                    backing_path = backing_path s old;
                    mode = (base_of n).mode;
                  },
                  ground (
                    arith,
                    made,
                    mkdir-view p old (base_of n).mode now s old,
                    text_eq_iff (clean_path old) (clean_path old),
                  ),
                ),
              )
        | inr is_file ↦
            let (same, there) = ensure_overlay-get p source m old now s q in
            rw (missing, promote_old, found, is_file)
              (same, there (ground (arith, missing, found, is_file)))
      ]
    ]
  ]

  -- After a Rename between different cleaned paths that ended well, the merged tree shows nothing
  -- at the old path and a file at the new one, whatever stood at the old path, and at any other
  -- path what it showed before.
  pub rename_path-resolve :
      (old new : Text) (now : ℕ) (s : Store Disk) (q : Text)
      → text_eq (clean_path old) (clean_path new) ≡ false
      → (rename_path p source m old new now s).0 ≡ ok tt
      → let s' = (rename_path p source m old new now s).1 in
        (resolve p source m s' old ≡ err not_exist)
        × ((e : OverlayEntry) × (resolve p source m s' new ≡ ok (from_overlay e))
            × (node_type e ≡ FileType.file))
        × (text_eq (clean_path old) (clean_path q) ≡ false
            → text_eq (clean_path new) (clean_path q) ≡ false
            → resolve p source m s' q ≡ resolve p source m s q)
  unfolding rename_path
  rename_path-resolve old new now s q apart h =
      let s₁ = (promote_old p source m old now s).1 in
      elim (Result-cases (promote_old p source m old now s).0) [
        | inr (f, failed) ↦ absurd (ground (arith, failed))
        | inl (x, there) ↦
            let s' = (rename p old new now s₁).1 in
            let done : rename p old new now s₁ ≡ (ok tt, s') = ground (arith, there) in
            let (same, (e, entry)) = promote_old-get old now s q there in
            let at = λ (x : Text). (rename-view p old new now s₁ s' e x entry apart done).1 in
            let gone : get s' old
                ≡ some (blank_entry s₁.repo.id (clean_path old) OverlayKind.delete now) =
              ground (arith, at old, text_eq_iff (clean_path old) (clean_path old)) in
            let moved : get s' new
                ≡ some (renamed e (clean_path new) (backing_path s₁ (clean_path new)) now) =
              ground (arith, at new, apart, text_eq_iff (clean_path new) (clean_path new)) in
            rw (there, rename_path)
              (
                resolve-merged p source m s' old ∙ ap (λ o. merged p source m o old) gone,
                (
                  renamed e (clean_path new) (backing_path s₁ (clean_path new)) now,
                  resolve-merged p source m s' new
                      ∙ ap (λ o. merged p source m o new) moved
                      ∙ ground arith,
                  refl,
                ),
                λ not_old not_new.
                    resolve-same p source m s' s q
                      (ground (arith, at q, not_old, not_new) ∙ same not_old),
              )
      ]
