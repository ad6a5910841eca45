-- ===== src/Engine/Views.antt =====
-- What the merged tree shows at a path after each operation.
use artifact_fs_extropic.Base.{
  arith, ℕ, ◌≡◌, refl, sym, ap, ◌∙◌, inl, inr, false, Option, none, some, Text, Text_eq, text_eq,
  text_eq_iff, if◌then◌else◌, Option-cases, Result-cases, not_exist, Result, ok, err,
}
use artifact_fs_extropic.Path.{clean_path}
use artifact_fs_extropic.Path.Clean.{clean_path_idem}
use artifact_fs_extropic.Model.{BaseNode, OverlayEntry, OverlayKind, OverlayKind_eq, is_deleted}
use artifact_fs_extropic.Platform.{Platform}
use artifact_fs_extropic.Overlay.{Store, get}
use artifact_fs_extropic.Overlay.Write.{
  ensure_copy_on_write, create_file, remove, blank_entry, store_entry,
}
use artifact_fs_extropic.Overlay.View.{
  get-cong, remove-view, create_file-view, ensure_copy_on_write-view,
}
use artifact_fs_extropic.Resolver.{ResolvedNode, from_overlay, resolve_path, base_or_missing}
use artifact_fs_extropic.Engine.{
  BlobSource, Mount, base_of, resolver, hydrate, promote, ensure_overlay, create, unlink,
}

module _ (p : Platform) (source : BlobSource p.Disk) (m : Mount) where
  open p use {Disk}

  get-clean : (s : Store Disk) (path : Text) → get s (clean_path path) ≡ get s path
  get-clean s path = get-cong s (clean_path path) path (clean_path_idem path)

  abbrev pub resolve : Store Disk → Text → Result ResolvedNode
  resolve s path = resolve_path (resolver p source m s) path

  -- What the overlay and the snapshot show together.
  abbrev pub merged : Option OverlayEntry → Text → Result ResolvedNode
  merged none path = base_or_missing (m.snapshot.get_node m.generation (clean_path path))
  merged (some e) path = if is_deleted e then err not_exist else ok (from_overlay e)

  pub resolve-merged : (s : Store Disk) (path : Text) → resolve s path ≡ merged (get s path) path
  unfolding resolve_path
  resolve-merged s path = elim (Option-cases (get s path)) [
    | inl missing ↦ ground (arith, missing, get-clean s path)
    | inr (e, found) ↦ ground (arith, found, get-clean s path)
  ]

  pub resolve-same :
      (s' s : Store Disk) (q : Text) → get s' q ≡ get s q → resolve s' q ≡ resolve s q
  resolve-same s' s q same =
      resolve-merged s' q ∙ ap (λ o. merged o q) same ∙ sym (resolve-merged s q)

  created-entry :
      (path : Text) (mode now : ℕ) (s : Store Disk) (e : OverlayEntry)
      → (create_file p path mode now s).0 ≡ ok e
      → (e.kind ≡ OverlayKind.create) × (e.mode ≡ mode)
  unfolding create_file store_entry
  created-entry path mode now s e h = ground arith

  -- x
  pub unlink-resolve :
      (path : Text) (now : ℕ) (s : Store Disk)
      → (unlink p source m path now s).0 ≡ ok tt
      → let s' = (unlink p source m path now s).1 in
        (resolve s' path ≡ err not_exist)
        × ((q : Text)
            → text_eq (clean_path path) (clean_path q) ≡ false
            → resolve s' q ≡ resolve s q)
  unlink-resolve path now s h =
      let s' = (remove p path now s).1 in
      let gone : get s' path
          ≡ some (blank_entry s.repo.id (clean_path path) OverlayKind.delete now) =
        ground (
          arith,
          h,
          remove-view p path now s path,
          text_eq_iff (clean_path path) (clean_path path),
        ) in
      (
        resolve-merged s' path ∙ ap (λ o. merged o path) gone,
        λ q apart.
            let same : get s' q ≡ get s q = ground (arith, h, apart, remove-view p path now s q) in
            resolve-same s' s q same,
      )

  -- x
  pub create-resolve :
      (path : Text) (mode now : ℕ) (s : Store Disk)
      → (create p source m path mode now s).0 ≡ ok tt
      → let s' = (create p source m path mode now s).1 in
        (e : OverlayEntry) × (resolve s' path ≡ ok (from_overlay e))
        × (e.kind ≡ OverlayKind.create)
        × (e.mode ≡ mode)
        × ((q : Text)
            → text_eq (clean_path path) (clean_path q) ≡ false
            → resolve s' q ≡ resolve s q)
  unfolding create
  create-resolve path mode now s h =
      let s' = (create_file p path mode now s).1 in
      elim (Result-cases (create_file p path mode now s).0) [
        | inr (e, failed) ↦ absurd (ground (arith, failed))
        | inl (e, done) ↦
            let (kind, same_mode) = created-entry path mode now s e done in
            let there : get s' path ≡ some e = ground (
              arith,
              done,
              create_file-view p path mode now s path,
              text_eq_iff (clean_path path) (clean_path path),
            ) in
            (
              e,
              resolve-merged s' path ∙ ap (λ o. merged o path) there ∙ ground (arith, kind),
              kind,
              same_mode,
              λ q apart.
                  resolve-same s' s q
                    (ground (arith, done, apart, create_file-view p path mode now s q)),
            )
      ]

  hydrate-get :
      (n : BaseNode) (s : Store Disk) (q : Text) → get (hydrate p source m n s).1 q ≡ get s q
  unfolding hydrate get
  hydrate-get n s q = ground arith

  promote-get :
      (path : Text) (n : BaseNode) (now : ℕ) (s : Store Disk) (q : Text)
      → let (r, s') = promote p source m path n now s in
        (text_eq (clean_path path) (clean_path q) ≡ false → get s' q ≡ get s q)
        × (r ≡ ok tt → (e : OverlayEntry) × (get s' path ≡ some e))
  unfolding promote
  promote-get path n now s q = elim (Result-cases (hydrate p source m n s).0) [
    | inr (e, failed) ↦ rw (failed, promote) (λ _. hydrate-get n s q, λ k. cc)
    | inl (x, hydrated) ↦
        let s₁ = (hydrate p source m n s).1 in
        let view = ensure_copy_on_write-view p m.repo path n now s₁ in
        elim (Result-cases (ensure_copy_on_write p m.repo path n now s₁).0) [
          | inr (e, failed) ↦
              rw (hydrated, promote, failed)
                (λ apart. rw failed at view q ∙ hydrate-get n s q, λ k. cc)
          | inl (e, done) ↦
              rw (hydrated, promote, done)
                (
                  λ apart. ground (arith, done, apart, view q) ∙ hydrate-get n s q,
                  λ _. (
                    e,
                    ground
                        (arith, done, view path, text_eq_iff (clean_path path) (clean_path path)),
                  ),
                )
        ]
  ]

  -- ensureOverlay changes no entry at another cleaned path, and if it ends well the path has an
  -- entry.
  pub ensure_overlay-get :
      (path : Text) (now : ℕ) (s : Store Disk) (q : Text)
      → let (r, s') = ensure_overlay p source m path now s in
        (text_eq (clean_path path) (clean_path q) ≡ false → get s' q ≡ get s q)
        × (r ≡ ok tt → (e : OverlayEntry) × (get s' path ≡ some e))
  unfolding ensure_overlay
  ensure_overlay-get path now s q = elim (Option-cases (get s path)) [
    | inr (e, there) ↦ rw (there, ensure_overlay) (λ _. refl, λ _. (e, there))
    | inl missing ↦ elim (Result-cases (resolve s path)) [
      | inr (e, failed) ↦ rw (missing, ensure_overlay, failed) (λ _. refl, λ k. cc)
      | inl (n, found) ↦ rw (missing, ensure_overlay, found) (promote-get path (base_of n) now s q)
    ]
  ]
