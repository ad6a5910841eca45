-- ===== src/Overlay/View.antt =====
-- The overlay as a map from cleaned paths to entries: what each call does to it, on every branch.
use artifact_fs_extropic.Base.{
  ℕ, ◌≡◌, refl, sym, ap, ◌∙◌, inl, inr, false, Option, some, Text, Text_eq, text_eq, text_eq_iff,
  ◌==◌, if◌then◌else◌, find, find-put, IsKeyed, All, Bool-cases, arith, Result, ok, err, find-key,
  Option-cases, handle, raise,
}
use artifact_fs_extropic.Path.{clean_path}
use artifact_fs_extropic.Path.Clean.{clean_path_idem}
use artifact_fs_extropic.Model.{
  OverlayEntry, OverlayKind, OverlayKind_eq, is_deleted, BaseNode, RepoConfig,
}
use artifact_fs_extropic.Platform.{Platform}
use artifact_fs_extropic.Overlay.{Store, get, scan, row_key, upsert_entry, backing_path}
use artifact_fs_extropic.Overlay.Write.{
  write_entry, store_entry, copy_up, stage_file, promoted, blank_entry, remove, remove_backing,
  create_file, mkdir, write_file, written, ensure_copy_on_write,
}

-- The primary key holds, and every key is a cleaned path.
pub record IsValid {D : Type 0} (s : Store D) : Type 0 where
  pub keyed : IsKeyed row_key s.entries
  pub cleaned : All (λ e. clean_path e.path ≡ e.path) s.entries

-- What `get s' q` is after a call from `s` that writes one entry if it ends well, and none if it fails.
abbrev pub view_after :
    {D A : Type 0} → Text → (A → OverlayEntry) → Store D → Text → Result A → Option OverlayEntry
view_after key entry s q (ok a) = if key == clean_path q then some (entry a) else get s q
view_after key entry s q (err e) = get s q

pub get-cong :
    {D : Type 0} (s : Store D) (a b : Text) → clean_path a ≡ clean_path b → get s a ≡ get s b
unfolding get
get-cong s a b h = rw (h, get)

pub same-view :
    {D : Type 0} (path : Text) (s : Store D) (q : Text) (e : OverlayEntry)
    → get s path ≡ some e
    → get s q ≡ view_after (clean_path path) (λ x. x) s q (ok e)
same-view path s q e h = elim (Bool-cases (text_eq (clean_path path) (clean_path q))) [
  | inl same ↦
      rw same (get-cong s q path (sym ((text_eq_iff (clean_path path) (clean_path q)).0 same)) ∙ h)
  | inr apart ↦ rw apart refl
]

pub get-path :
    {D : Type 0} (s : Store D) (path : Text) (e : OverlayEntry)
    → get s path ≡ some e
    → (e.path ≡ clean_path path) × (e.repo_id ≡ s.repo.id)
unfolding get
get-path s path e h = elim (Option-cases (find row_key (clean_path path) s.entries)) [
  | inl missing ↦ ground arith
  | inr (row, found) ↦ ground (arith, find-key row_key (clean_path path) s.entries row found)
]

kept_create :
    (k : OverlayKind)
    → (if k == OverlayKind.create then k else OverlayKind.modify)
      ≡ (if k == OverlayKind.create then OverlayKind.create else OverlayKind.modify)
kept_create k = ground (arith, OverlayKind_eq.same_iff k OverlayKind.create)

-- An entry after a write, told apart by whether it was created here.
written_lem :
    (e : OverlayEntry) (size now : ℕ)
    → written e size now ≡ record e {
      kind = if e.kind == OverlayKind.create then OverlayKind.create else OverlayKind.modify;
      size_bytes = size;
      mtime_unix_ns = now;
    }
written_lem e size now = ap (λ k. record (written e size now) { kind = k }) (kept_create e.kind)

module _ (p : Platform) where
  open p use {Disk}

  upsert_entry-view :
      (e : OverlayEntry) (s : Store Disk) (q : Text)
      → clean_path e.path ≡ e.path
      → let r = upsert_entry p e s in get r.1 q ≡ view_after e.path (λ _. scan s e) s q r.0
  unfolding upsert_entry get
  upsert_entry-view e s q h =
      ground (arith, find-put row_key (clean_path q) e s.entries, text_eq_iff e.path (clean_path q))

  -- Remove ends with a whiteout at the path, or fails and changes no entry. No other entry
  -- changes.
  pub remove-view :
      (path : Text) (now : ℕ) (s : Store Disk) (q : Text)
      → let r = remove p path now s in
        get r.1 q
        ≡ view_after
            (clean_path path)
            (λ _. blank_entry s.repo.id (clean_path path) OverlayKind.delete now)
            s
            q
            r.0
  unfolding remove remove_backing upsert_entry get
  remove-view path now s q = ground (
    arith,
    find-put row_key (clean_path q) (blank_entry s.repo.id (clean_path path) OverlayKind.delete now)
        s.entries,
    clean_path_idem path,
    text_eq_iff (clean_path path) (clean_path q),
  )

  pub mkdir-view :
      (path : Text) (mode now : ℕ) (s : Store Disk) (q : Text)
      → let r = mkdir p path mode now s in
        get r.1 q
        ≡ view_after
            (clean_path path)
            (λ _. record (blank_entry s.repo.id (clean_path path) OverlayKind.mkdir now) {
              backing_path = backing_path s path;
              mode = mode;
            })
            s
            q
            r.0
  unfolding mkdir upsert_entry get backing_path
  mkdir-view path mode now s q = ground (
    arith,
    find-put row_key (clean_path q)
        (record (blank_entry s.repo.id (clean_path path) OverlayKind.mkdir now) {
          backing_path = backing_path s path;
          mode = mode;
        })
        s.entries,
    clean_path_idem path,
    text_eq_iff (clean_path path) (clean_path q),
  )

  -- CreateFile stores the entry that it returns at the cleaned path, or fails and changes no
  -- entry. No other entry changes.
  pub create_file-view :
      (path : Text) (mode now : ℕ) (s : Store Disk) (q : Text)
      → let r = create_file p path mode now s in
        get r.1 q ≡ view_after (clean_path path) (λ e. e) s q r.0
  unfolding create_file store_entry upsert_entry get
  create_file-view path mode now s q = ground (
    arith,
    find-put row_key (clean_path q)
        (record (blank_entry s.repo.id (clean_path path) OverlayKind.create now) {
          backing_path = backing_path s path;
          mode = mode;
        })
        s.entries,
    clean_path_idem path,
    text_eq_iff (clean_path path) (clean_path q),
  )

  store_entry-view :
      (e : OverlayEntry) (s : Store Disk) (q : Text)
      → clean_path e.path ≡ e.path
      → e.repo_id ≡ s.repo.id
      → let r = store_entry p e s in get r.1 q ≡ view_after e.path (λ e. e) s q r.0
  unfolding store_entry upsert_entry get
  store_entry-view e s q h i =
      ground (arith, find-put row_key (clean_path q) e s.entries, text_eq_iff e.path (clean_path q))

  staged-view :
      (path : Text) (base : BaseNode) (now : ℕ) (s : Store Disk) (q : Text) (r : Result ℕ)
      (d : Disk)
      → let x =
          handle
            (λ size. store_entry p (promoted p s path base now size))
            raise
            (r, record s { disk = d }) in
        get x.1 q ≡ view_after (clean_path path) (λ e. e) s q x.0
  unfolding get
  staged-view path base now s q (ok size) d =
      store_entry-view (promoted p s path base now size) (record s { disk = d }) q
        (clean_path_idem path) refl
  staged-view path base now s q (err e) d = refl

  copy_up-view :
      (repo : RepoConfig) (path : Text) (base : BaseNode) (now : ℕ) (s : Store Disk) (q : Text)
      → let r = copy_up p repo path base now s in
        get r.1 q ≡ view_after (clean_path path) (λ e. e) s q r.0
  unfolding copy_up
  copy_up-view repo path base now s q =
      let (r, d) = stage_file p repo base (backing_path s path) s.disk in
      staged-view path base now s q r d

  -- EnsureCopyOnWrite returns the entry that is there unless it is a whiteout; else it stores the
  -- entry that it returns, or fails and changes no entry. No other entry changes.
  pub ensure_copy_on_write-view :
      (repo : RepoConfig) (path : Text) (base : BaseNode) (now : ℕ) (s : Store Disk) (q : Text)
      → let r = ensure_copy_on_write p repo path base now s in
        get r.1 q ≡ view_after (clean_path path) (λ e. e) s q r.0
  unfolding ensure_copy_on_write
  ensure_copy_on_write-view repo path base now s q = elim (Option-cases (get s path)) [
    | inl e ↦ rw (e, ensure_copy_on_write) (copy_up-view repo path base now s q)
    | inr (old, e) ↦ elim (Bool-cases (is_deleted old)) [
      | inl gone ↦ rw (e, ensure_copy_on_write, gone) (copy_up-view repo path base now s q)
      | inr kept ↦ rw (e, ensure_copy_on_write, kept) (same-view path s q old e)
    ]
  ]

  write_entry-view :
      (path : Text) (e : OverlayEntry) (off : ℕ) (data' : Text) (now : ℕ) (s : Store Disk)
      (q : Text)
      → e.path ≡ clean_path path
      → e.repo_id ≡ s.repo.id
      → let r = write_entry p e off data' now s in
        get r.1 q
        ≡ view_after
            (clean_path path)
            (λ _. written e (p.file_size e.backing_path r.1.disk) now)
            s
            q
            r.0
  unfolding write_entry upsert_entry get
  write_entry-view path e off data' now s q h i =
      let d = (p.open_create e.backing_path e.mode s.disk).1 in
      let d' = (p.write_at e.backing_path off data' d).1 in
      ground (
        arith,
        find-put row_key (clean_path q) (written e (p.file_size e.backing_path d') now) s.entries,
        text_eq_iff e.path (clean_path q),
        text_eq_iff (clean_path path) (clean_path q),
      )

  -- WriteFile on an entry that is no whiteout stores the size that its backing file has then and
  -- the time of the call, and marks it modified unless it was created here; if it fails it changes
  -- no entry. No other entry changes.
  pub write_file-view :
      (path : Text) (off : ℕ) (data' : Text) (now : ℕ) (s : Store Disk) (e : OverlayEntry)
      (q : Text)
      → get s path ≡ some e
      → is_deleted e ≡ false
      → let r = write_file p path off data' now s in
        let stored : OverlayEntry = record e {
          kind = if e.kind == OverlayKind.create then OverlayKind.create else OverlayKind.modify;
          size_bytes = p.file_size e.backing_path r.1.disk;
          mtime_unix_ns = now;
        } in
        get r.1 q ≡ view_after (clean_path path) (λ _. stored) s q r.0
  unfolding write_file
  write_file-view path off data' now s e q h alive =
      let (k, i) = get-path s path e h in
      rw (h, write_file, alive)
        (write_entry-view path e off data' now s q k i
          ∙ ap (λ x. view_after (clean_path path) (λ _. x) s q (write_entry p e off data' now s).0)
              (written_lem e (p.file_size e.backing_path (write_entry p e off data' now s).1.disk)
                now))
