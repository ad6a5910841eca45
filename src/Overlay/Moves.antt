-- ===== src/Overlay/Moves.antt =====
-- Rename: what it does to the entries on every branch, and what it leaves behind.
use artifact_fs_extropic.Base.{
  ℕ, ◌≡◌, ◌≢◌, refl, sym, ◌∙◌, ◌⊎◌, inl, inr, false, List, none, some, Text, Text_eq, text_eq_iff,
  ◌==◌, if◌then◌else◌, find, put, delete, find-put, find-delete, Bool-cases, arith, ok, err,
  Option-cases, Result-cases, Error, not_exist,
}
use artifact_fs_extropic.Path.{clean_path, filepath_dir}
use artifact_fs_extropic.Path.Clean.{clean_path_idem}
use artifact_fs_extropic.Model.{OverlayEntry, OverlayKind, OverlayKind_eq, is_deleted}
use artifact_fs_extropic.Platform.{Platform, Statement}
use artifact_fs_extropic.Overlay.{Store, get, row_key, backing_path}
use artifact_fs_extropic.Overlay.Write.{blank_entry}
use artifact_fs_extropic.Overlay.Rename.{
  rename, renamed, rename_entry, commit_rename, move_backing, rename_rows,
}
use artifact_fs_extropic.Overlay.View.{get-path, get-cong, same-view}

module _ (p : Platform) where
  open p use {Disk}

  -- The rows that a rename commits, by their key.
  rename_rows-find :
      (d : Disk) (old new : Text) (moved w : OverlayEntry) (rows rows' : List OverlayEntry)
      (q : Text)
      → moved.path ≡ new
      → w.path ≡ old
      → (old == new) ≡ false
      → rename_rows p d old moved w rows ≡ ok rows'
      → (find row_key new rows ≡ none)
        × (find row_key q rows'
            ≡ (if old == q then some w else if new == q then some moved else find row_key q rows))
  unfolding rename_rows
  rename_rows-find d old new moved w rows rows' q e f n h = ground (
    arith,
    find-delete row_key new old rows,
    find-delete row_key q old rows,
    find-delete row_key old old rows,
    find-put row_key old moved (delete row_key old rows),
    find-put row_key q moved (delete row_key old rows),
    find-put row_key q w (put row_key moved (delete row_key old rows)),
    text_eq_iff old new,
    text_eq_iff old q,
    text_eq_iff new q,
    text_eq_iff new old,
    text_eq_iff old old,
  )

  -- The commit: either the rows of `rename_rows`, or no change.
  commit_rename-cases :
      (old : Text) (moved w : OverlayEntry) (s : Store Disk)
      → ((rows : List OverlayEntry) × (rename_rows p s.disk old moved w s.entries ≡ ok rows)
          × (commit_rename p old moved w s ≡ (ok tt, record s { entries = rows })))
        ⊎ ((f : Error) × (commit_rename p old moved w s ≡ (err f, s)))
  unfolding commit_rename
  commit_rename-cases old moved w s =
      elim (Result-cases (rename_rows p s.disk old moved w s.entries)) [
        | inl (rows, h) ↦ inl (rows, h, rw (h, commit_rename))
        | inr (f, h) ↦ inr (f, rw (h, commit_rename))
      ]

  move_backing-ok :
      (old new : Text) (e : OverlayEntry) (backing : Text) (s : Store Disk)
      → let r = move_backing p old new e backing s in
        (r.0 ≡ ok tt) → (r.1.entries ≡ s.entries) × (r.1.repo ≡ s.repo)
  unfolding move_backing
  move_backing-ok old new e backing s = ground arith

  -- If the file does not move, the two rows are put back.
  move_backing-err :
      (old new : Text) (e : OverlayEntry) (backing : Text) (s : Store Disk) (f : Error)
      → ((d : Disk) → p.db_fault d (Statement.delete_row new) ≡ none)
      → ((d : Disk) → p.db_fault d (Statement.upsert_row old) ≡ none)
      → let r = move_backing p old new e backing s in
        (r.0 ≡ err f)
        → (r.1.entries ≡ put row_key (record e { path = old }) (delete row_key new s.entries))
          × (r.1.repo ≡ s.repo)
  unfolding move_backing
  move_backing-err old new e backing s f hd hu =
      let d = (p.move e.backing_path backing s.disk).1 in ground (arith, hd d, hu d)

  rename_entry-ok :
      (old new : Text) (e : OverlayEntry) (now : ℕ) (s s' : Store Disk) (k : Text)
      → (old == new) ≡ false
      → rename_entry p old new e now s ≡ (ok tt, s')
      → (find row_key new s.entries ≡ none)
        × (find row_key k s'.entries ≡ (
            if old == k
            then some (blank_entry s.repo.id old OverlayKind.delete now)
            else if new == k
            then some (renamed e new (backing_path s new) now)
            else find row_key k s.entries))
        × (s'.repo ≡ s.repo)
  unfolding rename_entry
  rename_entry-ok old new e now s s' k n h =
      let moved = renamed e new (backing_path s new) now in
      let w = blank_entry s.repo.id old OverlayKind.delete now in
      let d = (p.mkdir_all (filepath_dir (backing_path s new)) 0o755 s.disk).1 in
      let s₁ : Store Disk = record s { disk = d } in
      elim (commit_rename-cases old moved w s₁) [
        | inl (rows, committed, step) ↦
            let facts = rename_rows-find d old new moved w s.entries rows k refl refl n committed in
            ground (
              arith,
              step,
              facts,
              move_backing-ok old new e (backing_path s new) (record s₁ { entries = rows }),
            )
        | inr (f, step) ↦ ground (arith, step)
      ]

  -- What a failed rename leaves: the rows as they were, or the row of `e` put back at the old path.
  rename_entry-err :
      (old new : Text) (e : OverlayEntry) (now : ℕ) (s s' : Store Disk) (f : Error) (k : Text)
      → (old == new) ≡ false
      → ((d : Disk) → p.db_fault d (Statement.delete_row new) ≡ none)
      → ((d : Disk) → p.db_fault d (Statement.upsert_row old) ≡ none)
      → rename_entry p old new e now s ≡ (err f, s')
      → ((find row_key k s'.entries ≡ find row_key k s.entries)
          ⊎ (find row_key k s'.entries
              ≡ (if old == k then some (record e { path = old }) else find row_key k s.entries)))
        × (s'.repo ≡ s.repo)
  unfolding rename_entry
  rename_entry-err old new e now s s' f k n hd hu h =
      let moved = renamed e new (backing_path s new) now in
      let w = blank_entry s.repo.id old OverlayKind.delete now in
      let d = (p.mkdir_all (filepath_dir (backing_path s new)) 0o755 s.disk).1 in
      let s₁ : Store Disk = record s { disk = d } in
      elim (commit_rename-cases old moved w s₁) [
        | inl (rows, committed, step) ↦
            let facts = rename_rows-find d old new moved w s.entries rows k refl refl n committed in
            ground (
              arith,
              step,
              facts,
              move_backing-err old new e (backing_path s new) (record s₁ { entries = rows }) f hd
                  hu,
              find-delete row_key k new rows,
              find-put row_key k (record e { path = old }) (delete row_key new rows),
              text_eq_iff new k,
            )
        | inr (g, step) ↦ ground (arith, step)
      ]

  rename-alive :
      (old new : Text) (now : ℕ) (s : Store Disk) (e : OverlayEntry)
      → get s old ≡ some e
      → (rename p old new now s ≡ (err not_exist, s))
        ⊎ (rename p old new now s ≡ rename_entry p (clean_path old) (clean_path new) e now s)
  unfolding rename
  rename-alive old new now s e h =
      let at = get-cong s (clean_path old) old (clean_path_idem old) ∙ h in
      elim (Bool-cases (is_deleted e)) [
        | inl gone ↦ inl (rw (at, rename, gone))
        | inr kept ↦ inr (rw (at, rename, kept))
      ]

  -- A rename between different cleaned paths that ends well needed a free new path. It leaves a
  -- whiteout at the old path and the entry, of kind rename, at the new one; no other entry
  -- changes.
  pub rename-view :
      (old new : Text) (now : ℕ) (s s' : Store Disk) (e : OverlayEntry) (q : Text)
      → get s old ≡ some e
      → (clean_path old == clean_path new) ≡ false
      → rename p old new now s ≡ (ok tt, s')
      → (get s new ≡ none)
        × (get s' q ≡ (
            if clean_path old == clean_path q
            then some (blank_entry s.repo.id (clean_path old) OverlayKind.delete now)
            else if clean_path new == clean_path q
            then some (renamed e (clean_path new) (backing_path s (clean_path new)) now)
            else get s q))
  unfolding get
  rename-view old new now s s' e q h n r = elim (rename-alive old new now s e h) [
    | inl refused ↦ absurd (cc (sym r ∙ refused))
    | inr step ↦
        let (i, k) = get-path s old e h in
        ground (
          arith,
          rename_entry-ok (clean_path old) (clean_path new) e now s s' (clean_path q) n
              (sym step ∙ r),
          i,
          k,
        )
  ]

  -- Renaming an entry onto a different cleaned path that has any row, a whiteout included, never
  -- ends well.
  pub rename-taken :
      (old new : Text) (now : ℕ) (s : Store Disk) (e x : OverlayEntry)
      → get s old ≡ some e
      → get s new ≡ some x
      → (clean_path old == clean_path new) ≡ false
      → (rename p old new now s).0 ≢ ok tt
  rename-taken old new now s e x h t n r =
      let (free, _) =
        rename-view old new now s (rename p old new now s).1 e new h n (ground arith) in
      cc (sym free ∙ t)

  rename-missing :
      (old new : Text) (now : ℕ) (s : Store Disk)
      → get s old ≡ none
      → rename p old new now s ≡ (err not_exist, s)
  unfolding rename
  rename-missing old new now s h =
      let at = get-cong s (clean_path old) old (clean_path_idem old) ∙ h in rw (at, rename)

  -- A failed rename between different cleaned paths changes no entry, also when the file did not
  -- move after the commit, as long as the statements that put the rows back do not fail
  -- themselves.
  pub rename-failed :
      (old new : Text) (now : ℕ) (s s' : Store Disk) (f : Error) (q : Text)
      → (clean_path old == clean_path new) ≡ false
      → ((d : Disk) → p.db_fault d (Statement.delete_row (clean_path new)) ≡ none)
      → ((d : Disk) → p.db_fault d (Statement.upsert_row (clean_path old)) ≡ none)
      → rename p old new now s ≡ (err f, s')
      → get s' q ≡ get s q
  unfolding get
  rename-failed old new now s s' f q n hd hu r = elim (Option-cases (get s old)) [
    | inl missing ↦ ground (arith, rename-missing old new now s missing)
    | inr (e, h) ↦ elim (rename-alive old new now s e h) [
      | inl refused ↦ ground (arith, refused)
      | inr step ↦
          let (i, k) = get-path s old e h in
          ground (
            arith,
            rename_entry-err (clean_path old) (clean_path new) e now s s' f (clean_path q) n hd hu
                (sym step ∙ r),
            same-view old s q e h,
            i,
            k,
          )
    ]
  ]
