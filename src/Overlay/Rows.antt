-- ===== src/Overlay/Rows.antt =====
-- Rows under the primary key, with cleaned paths: what the statements keep.
use artifact_fs_extropic.Base.{
  ℕ, ◌≡◌, inl, inr, List, [], ◌∷◌, Text, Text_eq, find, put, delete, keep-All, put-All, delete-All,
  find-All, IsKeyed, put-IsKeyed, delete-IsKeyed, keep-IsKeyed, All, Option-cases,
}
use artifact_fs_extropic.Path.{clean_path}
use artifact_fs_extropic.Model.{OverlayEntry, OverlayKind, OverlayKind_eq}
use artifact_fs_extropic.Overlay.{row_key}
use artifact_fs_extropic.Overlay.Write.{set_row_mtime}
use artifact_fs_extropic.Overlay.Rename.{insert_whiteout}
use artifact_fs_extropic.Overlay.Reconcile.{delete_version, delete_versions}

-- What IsValid says of the rows.
abbrev pub ValidRows : List OverlayEntry → Type 0
ValidRows rows = IsKeyed row_key rows × All (λ e. clean_path e.path ≡ e.path) rows

pub put-ValidRows :
    (e : OverlayEntry) (rows : List OverlayEntry)
    → clean_path e.path ≡ e.path
    → ValidRows rows
    → ValidRows (put row_key e rows)
put-ValidRows e rows h v =
    (put-IsKeyed row_key e rows v.0, put-All row_key (λ x. clean_path x.path ≡ x.path) e rows h v.1)

pub delete-ValidRows :
    (k : Text) (rows : List OverlayEntry) → ValidRows rows → ValidRows (delete row_key k rows)
delete-ValidRows k rows v = (
  delete-IsKeyed row_key k rows v.0,
  delete-All row_key (λ x. clean_path x.path ≡ x.path) k rows v.1,
)

pub delete_versions-ValidRows :
    (es rows : List OverlayEntry) → ValidRows rows → ValidRows (delete_versions es rows)
unfolding delete_versions delete_version
delete_versions-ValidRows [] rows v = v
delete_versions-ValidRows (e ∷ es) rows v =
    delete_versions-ValidRows es (delete_version e rows)
      (keep-IsKeyed row_key _ rows v.0, keep-All _ _ rows v.1)

pub set_row_mtime-ValidRows :
    (path : Text) (t : ℕ) (rows : List OverlayEntry)
    → ValidRows rows
    → ValidRows (set_row_mtime path t rows)
set_row_mtime-ValidRows path t rows v = elim (Option-cases (find row_key path rows)) [
  | inl missing ↦ rw (missing, set_row_mtime) v
  | inr (e, h) ↦
      rw (h, set_row_mtime)
        (put-ValidRows (record e { mtime_unix_ns = t }) rows
          (find-All row_key (λ x. clean_path x.path ≡ x.path) path rows e v.1 h) v)
]

pub insert_whiteout-ValidRows :
    (w : OverlayEntry) (rows : List OverlayEntry)
    → clean_path w.path ≡ w.path
    → ValidRows rows
    → ValidRows (insert_whiteout w rows)
insert_whiteout-ValidRows w rows h v = elim (Option-cases (find row_key w.path rows)) [
  | inl missing ↦ rw (missing, insert_whiteout) (put-ValidRows w rows h v)
  | inr (old, found) ↦
      rw (found, insert_whiteout)
        (put-ValidRows (record old { kind = OverlayKind.delete; mtime_unix_ns = w.mtime_unix_ns })
          rows (find-All row_key (λ x. clean_path x.path ≡ x.path) w.path rows old v.1 found) v)
]
