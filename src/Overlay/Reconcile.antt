-- ===== src/Overlay/Reconcile.antt =====
-- internal/overlay/store.go: Reconcile, DirtyCount, ListByPrefix and the query below them.
-- Reconcile reads the table first and deletes later, so its two halves are two functions: what
-- other calls do in between is a change of the state that the second half starts from.
use artifact_fs_extropic.Base.{
  ℕ, Bool, true, false, not, ◌&&◌, List, [], ◌∷◌, ◌++◌, reverse, map, Option, none, some, Text,
  text, Text_eq, ℕ_eq, text_lt, ◌==◌, if◌then◌else◌, keep, sort_by, length, Error, ok, err, Exec,
  pure, ignore, ◌>>=◌,
}
use artifact_fs_extropic.Path.{clean_path, dot}
use artifact_fs_extropic.Model.{
  BaseNode, OverlayEntry, OverlayKind, OverlayKind_eq, FileType, FileType_eq, is_deleted,
}
use artifact_fs_extropic.Platform.{Platform, Statement}
use artifact_fs_extropic.Overlay.{Store, scan, on_disk}

-- ORDER BY path
abbrev pub path_order : OverlayEntry → OverlayEntry → Bool
path_order a b = text_lt a.path b.path

-- The switch of Reconcile, by the kind of the entry: whether the entry is stale.
abbrev pub modified_stale : OverlayEntry → Option BaseNode → Bool
modified_stale e none = true
modified_stale e (some base) = not (e.source_oid == base.object_oid)

abbrev pub in_base : Option BaseNode → Bool
in_base none = false
in_base (some _) = true

abbrev pub dir_in_base : Option BaseNode → Bool
dir_in_base none = false
dir_in_base (some base) = base.type == FileType.dir

abbrev pub kind_stale : OverlayKind → OverlayEntry → Option BaseNode → Bool
kind_stale OverlayKind.delete e base = not (in_base base)
kind_stale OverlayKind.create e base = in_base base
kind_stale OverlayKind.mkdir e base = dir_in_base base
kind_stale OverlayKind.modify e base = modified_stale e base
kind_stale OverlayKind.rename e base = modified_stale e base
kind_stale OverlayKind.symlink e base = false

unfoldable pub is_stale : (Text → Option BaseNode) → OverlayEntry → Bool
is_stale base_lookup e = kind_stale e.kind e (base_lookup e.path)

-- DELETE … WHERE path=? AND kind=? AND source_oid=? AND mtime_unix_ns=?
unfoldable pub same_version : OverlayEntry → OverlayEntry → Bool
same_version e row =
    row.path == e.path
    && row.kind == e.kind
    && row.source_oid == e.source_oid
    && row.mtime_unix_ns == e.mtime_unix_ns

unfoldable pub delete_version : OverlayEntry → List OverlayEntry → List OverlayEntry
delete_version e rows = keep (λ row. not (same_version e row)) rows

unfoldable pub delete_versions : List OverlayEntry → List OverlayEntry → List OverlayEntry
unfolding delete_version
delete_versions [] rows = rows
delete_versions (e ∷ es) rows = delete_versions es (delete_version e rows)

-- The pattern of ListByPrefix.
abbrev pub prefix_pattern : Text → Text
prefix_pattern prefix = if prefix == dot then text "%" else prefix ++ text "/%"

module _ (p : Platform) where
  open p use {Disk, db_fault}

  -- queryEntries, for a condition on the rows
  unfoldable pub query_entries : (OverlayEntry → Bool) → Exec (Store Disk) (List OverlayEntry)
  query_entries where_clause s = elim (db_fault s.disk Statement.query) [
    | some e ↦ (err e, s)
    | none ↦ (ok (sort_by path_order (map (scan s) (keep where_clause s.entries))), s)
  ]

  -- The first half: the entries that are stale in the new base.
  unfoldable pub stale_entries : (Text → Option BaseNode) → Exec (Store Disk) (List OverlayEntry)
  stale_entries base_lookup = do
    entries ← query_entries (λ _. true)
    pure (keep (is_stale base_lookup) entries)

  -- The first statement of the transaction that fails, if one does.
  unfoldable pub transaction_fault : Disk → List OverlayEntry → Option Error
  transaction_fault d [] = db_fault d Statement.commit
  transaction_fault d (e ∷ es) = elim (db_fault d (Statement.delete_row e.path)) [
    | some failure ↦ some failure
    | none ↦ transaction_fault d es
  ]

  unfoldable pub fault_or : Option Error → Option Error → Option Error
  fault_or none later = later
  fault_or (some e) later = some e

  unfoldable pub remove_fault : Disk → List OverlayEntry → Option Error
  remove_fault d es =
      fault_or (db_fault d Statement.begin)
        (fault_or (db_fault d Statement.prepare) (transaction_fault d es))

  -- The backing files, in the order given.
  unfoldable pub unlink_all : List OverlayEntry → Exec (Store Disk) (Unit {0})
  unlink_all [] s = (ok tt, s)
  unlink_all (e ∷ es) s =
      unlink_all es
        (if e.backing_path == [] then s else (ignore (on_disk p (p.unlink e.backing_path)) s).1)

  -- The second half: one transaction, then the backing files, children first.
  unfoldable pub remove_stale : List OverlayEntry → Exec (Store Disk) (Unit {0})
  remove_stale [] s = (ok tt, s)
  remove_stale (e ∷ es) s = elim (remove_fault s.disk (e ∷ es)) [
    | some failure ↦ (err failure, s)
    | none ↦
        unlink_all (reverse (e ∷ es)) (record s { entries = delete_versions (e ∷ es) s.entries })
  ]

  -- Reconcile; the lookup may be nil
  unfoldable pub reconcile : Option (Text → Option BaseNode) → Exec (Store Disk) (Unit {0})
  reconcile none = pure tt
  reconcile (some base_lookup) = stale_entries base_lookup >>= remove_stale

  unfoldable pub dirty_count : Exec (Store Disk) ℕ
  dirty_count s = elim (db_fault s.disk Statement.query) [
    | some e ↦ (err e, s)
    | none ↦ (ok (length (keep (λ e. not (is_deleted e)) s.entries)), s)
  ]

  unfoldable pub list_by_prefix : Text → Exec (Store Disk) (List OverlayEntry)
  list_by_prefix prefix = query_entries (λ e. p.like e.path (prefix_pattern (clean_path prefix)))
