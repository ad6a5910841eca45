-- ===== src/Resolver/Paths.antt =====
-- The resolver over the overlay store: what a call on the overlay changes in the merged tree.
use artifact_fs_extropic.Base.{
  arith, ℕ, ◌≡◌, ap, ◌∙◌, inl, inr, false, List, [], ◌∷◌, map, Option, none, some, Text, Text_eq,
  text_eq_iff, ◌==◌, if◌then◌else◌, find, IsKeyed, All, All-mono, All-map, All-sort_by, All-both,
  sort_by, subst, keep, keep-All, Option-cases, not_exist, Result, ok, err,
}
use artifact_fs_extropic.Path.{clean_path}
use artifact_fs_extropic.Path.Clean.{clean_path_idem}
use artifact_fs_extropic.Model.{OverlayEntry, is_deleted}
use artifact_fs_extropic.Platform.{Platform}
use artifact_fs_extropic.Overlay.{Store, get, scan, row_key, backing_path}
use artifact_fs_extropic.Overlay.Write.{remove, create_file, store_entry}
use artifact_fs_extropic.Overlay.Rename.{rename, renamed}
use artifact_fs_extropic.Overlay.Reconcile.{
  list_by_prefix, query_entries, prefix_pattern, path_order,
}
use artifact_fs_extropic.Overlay.View.{IsValid, get-cong, remove-view, create_file-view}
use artifact_fs_extropic.Overlay.Moves.{rename-view}
use artifact_fs_extropic.Resolver.{
  Resolver, OverlayView, ResolvedNode, from_overlay, base_or_missing, resolve_path,
}
use artifact_fs_extropic.Resolver.Listing.{Agrees}

-- What resolve_path answers from the overlay's entry.
abbrev pub resolved : Resolver → Text → Option OverlayEntry → Result ResolvedNode
resolved r path none = base_or_missing (r.snapshot.get_node r.generation path)
resolved r path (some ov) = if is_deleted ov then err not_exist else ok (from_overlay ov)

resolve_path_lem :
    (r : Resolver) (path : Text)
    → resolve_path r path ≡ resolved r (clean_path path) (r.overlay.get (clean_path path))
unfolding resolve_path
resolve_path_lem r path = elim (Option-cases (r.overlay.get (clean_path path))) [
  | inl e ↦ rw (e, resolve_path)
  | inr (ov, e) ↦ rw (e, resolve_path)
]

module _ (p : Platform) where
  open p use {Disk}

  -- The overlay store as the resolver reads it.
  abbrev pub view_of : Store Disk → OverlayView
  view_of s = record { get = get s; list_by_prefix = λ d. (list_by_prefix p d s).0 }

  -- The resolver over a state of the overlay store.
  abbrev pub over : Resolver → Store Disk → Resolver
  over r s = record r { overlay = view_of s }

  resolve_over :
      (r : Resolver) (s : Store Disk) (q : Text)
      → resolve_path (over r s) q ≡ resolved r (clean_path q) (get s q)
  resolve_over r s q =
      resolve_path_lem (over r s) q
      ∙ ap (resolved r (clean_path q)) (get-cong s (clean_path q) q (clean_path_idem q))

  -- After a Remove that ended well, the resolver finds nothing at the path, and at any other path
  -- what it found before.
  pub remove-resolve_path :
      (r : Resolver) (path : Text) (now : ℕ) (s s' : Store Disk) (q : Text)
      → remove p path now s ≡ (ok tt, s')
      → resolve_path (over r s') q
        ≡ (if clean_path path == clean_path q then err not_exist else resolve_path (over r s) q)
  remove-resolve_path r path now s s' q h =
      let view = remove-view p path now s q in
      let now_at = resolve_over r s' q in
      let was_at = resolve_over r s q in ground (arith, h, view, now_at, was_at)

  create_file-alive :
      (path : Text) (mode now : ℕ) (s s' : Store Disk) (e : OverlayEntry)
      → create_file p path mode now s ≡ (ok e, s')
      → is_deleted e ≡ false
  unfolding create_file store_entry
  create_file-alive path mode now s s' e h = ground arith

  -- After a CreateFile that ended well, the resolver finds the entry that it returned at the path,
  -- and at any other path what it found before.
  pub create_file-resolve_path :
      (r : Resolver) (path : Text) (mode now : ℕ) (s s' : Store Disk) (e : OverlayEntry) (q : Text)
      → create_file p path mode now s ≡ (ok e, s')
      → resolve_path (over r s') q ≡ (
          if clean_path path == clean_path q
          then ok (from_overlay e)
          else resolve_path (over r s) q)
  create_file-resolve_path r path mode now s s' e q h =
      let alive = create_file-alive path mode now s s' e h in
      ground (
        arith,
        alive,
        h,
        create_file-view p path mode now s q,
        resolve_over r s' q,
        resolve_over r s q,
      )

  -- After a rename between different cleaned paths that ended well, the resolver finds nothing at
  -- the old path and the renamed entry at the new one, whatever the snapshot has there.
  pub rename-resolve_path :
      (r : Resolver) (old new : Text) (now : ℕ) (s s' : Store Disk) (e : OverlayEntry)
      → get s old ≡ some e
      → (clean_path old == clean_path new) ≡ false
      → rename p old new now s ≡ (ok tt, s')
      → (resolve_path (over r s') old ≡ err not_exist)
        × (resolve_path (over r s') new
            ≡ ok (from_overlay (renamed e (clean_path new) (backing_path s (clean_path new)) now)))
  rename-resolve_path r old new now s s' e h n m = (
    ground (
      arith,
      rename-view p old new now s s' e old h n m,
      resolve_over r s' old,
      text_eq_iff (clean_path old) (clean_path old),
    ),
    ground (
      arith,
      rename-view p old new now s s' e new h n m,
      resolve_over r s' new,
      text_eq_iff (clean_path new) (clean_path new),
    ),
  )

keyed_rows :
    (rows : List OverlayEntry)
    → IsKeyed row_key rows
    → All (λ e. find row_key e.path rows ≡ some e) rows
unfolding find
keyed_rows [] k = tt
keyed_rows (r ∷ rows) (new, k) = (
  ground (arith, text_eq_iff r.path r.path),
  All-mono (λ e. find row_key e.path rows ≡ some e) (λ e. find row_key e.path (r ∷ rows) ≡ some e)
      rows (λ e h. ground (arith, new, text_eq_iff r.path e.path)) (keyed_rows rows k),
)

get_row :
    {D : Type 0} (s : Store D) (e : OverlayEntry)
    → (find row_key e.path s.entries ≡ some e) × (clean_path e.path ≡ e.path)
    → get s e.path ≡ some (scan s e)
unfolding get
get_row s e (found, clean) = rw (clean, get, found)

module _ (p : Platform) where
  open p use {Disk}

  -- What ListByPrefix returns on a valid overlay, Get returns for each of its paths: the list and
  -- the lookups that the resolver combines agree.
  pub list_by_prefix-Agrees :
      (r : Resolver) (prefix : Text) (s s' : Store Disk) (es : List OverlayEntry)
      → IsValid s
      → list_by_prefix p prefix s ≡ (ok es, s')
      → Agrees (over p r s) es
  unfolding list_by_prefix query_entries
  list_by_prefix-Agrees r prefix s s' es v h =
      let test = λ (e : OverlayEntry). p.like e.path (prefix_pattern (clean_path prefix)) in
      let rows = keep test s.entries in
      let seen = λ (e : OverlayEntry). get s e.path ≡ some e in
      let found =
        keep-All _ test s.entries
          (All-both _ _ s.entries (keyed_rows s.entries v.keyed) v.cleaned) in
      let read : All (λ e. seen (scan s e)) rows = All-mono _ _ rows (get_row s) found in
      let listed : sort_by path_order (map (scan s) rows) ≡ es = ground arith in
      subst (All seen) listed
        (All-sort_by seen path_order (map (scan s) rows) (All-map seen (scan s) rows read))
