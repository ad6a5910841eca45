-- ===== src/Overlay/Guard.antt =====
-- Reconcile against calls that run between its two halves, and after a rename.
use artifact_fs_extropic.Base.{
  ◌⊎◌, ◌≢◌, and-true_iff, nat_eq_iff, ℕ, ◌≡◌, refl, sym, ap, ◌∙◌, inl, inr, true, false, List, [],
  ◌∷◌, Option, none, some, Text, Text_eq, text_eq, text_eq_iff, ◌==◌, find, keep, IsKeyed,
  Bool-cases, arith, ok, find-key, any, any-keep, any-sort_by, any-map, keep-all, map, sort_by,
  ◌&&◌,
}
use artifact_fs_extropic.Path.{clean_path}
use artifact_fs_extropic.Model.{OverlayEntry, BaseNode}
use artifact_fs_extropic.Platform.{Platform}
use artifact_fs_extropic.Overlay.{Store, get, scan, row_key}
use artifact_fs_extropic.Overlay.Reconcile.{
  is_stale, same_version, remove_stale, reconcile, path_order,
}
use artifact_fs_extropic.Overlay.Rename.{rename}
use artifact_fs_extropic.Overlay.View.{IsValid}
use artifact_fs_extropic.Overlay.Moves.{rename-view}
use artifact_fs_extropic.Overlay.Valid.{rename-Keeps}
use artifact_fs_extropic.Overlay.Stale.{
  listed, delete_versions-find, same_version_eqs, stale_of, remove_stale-entries, reconcile-view,
}

missing_row :
    {D : Type 0} (s : Store D) (l : Text → Option BaseNode) (rows : List OverlayEntry)
    (r' : OverlayEntry)
    → find row_key r'.path rows ≡ none
    → any (λ x. is_stale l (scan s x) && same_version (scan s x) r') rows ≡ false
unfolding any find
missing_row s l [] r' h = refl
missing_row s l (x ∷ rows) r' h = elim (Bool-cases (text_eq x.path r'.path)) [
  | inl here ↦ absurd (cc (rw here at h))
  | inr later ↦ elim (Bool-cases (same_version (scan s x) r')) [
    | inl same ↦
        absurd
          (cc (sym later ∙ (text_eq_iff x.path r'.path).1 (same_version_eqs (scan s x) r' same).0))
    | inr apart ↦ ground (arith, apart, missing_row s l rows r' (rw later at h))
  ]
]

apart_from :
    {D : Type 0} (s : Store D) (x r' : OverlayEntry)
    → text_eq x.path r'.path ≡ false
    → same_version (scan s x) r' ≡ false
apart_from s x r' h = elim (Bool-cases (same_version (scan s x) r')) [
  | inl same ↦
      absurd (cc (sym h ∙ (text_eq_iff x.path r'.path).1 (same_version_eqs (scan s x) r' same).0))
  | inr apart ↦ apart
]

-- A row that was read at a path and has another version by now is not among the stale entries.
unlisted_row :
    {D : Type 0} (s : Store D) (l : Text → Option BaseNode) (rows : List OverlayEntry)
    (r r' : OverlayEntry)
    → IsKeyed row_key rows
    → find row_key r'.path rows ≡ some r
    → same_version (scan s r) r' ≡ false
    → any (λ x. is_stale l (scan s x) && same_version (scan s x) r') rows ≡ false
unfolding any find
unlisted_row s l [] r r' k h d = refl
unlisted_row s l (x ∷ rows) r r' k h d = elim (Bool-cases (text_eq x.path r'.path)) [
  | inl here ↦
      let same : x ≡ r = ground arith in
      let gone : find row_key r'.path rows ≡ none =
        rw (sym ((text_eq_iff x.path r'.path).0 here)) k.0 in
      let apart : same_version (scan s x) r' ≡ false =
        ap (λ y. same_version (scan s y) r') same ∙ d in
      ground (arith, apart, missing_row s l rows r' gone)
  | inr later ↦
      ground (arith, apart_from s x r' later, unlisted_row s l rows r r' k.1 (rw later at h) d)
]

unlisted :
    (p : Platform) (l : Text → Option BaseNode) (s : Store p.Disk) (r r' : OverlayEntry)
    → IsKeyed row_key s.entries
    → find row_key r'.path s.entries ≡ some r
    → same_version (scan s r) r' ≡ false
    → listed (stale_of p l s) r' ≡ false
unlisted p l s r r' k h d =
    any-keep (λ e. same_version e r') (is_stale l)
      (sort_by path_order (map (scan s) (keep (λ _. true) s.entries)))
    ∙ any-sort_by (λ e. is_stale l e && same_version e r') path_order
        (map (scan s) (keep (λ _. true) s.entries))
    ∙ any-map (λ e. is_stale l e && same_version e r') (scan s) (keep (λ _. true) s.entries)
    ∙ ap (any (λ e. is_stale l (scan s e) && same_version (scan s e) r')) (keep-all s.entries)
    ∙ unlisted_row s l s.entries r r' k h d

-- A row that differs from the one that was read is another version.
differs :
    {D : Type 0} (s : Store D) (r r' : OverlayEntry)
    → (r.mtime_unix_ns ≢ r'.mtime_unix_ns) ⊎ ((r.kind ≢ r'.kind) ⊎ (r.source_oid ≢ r'.source_oid))
    → same_version (scan s r) r' ≡ false
unfolding same_version
differs s r r' d = elim (Bool-cases (same_version (scan s r) r')) [
  | inr apart ↦ apart
  | inl same ↦
      let (h, mtime) = (and-true_iff _ _).0 same in
      let t = sym ((nat_eq_iff r'.mtime_unix_ns r.mtime_unix_ns).0 mtime) in
      let (_, kind, oid) = same_version_eqs (scan s r) r' same in
      elim d [
        | inl z ↦ absurd (z t)
        | inr y ↦ elim y [ inl z ↦ absurd (z kind) | inr z ↦ absurd (z oid) ]
      ]
]

module _ (p : Platform) where
  open p use {Disk}

  remove_stale-unlisted :
      (es : List OverlayEntry) (t t' : Store Disk) (q : Text) (r : OverlayEntry)
      → IsValid t
      → remove_stale p es t ≡ (ok tt, t')
      → find row_key (clean_path q) t.entries ≡ some r
      → listed es r ≡ false
      → get t' q ≡ get t q
  unfolding get
  remove_stale-unlisted es t t' q r v h found free =
      let (rows, repo) = remove_stale-entries p es t t' h in
      let left = delete_versions-find es t.entries (clean_path q) v.keyed in
      ground (arith, rows, repo, left, found, free)

  -- Between two valid states, an entry that another call rewrites between the two halves of a
  -- reconciliation, so that its kind, source or time differs from what the first half read, is
  -- still there after the second half, if that ends well.
  pub remove_stale-rewritten :
      (l : Text → Option BaseNode) (s t t' : Store Disk) (q : Text) (r r' : OverlayEntry)
      → IsValid s
      → IsValid t
      → find row_key (clean_path q) s.entries ≡ some r
      → find row_key (clean_path q) t.entries ≡ some r'
      → (r.mtime_unix_ns ≢ r'.mtime_unix_ns) ⊎ ((r.kind ≢ r'.kind) ⊎ (r.source_oid ≢ r'.source_oid))
      → remove_stale p (stale_of p l s) t ≡ (ok tt, t')
      → get t' q ≡ get t q
  remove_stale-rewritten l s t t' q r r' v w fs ft d h =
      let k : r'.path ≡ clean_path q = find-key row_key (clean_path q) t.entries r' ft in
      remove_stale-unlisted (stale_of p l s) t t' q r' w h ft
        (unlisted p l s r r' v.keyed (rw k fs) (differs s r r' d))

  -- After a rename of a valid overlay between different cleaned paths that ended well, a
  -- reconciliation that ends well drops the renamed entry if the base has no node at the new path:
  -- nothing is left of it there.
  pub rename-reconciled :
      (old new : Text) (now : ℕ) (l : Text → Option BaseNode) (s s' s'' : Store Disk)
      (e : OverlayEntry)
      → IsValid s
      → get s old ≡ some e
      → (clean_path old == clean_path new) ≡ false
      → l (clean_path new) ≡ none
      → rename p old new now s ≡ (ok tt, s')
      → reconcile p (some l) s' ≡ (ok tt, s'')
      → get s'' new ≡ none
  unfolding is_stale
  rename-reconciled old new now l s s' s'' e v h n free r c =
      let (_, at) = rename-view p old new now s s' e new h n r in
      let (keyed, cleaned) = rename-Keeps p old new now s (v.keyed, v.cleaned) in
      let v' : IsValid s' = ground (arith) in
      let left = reconcile-view p l s' s'' new v' c in
      ground (arith, at, left, text_eq_iff (clean_path new) (clean_path new))
