-- ===== src/Overlay/Stale.antt =====
-- Reconcile: exactly the stale entries go, what its guard protects, and what it does not.
use artifact_fs_extropic.Base.{
  ◌≡◌, refl, sym, ap, ◌∙◌, inl, inr, Bool, true, false, not, List, [], ◌∷◌, Option, none, some,
  Text, Text_eq, ℕ_eq, text_eq, text_eq_iff, if◌then◌else◌, find, keep, find-keep, keep-IsKeyed,
  IsKeyed, Bool-cases, arith, ok, Option-cases, Result-cases, any, ◌&&◌, any-keep_none, any-keep,
  any-sort_by, any-map, keep-all, and-true_iff, nat_eq_iff, sort_by, map, reverse,
}
use artifact_fs_extropic.Path.{clean_path}
use artifact_fs_extropic.Model.{
  OverlayEntry, OverlayKind, OverlayKind_eq, OverlayKind_beq_iff, BaseNode,
}
use artifact_fs_extropic.Platform.{Platform}
use artifact_fs_extropic.Overlay.{Store, get, scan, row_key}
use artifact_fs_extropic.Overlay.Reconcile.{
  kind_stale, is_stale, same_version, delete_version, delete_versions, remove_stale, reconcile,
  stale_entries, query_entries, unlink_all, path_order,
}
use artifact_fs_extropic.Overlay.View.{IsValid}

-- Whether some entry of the list has the version of the row.
abbrev pub listed : List OverlayEntry → OverlayEntry → Bool
listed es row = any (λ e. same_version e row) es

pub delete_versions-find :
    (es rows : List OverlayEntry) (k : Text)
    → IsKeyed row_key rows
    → find row_key k (delete_versions es rows)
      ≡ elim (find row_key k rows) [ none ↦ none | some r ↦ if listed es r then none else some r ]
unfolding delete_versions any
delete_versions-find [] rows k h = ground arith
delete_versions-find (e ∷ es) rows k h =
    unfold delete_version in
    ground (
      arith,
      delete_versions-find es (delete_version e rows) k
          (keep-IsKeyed row_key (λ row. not (same_version e row)) rows h),
      find-keep row_key (λ row. not (same_version e row)) k rows h,
    )

pub same_version_eqs :
    (e r : OverlayEntry)
    → same_version e r ≡ true
    → (e.path ≡ r.path) × (e.kind ≡ r.kind) × (e.source_oid ≡ r.source_oid)
unfolding same_version
same_version_eqs e r h =
    let (h₁, _) = (and-true_iff _ _).0 h in
    let (h₂, oid) = (and-true_iff _ _).0 h₁ in
    let (path, kind) = (and-true_iff _ _).0 h₂ in
    (
      sym ((text_eq_iff r.path e.path).0 path),
      sym ((OverlayKind_beq_iff r.kind e.kind).0 kind),
      sym ((text_eq_iff r.source_oid e.source_oid).0 oid),
    )

pub same_version_refl :
    {D : Type 0} (s : Store D) (r : OverlayEntry) → same_version (scan s r) r ≡ true
unfolding same_version
same_version_refl s r = rw (
  (text_eq_iff r.path r.path).1 refl,
  (OverlayKind_beq_iff r.kind r.kind).1 refl,
  (text_eq_iff r.source_oid r.source_oid).1 refl,
  (nat_eq_iff r.mtime_unix_ns r.mtime_unix_ns).1 refl,
)

kind_stale-source_oid :
    (k : OverlayKind) (x y : OverlayEntry) (base : Option BaseNode)
    → x.source_oid ≡ y.source_oid
    → kind_stale k x base ≡ kind_stale k y base
kind_stale-source_oid OverlayKind.modify x y none h = refl
kind_stale-source_oid OverlayKind.modify x y (some base) h = rw h
kind_stale-source_oid OverlayKind.rename x y none h = refl
kind_stale-source_oid OverlayKind.rename x y (some base) h = rw h
kind_stale-source_oid OverlayKind.create x y base h = refl
kind_stale-source_oid _ x y base h = refl

pub same_version-is_stale :
    (l : Text → Option BaseNode) (e r : OverlayEntry)
    → same_version e r ≡ true
    → is_stale l e ≡ is_stale l r
unfolding is_stale
same_version-is_stale l e r h =
    let (path, kind, oid) = same_version_eqs e r h in
    kind_stale-source_oid e.kind e r (l e.path) oid
    ∙ ap (λ k. kind_stale k r (l e.path)) kind
    ∙ ap (λ a. kind_stale r.kind r (l a)) path

kept_unlisted :
    (l : Text → Option BaseNode) (es : List OverlayEntry) (r : OverlayEntry)
    → is_stale l r ≡ false
    → listed (keep (is_stale l) es) r ≡ false
kept_unlisted l es r h =
    any-keep_none (λ e. same_version e r) (is_stale l) es
      λ e t. elim (Bool-cases (same_version e r)) [
        | inl same ↦ absurd (cc (sym t ∙ same_version-is_stale l e r same ∙ h))
        | inr apart ↦ apart
      ]

found_listed :
    {D : Type 0} (s : Store D) (l : Text → Option BaseNode) (k : Text) (rows : List OverlayEntry)
    (r : OverlayEntry)
    → find row_key k rows ≡ some r
    → is_stale l r ≡ true
    → any (λ e. is_stale l (scan s e) && same_version (scan s e) r) rows ≡ true
unfolding any find
found_listed s l k [] r h t = cc
found_listed s l k (e ∷ rows) r h t = elim (Bool-cases (text_eq e.path k)) [
  | inl here ↦
      let same : e ≡ r = ground arith in
      rw (same, same_version_refl s r)
        (rw (same_version-is_stale l (scan s r) r (same_version_refl s r), t))
  | inr later ↦ ground (arith, found_listed s l k rows r (rw later at h) t)
]

module _ (p : Platform) where
  open p use {Disk}

  unlink_all-entries :
      (es : List OverlayEntry) (s : Store Disk)
      → let r = unlink_all p es s in (r.0 ≡ ok tt) × (r.1.entries ≡ s.entries) × (r.1.repo ≡ s.repo)
  unfolding unlink_all
  unlink_all-entries [] s = (refl, refl, refl)
  unlink_all-entries (e ∷ es) s = elim (Bool-cases (text_eq e.backing_path [])) [
    | inl bare ↦ rw (bare, unlink_all) (unlink_all-entries es s)
    | inr backed ↦
        rw (backed, unlink_all)
          (unlink_all-entries es (record s { disk = (p.unlink e.backing_path s.disk).1 }))
  ]

  pub remove_stale-entries :
      (es : List OverlayEntry) (s s' : Store Disk)
      → remove_stale p es s ≡ (ok tt, s')
      → (s'.entries ≡ delete_versions es s.entries) × (s'.repo ≡ s.repo)
  unfolding remove_stale delete_versions
  remove_stale-entries [] s s' h = ground arith
  remove_stale-entries (e ∷ es) s s' h = ground (
    arith,
    unlink_all-entries (reverse (e ∷ es))
        (record s { entries = delete_versions (e ∷ es) s.entries }),
  )

  -- The entries that the first half finds.
  abbrev pub stale_of : (Text → Option BaseNode) → Store Disk → List OverlayEntry
  stale_of l s = keep (is_stale l) (sort_by path_order (map (scan s) (keep (λ _. true) s.entries)))

  pub stale_entries-ok :
      (l : Text → Option BaseNode) (s s' : Store Disk) (es : List OverlayEntry)
      → stale_entries p l s ≡ (ok es, s')
      → (es ≡ stale_of l s) × (s' ≡ s)
  unfolding stale_entries query_entries
  stale_entries-ok l s s' es h = ground arith

  -- A row that stands in the table is among the stale entries exactly if it is stale.
  listed-stale :
      (l : Text → Option BaseNode) (s : Store Disk) (k : Text) (r : OverlayEntry)
      → find row_key k s.entries ≡ some r
      → listed (stale_of l s) r ≡ is_stale l r
  listed-stale l s k r h = elim (Bool-cases (is_stale l r)) [
    | inr fresh ↦
        rw fresh
          (kept_unlisted l (sort_by path_order (map (scan s) (keep (λ _. true) s.entries))) r fresh)
    | inl stale ↦ rw stale (
        any-keep (λ e. same_version e r) (is_stale l)
          (sort_by path_order (map (scan s) (keep (λ _. true) s.entries)))
        ∙ any-sort_by (λ e. is_stale l e && same_version e r) path_order
            (map (scan s) (keep (λ _. true) s.entries))
        ∙ any-map (λ e. is_stale l e && same_version e r) (scan s) (keep (λ _. true) s.entries)
        ∙ ap (any (λ e. is_stale l (scan s e) && same_version (scan s e) r)) (keep-all s.entries)
        ∙ found_listed s l k s.entries r h stale)
  ]

  reconcile-entries :
      (l : Text → Option BaseNode) (s s' : Store Disk)
      → reconcile p (some l) s ≡ (ok tt, s')
      → (s'.entries ≡ delete_versions (stale_of l s) s.entries) × (s'.repo ≡ s.repo)
  unfolding reconcile
  reconcile-entries l s s' h = elim (Result-cases (stale_entries p l s).0) [
    | inl (es, e) ↦
        let (found, same) = stale_entries-ok l s (stale_entries p l s).1 es (ground arith) in
        let step : remove_stale p es s ≡ (ok tt, s') = ground arith in
        rw (← found) (remove_stale-entries es s s' step)
    | inr (f, e) ↦ absurd (ground arith)
  ]

  -- A reconciliation of a valid overlay that ends well drops exactly the entries that are stale in
  -- the new base and changes no other.
  pub reconcile-view :
      (l : Text → Option BaseNode) (s s' : Store Disk) (q : Text)
      → IsValid s
      → reconcile p (some l) s ≡ (ok tt, s')
      → get s' q ≡ elim (get s q) [ none ↦ none | some e ↦ if is_stale l e then none else some e ]
  unfolding get
  reconcile-view l s s' q v h =
      let (rows, repo) = reconcile-entries l s s' h in
      let left = delete_versions-find (stale_of l s) s.entries (clean_path q) v.keyed in
      elim (Option-cases (find row_key (clean_path q) s.entries)) [
        | inl missing ↦ rw (rows, get, left, missing) refl
        | inr (r, found) ↦
            rw (rows, get, left, found, listed-stale l s (clean_path q) r found)
              (ground (arith, same_version-is_stale l (scan s r) r (same_version_refl s r), repo))
      ]
