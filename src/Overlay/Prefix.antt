-- ===== src/Overlay/Prefix.antt =====
-- ListByPrefix finds what lies below a directory.
use artifact_fs_extropic.Base.{
  arith, ◌≡◌, refl, sym, ap, ◌∙◌, inl, inr, Bool, true, ◌&&◌, List, [], ◌∷◌, ◌++◌, map, some, Text,
  Text_eq, text, text_eq, ◌==◌, find, find-key, sort_by, keep, any, any-sort_by, any-map, any-keep,
  Bool-cases, Option-cases, ok,
}
use artifact_fs_extropic.Path.{clean_path, dot}
use artifact_fs_extropic.Model.{OverlayEntry}
use artifact_fs_extropic.Platform.{Platform, LikeLaws}
use artifact_fs_extropic.Overlay.{Store, get, scan, row_key}
use artifact_fs_extropic.Overlay.Reconcile.{
  list_by_prefix, query_entries, path_order, prefix_pattern,
}

found_any :
    (c : OverlayEntry → Bool) (k : Text) (rows : List OverlayEntry) (e : OverlayEntry)
    → find row_key k rows ≡ some e
    → c e ≡ true
    → any (λ x. c x && text_eq x.path k) rows ≡ true
unfolding any find
found_any c k [] e h t = cc
found_any c k (r ∷ rows) e h t = elim (Bool-cases (text_eq r.path k)) [
  | inl here ↦
      let same : r ≡ e = ground arith in
      let kept : c r ≡ true = ap c same ∙ t in rw (here, kept) refl
  | inr later ↦ ground (arith, later, found_any c k rows e (rw later at h) t)
]

module _ (p : Platform) (laws : LikeLaws p) where
  open p use {Disk}

  below_matches : (dir rest : Text) → p.like (dir ++ text "/" ++ rest) (prefix_pattern dir) ≡ true
  below_matches dir rest = elim (Bool-cases (text_eq dir dot)) [
    | inl all ↦ rw all (laws.like-all (dir ++ text "/" ++ rest))
    | inr one ↦ rw one (laws.like-below dir rest)
  ]

  -- Where LIKE is as SQLite documents it, ListByPrefix of a directory, if its query does not fail,
  -- lists every entry whose path is the cleaned directory, a slash and more, at any depth.
  pub list_by_prefix-below :
      (dir rest : Text) (s s' : Store Disk) (e : OverlayEntry) (es : List OverlayEntry)
      → get s (clean_path dir ++ text "/" ++ rest) ≡ some e
      → e.path ≡ clean_path dir ++ text "/" ++ rest
      → list_by_prefix p dir s ≡ (ok es, s')
      → any (λ x. x.path == e.path) es ≡ true
  unfolding list_by_prefix query_entries get
  list_by_prefix-below dir rest s s' e es h at l =
      let test = λ (x : OverlayEntry). p.like x.path (prefix_pattern (clean_path dir)) in
      let key = clean_path (clean_path dir ++ text "/" ++ rest) in
      let same = λ (x : OverlayEntry). text_eq x.path e.path in
      let listed : sort_by path_order (map (scan s) (keep test s.entries)) ≡ es = ground arith in
      elim (Option-cases (find row_key key s.entries)) [
        | inl missing ↦ absurd (ground (arith, missing))
        | inr (row, found) ↦
            let p₁ : row.path ≡ e.path = ground (arith, found) in
            let k : key ≡ e.path = sym (find-key row_key key s.entries row found) ∙ p₁ in
            let hit : test row ≡ true =
              ap (λ x. p.like x (prefix_pattern (clean_path dir))) (p₁ ∙ at)
              ∙ below_matches (clean_path dir) rest in
            let found' : find row_key e.path s.entries ≡ some row =
              ap (λ x. find row_key x s.entries) (sym k) ∙ found in
            ap (any same) (sym listed)
            ∙ any-sort_by same path_order (map (scan s) (keep test s.entries))
            ∙ any-map same (scan s) (keep test s.entries)
            ∙ any-keep same test s.entries
            ∙ found_any test e.path s.entries row found' hit
      ]
