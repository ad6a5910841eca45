-- ===== src/Snapshot/Children.antt =====
-- ListChildren and UpdateSize against GetNode.
use artifact_fs_extropic.Base.{
  arith, ℕ, ◌≡◌, refl, ap, ◌∙◌, inl, inr, Bool, true, false, ◌&&◌, List, [], ◌∷◌, map, Option, none,
  some, Text, Text_eq, ℕ_eq, nat_eq, text_eq, text_eq_iff, ◌==◌, if◌then◌else◌, find, find-key,
  keep, any, any-sort_by, any-map, any-keep, Bool-cases, Option-cases, Error, ok, ℤ,
}
use artifact_fs_extropic.Path.{clean_path, parent_dir}
use artifact_fs_extropic.Model.{BaseNode, SizeState}
use artifact_fs_extropic.Snapshot.{
  Access, NodeKey, NodeKey_eq, NodeRow, Store, row_key, get_node, list_children, is_child,
  node_order, sized, update_size,
}
use artifact_fs_extropic.Snapshot.Inserts.{HasParents, IsValid, key}
use artifact_fs_extropic.Snapshot.Publish.{get_node_lem}

abbrev pub is_there : {A : Type 0} → Option A → Bool
is_there none = false
is_there (some _) = true

children-find :
    (gen : ℕ) (pp q : Text) (rows : List NodeRow)
    → HasParents rows
    → any (λ r. (nat_eq r.generation gen && text_eq r.parent_path pp) && text_eq r.node.path q) rows
      ≡ (is_there (find row_key (key gen q) rows) && text_eq (parent_dir q) pp)
unfolding any find
children-find gen pp q [] h = refl
children-find gen pp q (r ∷ rows) (e, h) =
    let rest = children-find gen pp q rows h in
    elim (Bool-cases (nat_eq r.generation gen)) [
      | inr old ↦ ground (arith, old, rest)
      | inl now ↦ elim (Bool-cases (text_eq r.node.path q)) [
        | inr apart ↦ ground (arith, now, apart, rest)
        | inl here ↦
            let p : r.parent_path ≡ parent_dir q =
              e ∙ ap parent_dir ((text_eq_iff r.node.path q).0 here) in
            ground (arith, now, here, p, rest)
      ]
    ]

-- A change of rows that keeps their keys.
find-map :
    (f : NodeRow → NodeRow) (k : NodeKey) (rows : List NodeRow)
    → ((r : NodeRow) → row_key (f r) ≡ row_key r)
    → find row_key k (map f rows) ≡ elim (find row_key k rows) [ none ↦ none | some r ↦ some (f r) ]
unfolding find
find-map f k [] h = refl
find-map f k (r ∷ rows) h =
    let g : (f r).generation ≡ r.generation = ap (λ x. x.generation) (h r) in
    let p : (f r).node.path ≡ r.node.path = ap (λ x. x.path) (h r) in
    ground (arith, g, p, find-map f k rows h)

module _ (fault read : Access → Option Error) where
  -- On a valid table and where no query fails, ListChildren of a directory has a node at a path
  -- exactly if GetNode finds one there and the parent of the path is the cleaned directory.
  pub list_children-get_node :
      (gen : ℕ) (dir q : Text) (s : Store) (ns : List BaseNode)
      → IsValid s
      → list_children read gen dir s ≡ ok ns
      → any (λ n. n.path == q) ns
        ≡ (is_there (get_node read gen q s) && (parent_dir q == clean_path dir))
  unfolding list_children get_node
  list_children-get_node gen dir q s ns v h =
      let rows = keep (is_child gen (clean_path dir)) s.nodes in
      let test = λ (n : BaseNode). text_eq n.path q in
      let all =
        any-sort_by test node_order (map (λ r. r.node) rows)
        ∙ any-map test (λ (r : NodeRow). r.node) rows
        ∙ any-keep (λ (r : NodeRow). test r.node) (is_child gen (clean_path dir)) s.nodes
        ∙ children-find gen (clean_path dir) q s.nodes v.parents in
      ground (arith, all)

  sized-key :
      (gen : ℕ) (oid : Text) (size : ℤ) (r : NodeRow) → row_key (sized gen oid size r) ≡ row_key r
  sized-key gen oid size r = ground arith

  -- An UpdateSize that does not fail sets the size, as known, of the nodes of the generation that
  -- have the object, and changes no other node that GetNode finds.
  pub update_size-view :
      (gen : ℕ) (oid : Text) (size : ℤ) (s : Store) (g : ℕ) (q : Text) (n : BaseNode)
      → fault Access.resize ≡ none
      → read Access.query ≡ none
      → get_node read g q s ≡ some n
      → get_node read g q (update_size fault gen oid size s)
        ≡ some (
            if g == gen && n.object_oid == oid
            then record n { size_bytes = size; size_state = SizeState.known }
            else n)
  unfolding update_size
  update_size-view gen oid size s g q n f r h =
      let s' = update_size fault gen oid size s in
      let here = get_node_lem read g q s r in
      let there = get_node_lem read g q s' r in
      let rows : s'.nodes ≡ map (sized gen oid size) s.nodes = ground arith in
      let changed = find-map (sized gen oid size) (key g q) s.nodes (sized-key gen oid size) in
      elim (Option-cases (find row_key (key g q) s.nodes)) [
        | inl missing ↦ absurd (ground arith)
        | inr (row, found) ↦
            let e : row.generation ≡ g =
              ap (λ x. x.generation) (find-key row_key (key g q) s.nodes row found) in
            let m : row.node ≡ n = ground arith in
            there
            ∙ ap (λ x. elim (find row_key (key g q) x) [ none ↦ none | some y ↦ some y.node ]) rows
            ∙ ground (arith, changed, found, e, m)
      ]
