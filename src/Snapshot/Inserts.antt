-- ===== src/Snapshot/Inserts.antt =====
-- The rows that PublishGeneration inserts, and the well-formedness of the tables.
use artifact_fs_extropic.Base.{
  arith, ℕ, ◌≡◌, ◌≢◌, refl, inl, inr, List, [], ◌∷◌, Option, none, some, Text, Text_eq, nat_eq,
  nat_eq_iff, text_eq, text_eq_iff, if◌then◌else◌, find, put, find-put, IsKeyed, put-IsKeyed,
  put-All, All, Bool-cases, Result-cases, Error, ok,
}
use artifact_fs_extropic.Path.{parent_dir}
use artifact_fs_extropic.Model.{BaseNode}
use artifact_fs_extropic.Snapshot.{
  Access, NodeKey, NodeKey_eq, NodeRow, Store, row_key, node_path, stored, insert_node,
  insert_nodes,
}

abbrev pub key : ℕ → Text → NodeKey
key g q = record { generation = g; path = q }

-- The column parent_path is that of the path.
abbrev pub HasParents : List NodeRow → Type 0
HasParents rows = All (λ r. r.parent_path ≡ parent_dir r.node.path) rows

pub record IsValid (s : Store) : Type 0 where
  pub keyed : IsKeyed row_key s.nodes
  pub parents : HasParents s.nodes

module _ (fault : Access → Option Error) where
  insert_node-find :
      (gen : ℕ) (n : BaseNode) (s s' : Store) (g : ℕ) (q : Text)
      → insert_node fault gen n s ≡ (ok tt, s')
      → (find row_key (key gen n.path) s.nodes ≡ none)
        × (find row_key (key g q) s'.nodes ≡ (
            if nat_eq gen g
            then (if text_eq n.path q then some (stored gen n) else find row_key (key g q) s.nodes)
            else find row_key (key g q) s.nodes))
  unfolding insert_node
  insert_node-find gen n s s' g q h =
      ground (arith, find-put row_key (key g q) (stored gen n) s.nodes)

  insert_step :
      (gen : ℕ) (n : BaseNode) (ns : List BaseNode) (s s₁ s' : Store) (g : ℕ) (q : Text)
      → find row_key (key gen n.path) s.nodes ≡ none
      → find row_key (key g q) s₁.nodes ≡ (
          if nat_eq gen g
          then (if text_eq n.path q then some (stored gen n) else find row_key (key g q) s.nodes)
          else find row_key (key g q) s.nodes)
      → find row_key (key gen q) s₁.nodes ≡ (
          if nat_eq gen gen
          then (if text_eq n.path q then some (stored gen n) else find row_key (key gen q) s.nodes)
          else find row_key (key gen q) s.nodes)
      → (find row_key (key gen q) s₁.nodes ≢ none → find node_path q ns ≡ none)
      → find row_key (key g q) s'.nodes ≡ (
          if nat_eq gen g
          then elim (find node_path q ns) [
            | none ↦ find row_key (key g q) s₁.nodes
            | some m ↦ some (stored gen m)
          ]
          else find row_key (key g q) s₁.nodes)
      → (find row_key (key gen q) s.nodes ≢ none → find node_path q (n ∷ ns) ≡ none)
        × (find row_key (key g q) s'.nodes ≡ (
            if nat_eq gen g
            then elim (find node_path q (n ∷ ns)) [
              | none ↦ find row_key (key g q) s.nodes
              | some m ↦ some (stored gen m)
            ]
            else find row_key (key g q) s.nodes))
  unfolding find
  insert_step gen n ns s s₁ s' g q free here mine seen at = elim (Bool-cases (text_eq n.path q)) [
    | inl same ↦
        let e = (text_eq_iff n.path q).0 same in
        let gone : find row_key (key gen q) s.nodes ≡ none = rw e at free in
        let left : find node_path q ns ≡ none = seen (λ z. ground (arith, nat_eq_iff gen gen)) in
        ground (arith, same, gone, left, at, here)
    | inr apart ↦ ground (arith, apart, seen, mine, at, here)
  ]

  -- The nodes that were inserted are found at the generation, and none of them was there before.
  pub insert_nodes-find :
      (gen : ℕ) (ns : List BaseNode) (s s' : Store) (g : ℕ) (q : Text)
      → insert_nodes fault gen ns s ≡ (ok tt, s')
      → (find row_key (key gen q) s.nodes ≢ none → find node_path q ns ≡ none)
        × (find row_key (key g q) s'.nodes ≡ (
            if nat_eq gen g
            then elim (find node_path q ns) [
              | none ↦ find row_key (key g q) s.nodes
              | some n ↦ some (stored gen n)
            ]
            else find row_key (key g q) s.nodes))
  unfolding insert_nodes find
  insert_nodes-find gen [] s s' g q h = (λ _. refl, ground arith)
  insert_nodes-find gen (n ∷ ns) s s' g q h = elim (Result-cases (insert_node fault gen n s).0) [
    | inl (u, e) ↦
        let s₁ = (insert_node fault gen n s).1 in
        let done : insert_node fault gen n s ≡ (ok tt, s₁) = ground arith in
        let rest : insert_nodes fault gen ns s₁ ≡ (ok tt, s') = ground arith in
        let (seen, at) = insert_nodes-find gen ns s₁ s' g q rest in
        let (free, here) = insert_node-find gen n s s₁ g q done in
        let (_, mine) = insert_node-find gen n s s₁ gen q done in
        insert_step gen n ns s s₁ s' g q free here mine seen at
    | inr (f, e) ↦ absurd (ground arith)
  ]

  insert_node-IsKeyed :
      (gen : ℕ) (n : BaseNode) (s : Store)
      → IsKeyed row_key s.nodes
      → IsKeyed row_key (insert_node fault gen n s).1.nodes
  unfolding insert_node
  insert_node-IsKeyed gen n s k = ground (arith, put-IsKeyed row_key (stored gen n) s.nodes k)

  pub insert_nodes-IsKeyed :
      (gen : ℕ) (ns : List BaseNode) (s : Store)
      → IsKeyed row_key s.nodes
      → IsKeyed row_key (insert_nodes fault gen ns s).1.nodes
  unfolding insert_nodes
  insert_nodes-IsKeyed gen [] s k = k
  insert_nodes-IsKeyed gen (n ∷ ns) s k =
      let s₁ = (insert_node fault gen n s).1 in
      ground (arith, insert_node-IsKeyed gen n s k, insert_nodes-IsKeyed gen ns s₁)

  pub insert_nodes-HasParents :
      (gen : ℕ) (ns : List BaseNode) (s : Store)
      → HasParents s.nodes
      → HasParents (insert_nodes fault gen ns s).1.nodes
  unfolding insert_nodes insert_node
  insert_nodes-HasParents gen [] s h = h
  insert_nodes-HasParents gen (n ∷ ns) s h =
      let s₁ : Store = record s { nodes = put row_key (stored gen n) s.nodes } in
      let grown : HasParents s₁.nodes =
        put-All row_key (λ r. r.parent_path ≡ parent_dir r.node.path) (stored gen n) s.nodes refl
          h in
      ground (arith, insert_nodes-HasParents gen ns s₁ grown)

  pub insert_nodes-distinct :
      (gen : ℕ) (ns : List BaseNode) (s s' : Store)
      → insert_nodes fault gen ns s ≡ (ok tt, s')
      → IsKeyed node_path ns
  unfolding insert_nodes
  insert_nodes-distinct gen [] s s' h = tt
  insert_nodes-distinct gen (n ∷ ns) s s' h = elim (Result-cases (insert_node fault gen n s).0) [
    | inl (u, e) ↦
        let s₁ = (insert_node fault gen n s).1 in
        let done : insert_node fault gen n s ≡ (ok tt, s₁) = ground arith in
        let rest : insert_nodes fault gen ns s₁ ≡ (ok tt, s') = ground arith in
        let (seen, _) = insert_nodes-find gen ns s₁ s' gen n.path rest in
        let (_, mine) = insert_node-find gen n s s₁ gen n.path done in
        let there : find row_key (key gen n.path) s₁.nodes ≢ none =
          λ z. ground (arith, nat_eq_iff gen gen, text_eq_iff n.path n.path) in
        (seen there, insert_nodes-distinct gen ns s₁ s' rest)
    | inr (f, e) ↦ absurd (ground arith)
  ]
