-- ===== src/Gitstore/Tree/Dirs.antt =====
-- The implicit directories: no path comes twice.
use artifact_fs_extropic.Base.{
  arith, ℕ, zero, suc, ◌≡◌, refl, ◌∙◌, inl, inr, Bool, true, false, ◌||◌, List, [], ◌∷◌, ◌++◌, map,
  none, Text, Text_eq, text_eq, text_eq_iff, ◌==◌, length, any, All, All-append, All-mono, All-map,
  find, IsKeyed, Bool-cases,
}
use artifact_fs_extropic.Path.{dot, filepath_dir}
use artifact_fs_extropic.Model.{BaseNode}
use artifact_fs_extropic.Gitstore.Tree.{
  node_path, is_seen, is_top, dir_node, climb, add_dirs, add_implicit_dirs,
}

pub any-append :
    {A : Type 0} (q : A → Bool) (xs ys : List A) → any q (xs ++ ys) ≡ (any q xs || any q ys)
unfolding any
any-append q [] ys = refl
any-append q (x ∷ xs) ys = ground (arith, any-append q xs ys)

-- The paths seen are "." and those of the nodes.
pub record IsKnown (seen : List Text) (nodes : List BaseNode) : Type 0 where
  pub keyed : IsKeyed node_path nodes
  pub covered : All (λ n. is_seen n.path seen ≡ true) nodes
  pub real : All (λ q. (q == dot || any (λ n. n.path == q) nodes) ≡ true) seen

find-append :
    (k : Text) (ns ms : List BaseNode)
    → find node_path k ns ≡ none
    → find node_path k (ns ++ ms) ≡ find node_path k ms
unfolding find
find-append k [] ms h = refl
find-append k (n ∷ ns) ms h = ground (arith, find-append k ns ms)

append-IsKeyed :
    (n : BaseNode) (ns : List BaseNode)
    → find node_path n.path ns ≡ none
    → IsKeyed node_path ns
    → IsKeyed node_path (ns ++ (n ∷ []))
unfolding find
append-IsKeyed n [] h k = (refl, tt)
append-IsKeyed n (m ∷ ns) h k = (
  find-append m.path ns (n ∷ []) k.0
      ∙ ground (arith, text_eq_iff m.path n.path, text_eq_iff n.path m.path),
  append-IsKeyed n ns (ground (arith)) k.1,
)

unseen_find :
    (d : Text) (seen : List Text) (nodes : List BaseNode)
    → is_seen d seen ≡ false
    → All (λ n. is_seen n.path seen ≡ true) nodes
    → find node_path d nodes ≡ none
unfolding find
unseen_find d seen [] h k = refl
unseen_find d seen (n ∷ nodes) h k = elim (Bool-cases (text_eq n.path d)) [
  | inl same ↦ absurd (cc (h, k.0, (text_eq_iff n.path d).0 same))
  | inr apart ↦ rw apart (unseen_find d seen nodes h k.1)
]

climb-IsKnown :
    (k : ℕ) (repo_id d : Text) (seen : List Text) (nodes : List BaseNode)
    → IsKnown seen nodes
    → let (seen', nodes') = climb k repo_id d seen nodes in IsKnown seen' nodes'
unfolding climb
climb-IsKnown zero repo_id d seen nodes v = v
climb-IsKnown (suc k) repo_id d seen nodes v = elim (Bool-cases (is_top d || is_seen d seen)) [
  | inl over ↦ rw over v
  | inr new ↦ rw new (
      climb-IsKnown k repo_id (filepath_dir d) (d ∷ seen) (nodes ++ (dir_node repo_id d ∷ []))
        (record {
          keyed =
              append-IsKeyed (dir_node repo_id d) nodes
                (unseen_find d seen nodes (ground (arith, new)) v.covered) v.keyed;
          covered =
              unfold any in
              All-append (λ n. is_seen n.path (d ∷ seen) ≡ true) nodes (dir_node repo_id d ∷ [])
                (All-mono (λ n. is_seen n.path seen ≡ true) (λ n. is_seen n.path (d ∷ seen) ≡ true)
                  nodes (λ n h. ground (arith, h)) v.covered)
                (ground (arith, text_eq_iff d d), tt);
          real = (
            unfold any in
                ground (
                  arith,
                  any-append (λ n. n.path == d) nodes (dir_node repo_id d ∷ []),
                  text_eq_iff d d,
                ),
            All-mono (λ q. (q == dot || any (λ n. n.path == q) nodes) ≡ true)
                (λ q.
                  (q == dot || any (λ n. n.path == q) (nodes ++ (dir_node repo_id d ∷ []))) ≡ true)
                seen
                (λ q h.
                  ground (arith, h, any-append (λ n. n.path == q) nodes (dir_node repo_id d ∷ [])))
                v.real,
          );
        }))
]

add_dirs-IsKnown :
    (repo_id : Text) (ns : List BaseNode) (seen : List Text) (nodes : List BaseNode)
    → IsKnown seen nodes
    → let (seen', nodes') = add_dirs repo_id ns seen nodes in IsKnown seen' nodes'
unfolding add_dirs
add_dirs-IsKnown repo_id [] seen nodes v = v
add_dirs-IsKnown repo_id (n ∷ ns) seen nodes v =
    let (seen', nodes') = climb (length n.path) repo_id (filepath_dir n.path) seen nodes in
    add_dirs-IsKnown repo_id ns seen' nodes'
      (climb-IsKnown (length n.path) repo_id (filepath_dir n.path) seen nodes v)

seen_later : (q d : Text) (seen : List Text) → is_seen q seen ≡ true → is_seen q (d ∷ seen) ≡ true
unfolding any
seen_later q d seen h = ground (arith, h)

map-seen : (nodes : List BaseNode) → All (λ n. is_seen n.path (map node_path nodes) ≡ true) nodes
unfolding any
map-seen [] = tt
map-seen (n ∷ nodes) = (
  ground (arith, text_eq_iff n.path n.path),
  All-mono (λ m. is_seen m.path (map node_path nodes) ≡ true)
      (λ m. is_seen m.path (n.path ∷ map node_path nodes) ≡ true) nodes (λ m h. ground (arith, h))
      (map-seen nodes),
)

node-real :
    (nodes : List BaseNode)
    → All (λ m. (m.path == dot || any (λ n. n.path == m.path) nodes) ≡ true) nodes
unfolding any
node-real [] = tt
node-real (n ∷ nodes) = (
  ground (arith, text_eq_iff n.path n.path),
  All-mono (λ m. (m.path == dot || any (λ x. x.path == m.path) nodes) ≡ true)
      (λ m. (m.path == dot || any (λ x. x.path == m.path) (n ∷ nodes)) ≡ true) nodes
      (λ m h. ground (arith, h)) (node-real nodes),
)

pub start-IsKnown :
    (nodes : List BaseNode) → IsKeyed node_path nodes → IsKnown (dot ∷ map node_path nodes) nodes
start-IsKnown nodes k = record {
  keyed = k;
  covered =
      All-mono (λ n. is_seen n.path (map node_path nodes) ≡ true)
        (λ n. is_seen n.path (dot ∷ map node_path nodes) ≡ true) nodes
        (λ n h. seen_later n.path dot (map node_path nodes) h) (map-seen nodes);
  real = (
    unfold text_eq in refl,
    All-map (λ q. (q == dot || any (λ n. n.path == q) nodes) ≡ true) node_path nodes
        (node-real nodes),
  );
}

pub all-IsKnown :
    (repo_id : Text) (nodes : List BaseNode)
    → IsKeyed node_path nodes
    → let (seen, nodes') = add_dirs repo_id nodes (dot ∷ map node_path nodes) nodes in
      IsKnown seen nodes'
all-IsKnown repo_id nodes k =
    add_dirs-IsKnown repo_id nodes (dot ∷ map node_path nodes) nodes (start-IsKnown nodes k)

-- If no path stands twice in the nodes, none does after addImplicitDirs.
pub add_implicit_dirs-IsKeyed :
    (repo_id : Text) (nodes : List BaseNode)
    → IsKeyed node_path nodes
    → IsKeyed node_path (add_implicit_dirs repo_id nodes)
unfolding add_implicit_dirs
add_implicit_dirs-IsKeyed repo_id nodes k = (all-IsKnown repo_id nodes k).keyed
