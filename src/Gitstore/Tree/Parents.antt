-- ===== src/Gitstore/Tree/Parents.antt =====
-- The implicit directories: every directory on the way to a node comes, and nothing else changes.
use artifact_fs_extropic.Base.{
  arith, ℕ, zero, suc, ◌+◌, ◌<◌, ◌≡◌, ◌⊎◌, refl, sym, ap, subst, ◌∙◌, inl, inr, Bool, true, false,
  ◌||◌, List, [], ◌∷◌, ◌++◌, map, Text, Text_eq, text_eq, text_eq_iff, ◌==◌, length, any, All,
  All-append, All-mono, Bool-cases, IsKeyed,
}
use artifact_fs_extropic.Path.{dot, filepath_dir}
use artifact_fs_extropic.Model.{BaseNode}
use artifact_fs_extropic.Gitstore.Tree.{
  node_path, is_seen, is_top, dir_node, climb, add_dirs, add_implicit_dirs,
}
use artifact_fs_extropic.Gitstore.Tree.Shorter.{dir-shorter}
use artifact_fs_extropic.Gitstore.Tree.Dirs.{all-IsKnown}
use mathlib.Core.List.{append_assoc, append-nil}

-- The climb from d ends before the fuel does.
abbrev pub Enough : ℕ → Text → Type 0
Enough k d = (is_top d ≡ true) ⊎ (length d < k)

abbrev is_reached : Text → List Text → Bool
is_reached d seen = is_top d || is_seen d seen

abbrev HasParent : List Text → BaseNode → Type 0
HasParent seen n = is_reached (filepath_dir n.path) seen ≡ true

climb_mono :
    (k : ℕ) (repo_id d q : Text) (seen : List Text) (nodes : List BaseNode)
    → is_reached q seen ≡ true
    → is_reached q (climb k repo_id d seen nodes).0 ≡ true
unfolding climb any
climb_mono zero repo_id d q seen nodes h = h
climb_mono (suc k) repo_id d q seen nodes h =
    ground (
      arith,
      climb_mono k repo_id (filepath_dir d) q (d ∷ seen) (nodes ++ (dir_node repo_id d ∷ [])),
    )

climb-here :
    (k : ℕ) (repo_id d : Text) (seen : List Text) (nodes : List BaseNode)
    → Enough k d
    → is_reached d (climb k repo_id d seen nodes).0 ≡ true
unfolding climb
climb-here zero repo_id d seen nodes (inl top) = rw top refl
climb-here zero repo_id d seen nodes (inr short) = absurd (omega arith)
climb-here (suc k) repo_id d seen nodes h = elim (Bool-cases (is_reached d seen)) [
  | inl over ↦ rw over over
  | inr new ↦ rw new (
      climb_mono k repo_id (filepath_dir d) d (d ∷ seen) (nodes ++ (dir_node repo_id d ∷ []))
        (unfold any in ground (arith, text_eq_iff d d)))
]

Enough-above : (k : ℕ) (d : Text) → is_top d ≡ false → Enough (suc k) d → Enough k (filepath_dir d)
Enough-above k d low (inl top) = cc
Enough-above k d low (inr short) = elim (dir-shorter d) [
  | inl top ↦ inl top
  | inr shorter ↦ inr (omega (arith, short, shorter))
]

-- More fuel than the length of a directory changes nothing.
pub climb-Enough :
    (k j : ℕ) (repo_id d : Text) (seen : List Text) (nodes : List BaseNode)
    → Enough k d
    → climb (k + j) repo_id d seen nodes ≡ climb k repo_id d seen nodes
unfolding climb
climb-Enough zero zero repo_id d seen nodes h = refl
climb-Enough zero (suc j) repo_id d seen nodes (inl top) =
    let e : 0 + suc j ≡ suc j = omega arith in rw e (rw top refl)
climb-Enough zero (suc j) repo_id d seen nodes (inr short) = absurd (omega arith)
climb-Enough (suc k) j repo_id d seen nodes h =
    let e : suc k + j ≡ suc (k + j) = omega arith in
    rw e (elim (Bool-cases (is_reached d seen)) [
      | inl over ↦ rw over refl
      | inr new ↦ rw new (
          climb-Enough k j repo_id (filepath_dir d) (d ∷ seen) (nodes ++ (dir_node repo_id d ∷ []))
            (Enough-above k d (ground (arith, new)) h))
    ])

-- What the climb adds behind the nodes: directories, each with its own directory.
abbrev IsAdded : Text → List Text → BaseNode → Type 0
IsAdded repo_id seen n = (n ≡ dir_node repo_id n.path) × HasParent seen n

climb-adds :
    (k : ℕ) (repo_id d : Text) (seen : List Text) (nodes : List BaseNode)
    → Enough k d
    → (added : List BaseNode) × ((climb k repo_id d seen nodes).1 ≡ nodes ++ added)
      × All (IsAdded repo_id (climb k repo_id d seen nodes).0) added
unfolding climb
climb-adds zero repo_id d seen nodes h = ([], sym (append-nil nodes), tt)
climb-adds (suc k) repo_id d seen nodes h = elim (Bool-cases (is_reached d seen)) [
  | inl over ↦ rw over ([], sym (append-nil nodes), tt)
  | inr new ↦
      let n = dir_node repo_id d in
      let enough = Enough-above k d (ground (arith, new)) h in
      let (added, e, all) =
        climb-adds k repo_id (filepath_dir d) (d ∷ seen) (nodes ++ (n ∷ [])) enough in
      rw new (
        n ∷ added,
        e ∙ append_assoc nodes (n ∷ []) added,
        ((refl, climb-here k repo_id (filepath_dir d) (d ∷ seen) (nodes ++ (n ∷ [])) enough), all),
      )
]

add_dirs_mono :
    (repo_id q : Text) (ns : List BaseNode) (seen : List Text) (nodes : List BaseNode)
    → is_reached q seen ≡ true
    → is_reached q (add_dirs repo_id ns seen nodes).0 ≡ true
unfolding add_dirs
add_dirs_mono repo_id q [] seen nodes h = h
add_dirs_mono repo_id q (n ∷ ns) seen nodes h =
    let st = climb (length n.path) repo_id (filepath_dir n.path) seen nodes in
    add_dirs_mono repo_id q ns st.0 st.1
      (climb_mono (length n.path) repo_id (filepath_dir n.path) q seen nodes h)

add_dirs-adds :
    (repo_id : Text) (ns : List BaseNode) (seen : List Text) (nodes : List BaseNode)
    → (added : List BaseNode) × ((add_dirs repo_id ns seen nodes).1 ≡ nodes ++ added)
      × All (IsAdded repo_id (add_dirs repo_id ns seen nodes).0) added
      × All (HasParent (add_dirs repo_id ns seen nodes).0) ns
unfolding add_dirs
add_dirs-adds repo_id [] seen nodes = ([], sym (append-nil nodes), tt, tt)
add_dirs-adds repo_id (n ∷ ns) seen nodes =
    let d = filepath_dir n.path in
    let st = climb (length n.path) repo_id d seen nodes in
    let last = (add_dirs repo_id ns st.0 st.1).0 in
    let (near, e, near_all) =
      climb-adds (length n.path) repo_id d seen nodes (dir-shorter n.path) in
    let (far, f, far_all, parents) = add_dirs-adds repo_id ns st.0 st.1 in
    let near_last =
      All-mono (IsAdded repo_id st.0) (IsAdded repo_id last) near
        (λ m h. (h.0, add_dirs_mono repo_id (filepath_dir m.path) ns st.0 st.1 h.1)) near_all in
    (
      near ++ far,
      f ∙ ap (λ x. x ++ far) e ∙ append_assoc nodes near far,
      All-append (IsAdded repo_id last) near far near_last far_all,
      (
        add_dirs_mono repo_id d ns st.0 st.1
            (climb-here (length n.path) repo_id d seen nodes (dir-shorter n.path)),
        parents,
      ),
    )

-- The directory of a node is ".", "/" or the path of a node.
abbrev pub IsPlaced : List BaseNode → BaseNode → Type 0
IsPlaced nodes n =
    (is_top (filepath_dir n.path) || any (λ m. m.path == filepath_dir n.path) nodes) ≡ true

seen_real :
    (d : Text) (nodes : List BaseNode) (seen : List Text)
    → All (λ q. (q == dot || any (λ n. n.path == q) nodes) ≡ true) seen
    → is_reached d seen ≡ true
    → (is_top d || any (λ n. n.path == d) nodes) ≡ true
unfolding any
seen_real d nodes [] real h = ground arith
seen_real d nodes (q ∷ seen) real h = elim (Bool-cases (text_eq q d)) [
  | inl same ↦
      let e : (d == dot || any (λ n. n.path == d) nodes) ≡ true =
        subst (λ x. (x == dot || any (λ n. n.path == x) nodes) ≡ true) ((text_eq_iff q d).0 same)
          real.0 in
      ground (arith, e)
  | inr apart ↦ seen_real d nodes seen real.1 (ground (arith, h, apart))
]

-- If no path stands twice, addImplicitDirs keeps the nodes and puts only directories behind them,
-- and then the directory of every node is ".", "/" or the path of a node: the climb from a path
-- never runs out of fuel.
pub add_implicit_dirs-closed :
    (repo_id : Text) (nodes : List BaseNode)
    → IsKeyed node_path nodes
    → (added : List BaseNode) × (add_implicit_dirs repo_id nodes ≡ nodes ++ added)
      × All (λ n. n ≡ dir_node repo_id n.path) added
      × All (IsPlaced (add_implicit_dirs repo_id nodes)) (add_implicit_dirs repo_id nodes)
unfolding add_implicit_dirs
add_implicit_dirs-closed repo_id nodes k =
    let start_seen = dot ∷ map node_path nodes in
    let last = add_dirs repo_id nodes start_seen nodes in
    let (added, e, dirs, parents) = add_dirs-adds repo_id nodes start_seen nodes in
    let known = all-IsKnown repo_id nodes k in
    let reached =
      All-append (HasParent last.0) nodes added parents
        (All-mono (IsAdded repo_id last.0) (HasParent last.0) added (λ n h. h.1) dirs) in
    (
      added,
      e,
      All-mono (IsAdded repo_id last.0) (λ n. n ≡ dir_node repo_id n.path) added (λ n h. h.0) dirs,
      All-mono (HasParent last.0) (IsPlaced last.1) last.1
          (λ n h. seen_real (filepath_dir n.path) last.1 last.0 known.real h)
          (subst (All (HasParent last.0)) (sym e) reached),
    )
