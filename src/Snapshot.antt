-- ===== src/Snapshot.antt =====
-- internal/snapshot/store.go: the tracked entries of the git tree, by generation. The tables are
-- base_nodes, with the key (generation, path), and repo_state, whose three keys are three fields.
-- `fault` says which statement of a call fails for a reason outside the tables.
pub mod Inserts
pub mod Publish
pub mod Children
mod Tests
use artifact_fs_extropic.Base.{
  arith, ℕ, suc, ◌+◌, ◌-◌, ◌≡◌, ◌↔◌, Bool, true, false, not, ◌&&◌, List, [], ◌∷◌, map, Option, none,
  some, Text, text, Text_eq, ℕ_eq, Eq, nat_eq, nat_eq_iff, text_eq, text_eq_iff, text_lt, ltb, ◌==◌,
  if◌then◌else◌, find, put, keep, sort_by, ℤ, Error, constraint, Result, ok, err, Exec, pure, raise,
  gets, ignore, handle, ◌>>=◌, ◌>>◌,
}
use artifact_fs_extropic.Path.{clean_path, parent_dir}
use artifact_fs_extropic.Model.{BaseNode, SizeState}

-- The statements of the store.
pub data Access : Type 0 where
  begin read_state clear prepare commit drop_old query resize : Access
  insert set_state : Text → Access

pub record NodeKey : Type 0 where
  pub generation : ℕ
  pub path : Text

abbrev pub NodeKey_beq : NodeKey → NodeKey → Bool
NodeKey_beq a b = nat_eq a.generation b.generation && text_eq a.path b.path

pub NodeKey_beq_iff : (a b : NodeKey) → (NodeKey_beq a b ≡ true) ↔ (a ≡ b)
NodeKey_beq_iff a b =
    ground (arith, nat_eq_iff a.generation b.generation, text_eq_iff a.path b.path)

instance abbrev pub NodeKey_eq : Eq NodeKey
NodeKey_eq = record { same = NodeKey_beq; same_iff = NodeKey_beq_iff }

-- A row of base_nodes; its columns are those of the node, less the id of the repository.
pub record NodeRow : Type 0 where
  pub generation : ℕ
  pub parent_path : Text
  pub node : BaseNode

abbrev pub row_key : NodeRow → NodeKey
row_key r = record { generation = r.generation; path = r.node.path }

abbrev pub node_path : BaseNode → Text
node_path n = n.path

-- A node as it is read back.
abbrev pub scanned : BaseNode → BaseNode
scanned n = record n { repo_id = [] }

pub record Store : Type 0 where
  pub nodes : List NodeRow
  pub current : Option ℕ
  pub head_oid : Option Text
  pub head_ref : Option Text

-- An error rolls back what the transaction has done.
abbrev pub transaction : {A : Type 0} → Exec Store A → Exec Store A
transaction m s = handle pure (λ e _. (err e, s)) (m s)

abbrev pub or_default : {A : Type 0} → A → Option A → A
or_default d none = d
or_default d (some a) = a

-- nextGenerationTx, CurrentGeneration
abbrev pub next_generation : Store → ℕ
next_generation s = elim s.current [ none ↦ 1 | some gen ↦ gen + 1 ]

abbrev pub stored : ℕ → BaseNode → NodeRow
stored gen n = record { generation = gen; parent_path = parent_dir n.path; node = scanned n }

abbrev pub node_order : BaseNode → BaseNode → Bool
node_order a b = text_lt a.path b.path

abbrev pub is_child : ℕ → Text → NodeRow → Bool
is_child gen pp r = r.generation == gen && r.parent_path == pp

abbrev pub sized : ℕ → Text → ℤ → NodeRow → NodeRow
sized gen oid size r =
    if r.generation == gen && r.node.object_oid == oid
    then record r { node = record (r.node) { size_bytes = size; size_state = SizeState.known } }
    else r

module _ (fault : Access → Option Error) where
  abbrev pub check : Access → Exec Store (Unit {0})
  check a s = elim (fault a) [ none ↦ (ok tt, s) | some e ↦ (err e, s) ]

  -- A statement that changes the tables if it does not fail.
  abbrev pub exec : Access → (Store → Store) → Exec Store (Unit {0})
  exec a f s = elim (fault a) [ none ↦ (ok tt, f s) | some e ↦ (err e, s) ]

  -- INSERT INTO base_nodes for one node, and for all in turn: the key must be new
  unfoldable pub insert_node : ℕ → BaseNode → Exec Store (Unit {0})
  insert_node gen n s = elim (fault (Access.insert n.path)) [
    | some e ↦ (err e, s)
    | none ↦ elim (find row_key (row_key (stored gen n)) s.nodes) [
      | some _ ↦ (err constraint, s)
      | none ↦ (ok tt, record s { nodes = put row_key (stored gen n) s.nodes })
    ]
  ]

  unfoldable pub insert_nodes : ℕ → List BaseNode → Exec Store (Unit {0})
  insert_nodes gen [] s = (ok tt, s)
  insert_nodes gen (n ∷ ns) s = handle (λ _. insert_nodes gen ns) raise (insert_node gen n s)

  -- upsertState for the three keys
  unfoldable pub set_states : ℕ → Text → Text → Exec Store (Unit {0})
  set_states gen oid ref = do
    exec (Access.set_state (text "current_generation")) (λ s. record s { current = some gen })
    exec (Access.set_state (text "head_oid")) (λ s. record s { head_oid = some oid })
    exec (Access.set_state (text "head_ref")) (λ s. record s { head_ref = some ref })

  unfoldable pub write_generation : Text → Text → List BaseNode → Exec Store ℕ
  write_generation oid ref nodes = do
    check Access.begin
    check Access.read_state
    gen ← gets next_generation
    exec Access.clear (λ s. record s { nodes = keep (λ r. not (r.generation == gen)) s.nodes })
    check Access.prepare
    insert_nodes gen nodes
    set_states gen oid ref
    check Access.commit
    pure gen

  -- DELETE FROM base_nodes WHERE generation < gen - 1, its error dropped
  unfoldable pub prune : ℕ → Store → Store
  prune gen s =
      if ltb 2 gen
      then (ignore
          (exec Access.drop_old
            (λ t. record t { nodes = keep (λ r. not (ltb r.generation (gen - 1))) t.nodes }))
          s).1
      else s

  unfoldable pub publish_generation : Text → Text → List BaseNode → Exec Store ℕ
  publish_generation oid ref nodes s =
      handle (λ gen t. (ok gen, prune gen t)) raise (transaction (write_generation oid ref nodes) s)

  unfoldable pub current_generation : Exec Store ℕ
  current_generation = do check Access.read_state; gets (λ s. or_default 0 s.current)

  unfoldable pub update_head_ref : Text → Exec Store (Unit {0})
  update_head_ref ref =
      exec (Access.set_state (text "head_ref")) (λ s. record s { head_ref = some ref })

  -- GetNodeCtx: an error of the query is a missing node
  unfoldable pub get_node : ℕ → Text → Store → Option BaseNode
  get_node gen path s = elim (fault Access.query) [
    | some _ ↦ none
    | none ↦ elim (find row_key (record { generation = gen; path = path }) s.nodes) [
      | none ↦ none
      | some r ↦ some r.node
    ]
  ]

  unfoldable pub list_children : ℕ → Text → Store → Result (List BaseNode)
  list_children gen parent_path s = elim (fault Access.query) [
    | some e ↦ err e
    | none ↦ ok (
        sort_by node_order
          (map (λ r. r.node) (keep (is_child gen (clean_path parent_path)) s.nodes)))
  ]

  -- UpdateSize; its error is dropped
  unfoldable pub update_size : ℕ → Text → ℤ → Store → Store
  update_size gen oid size s =
      (ignore (exec Access.resize (λ t. record t { nodes = map (sized gen oid size) t.nodes })) s).1
