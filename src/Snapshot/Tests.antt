-- ===== src/Snapshot/Tests.antt =====
-- The theorems on the snapshot at a concrete store.
use artifact_fs_extropic.Base.{
  ◌≡◌, refl, ℕ, ◌&&◌, List, [], ◌∷◌, Option, none, some, Text, text, Text_eq, ℕ_eq, text_eq, ◌==◌,
  if◌then◌else◌, find, put, keep, any, IsKeyed, sort_by, insert_by, Error, constraint, ok, err, pos,
}
use artifact_fs_extropic.Path.{
  clean_path, parent_dir, filepath_clean, filepath_dir, up_to_slash, stack, split, join,
  push_element, push_elements, cut_prefix,
}
use artifact_fs_extropic.Model.{BaseNode, FileType, SizeState}
use artifact_fs_extropic.Snapshot.{
  Access, Store, node_path, scanned, next_generation, insert_node, insert_nodes, set_states,
  write_generation, prune, publish_generation, get_node, list_children, update_size,
}
use artifact_fs_extropic.Snapshot.Inserts.{IsValid}
use artifact_fs_extropic.Snapshot.Publish.{
  publish-current, publish-previous, publish-distinct, publish-IsValid,
}
use artifact_fs_extropic.Snapshot.Children.{is_there, list_children-get_node, update_size-view}

abbrev node : Text → FileType → Text → BaseNode
node path type oid = record {
  repo_id = [];
  path = path;
  type = type;
  mode = 0o644;
  object_oid = oid;
  size_state = SizeState.unknown;
  size_bytes = pos 0;
}

abbrev no_fault : Access → Option Error
no_fault _ = none

abbrev empty : Store
empty = record { nodes = []; current = none; head_oid = none; head_ref = none }

abbrev tree : List BaseNode
tree = node (text "d") FileType.dir (text "1") ∷ node (text "d/f") FileType.file (text "2") ∷ []

abbrev next_tree : List BaseNode
next_tree = node (text "d") FileType.dir (text "3") ∷ []

abbrev first : Store
first = (publish_generation no_fault (text "h") (text "main") tree empty).1

abbrev second : Store
second = (publish_generation no_fault (text "i") (text "main") next_tree first).1

first_run : publish_generation no_fault (text "h") (text "main") tree empty ≡ (ok 1, first)
unfolding publish_generation write_generation insert_nodes insert_node set_states prune find put
    keep text_eq
first_run = refl

second_run : publish_generation no_fault (text "i") (text "main") next_tree first ≡ (ok 2, second)
unfolding publish_generation write_generation insert_nodes insert_node set_states prune find put
    keep text_eq
second_run = refl

empty-IsValid : IsValid empty
empty-IsValid = record { keyed = tt; parents = tt }

publish-IsValid_example :
    IsValid (publish_generation no_fault (text "h") (text "main") tree empty).1
publish-IsValid_example = publish-IsValid no_fault (text "h") (text "main") tree empty empty-IsValid

first-IsValid : IsValid first
first-IsValid = publish-IsValid no_fault (text "h") (text "main") tree empty empty-IsValid

publish-current_example :
    (1 ≡ next_generation empty)
    × (first.current ≡ some 1)
    × (get_node no_fault 1 (text "d/f") first
        ≡ elim (find node_path (text "d/f") tree) [ none ↦ none | some n ↦ some (scanned n) ])
publish-current_example =
    publish-current no_fault no_fault (text "h") (text "main") tree empty first 1 (text "d/f") tt
      first_run refl

publish-previous_example :
    get_node no_fault 1 (text "d/f") second ≡ get_node no_fault 1 (text "d/f") first
publish-previous_example =
    publish-previous no_fault no_fault (text "i") (text "main") next_tree first second 1
      (text "d/f") first-IsValid.keyed second_run refl

-- A tree with a path twice.
abbrev twice : List BaseNode
twice = node (text "a") FileType.file (text "1") ∷ node (text "a") FileType.file (text "2") ∷ []

twice_run :
    publish_generation no_fault (text "i") (text "main") twice first ≡ (err constraint, first)
unfolding publish_generation write_generation insert_nodes insert_node set_states prune find put
    keep text_eq
twice_run = refl

publish-distinct_run : IsKeyed node_path tree
publish-distinct_run =
    publish-distinct no_fault (text "h") (text "main") tree empty first 1 first_run

abbrev listed : List BaseNode
listed = node (text "d/f") FileType.file (text "2") ∷ []

list_run : list_children no_fault 1 (text "./d") first ≡ ok listed
unfolding list_children publish_generation write_generation insert_nodes insert_node set_states
    prune find put keep text_eq sort_by insert_by clean_path parent_dir filepath_clean filepath_dir
    up_to_slash stack split push_elements push_element join cut_prefix
list_run = refl

list_children-get_node_example : any (λ n. n.path == text "d/f") listed ≡ (
    is_there (get_node no_fault 1 (text "d/f") first)
    && (parent_dir (text "d/f") == clean_path (text "./d")))
list_children-get_node_example =
    list_children-get_node no_fault no_fault 1 (text "./d") (text "d/f") first listed first-IsValid
      list_run

got : get_node no_fault 1 (text "d/f") first ≡ some (node (text "d/f") FileType.file (text "2"))
unfolding get_node publish_generation write_generation insert_nodes insert_node set_states prune
    find put keep text_eq
got = refl

update_size-view_run :
    get_node no_fault 1 (text "d/f") (update_size no_fault 1 (text "2") (pos 7) first)
    ≡ some (
        if ◌==◌ {A = ℕ} 1 1 && text_eq (text "2") (text "2")
        then record (node (text "d/f") FileType.file (text "2")) {
          size_bytes = pos 7;
          size_state = SizeState.known;
        }
        else node (text "d/f") FileType.file (text "2"))
update_size-view_run =
    update_size-view no_fault no_fault 1 (text "2") (pos 7) first 1 (text "d/f")
      (node (text "d/f") FileType.file (text "2")) refl refl got
