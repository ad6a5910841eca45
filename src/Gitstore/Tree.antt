-- ===== src/Gitstore/Tree.antt =====
-- The tree index of a commit (BuildTreeIndex), from what `git ls-tree` and `git cat-file --batch-check` print.
pub mod Shorter
pub mod Dirs
pub mod Parents
pub mod Records
use artifact_fs_extropic.Base.{
  ℕ, zero, suc, ◌/◌, ◌%◌, ◌≡◌, Bool, true, false, not, ◌&&◌, ◌||◌, List, [], ◌∷◌, ◌++◌, map, Option,
  none, some, Text, text, Text_eq, ℕ_eq, nat_eq, ◌==◌, if◌then◌else◌, find, put, any, length, ℤ,
  pos,
}
use artifact_fs_extropic.Strings.{fields, split_at, cut, parse_int, parse_octal}
use artifact_fs_extropic.Path.{dot, root, filepath_dir}
use artifact_fs_extropic.Model.{BaseNode, FileType, SizeState}

abbrev pub node_path : BaseNode → Text
node_path n = n.path

-- rootNode
unfoldable pub root_node : Text → BaseNode
root_node repo_id = record {
  repo_id = repo_id;
  path = dot;
  type = FileType.dir;
  mode = 0o755;
  object_oid = [];
  size_state = SizeState.known;
  size_bytes = pos 0;
}

-- normalizeGitType: a symbolic link is a blob with the mode 120000
unfoldable pub normalize_git_type : Text → ℕ → FileType
normalize_git_type type mode =
    if nat_eq ((mode / 0x1000) % 16) 0xA
    then FileType.symlink
    else if type == text "tree"
    then FileType.dir
    else FileType.file

abbrev pub line_node : Text → Text → List Text → Option (Text × BaseNode)
line_node repo_id path (mode ∷ type ∷ oid ∷ _) =
    if type == text "commit"
    then none
    else some (
      type,
      record {
        repo_id = repo_id;
        path = path;
        type = normalize_git_type type (parse_octal mode);
        mode = parse_octal mode;
        object_oid = oid;
        size_state = SizeState.unknown;
        size_bytes = pos 0;
      },
    )
line_node repo_id path _ = none

-- One record of `ls-tree -z`: the type that git names, and the node; none if the record is skipped.
unfoldable pub parse_record : Text → Text → Option (Text × BaseNode)
parse_record repo_id line = elim (cut b'\t' line) [
  | none ↦ none
  | some (meta, path) ↦ line_node repo_id path (fields meta)
]

-- blobIndex[oid]
pub record BlobIndex : Type 0 where
  pub oid : Text
  pub places : List ℕ

abbrev pub blob_key : BlobIndex → Text
blob_key b = b.oid

abbrev pub places_at : Option BlobIndex → List ℕ
places_at none = []
places_at (some b) = b.places

-- The loop of BuildTreeIndex: nodes, blobOIDs, blobIndex.
pub record Scan : Type 0 where
  pub nodes : List BaseNode
  pub blob_oids : List Text
  pub blob_index : List BlobIndex

unfoldable pub add_blob : Text → Scan → Scan
add_blob oid s =
    let places = places_at (find blob_key oid s.blob_index) in
    record s {
      blob_oids = if places == [] then s.blob_oids ++ (oid ∷ []) else s.blob_oids;
      blob_index =
          put blob_key (record { oid = oid; places = places ++ (length s.nodes ∷ []) })
            s.blob_index;
    }

unfoldable pub add_record : Option (Text × BaseNode) → Scan → Scan
unfolding add_blob
add_record none s = s
add_record (some (type, n)) s =
    let s' =
      if type == text "blob" && not (n.object_oid == []) then add_blob n.object_oid s else s in
    record s' { nodes = s.nodes ++ (n ∷ []) }

unfoldable pub scan_records : Text → List Text → Scan → Scan
unfolding add_record parse_record
scan_records repo_id [] s = s
scan_records repo_id (line ∷ lines) s =
    scan_records repo_id lines (add_record (parse_record repo_id line) s)

-- nodes[i].SizeBytes, SizeState = size, "known" for each place
unfoldable pub set_size : ℕ → ℤ → List BaseNode → List BaseNode
set_size i size [] = []
set_size zero size (n ∷ ns) = record n { size_state = SizeState.known; size_bytes = size } ∷ ns
set_size (suc i) size (n ∷ ns) = n ∷ set_size i size ns

unfoldable pub set_sizes : List ℕ → ℤ → List BaseNode → List BaseNode
unfolding set_size
set_sizes [] size ns = ns
set_sizes (i ∷ is) size ns = set_sizes is size (set_size i size ns)

abbrev size_line : List BlobIndex → List Text → List BaseNode → List BaseNode
size_line index (oid ∷ type ∷ size ∷ _) ns = elim (parse_int size) [
  | none ↦ ns
  | some size' ↦ set_sizes (places_at (find blob_key oid index)) size' ns
]
size_line index _ ns = ns

-- batchResolveSizes, on the lines that git prints
unfoldable pub apply_sizes : List BlobIndex → List Text → List BaseNode → List BaseNode
unfolding set_sizes
apply_sizes index [] ns = ns
apply_sizes index (line ∷ lines) ns = apply_sizes index lines (size_line index (fields line) ns)

-- addImplicitDirs. The paths seen, and the nodes.
abbrev pub is_seen : Text → List Text → Bool
is_seen d seen = any (λ q. q == d) seen

abbrev pub is_top : Text → Bool
is_top d = d == dot || d == root

abbrev pub dir_node : Text → Text → BaseNode
dir_node repo_id d = record {
  repo_id = repo_id;
  path = d;
  type = FileType.dir;
  mode = 0o755;
  object_oid = [];
  size_state = SizeState.known;
  size_bytes = pos 0;
}

-- The inner loop, up from the directory d; the fuel is more than the length of d.
unfoldable pub climb : ℕ → Text → Text → List Text → List BaseNode → List Text × List BaseNode
climb zero repo_id d seen nodes = (seen, nodes)
climb (suc k) repo_id d seen nodes =
    let rest = climb k repo_id (filepath_dir d) (d ∷ seen) (nodes ++ (dir_node repo_id d ∷ [])) in
    if is_top d || is_seen d seen then (seen, nodes) else rest

unfoldable pub add_dirs :
    Text → List BaseNode → List Text → List BaseNode → List Text × List BaseNode
unfolding climb
add_dirs repo_id [] seen nodes = (seen, nodes)
add_dirs repo_id (n ∷ ns) seen nodes =
    let (seen', nodes') = climb (length n.path) repo_id (filepath_dir n.path) seen nodes in
    add_dirs repo_id ns seen' nodes'

unfoldable pub add_implicit_dirs : Text → List BaseNode → List BaseNode
unfolding add_dirs
add_implicit_dirs repo_id nodes = (add_dirs repo_id nodes (dot ∷ map node_path nodes) nodes).1
