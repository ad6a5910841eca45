-- ===== src/Inodes.antt =====
-- internal/fusefs/fuse_unix.go: the table of inodes of the FUSE adapter. Each call holds the lock, so
-- the calls are steps of one state. The types and modes that an inode also carries are kept as given.
pub mod Table
pub mod Requests
mod Tests
use artifact_fs_extropic.Base.{
  arith, ℕ, zero, suc, ◌+◌, ◌-◌, ◌≡◌, Bool, true, false, not, ◌&&◌, ◌||◌, List, [], ◌∷◌, Option,
  none, some, Text, Text_eq, ℕ_eq, leb, ◌==◌, if◌then◌else◌, find, put, delete, ℤ, pos, negsuc,
  Result, ok, err, Error,
}
use artifact_fs_extropic.Path.{dot, clean_child_path}
use artifact_fs_extropic.Model.{FileType}

pub record InodeRef : Type 0 where
  pub id : ℕ
  pub path : Text
  pub type : FileType
  pub mode : ℕ
  pub refcnt : ℤ
  pub is_root : Bool

pub record PathInode : Type 0 where
  pub path : Text
  pub id : ℕ

abbrev pub inode_id : InodeRef → ℕ
inode_id r = r.id

abbrev pub inode_path : PathInode → Text
inode_path x = x.path

-- The fields of ArtifactFuse for inodes.
pub record InodeTable : Type 0 where
  pub inodes : List InodeRef
  pub path_to_inode : List PathInode
  pub next_inode_id : ℕ

-- fuseops.RootInodeID
abbrev pub root_inode_id : ℕ
root_inode_id = 1

abbrev pub root_inode : InodeRef
root_inode = record {
  id = root_inode_id;
  path = dot;
  type = FileType.dir;
  mode = 0o755;
  refcnt = pos 1;
  is_root = true;
}

-- NewArtifactFuse
abbrev pub new_table : InodeTable
new_table = record {
  inodes = root_inode ∷ [];
  path_to_inode = record { path = dot; id = root_inode_id } ∷ [];
  next_inode_id = root_inode_id + 1;
}

abbrev pub incremented : ℤ → ℤ
incremented (pos n) = pos (suc n)
incremented (negsuc zero) = pos 0
incremented (negsuc (suc n)) = negsuc n

abbrev pub lowered : ℤ → ℕ → ℤ
lowered (pos a) n = if leb n a then pos (a - n) else negsuc (n - a - 1)
lowered (negsuc a) n = negsuc (a + n)

abbrev pub is_positive : ℤ → Bool
is_positive (pos zero) = false
is_positive (pos (suc n)) = true
is_positive (negsuc n) = false

-- allocInode, where the path has no inode
unfoldable pub new_inode : InodeTable → Text → FileType → ℕ → InodeRef × InodeTable
new_inode t path type mode =
    let ref : InodeRef = record {
      id = t.next_inode_id;
      path = path;
      type = type;
      mode = mode;
      refcnt = pos 1;
      is_root = false;
    } in
    (
      ref,
      record {
        inodes = put inode_id ref t.inodes;
        path_to_inode =
            put inode_path (record { path = path; id = t.next_inode_id }) t.path_to_inode;
        next_inode_id = t.next_inode_id + 1;
      },
    )

-- The inode that a path has.
unfoldable pub inode_at : InodeTable → Text → Option InodeRef
inode_at t path = elim (find inode_path path t.path_to_inode) [
  | none ↦ none
  | some x ↦ find inode_id x.id t.inodes
]

unfoldable pub alloc_inode : InodeTable → Text → FileType → ℕ → InodeRef × InodeTable
unfolding new_inode inode_at
alloc_inode t path type mode = elim (inode_at t path) [
  | none ↦ new_inode t path type mode
  | some ref ↦
      let ref' : InodeRef = record ref { refcnt = incremented ref.refcnt } in
      (ref', record t { inodes = put inode_id ref' t.inodes })
]

-- getInode, requireInode
unfoldable pub require_inode : InodeTable → ℕ → Error → Result InodeRef
require_inode t id missing = elim (find inode_id id t.inodes) [
  | none ↦ err missing
  | some ref ↦ ok ref
]

-- ForgetInode
unfoldable pub forget_inode : InodeTable → ℕ → ℕ → InodeTable
forget_inode t id n = elim (find inode_id id t.inodes) [
  | none ↦ t
  | some ref ↦
      let ref' : InodeRef = record ref { refcnt = lowered ref.refcnt n } in
      if not (is_positive ref'.refcnt) && not ref.is_root
      then record t {
        inodes = delete inode_id id t.inodes;
        path_to_inode = delete inode_path ref.path t.path_to_inode;
      }
      else record t { inodes = put inode_id ref' t.inodes }
]
