-- ===== src/Model.antt =====
-- internal/model/types.go: the data that the components exchange.
use artifact_fs_extropic.Base.{ℕ, ◌≡◌, ◌↔◌, Bool, true, false, Text, Eq, ◌==◌, ℤ, arith}

pub record RepoConfig : Type 0 where
  pub id : Text
  pub name : Text
  pub mount_root : Text
  pub mount_path : Text
  pub remote_url : Text
  pub remote_url_redacted : Text
  pub branch : Text
  pub refresh_interval : ℕ
  pub git_dir : Text
  pub overlay_dir : Text
  pub blob_cache_dir : Text
  pub meta_db_path : Text
  pub overlay_db_path : Text
  pub enabled : Bool

-- The texts "file", "dir" and "symlink".
pub data FileType : Type 0 where
  file dir symlink : FileType

abbrev pub FileType_beq : FileType → FileType → Bool
FileType_beq file file = true
FileType_beq dir dir = true
FileType_beq symlink symlink = true
FileType_beq _ _ = false

pub FileType_beq_iff : (a b : FileType) → (FileType_beq a b ≡ true) ↔ (a ≡ b)
FileType_beq_iff a b = ground arith

instance abbrev pub FileType_eq : Eq FileType
FileType_eq = record { same = FileType_beq; same_iff = FileType_beq_iff }

-- The texts "unknown" and "known".
pub data SizeState : Type 0 where
  unknown known : SizeState

abbrev pub is_known : SizeState → Bool
is_known unknown = false
is_known known = true

-- BaseNode: a tracked entry of the git tree.
pub record BaseNode : Type 0 where
  pub repo_id : Text
  pub path : Text
  pub type : FileType
  pub mode : ℕ
  pub object_oid : Text
  pub size_state : SizeState
  pub size_bytes : ℤ

pub data OverlayKind : Type 0 where
  create modify delete rename mkdir symlink : OverlayKind

abbrev pub OverlayKind_beq : OverlayKind → OverlayKind → Bool
OverlayKind_beq create create = true
OverlayKind_beq modify modify = true
OverlayKind_beq delete delete = true
OverlayKind_beq rename rename = true
OverlayKind_beq mkdir mkdir = true
OverlayKind_beq OverlayKind.symlink OverlayKind.symlink = true
OverlayKind_beq _ _ = false

pub OverlayKind_beq_iff : (a b : OverlayKind) → (OverlayKind_beq a b ≡ true) ↔ (a ≡ b)
OverlayKind_beq_iff a b = ground arith

instance abbrev pub OverlayKind_eq : Eq OverlayKind
OverlayKind_eq = record { same = OverlayKind_beq; same_iff = OverlayKind_beq_iff }

-- OverlayEntry: also a row of the table overlay_entries, which has every column but the id.
pub record OverlayEntry : Type 0 where
  pub repo_id : Text
  pub path : Text
  pub kind : OverlayKind
  pub backing_path : Text
  pub mode : ℕ
  pub size_bytes : ℕ
  pub mtime_unix_ns : ℕ
  pub source_oid : Text
  pub target_path : Text

-- IsDeleted
abbrev pub is_deleted : OverlayEntry → Bool
is_deleted e = e.kind == delete

abbrev pub kind_type : OverlayKind → FileType
kind_type mkdir = dir
kind_type OverlayKind.symlink = FileType.symlink
kind_type _ = file

-- NodeType
abbrev pub node_type : OverlayEntry → FileType
node_type e = kind_type e.kind
