-- ===== src/Resolver.antt =====
-- internal/fusefs/merged.go: the tracked tree of the current generation under the overlay. The two
-- stores are interfaces (model.SnapshotStore and model.OverlayStore), as far as they are read here.
pub mod Paths
pub mod Listing
mod Tests
use artifact_fs_extropic.Base.{
  ℕ, ◌≡◌, ◌*◌, ◌%◌, Bool, true, false, not, ◌&&◌, ◌||◌, List, [], ◌∷◌, map, Option, none, some,
  Text, Text_eq, ℕ_eq, text_lt, ◌==◌, if◌then◌else◌, find, put, delete, sort_by, ℤ, pos, Error,
  not_exist, is_not_exist, Result, ok, err,
}
use artifact_fs_extropic.Path.{
  filepath_base, dot, root, split, clean_path, filepath_join, child_name,
}
use artifact_fs_extropic.Model.{
  BaseNode, FileType, FileType_eq, OverlayEntry, is_deleted, node_type,
}

pub record BaseView : Type 0 where
  pub get_node : ℕ → Text → Option BaseNode
  pub list_children : ℕ → Text → Result (List BaseNode)

pub record OverlayView : Type 0 where
  pub get : Text → Option OverlayEntry
  pub list_by_prefix : Text → Result (List OverlayEntry)

pub record Resolver : Type 0 where
  pub generation : ℕ
  -- seconds; 0 if it is not known
  pub commit_time : ℕ
  pub snapshot : BaseView
  pub overlay : OverlayView

-- ResolvedNode: `FromOverlay` says which of its two nodes is set.
pub data ResolvedNode : Type 0 where
  from_overlay : OverlayEntry → ResolvedNode
  from_base : BaseNode → ResolvedNode

abbrev pub base_or_missing : Option BaseNode → Result ResolvedNode
base_or_missing none = err not_exist
base_or_missing (some n) = ok (from_base n)

unfoldable pub resolve_path : Resolver → Text → Result ResolvedNode
resolve_path r path =
    let path' = clean_path path in
    elim (r.overlay.get path') [
      | some ov ↦ if is_deleted ov then err not_exist else ok (from_overlay ov)
      | none ↦ base_or_missing (r.snapshot.get_node r.generation path')
    ]

unfoldable pub lookup : Resolver → Text → Text → Result ResolvedNode
unfolding resolve_path
lookup r parent name =
    let parent' = if parent == [] then dot else parent in
    resolve_path r (clean_path (filepath_join parent' name))

-- `mode & 0o777` is the rest modulo 512.
unfoldable pub normalize_mode : ℕ → FileType → ℕ
normalize_mode mode type =
    let perms = mode % 512 in
    if type == FileType.dir && perms == 0
    then 0o755
    else if (type == FileType.file || type == FileType.symlink) && perms == 0
    then 0o644
    else mode

-- The results of Getattr; the time in nanoseconds.
pub record Attributes : Type 0 where
  pub mode : ℕ
  pub size : ℤ
  pub type : FileType
  pub mtime : ℕ

abbrev pub attributes : Resolver → ResolvedNode → Attributes
attributes r (from_overlay e) = record {
  mode = e.mode;
  size = pos (e.size_bytes);
  type = node_type e;
  mtime = e.mtime_unix_ns;
}
attributes r (from_base n) = record {
  mode = normalize_mode n.mode n.type;
  size = n.size_bytes;
  type = n.type;
  mtime = (if r.commit_time == 0 then r.generation else r.commit_time) * 1000000000;
}

unfoldable pub getattr : Resolver → Text → Result Attributes
unfolding resolve_path normalize_mode
getattr r path = elim (resolve_path r path) [ err e ↦ err e | ok n ↦ ok (attributes r n) ]

pub record ReaddirEntry : Type 0 where
  pub name : Text
  pub type : FileType

abbrev pub entry_name : ReaddirEntry → Text
entry_name e = e.name

-- ReaddirTyped, the tracked children; the map is a table with the name as its key
unfoldable pub add_child : List ReaddirEntry → BaseNode → List ReaddirEntry
add_child set c =
    let name = filepath_base c.path in
    if name == dot then set else put entry_name (record { name = name; type = c.type }) set

unfoldable pub add_children : List ReaddirEntry → List BaseNode → List ReaddirEntry
add_children set [] = set
add_children set (c ∷ cs) = add_children (add_child set c) cs

abbrev pub is_hidden : Option OverlayEntry → Bool
is_hidden none = false
is_hidden (some ov) = is_deleted ov

abbrev pub child_path : Text → Text → Text
child_path path name = clean_path (filepath_join path name)

-- ReaddirTyped, one entry of the overlay
unfoldable pub add_entry : Resolver → Text → List ReaddirEntry → OverlayEntry → List ReaddirEntry
add_entry r path set e = elim (child_name path e.path) [
  | none ↦ set
  | some name ↦
      if is_deleted e && e.path == child_path path name
      then delete entry_name name set
      else if is_hidden (r.overlay.get (child_path path name))
      then set
      else put entry_name (record { name = name; type = node_type e }) set
]

unfoldable pub add_entries :
    Resolver → Text → List ReaddirEntry → List OverlayEntry → List ReaddirEntry
add_entries r path set [] = set
add_entries r path set (e ∷ es) = add_entries r path (add_entry r path set e) es

abbrev pub name_order : ReaddirEntry → ReaddirEntry → Bool
name_order a b = text_lt a.name b.name

-- An error of the overlay's list is dropped, and one of the snapshot's that says that nothing is there.
abbrev pub or_nothing : {A : Type 0} → Result (List A) → List A
or_nothing (ok xs) = xs
or_nothing (err e) = []

abbrev pub tolerated : {A : Type 0} → Result (List A) → Result (List A)
tolerated (ok xs) = ok xs
tolerated (err e) = if is_not_exist e then ok [] else err e

unfoldable pub readdir_typed : Resolver → Text → Result (List ReaddirEntry)
readdir_typed r path =
    let path' = clean_path path in
    elim (tolerated (r.snapshot.list_children r.generation path')) [
      | err e ↦ err e
      | ok children ↦ ok (
          sort_by name_order (
            add_entries r path' (add_children [] children)
              (or_nothing (r.overlay.list_by_prefix path'))))
    ]

unfoldable pub readdir : Resolver → Text → Result (List Text)
unfolding readdir_typed
readdir r path = elim (readdir_typed r path) [ err e ↦ err e | ok es ↦ ok (map (λ e. e.name) es) ]
