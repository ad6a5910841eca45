-- ===== src/Fuse.antt =====
-- internal/fusefs/fuse_unix.go: the operations that the kernel asks for, one at a time, over the table of
-- inodes and the engine. Writing a directory entry into the kernel's buffer is a parameter, and so is
-- the owner of the process. Times of expiry are left out.
pub mod Served
mod Tests
use artifact_fs_extropic.Base.{
  ℕ, zero, suc, ◌+◌, ◌-◌, ◌%◌, ◌^◌, ◌≡◌, Bool, true, false, not, ◌&&◌, ◌||◌, List, [], ◌∷◌, ◌++◌,
  Option, none, some, Text, text, Text_eq, ℕ_eq, nat_eq, ltb, leb, ◌==◌, if◌then◌else◌, ℤ, pos,
  negsuc, is_negative, ltb_ℤ, find, put, delete, length, Error, other, not_exist, exists,
  blob_too_large, is_not_exist, Result, ok, err, Exec,
}
use artifact_fs_extropic.Path.{clean_child_path}
use artifact_fs_extropic.Model.{BaseNode, FileType, FileType_eq, is_known}
use artifact_fs_extropic.Platform.{Platform}
use artifact_fs_extropic.Overlay.{Store, on_disk}
use artifact_fs_extropic.Resolver.{Attributes, ReaddirEntry, getattr, readdir_typed, resolve_path}
use artifact_fs_extropic.Inodes.{InodeRef, InodeTable, alloc_inode, require_inode}
use artifact_fs_extropic.Engine.{
  BlobSource, Mount, resolver, base_of, create, unlink, make_dir, rename_path, rmdir, truncate,
  touch, read, write, prefetch_dir,
}

-- The error numbers of the replies.
abbrev pub enoent : Error
enoent = other 1002

abbrev pub eio : Error
eio = other 1005

abbrev pub ebadf : Error
ebadf = other 1009

abbrev pub enametoolong : Error
enametoolong = other 1036

abbrev pub enotempty : Error
enotempty = other 1039

abbrev pub estale : Error
estale = other 1116

pub record DirHandle : Type 0 where
  pub id : ℕ
  pub entries : List ReaddirEntry

pub record FileHandle : Type 0 where
  pub id : ℕ
  pub path : Text

abbrev pub dir_handle_id : DirHandle → ℕ
dir_handle_id h = h.id

abbrev pub file_handle_id : FileHandle → ℕ
file_handle_id h = h.id

-- ArtifactFuse, with the overlay of its engine.
pub record Fuse (D : Type 0) : Type 0 where
  pub table : InodeTable
  pub dir_handles : List DirHandle
  pub file_handles : List FileHandle
  pub next_handle_id : ℕ
  pub store : Store D

-- fuseops.InodeAttributes, less the times that the code does not set; the bits for a directory or a
-- link are the type
pub record InodeAttributes : Type 0 where
  pub size : ℕ
  pub nlink : ℕ
  pub mode : ℕ
  pub type : FileType
  pub uid : ℕ
  pub gid : ℕ
  pub mtime : ℕ

-- An entry of a directory in the kernel's form: its name, type and the offset behind it.
pub record Dirent : Type 0 where
  pub name : Text
  pub type : FileType
  pub offset : ℕ

-- os.Getuid(), os.Getgid(), and fuseutil.WriteDirent: how many bytes an entry takes in the room that
-- is left, 0 if it does not fit
pub record Host : Type 0 where
  pub uid : ℕ
  pub gid : ℕ
  pub fits : ℕ → Dirent → ℕ

abbrev pub to_uint64 : ℤ → ℕ
to_uint64 (pos n) = n
to_uint64 (negsuc n) = 2 ^ 64 - suc n

-- inodeAttrs
unfoldable pub inode_attrs : Host → ℕ → ℕ → FileType → ℕ → InodeAttributes
inode_attrs host mode size type mtime =
    let perms = mode % 512 in
    record {
      size = if type == FileType.dir && size == 0 then 4096 else size;
      nlink = 1;
      mode = if perms == 0 then (if type == FileType.dir then 0o755 else 0o644) else perms;
      type = type;
      uid = host.uid;
      gid = host.gid;
      mtime = mtime;
    }

abbrev pub attrs_of : Host → Attributes → InodeAttributes
attrs_of host a = inode_attrs host a.mode (to_uint64 a.size) a.type a.mtime

unfoldable pub drop_entries : ℕ → List ReaddirEntry → List ReaddirEntry
drop_entries zero es = es
drop_entries (suc n) [] = []
drop_entries (suc n) (e ∷ es) = drop_entries n es

-- validateKnownSymlinkTargetSize
abbrev pub max_symlink_target_bytes : ℤ
max_symlink_target_bytes = pos 4096

unfoldable pub validate_known_symlink_target_size : BaseNode → Result (Unit {0})
validate_known_symlink_target_size n =
    if not (is_known n.size_state)
    then ok tt
    else if is_negative n.size_bytes
    then err eio
    else if ltb_ℤ max_symlink_target_bytes n.size_bytes
    then err enametoolong
    else ok tt

-- The bytes of the .git file that a read sees.
unfoldable pub drop_bytes : ℕ → Text → Text
drop_bytes zero s = s
drop_bytes (suc n) [] = []
drop_bytes (suc n) (c ∷ s) = drop_bytes n s

unfoldable pub take_bytes : ℕ → Text → Text
take_bytes zero s = []
take_bytes (suc n) [] = []
take_bytes (suc n) (c ∷ s) = c ∷ take_bytes n s

abbrev pub git_name : Text
git_name = text ".git"

abbrev pub eio_unless_ok : {A : Type 0} → Result A → Result A
eio_unless_ok (ok x) = ok x
eio_unless_ok (err _) = err eio

module _ (p : Platform) (source : BlobSource p.Disk) (m : Mount) (host : Host) where
  open p use {Disk}

  -- A call of the engine.
  abbrev pub at_store : {A : Type 0} → Exec (Store Disk) A → Exec (Fuse Disk) A
  at_store f s = let (r, t) = f s.store in (r, record s { store = t })

  -- gitfileContent, of NewArtifactFuse
  abbrev pub gitfile_content : Text
  gitfile_content = text "gitdir: " ++ (m.repo.git_dir ++ (b'\n' ∷ []))

  -- gitFileAttrs, at a time
  abbrev pub git_file_attrs : ℕ → InodeAttributes
  git_file_attrs now = record {
    size = length gitfile_content;
    nlink = 1;
    mode = 0o644;
    type = FileType.file;
    uid = host.uid;
    gid = host.gid;
    mtime = now;
  }

  abbrev pub set_table : InodeTable → Fuse Disk → Fuse Disk
  set_table t s = record s { table = t }

  -- LookUpInode: the number of the child, and its attributes
  abbrev pub found_child : Text → Attributes → Exec (Fuse Disk) (ℕ × InodeAttributes)
  found_child path a s =
      let (ref, t) = alloc_inode s.table path a.type a.mode in
      (ok (ref.id, attrs_of host a), set_table t s)

  unfoldable pub look_up_child : Text → Exec (Fuse Disk) (ℕ × InodeAttributes)
  look_up_child path s = elim (getattr (resolver p source m s.store) path) [
    | err e ↦ (if is_not_exist e then err enoent else err eio, s)
    | ok a ↦ found_child path a s
  ]

  unfoldable pub look_up_inode : ℕ → Text → ℕ → Exec (Fuse Disk) (ℕ × InodeAttributes)
  look_up_inode parent_id name now s = elim (require_inode s.table parent_id enoent) [
    | err e ↦ (err e, s)
    | ok parent ↦
        let git : Result (ℕ × InodeAttributes) × Fuse Disk =
          let (ref, t) = alloc_inode s.table git_name FileType.file 0o644 in
          (ok (ref.id, git_file_attrs now), set_table t s) in
        if parent.is_root && name == git_name
        then git
        else look_up_child (clean_child_path parent.path name) s
  ]

  -- GetInodeAttributes
  abbrev pub attributes_at : Fuse Disk → ℕ → Text → Result InodeAttributes
  attributes_at s now path =
      if path == git_name
      then ok (git_file_attrs now)
      else elim (getattr (resolver p source m s.store) path) [
        | err _ ↦ err enoent
        | ok a ↦ ok (attrs_of host a)
      ]

  unfoldable pub get_inode_attributes : ℕ → ℕ → Fuse Disk → Result InodeAttributes
  get_inode_attributes id now s = elim (require_inode s.table id estale) [
    | err e ↦ err e
    | ok ref ↦ attributes_at s now ref.path
  ]

  -- SetInodeAttributes, with the size and the time that are to be set, if any
  abbrev pub set_size : Text → Option ℕ → ℕ → Exec (Fuse Disk) (Unit {0})
  set_size path none now s = (ok tt, s)
  set_size path (some size) now s =
      let (r, s') = at_store (truncate p source m path size now) s in (eio_unless_ok r, s')

  abbrev pub set_time : Text → Option ℕ → Fuse Disk → Fuse Disk
  set_time path none s = s
  set_time path (some t) s = record s { store = touch p source m path t s.store }

  -- The time that the caller set is returned for the stored one.
  abbrev pub with_time : Option ℕ → Attributes → Attributes
  with_time none a = a
  with_time (some t) a = record a { mtime = t }

  unfoldable pub set_inode_attributes :
      ℕ → Option ℕ → Option ℕ → ℕ → Exec (Fuse Disk) InodeAttributes
  set_inode_attributes id size mtime now s = elim (require_inode s.table id estale) [
    | err e ↦ (err e, s)
    | ok ref ↦
        let (r, s') = set_size ref.path size now s in
        elim r [
          | err e ↦ (err e, s')
          | ok _ ↦
              let s'' = set_time ref.path mtime s' in
              (
                elim (getattr (resolver p source m s''.store) ref.path) [
                  | err _ ↦ err eio
                  | ok a ↦ ok (attrs_of host (with_time mtime a))
                ],
                s'',
              )
        ]
  ]

  -- OpenDir; the prefetch runs beside it
  abbrev pub open_listed : List ReaddirEntry → Exec (Fuse Disk) ℕ
  open_listed entries s =
      let h : DirHandle = record { id = s.next_handle_id; entries = entries } in
      (
        ok h.id,
        record s {
          dir_handles = put dir_handle_id h s.dir_handles;
          next_handle_id = suc s.next_handle_id;
        },
      )

  unfoldable pub open_dir : ℕ → ℕ → Exec (Fuse Disk) ℕ
  open_dir id now s = elim (require_inode s.table id estale) [
    | err e ↦ (err e, s)
    | ok ref ↦ elim (readdir_typed (resolver p source m s.store) ref.path) [
      | err _ ↦ (err eio, s)
      | ok es ↦
          let entries =
            if ref.is_root then record { name = git_name; type = FileType.file } ∷ es else es in
          open_listed entries
            (record s { store = prefetch_dir p source m ref.path entries now s.store })
    ]
  ]

  -- ReadDir: the entries that fit
  unfoldable pub write_entries : ℕ → ℕ → List ReaddirEntry → List Dirent
  write_entries i room [] = []
  write_entries i room (e ∷ es) =
      let d : Dirent = record { name = e.name; type = e.type; offset = suc i } in
      let n = host.fits room d in
      let rest = write_entries (suc i) (room - n) es in if n == 0 then [] else d ∷ rest

  unfoldable pub read_dir : ℕ → ℕ → ℕ → Fuse Disk → Result (List Dirent)
  read_dir handle offset room s = elim (find dir_handle_id handle s.dir_handles) [
    | none ↦ err ebadf
    | some h ↦ ok (write_entries offset room (drop_entries offset h.entries))
  ]

  -- ReleaseDirHandle
  abbrev pub release_dir_handle : ℕ → Fuse Disk → Fuse Disk
  release_dir_handle handle s = record s { dir_handles = delete dir_handle_id handle s.dir_handles }

  -- OpenFile
  abbrev pub open_path : Text → Fuse Disk → ℕ × Fuse Disk
  open_path path s =
      let h : FileHandle = record { id = s.next_handle_id; path = path } in
      (
        h.id,
        record s {
          file_handles = put file_handle_id h s.file_handles;
          next_handle_id = suc s.next_handle_id;
        },
      )

  unfoldable pub open_file : ℕ → Exec (Fuse Disk) ℕ
  open_file id s = elim (require_inode s.table id estale) [
    | err e ↦ (err e, s)
    | ok ref ↦ let (h, s') = open_path ref.path s in (ok h, s')
  ]

  -- ReleaseFileHandle
  abbrev pub release_file_handle : ℕ → Fuse Disk → Fuse Disk
  release_file_handle handle s = record s {
    file_handles = delete file_handle_id handle s.file_handles;
  }

  -- ReadFile
  abbrev pub read_path : Text → ℕ → ℕ → Exec (Fuse Disk) Text
  read_path path off size s =
      let (r, s') = at_store (read p source m path off size) s in
      (elim r [ ok data' ↦ ok data' | err e ↦ if is_not_exist e then err enoent else err eio ], s')

  unfoldable pub read_file : ℕ → ℕ → ℕ → Exec (Fuse Disk) Text
  read_file handle off size s = elim (find file_handle_id handle s.file_handles) [
    | none ↦ (err ebadf, s)
    | some h ↦
        if h.path == git_name
        then (ok (take_bytes size (drop_bytes off gitfile_content)), s)
        else read_path h.path off size s
  ]

  -- WriteFile
  unfoldable pub write_file : ℕ → ℕ → Text → ℕ → Exec (Fuse Disk) (Unit {0})
  write_file handle off data' now s = elim (find file_handle_id handle s.file_handles) [
    | none ↦ (err ebadf, s)
    | some h ↦
        let (r, s') = at_store (write p source m h.path off data' now) s in
        (elim r [ ok _ ↦ ok tt | err _ ↦ err eio ], s')
  ]

  -- CreateFile: the inode, its attributes and the handle
  unfoldable pub create_file : ℕ → Text → ℕ → ℕ → Exec (Fuse Disk) (ℕ × InodeAttributes × ℕ)
  create_file parent_id name mode now s = elim (require_inode s.table parent_id enoent) [
    | err e ↦ (err e, s)
    | ok parent ↦
        let path = clean_child_path parent.path name in
        let (r, s') = at_store (create p source m path mode now) s in
        elim r [
          | err _ ↦ (err eio, s')
          | ok _ ↦
              let (ref, t) = alloc_inode s'.table path FileType.file mode in
              let (h, s'') = open_path path (set_table t s') in
              (ok (ref.id, inode_attrs host mode 0 FileType.file now, h), s'')
        ]
  ]

  -- MkDir: the inode and its attributes
  unfoldable pub mk_dir : ℕ → Text → ℕ → ℕ → Exec (Fuse Disk) (ℕ × InodeAttributes)
  mk_dir parent_id name mode now s = elim (require_inode s.table parent_id enoent) [
    | err e ↦ (err e, s)
    | ok parent ↦
        let path = clean_child_path parent.path name in
        let (r, s') = at_store (make_dir p source m path mode now) s in
        elim r [
          | err _ ↦ (err eio, s')
          | ok _ ↦
              let (ref, t) = alloc_inode s'.table path FileType.dir mode in
              (ok (ref.id, inode_attrs host mode 4096 FileType.dir now), set_table t s')
        ]
  ]

  -- RmDir
  abbrev pub is_exists : Error → Bool
  is_exists exists = true
  is_exists _ = false

  unfoldable pub rm_dir : ℕ → Text → ℕ → Exec (Fuse Disk) (Unit {0})
  rm_dir parent_id name now s = elim (require_inode s.table parent_id enoent) [
    | err e ↦ (err e, s)
    | ok parent ↦
        let (r, s') = at_store (rmdir p source m (clean_child_path parent.path name) now) s in
        (elim r [ ok _ ↦ ok tt | err e ↦ if is_exists e then err enotempty else err eio ], s')
  ]

  -- Unlink
  unfoldable pub unlink_child : ℕ → Text → ℕ → Exec (Fuse Disk) (Unit {0})
  unlink_child parent_id name now s = elim (require_inode s.table parent_id enoent) [
    | err e ↦ (err e, s)
    | ok parent ↦
        let (r, s') = at_store (unlink p source m (clean_child_path parent.path name) now) s in
        (eio_unless_ok r, s')
  ]

  -- Rename
  unfoldable pub rename_child : ℕ → Text → ℕ → Text → ℕ → Exec (Fuse Disk) (Unit {0})
  rename_child old_parent_id old_name new_parent_id new_name now s =
      elim (require_inode s.table old_parent_id enoent) [
        | err e ↦ (err e, s)
        | ok old_parent ↦ elim (require_inode s.table new_parent_id enoent) [
          | err e ↦ (err e, s)
          | ok new_parent ↦
              let old = clean_child_path old_parent.path old_name in
              let new = clean_child_path new_parent.path new_name in
              let (r, s') = at_store (rename_path p source m old new now) s in (eio_unless_ok r, s')
        ]
      ]

  -- ReadSymlink
  abbrev pub target_of : Result Text → Result Text
  target_of (ok data') = ok data'
  target_of (err blob_too_large) = err enametoolong
  target_of (err _) = err eio

  abbrev pub read_target : BaseNode → Exec (Fuse Disk) Text
  read_target n s =
      if n.object_oid == [] then (err enoent, s) else elim (validate_known_symlink_target_size n) [
        | err e ↦ (err e, s)
        | ok _ ↦
            let (r, s') =
              at_store (on_disk p (source.read_blob m.repo n max_symlink_target_bytes)) s in
            (target_of r, s')
      ]

  unfoldable pub read_symlink : ℕ → Exec (Fuse Disk) Text
  read_symlink id s = elim (require_inode s.table id estale) [
    | err e ↦ (err e, s)
    | ok ref ↦ elim (resolve_path (resolver p source m s.store) ref.path) [
      | err _ ↦ (err enoent, s)
      | ok n ↦ read_target (base_of n) s
    ]
  ]
