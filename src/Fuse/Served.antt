-- ===== src/Fuse/Served.antt =====
-- What the kernel is told of an inode after a lookup and after a rename.
use artifact_fs_extropic.Base.{
  arith, ℕ, ◌≡◌, refl, ap, ◌∙◌, inl, inr, false, ◌&&◌, some, Text, Text_eq, ℕ_eq, text_eq, ◌==◌,
  if◌then◌else◌, text_eq_iff, find, find-key, Bool-cases, Option-cases, Result-cases, Error,
  not_exist, ok, err,
}
use artifact_fs_extropic.Path.{clean_path, clean_child_path}
use artifact_fs_extropic.Model.{FileType}
use artifact_fs_extropic.Platform.{Platform}
use artifact_fs_extropic.Resolver.{getattr}
use artifact_fs_extropic.Inodes.{
  InodeRef, InodeTable, inode_id, inode_path, inode_at, alloc_inode, require_inode,
}
use artifact_fs_extropic.Inodes.Table.{IsValid}
use artifact_fs_extropic.Inodes.Requests.{alloc_inode-at}
use artifact_fs_extropic.Engine.{BlobSource, Mount, resolver, rename_path}
use artifact_fs_extropic.Engine.Views.{resolve}
use artifact_fs_extropic.Engine.Effects.{rename_path-resolve}
use artifact_fs_extropic.Fuse.{
  Fuse, Host, InodeAttributes, git_name, attributes_at, enoent, estale, look_up_child,
  look_up_inode, get_inode_attributes, rename_child,
}

-- The inode that a lookup returns is found again under its number.
alloc_inode-found :
    (t : InodeTable) (path : Text) (type : FileType) (mode : ℕ)
    → IsValid t
    → let (ref, t') = alloc_inode t path type mode in
      (require_inode t' ref.id estale ≡ ok ref) × (ref.path ≡ path)
unfolding require_inode
alloc_inode-found t path type mode v =
    let (at, same) = alloc_inode-at t path type mode v in
    let t' = (alloc_inode t path type mode).1 in
    let ref = (alloc_inode t path type mode).0 in
    let found : find inode_id ref.id t'.inodes ≡ some ref =
      unfold inode_at in
      elim (Option-cases (find inode_path path t'.path_to_inode)) [
        | inl missing ↦ absurd (ground (arith, at, missing))
        | inr (x, there) ↦
            let e : find inode_id x.id t'.inodes ≡ some ref = ground (arith, at, there) in
            ap (λ k. find inode_id k t'.inodes) (find-key inode_id x.id t'.inodes ref e) ∙ e
      ] in
    (ground (arith, found), same)

module _ (p : Platform) (source : BlobSource p.Disk) (m : Mount) (host : Host) where
  open p use {Disk}

  attributes-agree :
      (t : InodeTable) (path : Text) (type : FileType) (mode now : ℕ) (s : Fuse Disk)
      → IsValid t
      → let (ref, t') = alloc_inode t path type mode in
        get_inode_attributes p source m host ref.id now (record s { table = t' })
        ≡ attributes_at p source m host s now path
  unfolding get_inode_attributes
  attributes-agree t path type mode now s v =
      let (found, same) = alloc_inode-found t path type mode v in
      rw (found, get_inode_attributes) (ap (attributes_at p source m host s now) same)

  look_up_child-agree :
      (path : Text) (now : ℕ) (s s' : Fuse Disk) (id : ℕ) (attrs : InodeAttributes)
      → IsValid s.table
      → (path == git_name) ≡ false
      → look_up_child p source m host path s ≡ (ok (id, attrs), s')
      → get_inode_attributes p source m host id now s' ≡ ok attrs
  unfolding look_up_child
  look_up_child-agree path now s s' id attrs v plain h =
      elim (Result-cases (getattr (resolver p source m s.store) path)) [
        | inr (e, failed) ↦ absurd (ground (arith, failed))
        | inl (a, got) ↦
            let at = attributes-agree s.table path a.type a.mode now s v in
            ground (arith, got, plain, at)
      ]

  -- On a valid table of inodes, if the child's path is .git exactly for the name .git in the root,
  -- the attributes that a lookup returns with a number are those that GetInodeAttributes gives for
  -- it right after, the time of modification included; for .git in the root all but that time,
  -- which is the time of each of the two calls.
  pub look_up_inode-agree :
      (parent_id : ℕ) (name : Text) (now later : ℕ) (s s' : Fuse Disk) (parent : InodeRef) (id : ℕ)
      (attrs : InodeAttributes)
      → IsValid s.table
      → require_inode s.table parent_id enoent ≡ ok parent
      → (clean_child_path parent.path name == git_name) ≡ (parent.is_root && name == git_name)
      → look_up_inode p source m host parent_id name now s ≡ (ok (id, attrs), s')
      → get_inode_attributes p source m host id later s'
        ≡ ok (if parent.is_root && name == git_name then record attrs { mtime = later } else attrs)
  unfolding look_up_inode
  look_up_inode-agree parent_id name now later s s' parent id attrs v there only_git h =
      elim (Bool-cases (parent.is_root && name == git_name)) [
        | inl git ↦
            let at = attributes-agree s.table git_name FileType.file 0o644 later s v in
            let same = (text_eq_iff git_name git_name).1 refl in
            ground (arith, there, git, at, same)
        | inr plain ↦
            let path = clean_child_path parent.path name in
            let found : look_up_child p source m host path s ≡ (ok (id, attrs), s') =
              ground (arith, there, plain) in
            rw plain (look_up_child-agree path later s s' id attrs v (only_git ∙ plain) found)
      ]

  getattr-err :
      (s : Fuse Disk) (path : Text) (e : Error)
      → resolve p source m s.store path ≡ err e
      → getattr (resolver p source m s.store) path ≡ err e
  unfolding getattr
  getattr-err s path e h = rw (h, getattr) refl

  -- After a Rename between different cleaned paths that ended well, GetInodeAttributes of an inode
  -- that the kernel holds for the old path, unless that is .git, fails with ENOENT: the table
  -- still has the old path for it.
  pub rename_child-stale :
      (old_parent_id new_parent_id id now later : ℕ) (old_name new_name : Text) (s : Fuse Disk)
      (old_parent new_parent ref : InodeRef)
      → require_inode s.table old_parent_id enoent ≡ ok old_parent
      → require_inode s.table new_parent_id enoent ≡ ok new_parent
      → require_inode s.table id estale ≡ ok ref
      → ref.path ≡ clean_child_path old_parent.path old_name
      → (ref.path == git_name) ≡ false
      → text_eq
          (clean_path (clean_child_path old_parent.path old_name))
          (clean_path (clean_child_path new_parent.path new_name))
        ≡ false
      → (rename_child p source m host old_parent_id old_name new_parent_id new_name now s).0 ≡ ok tt
      → get_inode_attributes p source m host id later
          (rename_child p source m host old_parent_id old_name new_parent_id new_name now s).1
        ≡ err enoent
  unfolding rename_child get_inode_attributes
  rename_child-stale old_parent_id new_parent_id id now later old_name new_name s old_parent
        new_parent ref ho hn hi at plain apart h =
      let old = clean_child_path old_parent.path old_name in
      let new = clean_child_path new_parent.path new_name in
      let s' : Fuse Disk = record s { store = (rename_path p source m old new now s.store).1 } in
      let done : (rename_path p source m old new now s.store).0 ≡ ok tt = ground (arith, ho, hn) in
      let gone = (rename_path-resolve p source m old new now s.store old apart done).0 in
      let shown = getattr-err s' old not_exist gone in ground (arith, ho, hn, hi, at, plain, shown)
