-- ===== src/Inodes/Tests.antt =====
-- The theorems on the inodes at a concrete table.
use artifact_fs_extropic.Base.{
  ◌≡◌, refl, false, List, [], ◌∷◌, none, some, text, Text_eq, ℕ_eq, text_eq, find, put, delete, pos,
}
use artifact_fs_extropic.Path.{dot}
use artifact_fs_extropic.Model.{FileType}
use artifact_fs_extropic.Inodes.{
  InodeRef, InodeTable, inode_id, root_inode, new_table, new_inode, inode_at, alloc_inode,
  forget_inode,
}
use artifact_fs_extropic.Inodes.Table.{IsValid}
use artifact_fs_extropic.Inodes.Requests.{
  Request, looks_up, forgets, serve, serve-IsValid, alloc_inode-at, alloc_inode-keeps,
}

-- "a" is looked up twice and forgotten once, "b" is looked up and forgotten.
abbrev requests : List Request
requests =
    looks_up (text "a") FileType.file 0o644
    ∷ looks_up (text "b") FileType.dir 0o755
    ∷ looks_up (text "a") FileType.file 0o644
    ∷ forgets 3 1
    ∷ forgets 2 1
    ∷ []

abbrev table : InodeTable
table = serve requests new_table

inode_a :
    inode_at table (text "a")
    ≡ some (record {
      id = 2;
      path = text "a";
      type = FileType.file;
      mode = 0o644;
      refcnt = pos 1;
      is_root = false;
    })
unfolding serve alloc_inode new_inode forget_inode inode_at find put delete text_eq
inode_a = refl

no_inode_b : inode_at table (text "b") ≡ none
unfolding serve alloc_inode new_inode forget_inode inode_at find put delete text_eq
no_inode_b = refl

root_found : find inode_id 1 table.inodes ≡ some root_inode
unfolding serve alloc_inode new_inode forget_inode inode_at find put delete text_eq
root_found = refl

serve-IsValid_example : IsValid (serve requests new_table)
serve-IsValid_example = serve-IsValid requests

alloc_inode-at_run :
    (inode_at (alloc_inode table (text "a") FileType.file 0o644).1 (text "a")
      ≡ some (alloc_inode table (text "a") FileType.file 0o644).0)
    × ((alloc_inode table (text "a") FileType.file 0o644).0.path ≡ text "a")
alloc_inode-at_run = alloc_inode-at table (text "a") FileType.file 0o644 (serve-IsValid requests)

alloc_inode-keeps_run :
    (r' : InodeRef) × (find inode_id 1 (alloc_inode table (text "c") FileType.file 0o644).1.inodes
      ≡ some r')
    × (r'.path ≡ dot)
alloc_inode-keeps_run =
    alloc_inode-keeps table (serve-IsValid requests) (text "c") FileType.file 0o644 1 root_inode
      root_found
