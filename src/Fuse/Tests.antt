-- ===== src/Fuse/Tests.antt =====
-- The theorems on the kernel's requests at a mount with one tracked file and one that was created.
use artifact_fs_extropic.Base.{
  ◌≡◌, refl, true, if◌then◌else◌, false, ◌&&◌, [], ◌∷◌, text, Text_eq, text_eq, ◌==◌, find, put,
  delete, ok, err, pos,
}
use artifact_fs_extropic.Path.{
  clean_path, clean_child_path, filepath_join, filepath_clean, filepath_dir, up_to_slash, stack,
  push_elements, push_element, split, join, cut_prefix,
}
use artifact_fs_extropic.Model.{FileType}
use artifact_fs_extropic.Platform.Memory.{memory, Files, move_file}
use artifact_fs_extropic.Overlay.{get, backing_path}
use artifact_fs_extropic.Overlay.Rename.{
  rename, rename_entry, commit_rename, rename_rows, move_backing,
}
use artifact_fs_extropic.Resolver.{getattr, resolve_path, normalize_mode}
use artifact_fs_extropic.Inodes.{
  InodeRef, new_table, root_inode, alloc_inode, new_inode, inode_at, require_inode,
}
use artifact_fs_extropic.Inodes.Requests.{new_table-IsValid}
use artifact_fs_extropic.Engine.{promote_old, rename_path}
use artifact_fs_extropic.Engine.Samples.{mount, source, s0, s1}
use artifact_fs_extropic.Fuse.{
  Fuse, Host, InodeAttributes, inode_attrs, enoent, estale, git_name, look_up_child, look_up_inode,
  get_inode_attributes, rename_child,
}
use artifact_fs_extropic.Fuse.Served.{look_up_inode-agree, rename_child-stale}

-- Every entry takes 32 bytes.
abbrev host : Host
host = record { uid = 1000; gid = 100; fits = λ _ _. 32 }

abbrev f0 : Fuse Files
f0 = record {
  table = new_table;
  dir_handles = [];
  file_handles = [];
  next_handle_id = 1;
  store = s0;
}

abbrev f0' : Fuse Files
f0' = (look_up_inode memory source mount host 1 (text "a") 5 f0).1

abbrev three : InodeAttributes
three = record {
  size = 3;
  nlink = 1;
  mode = 0o644;
  type = FileType.file;
  uid = 1000;
  gid = 100;
  mtime = 7000000000;
}

looked_up : look_up_inode memory source mount host 1 (text "a") 5 f0 ≡ (ok (2, three), f0')
unfolding look_up_inode look_up_child require_inode getattr resolve_path normalize_mode inode_attrs
    alloc_inode new_inode inode_at get find put clean_child_path clean_path filepath_join
    filepath_clean stack push_elements push_element split join cut_prefix text_eq
looked_up = refl

root_found : require_inode new_table 1 enoent ≡ ok root_inode
unfolding require_inode find
root_found = refl

only_git : (clean_child_path (text ".") (text "a") == git_name) ≡ (true && text "a" == git_name)
unfolding clean_child_path clean_path filepath_join filepath_clean stack push_elements push_element
    split join cut_prefix text_eq
only_git = refl

look_up_inode-agree_example :
    get_inode_attributes memory source mount host 2 9 f0'
    ≡ ok (if true && text "a" == git_name then record three { mtime = 9 } else three)
look_up_inode-agree_example =
    look_up_inode-agree memory source mount host 1 (text "a") 5 9 f0 f0' root_inode 2 three
      new_table-IsValid root_found only_git looked_up

-- The .git of the root has the time of each call.
git_times :
    let s = (look_up_inode memory source mount host 1 git_name 5 f0).1 in
    (get_inode_attributes memory source mount host 2 9 s)
    ≡ ok (record {
      size = 11;
      nlink = 1;
      mode = 0o644;
      type = FileType.file;
      uid = 1000;
      gid = 100;
      mtime = 9;
    })
unfolding look_up_inode require_inode alloc_inode new_inode inode_at find put get_inode_attributes
    text_eq
git_times = refl

-- The kernel holds the inode of the created file.
abbrev held : InodeRef
held = record {
  id = 2;
  path = text "b";
  type = FileType.file;
  mode = 0o600;
  refcnt = pos 1;
  is_root = false;
}

abbrev f1 : Fuse Files
f1 = record f0 {
  table = record {
    inodes = root_inode ∷ held ∷ [];
    path_to_inode = record { path = text "."; id = 1 } ∷ record { path = text "b"; id = 2 } ∷ [];
    next_inode_id = 3;
  };
  store = record s1 { disk = record { name = text "/u/b"; bytes = text "hello" } ∷ [] };
}

root_there : require_inode f1.table 1 enoent ≡ ok root_inode
unfolding require_inode find
root_there = refl

held_there : require_inode f1.table 2 estale ≡ ok held
unfolding require_inode find
held_there = refl

b_path : text "b" ≡ clean_child_path (text ".") (text "b")
unfolding clean_child_path clean_path filepath_join filepath_clean stack push_elements push_element
    split join cut_prefix text_eq
b_path = refl

b_plain : (text "b" == git_name) ≡ false
unfolding text_eq
b_plain = refl

b_c_apart :
    text_eq
      (clean_path (clean_child_path (text ".") (text "b")))
      (clean_path (clean_child_path (text ".") (text "c")))
    ≡ false
unfolding clean_child_path clean_path filepath_join filepath_clean stack push_elements push_element
    split join cut_prefix text_eq
b_c_apart = refl

renamed_away : (rename_child memory source mount host 1 (text "b") 1 (text "c") 7 f1).0 ≡ ok tt
unfolding rename_child require_inode rename_path promote_old rename rename_entry commit_rename
    rename_rows move_backing move_file backing_path get find put delete clean_child_path clean_path
    filepath_join filepath_clean filepath_dir up_to_slash stack push_elements push_element split
    join cut_prefix text_eq
renamed_away = refl

rename_child-stale_example :
    get_inode_attributes memory source mount host 2 9
      (rename_child memory source mount host 1 (text "b") 1 (text "c") 7 f1).1
    ≡ err enoent
rename_child-stale_example =
    rename_child-stale memory source mount host 1 1 2 7 9 (text "b") (text "c") f1 root_inode
      root_inode held root_there root_there held_there b_path b_plain b_c_apart renamed_away
