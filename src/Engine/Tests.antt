-- ===== src/Engine/Tests.antt =====
-- The theorems on the engine at a tree with one tracked file.
use artifact_fs_extropic.Base.{
  ◌≡◌, refl, false, [], ◌∷◌, some, Text, text, Text_eq, text_eq, find, put, delete, keep, sort_by,
  not_exist, ok, err,
}
use artifact_fs_extropic.Path.{
  clean_path, filepath_clean, filepath_join, filepath_dir, up_to_slash, stack, push_elements,
  push_element, split, join, cut_prefix,
}
use artifact_fs_extropic.Model.{FileType, OverlayEntry, OverlayKind, node_type}
use artifact_fs_extropic.Platform.Memory.{memory, Files, move_file}
use artifact_fs_extropic.Overlay.{Store, get, backing_path, upsert_entry}
use artifact_fs_extropic.Overlay.Write.{
  store_entry, create_file, remove, remove_backing, write_file, write_entry,
}
use artifact_fs_extropic.Overlay.Reconcile.{list_by_prefix, query_entries}
use artifact_fs_extropic.Overlay.Rename.{
  rename, rename_entry, commit_rename, move_backing, rename_rows,
}
use artifact_fs_extropic.Resolver.{
  from_overlay, getattr, readdir, readdir_typed, add_children, add_entries,
}
use artifact_fs_extropic.Engine.{
  resolver, ensure_overlay, read, create, unlink, rmdir, truncate, write, rename_path, promote_old,
}
use artifact_fs_extropic.Engine.Samples.{mount, source, s0, s1, entry}
use artifact_fs_extropic.Engine.Views.{resolve, unlink-resolve, create-resolve, ensure_overlay-get}
use artifact_fs_extropic.Engine.Effects.{
  read-entries, rmdir-empty, truncate-getattr, IsWritten, write-resolve, rename_path-resolve,
}

unlinked : (unlink memory source mount (text "a") 5 s0).0 ≡ ok tt
unfolding remove remove_backing upsert_entry get find clean_path filepath_clean stack split
    push_elements push_element join cut_prefix text_eq
unlinked = refl

unlink-resolve_run :
    let s' = (unlink memory source mount (text "a") 5 s0).1 in
    (resolve memory source mount s' (text "a") ≡ err not_exist)
    × ((q : Text)
        → text_eq (clean_path (text "a")) (clean_path q) ≡ false
        → resolve memory source mount s' q ≡ resolve memory source mount s0 q)
unlink-resolve_run = unlink-resolve memory source mount (text "a") 5 s0 unlinked

created : (create memory source mount (text "n") 0o644 5 s0).0 ≡ ok tt
unfolding create create_file store_entry upsert_entry clean_path filepath_clean stack split
    push_elements push_element join cut_prefix text_eq
created = refl

create-resolve_run :
    let s' = (create memory source mount (text "n") 0o644 5 s0).1 in
    (e : OverlayEntry) × (resolve memory source mount s' (text "n") ≡ ok (from_overlay e))
    × (e.kind ≡ OverlayKind.create)
    × (e.mode ≡ 0o644)
    × ((q : Text)
        → text_eq (clean_path (text "n")) (clean_path q) ≡ false
        → resolve memory source mount s' q ≡ resolve memory source mount s0 q)
create-resolve_run = create-resolve memory source mount (text "n") 0o644 5 s0 created

ensure_overlay-get_run :
    let (r, s') = ensure_overlay memory source mount (text "a") 5 s0 in
    (text_eq (clean_path (text "a")) (clean_path (text "b")) ≡ false
      → get s' (text "b") ≡ get s0 (text "b"))
    × (r ≡ ok tt → (e : OverlayEntry) × (get s' (text "a") ≡ some e))
ensure_overlay-get_run = ensure_overlay-get memory source mount (text "a") 5 s0 (text "b")

read-entries_run : (read memory source mount (text "a") 0 3 s0).1.entries ≡ s0.entries
read-entries_run = read-entries memory source mount (text "a") 0 3 s0

there : get s1 (text "b") ≡ some entry
unfolding get find clean_path filepath_clean stack split push_elements push_element join cut_prefix
    text_eq
there = refl

truncate-getattr_example :
    let s' = (truncate memory source mount (text "b") 0 7 s1).1 in
    getattr (resolver memory source mount s') (text "b")
    ≡ getattr (resolver memory source mount s1) (text "b")
truncate-getattr_example = truncate-getattr memory source mount (text "b") 0 7 s1 entry there

wrote : (write memory source mount (text "b") 0 (text "xy") 7 s1).0 ≡ ok 2
unfolding write ensure_overlay write_file write_entry upsert_entry get find put clean_path
    filepath_clean stack split push_elements push_element join cut_prefix text_eq
wrote = refl

write-resolve_example :
    IsWritten memory source mount
      (text "b")
      (write memory source mount (text "b") 0 (text "xy") 7 s1).1
write-resolve_example = write-resolve memory source mount (text "b") 0 (text "xy") 7 2 s1 wrote

removed : (rmdir memory source mount (text "d") 5 s0).0 ≡ ok tt
unfolding rmdir readdir readdir_typed list_by_prefix query_entries add_children add_entries sort_by
    keep remove remove_backing upsert_entry get find clean_path filepath_clean stack split
    push_elements push_element join cut_prefix text_eq
removed = refl

rmdir-empty_example :
    let s' = (rmdir memory source mount (text "d") 5 s0).1 in
    (readdir (resolver memory source mount s0) (text "d") ≡ ok [])
    × (resolve memory source mount s' (text "d") ≡ err not_exist)
    × ((q : Text)
        → text_eq (clean_path (text "d")) (clean_path q) ≡ false
        → resolve memory source mount s' q ≡ resolve memory source mount s0 q)
rmdir-empty_example = rmdir-empty memory source mount (text "d") 5 s0 removed

apart : text_eq (clean_path (text "b")) (clean_path (text "c")) ≡ false
unfolding clean_path filepath_clean stack split push_elements push_element join cut_prefix text_eq
apart = refl

abbrev s2 : Store Files
s2 = record s1 { disk = record { name = text "/u/b"; bytes = text "hello" } ∷ [] }

renamed_away : (rename_path memory source mount (text "b") (text "c") 7 s2).0 ≡ ok tt
unfolding rename_path promote_old rename rename_entry commit_rename rename_rows move_backing
    move_file backing_path get find put delete filepath_join clean_path filepath_clean filepath_dir
    up_to_slash stack split push_elements push_element join cut_prefix text_eq
renamed_away = refl

rename_path-resolve_example :
    let s' = (rename_path memory source mount (text "b") (text "c") 7 s2).1 in
    (resolve memory source mount s' (text "b") ≡ err not_exist)
    × ((e : OverlayEntry) × (resolve memory source mount s' (text "c") ≡ ok (from_overlay e))
        × (node_type e ≡ FileType.file))
    × (text_eq (clean_path (text "b")) (clean_path (text "a")) ≡ false
        → text_eq (clean_path (text "c")) (clean_path (text "a")) ≡ false
        → resolve memory source mount s' (text "a") ≡ resolve memory source mount s2 (text "a"))
rename_path-resolve_example =
    rename_path-resolve memory source mount (text "b") (text "c") 7 s2 (text "a") apart renamed_away
