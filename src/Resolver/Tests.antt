-- ===== src/Resolver/Tests.antt =====
-- The theorems on the resolver, over concrete stores.
use artifact_fs_extropic.Base.{
  ◌≡◌, refl, ◌&&◌, ◌||◌, not, List, [], ◌∷◌, text, Text_eq, text_eq, text_lt, ◌==◌, if◌then◌else◌,
  find, put, delete, keep, any, sort_by, insert_by, not_exist, ok, err,
}
use artifact_fs_extropic.Path.{
  filepath_base, clean_path, filepath_clean, filepath_join, filepath_dir, up_to_slash, stack, split,
  join, push_element, push_elements, cut_prefix, cut_before, child_name,
}
use artifact_fs_extropic.Model.{FileType, OverlayEntry, OverlayKind}
use artifact_fs_extropic.Platform.Memory.{memory, move_file, matches, some_suffix}
use artifact_fs_extropic.Overlay.{Store, get, upsert_entry, backing_path}
use artifact_fs_extropic.Overlay.Write.{
  blank_entry, remove, remove_backing, create_file, store_entry,
}
use artifact_fs_extropic.Overlay.Rename.{
  rename, renamed, rename_entry, rename_rows, commit_rename, move_backing,
}
use artifact_fs_extropic.Overlay.Reconcile.{list_by_prefix, query_entries}
use artifact_fs_extropic.Overlay.Samples.{
  made, gone, node, base, two, backed, two-IsValid, got, apart,
}
use artifact_fs_extropic.Resolver.{
  Resolver, BaseView, ReaddirEntry, from_overlay, resolve_path, is_hidden, child_path, add_child,
  add_children, add_entry, add_entries, readdir_typed,
}
use artifact_fs_extropic.Resolver.Listing.{
  lists, names_node, under, whiteout_of, Agrees, readdir_typed-lists,
}
use artifact_fs_extropic.Resolver.Paths.{
  over, view_of, remove-resolve_path, create_file-resolve_path, rename-resolve_path,
  list_by_prefix-Agrees,
}

-- A tree with the files "b" and "t".
abbrev tracked : BaseView
tracked = record {
  get_node = λ _ path. base path;
  list_children = λ _ _. ok (node (text "b") ∷ node (text "t") ∷ []);
}

abbrev merged : Resolver
merged = record {
  generation = 1;
  commit_time = 9;
  snapshot = tracked;
  overlay = view_of memory backed;
}

abbrev entries : List OverlayEntry
entries = made ∷ gone ∷ []

abbrev removed : Store memory.Disk
removed = (remove memory (text "a") 3 backed).1

removed_run : remove memory (text "a") 3 backed ≡ (ok tt, removed)
unfolding remove remove_backing upsert_entry clean_path filepath_clean stack split push_elements
    push_element join cut_prefix text_eq find get
removed_run = refl

remove-resolve_path_example : resolve_path (over memory merged removed) (text "./a") ≡ (
    if clean_path (text "a") == clean_path (text "./a")
    then err not_exist
    else resolve_path (over memory merged backed) (text "./a"))
remove-resolve_path_example =
    remove-resolve_path memory merged (text "a") 3 backed removed (text "./a") removed_run

abbrev new_entry : OverlayEntry
new_entry = record (blank_entry (text "r") (text "n") OverlayKind.create 3) {
  backing_path = text "/u/n";
  mode = 0o600;
}

abbrev with_new : Store memory.Disk
with_new = (create_file memory (text "n") 0o600 3 backed).1

created_run : create_file memory (text "n") 0o600 3 backed ≡ (ok new_entry, with_new)
unfolding create_file store_entry upsert_entry backing_path clean_path filepath_clean filepath_join
    stack split push_elements push_element join cut_prefix text_eq put
created_run = refl

create_file-resolve_path_example : resolve_path (over memory merged with_new) (text "n") ≡ (
    if clean_path (text "n") == clean_path (text "n")
    then ok (from_overlay new_entry)
    else resolve_path (over memory merged backed) (text "n"))
create_file-resolve_path_example =
    create_file-resolve_path memory merged (text "n") 0o600 3 backed with_new new_entry (text "n")
      created_run

abbrev renamed_store : Store memory.Disk
renamed_store = (rename memory (text "a") (text "c") 5 backed).1

renamed_run : rename memory (text "a") (text "c") 5 backed ≡ (ok tt, renamed_store)
unfolding rename rename_entry commit_rename rename_rows move_backing move_file backing_path get find
    put delete text_eq clean_path filepath_clean filepath_join filepath_dir up_to_slash stack split
    push_elements push_element join cut_prefix
renamed_run = refl

rename-resolve_path_run :
    (resolve_path (over memory merged renamed_store) (text "a") ≡ err not_exist)
    × (resolve_path (over memory merged renamed_store) (text "c")
        ≡ ok (
            from_overlay (
              renamed made
                (clean_path (text "c"))
                (backing_path backed (clean_path (text "c")))
                5)))
rename-resolve_path_run =
    rename-resolve_path memory merged (text "a") (text "c") 5 backed renamed_store made got apart.1
      renamed_run

listed_run : list_by_prefix memory (text ".") two ≡ (ok entries, two)
unfolding list_by_prefix query_entries keep sort_by insert_by matches some_suffix clean_path
    filepath_clean stack split push_elements push_element join cut_prefix text_eq text_lt
listed_run = refl

list_by_prefix-Agrees_run : Agrees (over memory merged two) entries
list_by_prefix-Agrees_run =
    list_by_prefix-Agrees memory merged (text ".") two two entries two-IsValid listed_run

abbrev over_two : Resolver
over_two = over memory merged two

root_listed : over_two.overlay.list_by_prefix (clean_path (text "/")) ≡ ok entries
unfolding list_by_prefix query_entries keep sort_by insert_by matches some_suffix clean_path
    filepath_clean stack split push_elements push_element join cut_prefix text_eq text_lt
root_listed = refl

-- "a" was created and "b" deleted here, and "t" is tracked.
abbrev shown : List ReaddirEntry
shown =
    record { name = text "a"; type = FileType.file }
    ∷ record { name = text "t"; type = FileType.file }
    ∷ []

shown_run : readdir_typed over_two (text "/") ≡ ok shown
unfolding readdir_typed add_children add_child add_entries add_entry filepath_base child_name
    cut_before filepath_join get find put delete list_by_prefix query_entries keep sort_by insert_by
    matches some_suffix clean_path filepath_clean stack split push_elements push_element join
    cut_prefix text_eq text_lt
shown_run = refl

readdir_typed-lists_example : lists (text "b") shown ≡ (
    if is_hidden (over_two.overlay.get (child_path (clean_path (text "/")) (text "b")))
    then any (names_node (text "b")) (node (text "b") ∷ node (text "t") ∷ [])
      && not (any (whiteout_of (clean_path (text "/")) (text "b")) entries)
    else any (names_node (text "b")) (node (text "b") ∷ node (text "t") ∷ [])
      || any (under (clean_path (text "/")) (text "b")) entries)
readdir_typed-lists_example =
    readdir_typed-lists over_two (text "/") (text "b") (node (text "b") ∷ node (text "t") ∷ [])
      entries shown refl root_listed
      (list_by_prefix-Agrees memory merged (text ".") two two entries two-IsValid listed_run)
      shown_run
