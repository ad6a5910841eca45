-- ===== src/Overlay/Tests.antt =====
-- The overlay's theorems at concrete stores, on files that are kept in a list.
use artifact_fs_extropic.Base.{
  ℕ, Bool, true, any, ◌++◌, Text, ◌⊎◌, inl, arith, ◌≡◌, ◌≢◌, ◌↔◌, refl, [], ◌∷◌, none, some, text,
  Text_eq, text_eq, ◌==◌, if◌then◌else◌, find, put, delete, keep, sort_by, insert_by, text_lt, ok,
  err, not_exist,
}
use artifact_fs_extropic.Path.{
  clean_path, filepath_clean, filepath_join, filepath_dir, up_to_slash, stack, split, join,
  push_element, push_elements, cut_prefix,
}
use artifact_fs_extropic.Model.{OverlayEntry, OverlayKind}
use artifact_fs_extropic.Platform.Memory.{memory, move_file, matches, some_suffix, place}
use artifact_fs_extropic.Overlay.{Store, row_key, get, backing_path, upsert_entry}
use artifact_fs_extropic.Overlay.Write.{
  blank_entry, write_entry, ensure_copy_on_write, create_file, write_file, remove,
}
use artifact_fs_extropic.Overlay.Rename.{
  rename, renamed, rename_entry, rename_rows, commit_rename, move_backing,
}
use artifact_fs_extropic.Overlay.Reconcile.{
  is_stale, delete_versions, query_entries, stale_entries, transaction_fault, fault_or,
  remove_fault, unlink_all, remove_stale, reconcile, list_by_prefix,
}
use artifact_fs_extropic.Overlay.View.{
  IsValid, view_after, remove-view, create_file-view, ensure_copy_on_write-view, write_file-view,
}
use artifact_fs_extropic.Overlay.Moves.{rename-view, rename-taken, rename-failed}
use artifact_fs_extropic.Overlay.Stale.{reconcile-view, stale_of}
use artifact_fs_extropic.Overlay.History.{run, run-IsValid, creates, renames, removes, reconciles}
use artifact_fs_extropic.Overlay.Prefix.{list_by_prefix-below}
use artifact_fs_extropic.Platform.{LikeLaws}
use artifact_fs_extropic.Overlay.Fresh.{IsFresh, reconcile-IsFresh}
use artifact_fs_extropic.Overlay.Guard.{remove_stale-rewritten, rename-reconciled}
use artifact_fs_extropic.Overlay.Samples.{
  repo, row, made, remade, gone, store_of, two, backed, node, base, empty_base, two-IsValid,
  backed-IsValid, remade-IsValid, got, got_two, taken, apart,
}

view_memory : clean_path (text "./a") ≡ clean_path (text "a")
unfolding clean_path filepath_clean stack split push_elements push_element join cut_prefix text_eq
view_memory = refl

abbrev written_store : Store memory.Disk
written_store = (write_file memory (text "a") 2 (text "yz") 7 backed).1

write_file-view_example :
    get written_store (text "./a")
    ≡ view_after
        (clean_path (text "a"))
        (λ _. record made { size_bytes = 4; mtime_unix_ns = 7 })
        backed
        (text "./a")
        (write_file memory (text "a") 2 (text "yz") 7 backed).0
unfolding find write_file get text_eq clean_path join stack push_elements split push_element
    cut_prefix write_entry upsert_entry put place
write_file-view_example =
    write_file-view memory (text "a") 2 (text "yz") 7 backed made (text "./a") got refl

-- The blob is not in the cache, so the promoted file starts empty; the whiteout at "b" is replaced.
ensure_copy_on_write-view_run :
    let r = ensure_copy_on_write memory repo (text "b") (node (text "b")) 3 backed in
    get r.1 (text "b") ≡ view_after (clean_path (text "b")) (λ e. e) backed (text "b") r.0
ensure_copy_on_write-view_run =
    ensure_copy_on_write-view memory repo (text "b") (node (text "b")) 3 backed (text "b")

remove-view_run :
    let r = remove memory (text "a") 3 backed in
    get r.1 (text "a")
    ≡ view_after
        (clean_path (text "a"))
        (λ _. blank_entry (text "r") (clean_path (text "a")) OverlayKind.delete 3)
        backed
        (text "a")
        r.0
remove-view_run = remove-view memory (text "a") 3 backed (text "a")

create_file-view_run :
    let r = create_file memory (text "d/e") 0o600 3 backed in
    get r.1 (text "d/e") ≡ view_after (clean_path (text "d/e")) (λ e. e) backed (text "d/e") r.0
create_file-view_run = create_file-view memory (text "d/e") 0o600 3 backed (text "d/e")

abbrev renamed_store : Store memory.Disk
renamed_store = (rename memory (text "a") (text "c") 5 backed).1

renamed_run : rename memory (text "a") (text "c") 5 backed ≡ (ok tt, renamed_store)
unfolding rename rename_entry commit_rename rename_rows move_backing move_file backing_path get find
    put delete text_eq clean_path filepath_clean filepath_join filepath_dir up_to_slash stack split
    push_elements push_element join cut_prefix
renamed_run = refl

rename-view_example :
    (get backed (text "c") ≡ none)
    × (get renamed_store (text "c") ≡ (
        if clean_path (text "a") == clean_path (text "c")
        then some (blank_entry (text "r") (clean_path (text "a")) OverlayKind.delete 5)
        else if clean_path (text "c") == clean_path (text "c")
        then some
            (renamed made (clean_path (text "c")) (backing_path backed (clean_path (text "c"))) 5)
        else get backed (text "c")))
rename-view_example =
    rename-view memory (text "a") (text "c") 5 backed renamed_store made (text "c") got apart.1
      renamed_run

rename-taken_run : (rename memory (text "a") (text "./b") 5 backed).0 ≢ ok tt
rename-taken_run = rename-taken memory (text "a") (text "./b") 5 backed made gone got taken apart.0

rename_refused : rename memory (text "x") (text "c") 5 backed ≡ (err not_exist, backed)
unfolding rename get find text_eq clean_path filepath_clean stack split push_elements push_element
    join cut_prefix
rename_refused = refl

-- The file is not on the disk, so the rename fails after its commit.
abbrev unmoved : Store memory.Disk
unmoved = (rename memory (text "a") (text "c") 5 two).1

unmoved_run : rename memory (text "a") (text "c") 5 two ≡ (err not_exist, unmoved)
unfolding rename rename_entry commit_rename rename_rows move_backing move_file backing_path get find
    put delete text_eq clean_path filepath_clean filepath_join filepath_dir up_to_slash stack split
    push_elements push_element join cut_prefix
unmoved_run = refl

rename-failed_example : get unmoved (text "a") ≡ get two (text "a")
rename-failed_example =
    rename-failed memory (text "a") (text "c") 5 two unmoved not_exist (text "a") apart.1
      (λ _. refl) (λ _. refl) unmoved_run

abbrev reconciled : Store memory.Disk
reconciled = (reconcile memory (some base) two).1

reconciled_run : reconcile memory (some base) two ≡ (ok tt, reconciled)
unfolding reconcile remove_stale stale_entries query_entries remove_fault fault_or transaction_fault
    is_stale keep sort_by insert_by unlink_all delete_versions find text_eq text_lt
reconciled_run = refl

reconcile-view_run :
    get reconciled (text "a")
    ≡ elim (get two (text "a")) [ none ↦ none | some e ↦ if is_stale base e then none else some e ]
reconcile-view_run = reconcile-view memory base two reconciled (text "a") two-IsValid reconciled_run

abbrev rewritten : Store memory.Disk
rewritten = store_of (remade ∷ [])

abbrev guarded : Store memory.Disk
guarded = (remove_stale memory (stale_of memory base two) rewritten).1

guarded_run : remove_stale memory (stale_of memory base two) rewritten ≡ (ok tt, guarded)
unfolding remove_stale remove_fault fault_or transaction_fault is_stale keep sort_by insert_by
    unlink_all delete_versions find text_eq text_lt
guarded_run = refl

found_made : find row_key (clean_path (text "a")) two.entries ≡ some made
unfolding find text_eq clean_path filepath_clean stack split push_elements push_element join
    cut_prefix
found_made = refl

found_remade : find row_key (clean_path (text "a")) rewritten.entries ≡ some remade
unfolding find text_eq clean_path filepath_clean stack split push_elements push_element join
    cut_prefix
found_remade = refl

changed :
    (made.mtime_unix_ns ≢ remade.mtime_unix_ns)
    ⊎ ((made.kind ≢ remade.kind) ⊎ (made.source_oid ≢ remade.source_oid))
changed = inl (λ e. omega (arith, e))

remove_stale-rewritten_example : get guarded (text "a") ≡ get rewritten (text "a")
remove_stale-rewritten_example =
    remove_stale-rewritten memory base two rewritten guarded (text "a") made remade two-IsValid
      remade-IsValid found_made found_remade changed guarded_run

abbrev emptied : Store memory.Disk
emptied = (reconcile memory (some empty_base) renamed_store).1

emptied_run : reconcile memory (some empty_base) renamed_store ≡ (ok tt, emptied)
unfolding reconcile remove_stale stale_entries query_entries remove_fault fault_or transaction_fault
    is_stale keep sort_by insert_by unlink_all delete_versions find text_eq text_lt rename
    rename_entry commit_rename rename_rows move_backing move_file backing_path get put delete
    clean_path filepath_clean filepath_join filepath_dir up_to_slash stack split push_elements
    push_element join cut_prefix
emptied_run = refl

rename-reconciled_example : get emptied (text "c") ≡ none
rename-reconciled_example =
    rename-reconciled memory (text "a") (text "c") 5 empty_base backed renamed_store emptied made
      backed-IsValid got apart.1 refl renamed_run emptied_run

run-IsValid_example : IsValid (
    run memory
      (creates (text "d/../d") 0o644 2
        ∷ renames (text "d") (text "e") 3
        ∷ removes (text "a") 4
        ∷ reconciles (some base)
        ∷ [])
      two)
run-IsValid_example =
    run-IsValid memory
      (creates (text "d/../d") 0o644 2
        ∷ renames (text "d") (text "e") 3
        ∷ removes (text "a") 4
        ∷ reconciles (some base)
        ∷ [])
      two two-IsValid

reconcile-IsFresh_example : (get reconciled (text "a") ≡ some made) ↔ IsFresh made (base (text "a"))
reconcile-IsFresh_example =
    reconcile-IsFresh memory base two reconciled (text "a") made two-IsValid got_two reconciled_run

some_suffix_self : (f : Text → Bool) (s : Text) → f s ≡ true → some_suffix f s ≡ true
unfolding some_suffix
some_suffix_self f [] h = h
some_suffix_self f (c ∷ s) h = rw h refl

all_match : (s : Text) → matches (text "%") s ≡ true
unfolding matches some_suffix text_eq
all_match [] = refl
all_match (c ∷ s) = all_match s

some_suffix_later : (f : Text → Bool) (c : ℕ) (s : Text) → f s ≡ true → some_suffix f (c ∷ s) ≡ true
unfolding some_suffix
some_suffix_later f c s h = ground (arith, some_suffix_self f s h)

below_match : (d s : Text) → matches (d ++ text "/%") (d ++ text "/" ++ s) ≡ true
unfolding matches
below_match [] s = all_match s
below_match (c ∷ d) s = ground (
  arith,
  below_match d s,
  some_suffix_later (matches (d ++ text "/%")) c (d ++ text "/" ++ s) (below_match d s),
)

memory_laws : LikeLaws memory
memory_laws = record { like-all = all_match; like-below = below_match }

abbrev nested : OverlayEntry
nested = row (text "d/e/f") OverlayKind.create

abbrev nested_store : Store memory.Disk
nested_store = store_of (made ∷ nested ∷ [])

nested_run : list_by_prefix memory (text "./d") nested_store ≡ (ok (nested ∷ []), nested_store)
unfolding list_by_prefix query_entries keep sort_by insert_by matches some_suffix clean_path
    filepath_clean stack split push_elements push_element join cut_prefix text_eq text_lt
nested_run = refl

nested_found : get nested_store (clean_path (text "./d") ++ text "/" ++ text "e/f") ≡ some nested
unfolding get find text_eq clean_path filepath_clean stack split push_elements push_element join
    cut_prefix
nested_found = refl

nested_path : nested.path ≡ clean_path (text "./d") ++ text "/" ++ text "e/f"
unfolding text_eq clean_path filepath_clean stack split push_elements push_element join cut_prefix
nested_path = refl

list_by_prefix-below_example : any (λ x. x.path == nested.path) (nested ∷ []) ≡ true
list_by_prefix-below_example =
    list_by_prefix-below memory memory_laws (text "./d") (text "e/f") nested_store nested_store
      nested (nested ∷ []) nested_found nested_path nested_run
