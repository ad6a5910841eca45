-- ===== src/Watcher/Tests.antt =====
-- The theorems on the watcher at concrete states of the files.
use artifact_fs_extropic.Base.{
  ◌≡◌, refl, true, false, ◌++◌, none, some, Text, text, Text_eq, text_eq, ◌==◌, if◌then◌else◌, find,
  put, delete, [], ◌∷◌,
}
use artifact_fs_extropic.Path.{
  filepath_clean, filepath_join, filepath_dir, up_to_slash, stack, split, join, push_element,
  push_elements, cut_prefix,
}
use artifact_fs_extropic.Watcher.{
  Files, seen_path, new_poller, drop_blanks, trim_space, changed, current_ref_changed,
  head_ref_path, head_changed, watch,
}
use artifact_fs_extropic.Watcher.Polls.{head_changed-quiet, head_changed-appears}

abbrev head : Text
head = text "/g/HEAD"

abbrev main_ref : Text
main_ref = text "/g/refs/m"

-- A repository whose branch has no commit yet, and the same with its first commit.
abbrev unborn : Files
unborn = record {
  mtime = λ path. if path == head then some 1 else none;
  contents = λ path. if path == head then some (text "ref: refs/m " ++ 10 ∷ []) else none;
}

abbrev born : Files
born = record {
  mtime = λ path. if path == head then some 1 else if path == main_ref then some 5 else none;
  contents = unborn.contents;
}

unborn_ref : head_ref_path unborn head ≡ some main_ref
unfolding head_ref_path trim_space drop_blanks text_eq filepath_clean filepath_join filepath_dir
    up_to_slash stack split join push_element push_elements cut_prefix
unborn_ref = refl

born_ref : head_ref_path born head ≡ some main_ref
unfolding head_ref_path trim_space drop_blanks text_eq filepath_clean filepath_join filepath_dir
    up_to_slash stack split join push_element push_elements cut_prefix
born_ref = refl

no_main : unborn.mtime main_ref ≡ none
unfolding text_eq
no_main = refl

main_at : born.mtime main_ref ≡ some 5
unfolding text_eq
main_at = refl

not_seen : find seen_path main_ref new_poller.prev ≡ none
unfolding find
not_seen = refl

head_apart : text_eq head main_ref ≡ false
unfolding text_eq
head_apart = refl

watch_run : watch head (unborn ∷ born ∷ born ∷ []) new_poller ≡ false ∷ true ∷ false ∷ []
unfolding watch head_changed changed current_ref_changed find put delete head_ref_path trim_space
    drop_blanks text_eq filepath_clean filepath_join filepath_dir up_to_slash stack split join
    push_element push_elements cut_prefix
watch_run = refl

head_changed-quiet_example :
    (head_changed born head (head_changed born head new_poller).1).0 ≡ false
head_changed-quiet_example = head_changed-quiet born head new_poller

head_changed-appears_run : (head_changed born head (head_changed unborn head new_poller).1).0 ≡ true
head_changed-appears_run =
    head_changed-appears unborn born head main_ref new_poller 5 no_main main_at unborn_ref born_ref
      not_seen head_apart
