-- ===== src/Path/Tests.antt =====
-- The theorems on paths at concrete texts.
use artifact_fs_extropic.Base.{
  arith, ◌≡◌, ◌≢◌, refl, [], ◌∷◌, ◌++◌, some, Text, text, text_eq, any, ok,
}
use artifact_fs_extropic.Path.{
  dot, contains, clean_path, filepath_clean, filepath_join, stack, split, join, push_element,
  push_elements, cut_prefix, cut_before, child_name, validate_repo_name,
}
use artifact_fs_extropic.Path.Components.{IsSlashFree}
use artifact_fs_extropic.Path.Clean.{clean_path_idem, clean_path-IsClean, IsClean}
use artifact_fs_extropic.Path.Names.{
  IsRest, below, child_name-below, child_name_sound, validate_repo_name-join,
}

clean_path_run : clean_path (text "//a/./b/../../c//") ≡ text "c"
unfolding text_eq clean_path filepath_clean stack split push_elements push_element join cut_prefix
clean_path_run = refl

clean_path_up_run : clean_path (text "a/../../b") ≡ text "../b"
unfolding text_eq clean_path filepath_clean stack split push_elements push_element join cut_prefix
clean_path_up_run = refl

clean_path_idem_run :
    clean_path (clean_path (text "/a/./../../c//")) ≡ clean_path (text "/a/./../../c//")
clean_path_idem_run = clean_path_idem (text "/a/./../../c//")

clean_path-IsClean_run : IsClean (clean_path (text "a//../../c/."))
clean_path-IsClean_run = clean_path-IsClean (text "a//../../c/.")

plain_name : text "lib" ≢ []
plain_name e = cc

child_name-below_run :
    child_name (text "src") (below (text "src") ++ (text "lib" ++ text "/a.go")) ≡ some (text "lib")
child_name-below_run =
    child_name-below (text "src") (text "lib") (text "/a.go") plain_name (ground arith) refl

child_name_run : child_name (text "src") (text "src/lib/a.go") ≡ some (text "lib")
unfolding text_eq child_name cut_prefix cut_before
child_name_run = refl

child_name_sound_run :
    (rest : Text) × (text "src/lib/a.go" ≡ below (text "src") ++ (text "lib" ++ rest))
    × IsSlashFree (text "lib")
    × IsRest rest
child_name_sound_run =
    child_name_sound (text "src") (text "src/lib/a.go") (text "lib") child_name_run

not_nil : text "/root" ≢ []
not_nil e = cc

not_dot : text "repo" ≢ dot
not_dot e = cc

accepted : validate_repo_name (text "repo") ≡ ok tt
unfolding text_eq validate_repo_name any contains cut_prefix
accepted = refl

validate_repo_name-join_example :
    stack (filepath_join (text "/root") (text "repo")) ≡ text "repo" ∷ stack (text "/root")
validate_repo_name-join_example =
    validate_repo_name-join (text "/root") (text "repo") not_nil not_dot accepted
