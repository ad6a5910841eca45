-- ===== src/Gitstore/Tests.antt =====
-- The theorems on the git store at small trees, answers and calls.
use artifact_fs_extropic.Base.{
  arith, ◌+◌, ◌≡◌, ◌≢◌, refl, inr, true, false, List, [], ◌∷◌, ◌++◌, none, any, some, Text, text,
  Text_eq, text_eq, pos, ltb_ℤ, length, find, put, IsKeyed, All, ok,
}
use artifact_fs_extropic.Path.{dot}
use artifact_fs_extropic.Model.{BaseNode, RepoConfig}
use artifact_fs_extropic.Strings.{
  fields, fields_from, cut, parse_int, digits, digits_from, split_at,
}
use artifact_fs_extropic.Strings.Fields.{IsWord}
use artifact_fs_extropic.Platform.Memory.{memory, Files, move_file}
use artifact_fs_extropic.Gitstore.Tree.{
  node_path, climb, add_implicit_dirs, dir_node, Scan, scan_records,
}
use artifact_fs_extropic.Gitstore.Tree.Dirs.{add_implicit_dirs-IsKeyed}
use artifact_fs_extropic.Gitstore.Tree.Parents.{climb-Enough, add_implicit_dirs-closed, IsPlaced}
use artifact_fs_extropic.Gitstore.Tree.Records.{
  Entry, IsEntry, printed, entry_nodes, entry_node, scan_records-printed,
}
use artifact_fs_extropic.Gitstore.Batch.{
  CatFileCommand, Wire, read_object, fetch_to_file, store_contents, copy_contents, finish_file, ask,
  read_object_size, read_line, parse_header, first_bytes, later_bytes, read_contents, read_full,
}
use artifact_fs_extropic.Gitstore.Batch.Protocol as Protocol
use artifact_fs_extropic.Gitstore.Batch.Protocol.{
  Answer, left_with, read_object-answer, fetch_to_file-sync,
}
use artifact_fs_extropic.Gitstore.Batch.Pool.{
  Store, new_store, fresh, with_process, acquire, start_process, get_pool, split_last, total_free,
  read_blob,
}
use artifact_fs_extropic.Gitstore.Batch.Balance.{IsBalanced}
use artifact_fs_extropic.Gitstore.Batch.Leaks.{
  Use, fetches, reads, resizes, closes, after_uses, after_uses-IsBalanced,
}
use artifact_fs_extropic.Gitstore.Batch.Fetched.{read_blob-fits}
use artifact_fs_extropic.Gitstore.Commands.{credential_helper}
use artifact_fs_extropic.Gitstore.Commands.Quoting.{shell_word, before, credential_helper-word}

abbrev deep : Entry
deep = record { mode = text "100644"; type = text "blob"; oid = text "1f"; path = text "a/b/c" }

deep-IsEntry : IsEntry deep
deep-IsEntry = record {
  mode_IsWord = ground arith;
  type_IsWord = ground arith;
  oid_IsWord = ground arith;
  no_nul = ground arith;
}

abbrev no_nodes : Scan
no_nodes = record { nodes = []; blob_oids = []; blob_index = [] }

scan_records-printed_example :
    (scan_records (text "r") (split_at 0 (printed (deep ∷ []))) no_nodes).nodes
    ≡ entry_nodes (text "r") (deep ∷ [])
scan_records-printed_example =
    scan_records-printed (text "r") (deep ∷ []) no_nodes (deep-IsEntry, tt)

abbrev one_node : List BaseNode
one_node = entry_node (text "r") deep ∷ []

one-IsKeyed : IsKeyed node_path one_node
unfolding find
one-IsKeyed = (refl, tt)

add_implicit_dirs-IsKeyed_run : IsKeyed node_path (add_implicit_dirs (text "r") one_node)
add_implicit_dirs-IsKeyed_run = add_implicit_dirs-IsKeyed (text "r") one_node one-IsKeyed

add_implicit_dirs-closed_example :
    (added : List BaseNode) × (add_implicit_dirs (text "r") one_node ≡ one_node ++ added)
    × All (λ n. n ≡ dir_node (text "r") n.path) added
    × All (IsPlaced (add_implicit_dirs (text "r") one_node)) (add_implicit_dirs (text "r") one_node)
add_implicit_dirs-closed_example = add_implicit_dirs-closed (text "r") one_node one-IsKeyed

climb-Enough_run :
    climb (4 + 10) (text "r") (text "a/b") (dot ∷ []) []
    ≡ climb 4 (text "r") (text "a/b") (dot ∷ []) []
climb-Enough_run = climb-Enough 4 10 (text "r") (text "a/b") (dot ∷ []) [] (inr (omega arith))

-- What the shell would expand is no word, and what it would split ends at the blank.
expanded : shell_word before (text "it$x") ≡ none
unfolding shell_word any
expanded = refl

split_up : shell_word before (text "a b") ≡ some (text "a", text " b")
unfolding shell_word any
split_up = refl

-- A password with a quote.
credential_helper-word_example :
    (command : Text) × (credential_helper (text "password=it's")
      ≡ text "!f() { printf '%s\\n' " ++ command)
    × (shell_word before command ≡ some (text "password=it's", text "; }; f"))
credential_helper-word_example = credential_helper-word (text "password=it's")

sized : parse_int (text "3") ≡ some (pos 3)
unfolding parse_int digits digits_from
sized = refl

oid_IsWord : IsWord (text "1f")
oid_IsWord = ground arith

type_IsWord : IsWord (text "blob")
type_IsWord = ground arith

size_IsWord : IsWord (text "3")
size_IsWord = ground arith

found : ◌≢◌ {A = Text} (text "blob") (text "missing")
found h = cc

abbrev abc : Answer (text "abc")
abc = record {
  oid = text "1f";
  type = text "blob";
  size = text "3";
  oid_IsWord = oid_IsWord;
  type_IsWord = type_IsWord;
  size_IsWord = size_IsWord;
  found = found;
  sized = sized;
}

-- A git that answers with the same object each time.
abbrev git : CatFileCommand Files
git = record {
  start = λ _ d. (ok tt, d);
  answer = λ _ _ d. (ok (Protocol.printed abc), d);
  taken = λ _ _. 0;
}

abbrev idle : Wire Files
idle = record { proc = fresh (text "/g"); disk = [] }

read_object-answer_example :
    read_object memory git (text "1f") (pos 4096) idle
    ≡ (ok (text "abc"), left_with (fresh (text "/g")) [] [])
read_object-answer_example =
    read_object-answer memory git abc (text "1f") (pos 4096) idle [] refl refl refl (omega arith)

fetched : (fetch_to_file memory git (text "1f") (text "/c/1f") idle).0 ≡ ok 3
unfolding fetch_to_file ask read_object_size read_line parse_header store_contents copy_contents
    finish_file first_bytes later_bytes cut fields fields_from parse_int digits digits_from find put
    move_file text_eq
fetched = refl

fetch_to_file-sync_example :
    (3 ≡ length (text "abc"))
    × ((fetch_to_file memory git (text "1f") (text "/c/1f") idle).1.proc.unread ≡ [])
fetch_to_file-sync_example =
    fetch_to_file-sync memory git abc (text "1f") (text "/c/1f") 3 idle [] refl refl fetched

abbrev repo : RepoConfig
repo = record {
  id = text "r";
  name = text "r";
  mount_root = text "/m";
  mount_path = text "/m/r";
  remote_url = text "u";
  remote_url_redacted = text "u";
  branch = text "main";
  refresh_interval = 30;
  git_dir = text "/g";
  overlay_dir = text "/o";
  blob_cache_dir = text "/c";
  meta_db_path = text "/d";
  overlay_db_path = text "/e";
  enabled = true;
}

abbrev empty : Store Files
empty = new_store []

abbrev uses : List Use
uses =
    fetches repo (text "1f") (text "/c/1f")
    ∷ reads repo (text "1f") (pos 2)
    ∷ resizes (pos 1)
    ∷ closes
    ∷ []

after_uses-IsBalanced_example : IsBalanced 0 (after_uses memory git uses empty)
unfolding total_free
after_uses-IsBalanced_example =
    after_uses-IsBalanced memory git uses empty (record { capped = tt; count = refl })

read_three : (read_blob memory git repo (text "1f") (pos 3) empty).0 ≡ ok (text "abc")
unfolding read_blob with_process acquire start_process get_pool split_last read_object ask
    read_object_size read_line parse_header read_contents read_full first_bytes later_bytes cut
    fields fields_from parse_int digits digits_from find put text_eq
read_three = refl

read_blob-fits_example : ltb_ℤ (pos 3) (pos (length (text "abc"))) ≡ false
read_blob-fits_example =
    read_blob-fits memory git repo (text "1f") (pos 3) empty (text "abc") read_three
