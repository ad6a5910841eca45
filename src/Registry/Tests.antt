-- ===== src/Registry/Tests.antt =====
-- The theorem on the table of repositories, at a table with one other repository.
use artifact_fs_extropic.Base.{
  ◌≡◌, refl, true, List, [], ◌∷◌, none, Text, text, Text_eq, text_eq, any, ok, err, constraint, ◌*◌,
  ◌+◌,
}
use artifact_fs_extropic.Model.{RepoConfig}
use artifact_fs_extropic.Registry.{RepoRow, row_of, second, add_repo, get_repo}
use artifact_fs_extropic.Registry.Stored.{stored, add_repo-get}

abbrev config : Text → Text → RepoConfig
config id name = record {
  id = id;
  name = name;
  mount_root = text "/mnt";
  mount_path = text "/mnt/r";
  remote_url = text "https://tok@host/r";
  remote_url_redacted = text "https://REDACTED@host/r";
  branch = text "main";
  refresh_interval = 30 * second + 7;
  git_dir = text "/g";
  overlay_dir = text "/o";
  blob_cache_dir = text "/b";
  meta_db_path = text "/m.db";
  overlay_db_path = text "/o.db";
  enabled = true;
}

abbrev others : List RepoRow
others = row_of (config (text "1") (text "one")) 3 none ∷ []

name_taken : (add_repo none (config (text "2") (text "one")) 5 others).0 ≡ err constraint
unfolding add_repo any text_eq
name_taken = refl

add_repo-get_example :
    get_repo none (text "two") (add_repo none (config (text "2") (text "two")) 5 others).1
    ≡ ok (stored (config (text "2") (text "two")))
unfolding add_repo any text_eq
add_repo-get_example = add_repo-get (config (text "2") (text "two")) 5 others refl
