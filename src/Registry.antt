-- ===== src/Registry.antt =====
-- internal/registry/registry.go: the table of repositories. Each call takes the failure of its
-- statement for a reason outside the table, if it has one.
pub mod Stored
pub mod Tests
use artifact_fs_extropic.Base.{
  ℕ, zero, suc, ◌*◌, ◌/◌, ◌^◌, Bool, true, false, not, ◌&&◌, ◌||◌, List, [], ◌∷◌, map, Option, none,
  some, Text, Text_eq, nat_eq, ltb, ◌==◌, if◌then◌else◌, any, keep, sort_by, text_lt, find, put,
  Error, constraint, other, Result, ok, err, Exec,
}
use artifact_fs_extropic.Model.{RepoConfig}

-- A row of repos. The remote URL itself has no column, and remote_url_secret_ref is never set.
pub record RepoRow : Type 0 where
  pub repo_id : Text
  pub name : Text
  pub mount_root : Text
  pub mount_path : Text
  pub remote_url_redacted : Text
  pub branch : Text
  pub refresh_interval_seconds : ℕ
  pub git_dir : Text
  pub overlay_dir : Text
  pub blob_cache_dir : Text
  pub meta_db_path : Text
  pub overlay_db_path : Text
  pub enabled : ℕ
  pub created_at : ℕ
  pub updated_at : ℕ

abbrev pub row_id : RepoRow → Text
row_id r = r.repo_id

abbrev pub row_name : RepoRow → Text
row_name r = r.name

abbrev pub bool_to_int : Bool → ℕ
bool_to_int true = 1
bool_to_int false = 0

-- The nanoseconds of a time.Duration in a second.
abbrev pub second : ℕ
second = 10 ^ 9

-- created_at_ns stays as it is where the row is there.
abbrev pub created : ℕ → Option RepoRow → ℕ
created now none = now
created now (some r) = r.created_at

abbrev pub row_of : RepoConfig → ℕ → Option RepoRow → RepoRow
row_of cfg now old = record {
  repo_id = cfg.id;
  name = cfg.name;
  mount_root = cfg.mount_root;
  mount_path = cfg.mount_path;
  remote_url_redacted = cfg.remote_url_redacted;
  branch = cfg.branch;
  refresh_interval_seconds = cfg.refresh_interval / second;
  git_dir = cfg.git_dir;
  overlay_dir = cfg.overlay_dir;
  blob_cache_dir = cfg.blob_cache_dir;
  meta_db_path = cfg.meta_db_path;
  overlay_db_path = cfg.overlay_db_path;
  enabled = bool_to_int cfg.enabled;
  created_at = created now old;
  updated_at = now;
}

-- The column `name` is UNIQUE: another repository has it.
abbrev pub is_taken : Text → Text → List RepoRow → Bool
is_taken repo_id name rows = any (λ r. r.name == name && not (r.repo_id == repo_id)) rows

-- AddRepo
unfoldable pub add_repo : Option Error → RepoConfig → ℕ → Exec (List RepoRow) (Unit {0})
add_repo (some e) cfg now rows = (err e, rows)
add_repo none cfg now rows =
    if is_taken cfg.id cfg.name rows
    then (err constraint, rows)
    else (ok tt, put row_id (row_of cfg now (find row_id cfg.id rows)) rows)

-- RemoveRepo
unfoldable pub remove_repo : Option Error → Text → Exec (List RepoRow) (Unit {0})
remove_repo (some e) name rows = (err e, rows)
remove_repo none name rows = (ok tt, keep (λ r. not (r.name == name)) rows)

-- fmt.Errorf("repo not found")
abbrev pub repo_not_found : Error
repo_not_found = other 30

-- scanRepo of a row
abbrev pub config_of : RepoRow → RepoConfig
config_of r = record {
  id = r.repo_id;
  name = r.name;
  mount_root = r.mount_root;
  mount_path = r.mount_path;
  remote_url = [];
  remote_url_redacted = r.remote_url_redacted;
  branch = r.branch;
  refresh_interval = r.refresh_interval_seconds * second;
  git_dir = r.git_dir;
  overlay_dir = r.overlay_dir;
  blob_cache_dir = r.blob_cache_dir;
  meta_db_path = r.meta_db_path;
  overlay_db_path = r.overlay_db_path;
  enabled = nat_eq r.enabled 1;
}

abbrev pub scan_repo : Option RepoRow → Result RepoConfig
scan_repo none = err repo_not_found
scan_repo (some r) = ok (config_of r)

-- GetRepo
unfoldable pub get_repo : Option Error → Text → List RepoRow → Result RepoConfig
get_repo (some e) name rows = err e
get_repo none name rows = scan_repo (find row_name name rows)

-- ListRepos
unfoldable pub list_repos : Option Error → List RepoRow → Result (List RepoConfig)
list_repos (some e) rows = err e
list_repos none rows = ok (map config_of (sort_by (λ r r'. text_lt r.name r'.name) rows))
