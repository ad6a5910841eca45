-- ===== src/Engine/Samples.antt =====
-- A tree with one tracked file, and overlays with no entry and with one, for running examples.
use artifact_fs_extropic.Base.{
  ℕ, true, [], ◌∷◌, Option, none, some, Text, text, Text_eq, ◌==◌, if◌then◌else◌, pos, put, ok,
}
use artifact_fs_extropic.Model.{
  BaseNode, RepoConfig, FileType, SizeState, OverlayEntry, OverlayKind,
}
use artifact_fs_extropic.Platform.Memory.{Files, file_key}
use artifact_fs_extropic.Overlay.{Store}
use artifact_fs_extropic.Engine.{BlobSource, Mount}

abbrev pub repo : RepoConfig
repo = record {
  id = text "r";
  name = text "r";
  mount_root = text "/m";
  mount_path = text "/m/r";
  remote_url = text "u";
  remote_url_redacted = text "u";
  branch = text "main";
  refresh_interval = 30;
  git_dir = text "/g";
  overlay_dir = text "/o";
  blob_cache_dir = text "/c";
  meta_db_path = text "/d";
  overlay_db_path = text "/e";
  enabled = true;
}

abbrev pub tracked : BaseNode
tracked = record {
  repo_id = text "r";
  path = text "a";
  type = FileType.file;
  mode = 0o644;
  object_oid = text "1";
  size_state = SizeState.known;
  size_bytes = pos 3;
}

abbrev pub node_at : ℕ → Text → Option BaseNode
node_at g path = if path == text "a" then some tracked else none

abbrev pub mount : Mount
mount = record {
  repo = repo;
  generation = 1;
  commit_time = 7;
  snapshot = record { get_node = node_at; list_children = λ _ _. ok [] };
}

-- A hydrator that writes "abc" to the cache.
abbrev pub source : BlobSource Files
source = record {
  ensure_hydrated = λ _ _ d.
      (ok (text "/c/1"), put file_key (record { name = text "/c/1"; bytes = text "abc" }) d);
  enqueue = λ _ d. d;
  read_blob = λ _ _ _ d. (ok (text "abc"), d);
}

abbrev pub s0 : Store Files
s0 = record { repo = repo; upper_dir = text "/u"; entries = []; disk = [] }

abbrev pub entry : OverlayEntry
entry = record {
  repo_id = text "r";
  path = text "b";
  kind = OverlayKind.create;
  backing_path = text "/u/b";
  mode = 0o600;
  size_bytes = 5;
  mtime_unix_ns = 9;
  source_oid = [];
  target_path = [];
}

abbrev pub s1 : Store Files
s1 = record s0 { entries = entry ∷ [] }
