-- ===== src/Overlay/Samples.antt =====
-- Stores of the overlay on which the tests run.
use artifact_fs_extropic.Base.{
  ◌≡◌, refl, true, false, List, [], ◌∷◌, Option, none, some, Text, text, Text_eq, text_eq, ◌==◌,
  if◌then◌else◌, find, pos,
}
use artifact_fs_extropic.Path.{
  clean_path, filepath_clean, stack, split, join, push_element, push_elements, cut_prefix,
}
use artifact_fs_extropic.Model.{
  BaseNode, FileType, OverlayEntry, OverlayKind, RepoConfig, SizeState,
}
use artifact_fs_extropic.Platform.Memory.{memory}
use artifact_fs_extropic.Overlay.{Store, get}
use artifact_fs_extropic.Overlay.Write.{blank_entry}
use artifact_fs_extropic.Overlay.View.{IsValid}

abbrev pub repo : RepoConfig
repo = record {
  id = text "r";
  name = text "r";
  mount_root = [];
  mount_path = [];
  remote_url = [];
  remote_url_redacted = [];
  branch = text "main";
  refresh_interval = 0;
  git_dir = [];
  overlay_dir = [];
  blob_cache_dir = text "/c";
  meta_db_path = [];
  overlay_db_path = [];
  enabled = true;
}

abbrev pub row : Text → OverlayKind → OverlayEntry
row path kind = record (blank_entry (text "r") path kind 1) { backing_path = text "/u/f" }

abbrev pub made : OverlayEntry
made = row (text "a") OverlayKind.create

-- The entry as a later call rewrites it.
abbrev pub remade : OverlayEntry
remade = record made { mtime_unix_ns = 2 }

abbrev pub gone : OverlayEntry
gone = row (text "b") OverlayKind.delete

abbrev pub store_of : List OverlayEntry → Store memory.Disk
store_of rows = record { repo = repo; upper_dir = text "/u"; entries = rows; disk = [] }

abbrev pub two : Store memory.Disk
two = store_of (made ∷ gone ∷ [])

-- The file of the entry is on the disk.
abbrev pub backed : Store memory.Disk
backed = record two { disk = record { name = text "/u/f"; bytes = text "x" } ∷ [] }

abbrev pub node : Text → BaseNode
node path = record {
  repo_id = text "r";
  path = path;
  type = FileType.file;
  mode = 0o644;
  object_oid = text "1";
  size_state = SizeState.known;
  size_bytes = pos 3;
}

-- A base with the file "a" alone.
abbrev pub base : Text → Option BaseNode
base path = if path == text "a" then some (node path) else none

abbrev pub empty_base : Text → Option BaseNode
empty_base _ = none

pub two-IsValid : IsValid two
unfolding find text_eq clean_path filepath_clean stack split push_elements push_element join
    cut_prefix
two-IsValid = record { keyed = (refl, (refl, tt)); cleaned = (refl, (refl, tt)) }

pub backed-IsValid : IsValid backed
unfolding find text_eq clean_path filepath_clean stack split push_elements push_element join
    cut_prefix
backed-IsValid = record { keyed = (refl, (refl, tt)); cleaned = (refl, (refl, tt)) }

pub remade-IsValid : IsValid (store_of (remade ∷ []))
unfolding find text_eq clean_path filepath_clean stack split push_elements push_element join
    cut_prefix
remade-IsValid = record { keyed = (refl, tt); cleaned = (refl, tt) }

pub got : get backed (text "a") ≡ some made
unfolding get find text_eq clean_path filepath_clean stack split push_elements push_element join
    cut_prefix
got = refl

pub got_two : get two (text "a") ≡ some made
unfolding get find text_eq clean_path filepath_clean stack split push_elements push_element join
    cut_prefix
got_two = refl

pub taken : get backed (text "./b") ≡ some gone
unfolding get find text_eq clean_path filepath_clean stack split push_elements push_element join
    cut_prefix
taken = refl

pub apart :
    (text_eq (clean_path (text "a")) (clean_path (text "./b")) ≡ false)
    × (text_eq (clean_path (text "a")) (clean_path (text "c")) ≡ false)
unfolding text_eq clean_path filepath_clean stack split push_elements push_element join cut_prefix
apart = (refl, refl)
