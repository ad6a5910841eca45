-- ===== src/Watcher.antt =====
-- internal/watcher/watcher.go: polling HEAD and the ref that it names. What the file system answers
-- during a poll is the argument `files`: one poll sees one state of the files.
pub mod Polls
mod Tests
use artifact_fs_extropic.Base.{
  ℕ, ◌≡◌, Bool, true, false, ◌&&◌, ◌||◌, List, [], ◌∷◌, ◌++◌, reverse, Option, none, some, Text,
  text, Text_eq, nat_eq, ltb, ◌==◌, if◌then◌else◌, find, put, delete,
}
use artifact_fs_extropic.Path.{cut_prefix, filepath_join, filepath_dir}

-- os.Stat(path).ModTime() and os.ReadFile(path), where they do not fail
pub record Files : Type 0 where
  pub mtime : Text → Option ℕ
  pub contents : Text → Option Text

pub record Seen : Type 0 where
  pub path : Text
  pub mtime : ℕ

abbrev pub seen_path : Seen → Text
seen_path s = s.path

abbrev pub same_path : Text → Text
same_path path = path

-- Poller, less its interval; the maps are tables.
pub record Poller : Type 0 where
  pub prev : List Seen
  pub first_seen_change : List Text

-- New
abbrev pub new_poller : Poller
new_poller = record { prev = []; first_seen_change = [] }

-- strings.TrimSpace, for the blanks of ASCII
abbrev pub is_blank : ℕ → Bool
is_blank c = nat_eq c 32 || nat_eq c 9 || nat_eq c 10 || nat_eq c 11 || nat_eq c 12 || nat_eq c 13

unfoldable pub drop_blanks : Text → Text
drop_blanks [] = []
drop_blanks (c ∷ s) = if is_blank c then drop_blanks s else c ∷ s

unfoldable pub trim_space : Text → Text
unfolding drop_blanks
trim_space s = reverse (drop_blanks (reverse (drop_blanks s)))

module _ (files : Files) where
  unfoldable pub changed : Text → Poller → Bool × Poller
  changed path p = elim (files.mtime path) [
    | none ↦ (false, p)
    | some mtime ↦
        let prev' = put seen_path (record { path = path; mtime = mtime }) p.prev in
        let cleared = delete same_path path p.first_seen_change in
        elim (find seen_path path p.prev) [
          | some old ↦ (ltb old.mtime mtime, record p { prev = prev'; first_seen_change = cleared })
          | none ↦ elim (find same_path path p.first_seen_change) [
            | some _ ↦ (true, record p { prev = prev'; first_seen_change = cleared })
            | none ↦ (false, record p { prev = prev' })
          ]
        ]
  ]

  unfoldable pub current_ref_changed : Text → Poller → Bool × Poller
  current_ref_changed ref_path p = elim (files.mtime ref_path) [
    | none ↦ (false, record p { first_seen_change = put same_path ref_path p.first_seen_change })
    | some _ ↦ changed ref_path p
  ]

  abbrev pub prime_current_ref : Text → Poller → Poller
  prime_current_ref ref_path p = (current_ref_changed ref_path p).1

  abbrev pub ref_of : Text → Option Text → Option Text
  ref_of head_path none = none
  ref_of head_path (some rest) =
      if trim_space rest == []
      then none
      else some (filepath_join (filepath_dir head_path) (trim_space rest))

  unfoldable pub head_ref_path : Text → Option Text
  head_ref_path head_path = elim (files.contents head_path) [
    | none ↦ none
    | some data' ↦ ref_of head_path (cut_prefix (text "ref: ") (trim_space data'))
  ]

  unfoldable pub head_changed : Text → Poller → Bool × Poller
  head_changed head_path p =
      let (moved, p') = changed head_path p in
      elim (head_ref_path head_path) [
        | none ↦ (moved, p')
        | some ref_path ↦
            if moved then (true, prime_current_ref ref_path p') else current_ref_changed ref_path p'
      ]

-- Watch: one tick for each state of the files, and whether `fn` is called then.
unfoldable pub watch : Text → List Files → Poller → List Bool
watch head_path [] p = []
watch head_path (files ∷ rest) p =
    let (called, p') = head_changed files head_path p in called ∷ watch head_path rest p'
