-- ===== src/Gitstore/Commands.antt =====
-- internal/gitstore/gitstore.go: the commands of git that the store runs to their end.
pub mod Quoting
use artifact_fs_extropic.Base.{
  ℕ, ◌≡◌, Bool, true, false, not, ◌&&◌, ◌||◌, List, [], ◌∷◌, ◌++◌, Option, none, some, Text, text,
  Text_eq, ◌==◌, if◌then◌else◌, ℤ, pos, ltb_ℤ, Error, other, Result, ok, err, Exec,
}
use artifact_fs_extropic.Strings.{trim_space, fields, split_at, parse_int, atoi, replace_byte}
use artifact_fs_extropic.Path.{dot, filepath_dir, filepath_join, contains}
use artifact_fs_extropic.Model.{BaseNode, RepoConfig}
use artifact_fs_extropic.Platform.{Platform}
use artifact_fs_extropic.Gitstore.Tree.{
  Scan, root_node, scan_records, apply_sizes, add_implicit_dirs,
}

-- What a command printed, and how it failed: what it printed as errors, and the error of the call.
pub record Ran : Type 0 where
  pub stdout : Text
  pub failure : Option (Text × Text)

-- A parsed URL: the user and the password, if it has them, and the URL without them.
pub record ParsedUrl : Type 0 where
  pub user : Option (Text × Option Text)
  pub bare : Text

-- The git program, net/url, the redaction of messages, and temporary directories.
pub record Tools (D : Type 0) : Type 0 where
  -- the environment added, and the arguments
  pub git : List Text → List Text → D → Ran × D
  -- git cat-file --batch-check for the objects; what it printed
  pub batch_check : Text → List Text → Exec D Text
  pub parse_url : Text → Option ParsedUrl
  pub redact : Text → Text
  pub mkdir_temp : Text → Text → Exec D Text
  pub remove_all : Text → D → D

-- The error of a command that failed; its message is beside it where the code reads it.
abbrev pub git_failed : Error
git_failed = other 20

abbrev pub bad_number : Error
bad_number = other 21

-- The output of runGit, and the message of its error.
pub record Output : Type 0 where
  pub out : Text
  pub message : Option Text

abbrev pub git_dir_env : Text → List Text
git_dir_env git_dir = if git_dir == [] then [] else (text "GIT_DIR=" ++ git_dir) ∷ []

-- The credential helper's command, with the quotes of its payload escaped.
unfoldable pub credential_helper : Text → Text
credential_helper payload =
    text "!f() { printf '%s\\n' '" ++ (replace_byte b'\'' (text "'\\''") payload ++ text "'; }; f")

abbrev credential_lines : Text → Text → Text
credential_lines username password =
    text "username=" ++ (username ++ (b'\n' ∷ (text "password=" ++ password)))

abbrev helper_env : Text → List Text
helper_env payload =
    text "GIT_TERMINAL_PROMPT=0"
    ∷ text "GIT_CONFIG_COUNT=1"
    ∷ text "GIT_CONFIG_KEY_0=credential.helper"
    ∷ (text "GIT_CONFIG_VALUE_0=" ++ credential_helper payload)
    ∷ []

abbrev user_env : Text → Text → Option (Text × Option Text) → Text × List Text
user_env raw bare none = (raw, [])
user_env raw bare (some (username, none)) =
    if username == [] then (raw, []) else (bare, helper_env (credential_lines username username))
user_env raw bare (some (username, some password)) =
    (bare, helper_env (credential_lines username password))

abbrev url_env : Text → Option ParsedUrl → Text × List Text
url_env raw none = (raw, [])
url_env raw (some u) = user_env raw u.bare u.user

abbrev is_none : List Text → Bool
is_none [] = true
is_none (_ ∷ _) = false

module _ (p : Platform) (tools : Tools p.Disk) where
  open p use {Disk}

  -- credentialEnv
  unfoldable pub credential_env : Text → Text × List Text
  credential_env raw = if raw == [] then ([], []) else url_env raw (tools.parse_url raw)

  -- runGitWithEnv
  abbrev pub message_of : Option (Text × Text) → Option Text
  message_of none = none
  message_of (some (stderr, error)) =
      let msg = tools.redact (trim_space stderr) in
      some (if msg == [] then tools.redact error else msg)

  unfoldable pub run_git_with_env : Text → List Text → List Text → Disk → Output × Disk
  run_git_with_env git_dir extra args d =
      let (ran, d') = tools.git (git_dir_env git_dir ++ extra) args d in
      (record { out = trim_space ran.stdout; message = message_of ran.failure }, d')

  -- runGit, its error's message dropped
  unfoldable pub run_git : Text → List Text → Exec Disk Text
  unfolding run_git_with_env
  run_git git_dir args d =
      let (o, d') = run_git_with_env git_dir [] args d in
      (elim o.message [ none ↦ ok o.out | some _ ↦ err git_failed ], d')

  abbrev pub unit_of : Result Text × Disk → Result (Unit {0}) × Disk
  unit_of (ok _, d) = (ok tt, d)
  unit_of (err e, d) = (err e, d)

  -- Fetch, ReadTreeHEAD
  abbrev pub fetch : RepoConfig → Exec Disk (Unit {0})
  fetch repo d = unit_of (run_git repo.git_dir (text "fetch" ∷ text "origin" ∷ []) d)

  abbrev pub read_tree_head : Text → Exec Disk (Unit {0})
  read_tree_head git_dir d = unit_of (run_git git_dir (text "read-tree" ∷ text "HEAD" ∷ []) d)

  -- ResolveHEAD: the commit, and the branch or "DETACHED"
  unfoldable pub resolve_head : RepoConfig → Exec Disk (Text × Text)
  resolve_head repo d =
      let (r, d') = run_git repo.git_dir (text "rev-parse" ∷ text "HEAD" ∷ []) d in
      elim r [
        | err e ↦ (err e, d')
        | ok oid ↦
            let (q, d'') =
              run_git repo.git_dir
                (text "symbolic-ref" ∷ text "-q" ∷ text "--short" ∷ text "HEAD" ∷ []) d' in
            let ref : Text = elim q [ ok name ↦ name | err _ ↦ text "DETACHED" ] in
            (ok (trim_space oid, trim_space ref), d'')
      ]

  -- VerifyBlob
  unfoldable pub verify_blob : RepoConfig → Text → Text → Exec Disk Bool
  verify_blob repo oid cache_path d =
      let (r, d') =
        run_git repo.git_dir (text "hash-object" ∷ text "--no-filters" ∷ cache_path ∷ []) d in
      (elim r [ err e ↦ err e | ok out ↦ ok (trim_space out == oid) ], d')

  -- CommitTimestamp
  abbrev pub number_of : Text → Result ℤ
  number_of out = elim (parse_int (trim_space out)) [ none ↦ err bad_number | some n ↦ ok n ]

  unfoldable pub commit_timestamp : RepoConfig → Text → Exec Disk ℤ
  commit_timestamp repo oid d =
      let (r, d') =
        run_git repo.git_dir (text "show" ∷ text "-s" ∷ text "--format=%ct" ∷ oid ∷ []) d in
      (elim r [ err e ↦ err e | ok out ↦ number_of out ], d')

  -- ComputeAheadBehind: ahead, behind, and whether both are above zero
  abbrev pub ahead_behind : List Text → ℤ × ℤ × Bool
  ahead_behind (a ∷ b ∷ _) = (atoi a, atoi b, ltb_ℤ (pos 0) (atoi a) && ltb_ℤ (pos 0) (atoi b))
  ahead_behind _ = (pos 0, pos 0, false)

  unfoldable pub compute_ahead_behind : RepoConfig → Exec Disk (ℤ × ℤ × Bool)
  unfolding run_git_with_env
  compute_ahead_behind repo d =
      let range = text "HEAD...origin/" ++ repo.branch in
      let (o, d') =
        run_git_with_env repo.git_dir []
          (text "rev-list" ∷ text "--left-right" ∷ text "--count" ∷ range ∷ []) d in
      (
        elim o.message [
          | none ↦ ok (ahead_behind (fields o.out))
          | some msg ↦
              if contains (text "unknown revision") msg
              then ok (ahead_behind [])
              else err git_failed
        ],
        d',
      )

  -- CloneBlobless, from the temporary directory on
  abbrev pub clone_args : RepoConfig → Text → Text → List Text
  clone_args cfg url target =
      text "clone"
      ∷ text "--filter=blob:none"
      ∷ text "--no-checkout"
      ∷ text "--single-branch"
      ∷ text "--branch"
      ∷ cfg.branch
      ∷ url
      ∷ target
      ∷ []

  unfoldable pub clone_into : RepoConfig → Text → Exec Disk (Unit {0})
  clone_into cfg target d =
      let (url, env) = credential_env cfg.remote_url in
      let (o, d₁) = run_git_with_env [] env (clone_args cfg url target) d in
      elim o.message [
        | some _ ↦ (err git_failed, d₁)
        | none ↦
            let (r, d₂) = p.move (filepath_join target (text ".git")) cfg.git_dir d₁ in
            elim r [ err e ↦ (err e, d₂) | ok _ ↦ read_tree_head cfg.git_dir d₂ ]
      ]

  -- CloneBlobless
  unfoldable pub clone_blobless : RepoConfig → Exec Disk (Unit {0})
  clone_blobless cfg d =
      let (there, d₁) = p.stat_size cfg.git_dir d in
      elim there [
        | ok _ ↦ (ok tt, d₁)
        | err _ ↦
            let parent = filepath_dir cfg.git_dir in
            let (made, d₂) = p.mkdir_all parent 0o755 d₁ in
            elim made [
              | err e ↦ (err e, d₂)
              | ok _ ↦
                  let (temp, d₃) = tools.mkdir_temp parent (text ".clone-*") d₂ in
                  elim temp [
                    | err e ↦ (err e, d₃)
                    | ok target ↦
                        let (r, d₄) = clone_into cfg target d₃ in (r, tools.remove_all target d₄)
                  ]
            ]
      ]

  -- BuildTreeIndex, from what ls-tree printed
  unfoldable pub tree_nodes : RepoConfig → Text → Disk → List BaseNode × Disk
  tree_nodes repo out d =
      let scan =
        scan_records repo.id (split_at 0 out)
          (record { nodes = root_node repo.id ∷ []; blob_oids = []; blob_index = [] }) in
      if is_none scan.blob_oids
      then (add_implicit_dirs repo.id scan.nodes, d)
      else let (r, d') = tools.batch_check repo.git_dir scan.blob_oids d in
        let nodes : List BaseNode = elim r [
          | err _ ↦ scan.nodes
          | ok lines ↦ apply_sizes scan.blob_index (split_at b'\n' lines) scan.nodes
        ] in
        (add_implicit_dirs repo.id nodes, d')

  -- BuildTreeIndex
  unfoldable pub build_tree_index : RepoConfig → Text → Exec Disk (List BaseNode)
  build_tree_index repo head_oid d =
      let (r, d') =
        run_git repo.git_dir (text "ls-tree" ∷ text "-r" ∷ text "-t" ∷ text "-z" ∷ head_oid ∷ [])
          d in
      elim r [
        | err e ↦ (err e, d')
        | ok out ↦ let (nodes, d'') = tree_nodes repo out d' in (ok nodes, d'')
      ]
