-- ===== src/Hydrator.antt =====
-- internal/hydrator/hydrator.go: fetching blobs into the cache, by a queue of tasks with priorities.
-- A call of the service on its own is a function of its state; what calls and workers do at the same
-- time is in the child Workers. container/heap is modelled by what it promises: Pop takes an
-- element that no other one precedes.
pub mod Queue
pub mod Cache
pub mod Workers
pub mod Sound
pub mod Progress
pub mod Notified
mod Tests
use artifact_fs_extropic.Base.{
  ℕ, zero, suc, ◌+◌, ◌≡◌, Bool, true, false, not, ◌&&◌, ◌||◌, List, [], ◌∷◌, ◌++◌, Option, none,
  some, Text, text, Text_eq, ℕ_eq, nat_eq, ltb, ◌==◌, if◌then◌else◌, find, put, delete, any, keep,
  length, ℤ, pos, negsuc, is_negative, ltb_ℤ, ℤ_eq, Error, other, blob_too_large, is_not_exist,
  is_cancelled, Result, ok, err, Exec, pure, raise, gets, catch, ignore, handle, ◌>>=◌, ◌>>◌,
}
use artifact_fs_extropic.Path.{filepath_join, filepath_dir, filepath_base, filepath_ext}
use artifact_fs_extropic.Model.{BaseNode, RepoConfig, SizeState, is_known}
use artifact_fs_extropic.Platform.{Platform}
use artifact_fs_extropic.Inflight.{Pending, add, remove, take, close_all}

-- model.HydrationTask
pub record HydrationTask : Type 0 where
  pub repo_id : Text
  pub path : Text
  pub object_oid : Text
  pub priority : ℕ
  pub reason : Text
  pub enqueued_at : ℕ

abbrev pub priority_explicit_read : ℕ
priority_explicit_read = 1000

abbrev pub priority_bootstrap : ℕ
priority_bootstrap = 700

abbrev pub priority_likely_text : ℕ
priority_likely_text = 500

abbrev pub priority_nearby_code : ℕ
priority_nearby_code = 400

abbrev pub priority_binary : ℕ
priority_binary = 100

abbrev pub is_one_of : Text → List Text → Bool
is_one_of s names = any (λ n. s == n) names

abbrev pub bootstrap_names : List Text
bootstrap_names =
    text "README"
    ∷ text "README.md"
    ∷ text "LICENSE"
    ∷ text "Makefile"
    ∷ text ".gitignore"
    ∷ text "go.mod"
    ∷ text "go.sum"
    ∷ text "Cargo.toml"
    ∷ text "package.json"
    ∷ text "pnpm-lock.yaml"
    ∷ text "pyproject.toml"
    ∷ []

abbrev pub code_extensions : List Text
code_extensions =
    text ".go"
    ∷ text ".rs"
    ∷ text ".zig"
    ∷ text ".py"
    ∷ text ".ts"
    ∷ text ".tsx"
    ∷ text ".js"
    ∷ text ".jsx"
    ∷ text ".java"
    ∷ text ".c"
    ∷ text ".cc"
    ∷ text ".cpp"
    ∷ text ".h"
    ∷ text ".hpp"
    ∷ text ".json"
    ∷ text ".yaml"
    ∷ text ".yml"
    ∷ text ".toml"
    ∷ text ".md"
    ∷ []

abbrev pub binary_extensions : List Text
binary_extensions =
    text ".png"
    ∷ text ".jpg"
    ∷ text ".jpeg"
    ∷ text ".gif"
    ∷ text ".zip"
    ∷ text ".pdf"
    ∷ text ".tar"
    ∷ text ".gz"
    ∷ text ".mp4"
    ∷ text ".mov"
    ∷ text ".avi"
    ∷ []

-- ClassifyPriority
unfoldable pub classify_priority : Text → ℕ
classify_priority path =
    if is_one_of (filepath_base path) bootstrap_names
    then priority_bootstrap
    else if is_one_of (filepath_ext path) code_extensions
    then priority_likely_text
    else if is_one_of (filepath_ext path) binary_extensions
    then priority_binary
    else priority_nearby_code

-- priorityQueue.Less: the higher priority first, then the earlier task
unfoldable pub less : HydrationTask → HydrationTask → Bool
less a b =
    if a.priority == b.priority then ltb a.enqueued_at b.enqueued_at else ltb b.priority a.priority

-- heap.Push: the queue is what the heap has, in the order in which it came
abbrev pub push : HydrationTask → List HydrationTask → List HydrationTask
push t queue = queue ++ (t ∷ [])

-- heap.Pop as container/heap documents it: a task that no other precedes is taken. Of a task and a
-- queue, the task taken, and the rest of the two.
unfoldable pub pop_from : HydrationTask → List HydrationTask → HydrationTask × List HydrationTask
pop_from t [] = (t, [])
pop_from t (u ∷ us) =
    let (best, rest) = pop_from u us in if less best t then (best, t ∷ rest) else (t, best ∷ rest)

unfoldable pub pop : List HydrationTask → Option (HydrationTask × List HydrationTask)
unfolding pop_from
pop [] = none
pop (t ∷ ts) = some (pop_from t ts)

-- The tasks that a worker's loop takes, one step after another, while nothing else is queued or taken.
unfoldable pub drain_from : ℕ → List HydrationTask → List HydrationTask
unfolding pop
drain_from zero queue = []
drain_from (suc k) queue = elim (pop queue) [
  | none ↦ []
  | some (task, rest) ↦ task ∷ drain_from k rest
]

unfoldable pub drain : List HydrationTask → List HydrationTask
unfolding drain_from
drain queue = drain_from (length queue) queue

unfoldable pub task_key : Text → Text → Text
task_key repo_id oid = repo_id ++ (b':' ∷ oid)

abbrev pub key_of : HydrationTask → Text
key_of t = task_key t.repo_id t.object_oid

unfoldable pub cache_path_for : RepoConfig → Text → Text
cache_path_for repo oid = filepath_join repo.blob_cache_dir oid

abbrev pub explicit_read_task : Text → Text → Text → ℕ → HydrationTask
explicit_read_task repo_id path oid now = record {
  repo_id = repo_id;
  path = path;
  object_oid = oid;
  priority = priority_explicit_read;
  reason = text "explicit read";
  enqueued_at = now;
}

-- QueueDepth
unfoldable pub queue_depth : Text → List HydrationTask → ℕ
queue_depth repo_id queue = length (keep (λ t. t.repo_id == repo_id) queue)

-- BlobFetcher, which the git store implements. Each call may change what is on the disk.
pub record Fetcher (D : Type 0) : Type 0 where
  pub blob_to_cache : RepoConfig → Text → Text → Exec D ℕ
  pub read_blob : RepoConfig → Text → ℤ → Exec D Text
  pub verify_blob : RepoConfig → Text → Text → Exec D Bool

-- Service, less its channels and callback.
pub record Service (D : Type 0) : Type 0 where
  pub queue : List HydrationTask
  pub wait : List Pending
  pub verified : List Text
  pub disk : D

abbrev pub same_key : Text → Text
same_key key = key

abbrev pub is_some : {A : Type 0} → Option A → Bool
is_some none = false
is_some (some _) = true

-- isVerified, markVerified, clearVerified
abbrev pub is_verified : {D : Type 0} → Text → Service D → Bool
is_verified key s = is_some (find same_key key s.verified)

abbrev pub mark_verified : {D : Type 0} → Text → Service D → Service D
mark_verified key s = record s { verified = put same_key key s.verified }

abbrev pub clear_verified : {D : Type 0} → Text → Service D → Service D
clear_verified key s = record s { verified = delete same_key key s.verified }

-- What EnsureHydrated has when it goes to wait or returns.
pub data Hydrated : Type 0 where
  ready : Text → ℕ → Hydrated
  waiting : Hydrated

-- The error for a limit below zero; only a text.
abbrev pub negative_max : Error
negative_max = other 3

abbrev pub wrong_size : BaseNode → ℕ → Bool
wrong_size node size = is_known node.size_state && not (node.size_bytes == pos size)

module _ (p : Platform) (fetcher : Fetcher p.Disk) where
  open p use {Disk}

  abbrev pub on_disk : {A : Type 0} → Exec Disk A → Exec (Service Disk) A
  on_disk m s = let (r, d) = m s.disk in (r, record s { disk = d })

  unfoldable pub remove_invalid_cache_file : Text → Text → Text → Exec (Service Disk) (Unit {0})
  remove_invalid_cache_file cache_path repo_id oid s =
      let (r, s') = on_disk (p.unlink cache_path) s in
      elim r [
        | ok _ ↦ (ok tt, clear_verified (task_key repo_id oid) s')
        | err e ↦
            if is_not_exist e
            then (ok tt, clear_verified (task_key repo_id oid) s')
            else (err e, s')
      ]

  -- verifyBlobOnce and runVerification, for one caller
  unfoldable pub verify_blob_once : Text → Exec Disk Bool → Exec (Service Disk) Bool
  verify_blob_once key verify s =
      if is_verified key s
      then (ok true, s)
      else let (r, s') = on_disk verify s in
        elim r [
          | ok good ↦ (ok good, if good then mark_verified key s' else s')
          | err e ↦ (err e, s')
        ]

  -- validateCachedBlob, past the test of the size
  unfoldable pub validate_contents :
      RepoConfig → Text → BaseNode → ℕ → Exec (Service Disk) (Option ℕ)
  validate_contents repo cache_path node size s =
      let key = task_key repo.id node.object_oid in
      if is_verified key s
      then (ok (some size), s)
      else let (r, s') =
          verify_blob_once key (fetcher.verify_blob repo node.object_oid cache_path) s in
        elim r [
          | err e ↦ (if is_cancelled e then err e else ok none, s')
          | ok good ↦
              if good
              then (ok (some size), s')
              else (remove_invalid_cache_file cache_path repo.id node.object_oid >> pure none) s'
        ]

  -- validateCachedBlob: the size of the cached file, if it can be used
  unfoldable pub validate_cached_blob :
      RepoConfig → Text → BaseNode → Exec (Service Disk) (Option ℕ)
  validate_cached_blob repo cache_path node s =
      let (r, s') = on_disk (p.stat_size cache_path) s in
      elim r [
        | err e ↦ (if is_not_exist e then ok none else err e, s')
        | ok size ↦
            if wrong_size node size
            then (remove_invalid_cache_file cache_path repo.id node.object_oid >> pure none) s'
            else validate_contents repo cache_path node size s'
      ]

  -- EnsureHydrated, where the cache has no blob: one task for all channels of a key
  unfoldable pub start_wait : RepoConfig → BaseNode → ℕ → ℕ → Service Disk → Service Disk
  start_wait repo node ch now s =
      let (first, wait') = add s.wait (task_key repo.id node.object_oid) ch in
      let queue' =
        if first
        then push (explicit_read_task repo.id node.path node.object_oid now) s.queue
        else s.queue in
      record s { wait = wait'; queue = queue' }

  -- EnsureHydrated, up to its wait for the channel `ch`
  unfoldable pub ensure_hydrated : RepoConfig → BaseNode → ℕ → ℕ → Exec (Service Disk) Hydrated
  ensure_hydrated repo node ch now s =
      let cache_path = cache_path_for repo node.object_oid in
      let (r, s') = validate_cached_blob repo cache_path node s in
      elim r [
        | err e ↦ (err e, s')
        | ok (some size) ↦ (ok (ready cache_path size), s')
        | ok none ↦ (ok waiting, start_wait repo node ch now s')
      ]

  -- readCachedBlob
  unfoldable pub read_cached_blob : Text → ℕ → ℤ → Exec Disk Text
  read_cached_blob cache_path size max d =
      if ltb_ℤ max (pos size)
      then (err blob_too_large, d)
      else let (r, d') = p.read_limited cache_path max d in
        elim r [
          | err e ↦ (err e, d')
          | ok data' ↦ (if ltb_ℤ max (pos (length data')) then err blob_too_large else ok data', d')
        ]

  -- ReadBlob, past the test of the size of the cached file
  unfoldable pub read_valid_blob : RepoConfig → BaseNode → ℤ → Exec (Service Disk) Text
  read_valid_blob repo node max s =
      let cache_path = cache_path_for repo node.object_oid in
      let (r, s') = validate_cached_blob repo cache_path node s in
      elim r [
        | err e ↦ (err e, s')
        | ok (some size) ↦ on_disk (read_cached_blob cache_path size max) s'
        | ok none ↦ on_disk (fetcher.read_blob repo node.object_oid max) s'
      ]

  unfoldable pub read_blob : RepoConfig → BaseNode → ℤ → Exec (Service Disk) Text
  read_blob repo node max s =
      if is_negative max
      then (err negative_max, s)
      else if is_known node.size_state && ltb_ℤ max node.size_bytes
      then (err blob_too_large, s)
      else let (r, s') = on_disk (p.stat_size (cache_path_for repo node.object_oid)) s in
        elim r [
          | err e ↦ if is_not_exist e then read_valid_blob repo node max s' else (err e, s')
          | ok size ↦
              if ltb_ℤ max (pos size)
              then on_disk (fetcher.read_blob repo node.object_oid max) s'
              else read_valid_blob repo node max s'
        ]

  -- step, past the queue: what the waiters of a task are told
  unfoldable pub fetch : RepoConfig → HydrationTask → Exec (Service Disk) ℕ
  fetch repo task s =
      let cache_path = cache_path_for repo task.object_oid in
      let (r, s') = on_disk (p.mkdir_all (filepath_dir cache_path) 0o755) s in
      elim r [
        | err e ↦ (err e, s')
        | ok _ ↦
            let (q, s'') = on_disk (fetcher.blob_to_cache repo task.object_oid cache_path) s' in
            elim q [ err e ↦ (err e, s'') | ok size ↦ (ok size, mark_verified (key_of task) s'') ]
      ]

  -- step: the channels that are notified, and the result that they get; none if the queue is empty
  unfoldable pub step : RepoConfig → Service Disk → Option (List ℕ × Result ℕ) × Service Disk
  step repo s = elim (pop s.queue) [
    | none ↦ (none, s)
    | some (task, rest) ↦
        let (waits, wait') = take s.wait (key_of task) in
        let (r, s') = fetch repo task (record s { queue = rest; wait = wait' }) in
        (some (waits, r), s')
  ]
