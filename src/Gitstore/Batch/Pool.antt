-- ===== src/Gitstore/Batch/Pool.antt =====
-- internal/gitstore/gitstore.go: the pools of processes, and the calls that use them, one at a time.
use artifact_fs_extropic.Base.{
  ℕ, zero, suc, ◌+◌, ◌-◌, Bool, true, false, not, List, [], ◌∷◌, ◌++◌, map, Option, none, some,
  Text, Text_eq, ltb, if◌then◌else◌, find, put, length, ℤ, pos, negsuc, is_negative, Error,
  blob_too_large, Result, ok, err, Exec,
}
use artifact_fs_extropic.Path.{filepath_dir}
use artifact_fs_extropic.Model.{RepoConfig}
use artifact_fs_extropic.Platform.{Platform}
use artifact_fs_extropic.Gitstore.Batch.{
  CatFileCommand, CatFile, alive, Wire, negative_size, fetch_to_file, read_object,
}

-- batchPool: `free` in the order of the slice, from whose end a process is taken
pub record BatchPool : Type 0 where
  pub git_dir : Text
  pub free : List CatFile
  pub max_size : ℕ

abbrev pub pool_key : BatchPool → Text
pool_key q = q.git_dir

-- Store, with the numbers of the processes started and closed so far.
pub record Store (D : Type 0) : Type 0 where
  pub pools : List BatchPool
  pub pool_max_size : ℕ
  pub started : ℕ
  pub closed : ℕ
  pub disk : D

-- New
abbrev pub new_store : {D : Type 0} → D → Store D
new_store d = record { pools = []; pool_max_size = 4; started = 0; closed = 0; disk = d }

-- getPool
abbrev pub pool_or_new : Text → ℕ → Option BatchPool → BatchPool
pool_or_new git_dir max_size none = record { git_dir = git_dir; free = []; max_size = max_size }
pool_or_new git_dir max_size (some q) = q

unfoldable pub get_pool : {D : Type 0} → Text → Store D → BatchPool
get_pool git_dir s = pool_or_new git_dir s.pool_max_size (find pool_key git_dir s.pools)

abbrev pub set_pool : {D : Type 0} → BatchPool → Store D → Store D
set_pool q s = record s { pools = put pool_key q s.pools }

-- batchCatFile.close, and kill
abbrev pub close_process : {D : Type 0} → Store D → Store D
close_process s = record s { closed = suc s.closed }

-- The last element, and those before it.
unfoldable pub split_last : List CatFile → Option (CatFile × List CatFile)
split_last [] = none
split_last (b ∷ bs) = elim (split_last bs) [ none ↦ some (b, []) | some (c, cs) ↦ some (c, b ∷ cs) ]

unfoldable pub first_few : ℕ → List CatFile → List CatFile
first_few zero bs = []
first_few (suc n) [] = []
first_few (suc n) (b ∷ bs) = b ∷ first_few n bs

-- release, of a process of the pool
unfoldable pub release : {D : Type 0} → Text → CatFile → Store D → Store D
unfolding get_pool
release git_dir b s =
    let q = get_pool git_dir s in
    if not (alive b)
    then close_process s
    else if ltb (length q.free) q.max_size
    then set_pool (record q { free = q.free ++ (b ∷ []) }) s
    else close_process s

-- setMaxSize
unfoldable pub set_max_size : ℕ → BatchPool → BatchPool
unfolding first_few
set_max_size n q = record q { max_size = n; free = first_few n q.free }

-- How many processes setMaxSize closes.
abbrev pub extras : ℕ → BatchPool → ℕ
extras n q = length q.free - n

unfoldable pub all_extras : ℕ → List BatchPool → ℕ
all_extras n [] = 0
all_extras n (q ∷ qs) = extras n q + all_extras n qs

-- SetBatchPoolSize
unfoldable pub set_batch_pool_size : {D : Type 0} → ℤ → Store D → Store D
unfolding set_max_size all_extras
set_batch_pool_size (negsuc _) s = s
set_batch_pool_size (pos zero) s = s
set_batch_pool_size (pos (suc k)) s =
    let n = suc k in
    record s {
      pool_max_size = n;
      pools = map (set_max_size n) s.pools;
      closed = s.closed + all_extras n s.pools;
    }

-- Close: closeAll of each pool, which goes
unfoldable pub total_free : List BatchPool → ℕ
total_free [] = 0
total_free (q ∷ qs) = length q.free + total_free qs

unfoldable pub close_store : {D : Type 0} → Store D → Store D
unfolding total_free
close_store s = record s { pools = []; closed = s.closed + total_free s.pools }

abbrev pub fresh : Text → CatFile
fresh git_dir = record { git_dir = git_dir; waited = false; unread = [] }

abbrev pub is_too_large : Error → Bool
is_too_large blob_too_large = true
is_too_large _ = false

module _ (p : Platform) (cat : CatFileCommand p.Disk) where
  open p use {Disk}

  -- newBatchCatFile
  unfoldable pub start_process : Text → Exec (Store Disk) CatFile
  start_process git_dir s =
      let (r, d) = cat.start git_dir s.disk in
      elim r [
        | err e ↦ (err e, record s { disk = d })
        | ok _ ↦ (ok (fresh git_dir), record s { started = suc s.started; disk = d })
      ]

  -- getPool, and acquire
  unfoldable pub acquire : Text → Exec (Store Disk) CatFile
  acquire git_dir s =
      let q = get_pool git_dir s in
      elim (split_last q.free) [
        | none ↦ start_process git_dir (set_pool q s)
        | some (b, bs) ↦
            let s' = set_pool (record q { free = bs }) s in
            if alive b then (ok b, s') else start_process git_dir (close_process s')
      ]

  -- A use of a process that the call holds.
  abbrev pub using :
      {A : Type 0} → Exec (Wire Disk) A → CatFile → Store Disk → (Result A × CatFile) × Store Disk
  using m b s =
      let (r, w) = m (record { proc = b; disk = s.disk }) in
      ((r, w.proc), record s { disk = w.disk })

  -- BlobToCache and ReadBlob: a second process where the first one failed, except for an error that
  -- another process would give too
  unfoldable pub second_try : {A : Type 0} → Text → Exec (Wire Disk) A → Exec (Store Disk) A
  second_try git_dir m s =
      let (r, s₁) = acquire git_dir s in
      elim r [
        | err e ↦ (err e, s₁)
        | ok b ↦
            let ((q, b'), s₂) = using m b s₁ in
            elim q [ err e ↦ (err e, close_process s₂) | ok x ↦ (ok x, release git_dir b' s₂) ]
      ]

  unfoldable pub with_process :
      {A : Type 0} → (Error → Bool) → Text → Exec (Wire Disk) A → Exec (Store Disk) A
  with_process is_final git_dir m s =
      let (r, s₁) = acquire git_dir s in
      elim r [
        | err e ↦ (err e, s₁)
        | ok b ↦
            let ((q, b'), s₂) = using m b s₁ in
            elim q [
              | ok x ↦ (ok x, release git_dir b' s₂)
              | err e ↦
                  if is_final e
                  then (err e, close_process s₂)
                  else second_try git_dir m (close_process s₂)
            ]
      ]

  -- BlobToCache
  unfoldable pub blob_to_cache : RepoConfig → Text → Text → Exec (Store Disk) ℕ
  blob_to_cache repo oid dst s =
      let (r, d) = p.mkdir_all (filepath_dir dst) 0o755 s.disk in
      let s' = record s { disk = d } in
      elim r [
        | err e ↦ (err e, s')
        | ok _ ↦ with_process (λ _. false) repo.git_dir (fetch_to_file p cat oid dst) s'
      ]

  -- ReadBlob, while its context lasts
  unfoldable pub read_blob : RepoConfig → Text → ℤ → Exec (Store Disk) Text
  read_blob repo oid max s =
      if is_negative max
      then (err negative_size, s)
      else with_process is_too_large repo.git_dir (read_object p cat oid max) s
