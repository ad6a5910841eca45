-- ===== src/Gitstore/Batch/Leaks.antt =====
-- No process is lost, and no pool keeps more processes than it may.
use artifact_fs_extropic.Base.{
  arith, ℕ, zero, suc, ◌+◌, ◌-◌, ◌≤◌, ◌≡◌, refl, inl, inr, Bool, false, List, [], ◌∷◌, map, Text,
  Text_eq, length, ℤ, pos, negsuc, is_negative, All, Option-cases, Result-cases, Result, ok, err,
  Error, Exec,
}
use artifact_fs_extropic.Path.{filepath_dir}
use artifact_fs_extropic.Model.{RepoConfig}
use artifact_fs_extropic.Platform.{Platform}
use artifact_fs_extropic.Gitstore.Batch.{
  CatFileCommand, CatFile, alive, Wire, fetch_to_file, read_object,
}
use artifact_fs_extropic.Gitstore.Batch.Balance.{
  IsCapped, IsBalanced, get_pool-IsCapped, set_pool-count, set_pool-IsCapped, split_last-length,
  either, release-IsBalanced,
}
use artifact_fs_extropic.Gitstore.Batch.Pool.{
  BatchPool, Store, get_pool, set_pool, close_process, split_last, first_few, set_max_size,
  all_extras, set_batch_pool_size, total_free, close_store, start_process, acquire, second_try,
  with_process, is_too_large, blob_to_cache, read_blob,
}

-- How many processes a call holds after it asked for one.
abbrev held : {A : Type 0} → ℕ → Result A → ℕ
held k (ok _) = suc k
held k (err _) = k

module _ (p : Platform) (cat : CatFileCommand p.Disk) where
  open p use {Disk}

  start_process-IsBalanced :
      (k : ℕ) (git_dir : Text) (s : Store Disk)
      → IsBalanced k s
      → let (r, s') = start_process p cat git_dir s in IsBalanced (held k r) s'
  unfolding start_process
  start_process-IsBalanced k git_dir s v = elim (Result-cases (cat.start git_dir s.disk).0) [
    | inl (x, e) ↦
        rw (e, start_process) (record { capped = v.capped; count = omega (arith, v.count) })
    | inr (f, e) ↦
        rw (e, start_process) (record { capped = v.capped; count = omega (arith, v.count) })
  ]

  acquire-IsBalanced :
      (k : ℕ) (git_dir : Text) (s : Store Disk)
      → IsBalanced k s
      → let (r, s') = acquire p cat git_dir s in IsBalanced (held k r) s'
  unfolding acquire
  acquire-IsBalanced k git_dir s v =
      let q = get_pool git_dir s in
      let fits = get_pool-IsCapped git_dir s v.capped in
      elim (Option-cases (split_last q.free)) [
        | inl empty ↦
            rw (empty, acquire)
              (start_process-IsBalanced k git_dir (set_pool q s) (record {
                capped = set_pool-IsCapped git_dir q.free s v.capped fits.0;
                count = omega (arith, v.count, set_pool-count git_dir q.free s);
              }))
        | inr ((b, bs), found) ↦
            let fewer = split_last-length q.free bs b found in
            let s' : Store Disk = set_pool (record q { free = bs }) s in
            let holding : IsBalanced (suc k) s' = record {
              capped = set_pool-IsCapped git_dir bs s v.capped (omega (arith, fewer, fits.0));
              count = omega (arith, v.count, set_pool-count git_dir bs s, fewer);
            } in
            let replaced =
              start_process-IsBalanced k git_dir (close_process s')
                (record { capped = holding.capped; count = omega (arith, holding.count) }) in
            rw (found, acquire)
              (either (λ (x : Result CatFile × Store Disk). IsBalanced (held k x.0) x.1) (alive b)
                (ok b, s') _ (λ _. holding) (λ _. replaced))
      ]

  second_try-IsBalanced :
      {A : Type 0} (k : ℕ) (git_dir : Text) (m : Exec (Wire Disk) A) (s : Store Disk)
      → IsBalanced k s
      → IsBalanced k (second_try p cat git_dir m s).1
  unfolding second_try
  second_try-IsBalanced k git_dir m s v =
      let s₁ = (acquire p cat git_dir s).1 in
      let got = acquire-IsBalanced k git_dir s v in
      elim (Result-cases (acquire p cat git_dir s).0) [
        | inr (f, e) ↦ rw (e, second_try) (rw e at got)
        | inl (b, e) ↦
            let w = (m (record { proc = b; disk = s₁.disk })).1 in
            let s₂ : Store Disk = record s₁ { disk = w.disk } in
            let got' : IsBalanced (suc k) s₁ = rw e at got in
            let held_one : IsBalanced (suc k) s₂ = record {
              capped = got'.capped;
              count = omega (arith, got'.count);
            } in
            elim (Result-cases (m (record { proc = b; disk = s₁.disk })).0) [
              | inl (x, good) ↦
                  rw (e, second_try, good) (release-IsBalanced k git_dir w.proc s₂ held_one)
              | inr (f, bad) ↦
                  rw (e, second_try, bad)
                    (record { capped = held_one.capped; count = omega (arith, held_one.count) })
            ]
      ]

  with_process-IsBalanced :
      {A : Type 0} (k : ℕ) (is_final : Error → Bool) (git_dir : Text) (m : Exec (Wire Disk) A)
      (s : Store Disk)
      → IsBalanced k s
      → IsBalanced k (with_process p cat is_final git_dir m s).1
  unfolding with_process
  with_process-IsBalanced {A} k is_final git_dir m s v =
      let s₁ = (acquire p cat git_dir s).1 in
      let got = acquire-IsBalanced k git_dir s v in
      elim (Result-cases (acquire p cat git_dir s).0) [
        | inr (f, e) ↦ rw (e, with_process) (rw e at got)
        | inl (b, e) ↦
            let w = (m (record { proc = b; disk = s₁.disk })).1 in
            let s₂ : Store Disk = record s₁ { disk = w.disk } in
            let got' : IsBalanced (suc k) s₁ = rw e at got in
            let held_one : IsBalanced (suc k) s₂ = record {
              capped = got'.capped;
              count = omega (arith, got'.count);
            } in
            let shut : IsBalanced k (close_process s₂) = record {
              capped = held_one.capped;
              count = omega (arith, held_one.count);
            } in
            elim (Result-cases (m (record { proc = b; disk = s₁.disk })).0) [
              | inl (x, good) ↦
                  rw (e, with_process, good) (release-IsBalanced k git_dir w.proc s₂ held_one)
              | inr (f, bad) ↦
                  rw (e, with_process, bad)
                    (either (λ (x : Result A × Store Disk). IsBalanced k x.1) (is_final f) _ _
                      (λ _. shut) (λ _. second_try-IsBalanced k git_dir m (close_process s₂) shut))
            ]
      ]

  pub blob_to_cache-IsBalanced :
      (k : ℕ) (repo : RepoConfig) (oid dst : Text) (s : Store Disk)
      → IsBalanced k s
      → IsBalanced k (blob_to_cache p cat repo oid dst s).1
  unfolding blob_to_cache
  blob_to_cache-IsBalanced k repo oid dst s v =
      let s' : Store Disk = record s { disk = (p.mkdir_all (filepath_dir dst) 0o755 s.disk).1 } in
      let v' : IsBalanced k s' = record { capped = v.capped; count = v.count } in
      elim (Result-cases (p.mkdir_all (filepath_dir dst) 0o755 s.disk).0) [
        | inr (f, e) ↦ rw (e, blob_to_cache) v'
        | inl (x, e) ↦
            rw (e, blob_to_cache)
              (with_process-IsBalanced k (λ _. false) repo.git_dir (fetch_to_file p cat oid dst) s'
                v')
      ]

  pub read_blob-IsBalanced :
      (k : ℕ) (repo : RepoConfig) (oid : Text) (max : ℤ) (s : Store Disk)
      → IsBalanced k s
      → IsBalanced k (read_blob p cat repo oid max s).1
  unfolding read_blob
  read_blob-IsBalanced k repo oid max s v =
      either (λ (x : Result Text × Store Disk). IsBalanced k x.1) (is_negative max) _ _ (λ _. v)
        (λ _. with_process-IsBalanced k is_too_large repo.git_dir (read_object p cat oid max) s v)

first_few-length :
    (n : ℕ) (bs : List CatFile)
    → (length (first_few n bs) + (length bs - n) ≡ length bs) × (length (first_few n bs) ≤ n)
unfolding first_few
first_few-length zero bs = (omega arith, omega arith)
first_few-length (suc n) [] = (omega arith, omega arith)
first_few-length (suc n) (b ∷ bs) =
    let (e, h) = first_few-length n bs in (omega (arith, e), omega (arith, h))

total_free-set :
    (n : ℕ) (qs : List BatchPool)
    → total_free (map (set_max_size n) qs) + all_extras n qs ≡ total_free qs
unfolding total_free set_max_size all_extras
total_free-set n [] = refl
total_free-set n (q ∷ qs) = omega (arith, (first_few-length n q.free).0, total_free-set n qs)

set-IsCapped : (n : ℕ) (qs : List BatchPool) → All (IsCapped n) (map (set_max_size n) qs)
unfolding set_max_size
set-IsCapped n [] = tt
set-IsCapped n (q ∷ qs) = (((first_few-length n q.free).1, refl), set-IsCapped n qs)

pub set_batch_pool_size-IsBalanced :
    {D : Type 0} (k : ℕ) (given : ℤ) (s : Store D)
    → IsBalanced k s
    → IsBalanced k (set_batch_pool_size given s)
unfolding set_batch_pool_size
set_batch_pool_size-IsBalanced k (negsuc _) s v = v
set_batch_pool_size-IsBalanced k (pos zero) s v = v
set_batch_pool_size-IsBalanced k (pos (suc n)) s v = record {
  capped = set-IsCapped (suc n) s.pools;
  count = omega (arith, v.count, total_free-set (suc n) s.pools);
}

pub close_store-IsBalanced :
    {D : Type 0} (k : ℕ) (s : Store D) → IsBalanced k s → IsBalanced k (close_store s)
unfolding close_store total_free
close_store-IsBalanced k s v = record { capped = tt; count = omega (arith, v.count) }

-- The calls of the store that use processes.
pub data Use : Type 0 where
  fetches : RepoConfig → Text → Text → Use
  reads : RepoConfig → Text → ℤ → Use
  resizes : ℤ → Use
  closes : Use

module _ (p : Platform) (cat : CatFileCommand p.Disk) where
  open p use {Disk}

  abbrev pub after_use : Use → Store Disk → Store Disk
  after_use (fetches repo oid dst) s = (blob_to_cache p cat repo oid dst s).1
  after_use (reads repo oid max) s = (read_blob p cat repo oid max s).1
  after_use (resizes n) s = set_batch_pool_size n s
  after_use closes s = close_store s

  pub after_uses : List Use → Store Disk → Store Disk
  after_uses [] s = s
  after_uses (u ∷ us) s = after_uses us (after_use u s)

  after_use-IsBalanced : (u : Use) (s : Store Disk) → IsBalanced 0 s → IsBalanced 0 (after_use u s)
  after_use-IsBalanced (fetches repo oid dst) s v =
      blob_to_cache-IsBalanced p cat 0 repo oid dst s v
  after_use-IsBalanced (reads repo oid max) s v = read_blob-IsBalanced p cat 0 repo oid max s v
  after_use-IsBalanced (resizes n) s v = set_batch_pool_size-IsBalanced 0 n s v
  after_use-IsBalanced closes s v = close_store-IsBalanced 0 s v

  -- From a balanced store, after any sequence of BlobToCache, ReadBlob, SetBatchPoolSize and
  -- Close, whether they end well or not, the processes started are those that are free in a pool
  -- and those that were closed, and each pool has the limit of the store and no more free
  -- processes than that.
  pub after_uses-IsBalanced :
      (us : List Use) (s : Store Disk) → IsBalanced 0 s → IsBalanced 0 (after_uses us s)
  unfolding after_uses
  after_uses-IsBalanced [] s v = v
  after_uses-IsBalanced (u ∷ us) s v =
      after_uses-IsBalanced us (after_use u s) (after_use-IsBalanced u s v)
