-- ===== src/Hydrator/Cache.antt =====
-- Which cached blobs are served, and how much of one is read.
use artifact_fs_extropic.Base.{
  arith, ℕ, ◌≡◌, inl, inr, Bool, true, false, some, Text, Text_eq, text_eq_iff, find-put, length,
  Bool-cases, Option-cases, Result-cases, ℤ, pos, ltb_ℤ, ℤ_beq_iff, ℤ_eq, Result, ok,
}
use artifact_fs_extropic.Model.{BaseNode, RepoConfig, SizeState}
use artifact_fs_extropic.Platform.{Platform}
use artifact_fs_extropic.Hydrator.{
  Fetcher, Service, same_key, is_verified, mark_verified, task_key, cache_path_for,
  verify_blob_once, validate_contents, validate_cached_blob, wrong_size, read_cached_blob,
  read_valid_blob, read_blob,
}

marked : {D : Type 0} (key : Text) (s : Service D) → is_verified key (mark_verified key s) ≡ true
marked key s = ground (arith, find-put same_key key key s.verified, text_eq_iff key key)

module _ (p : Platform) (fetcher : Fetcher p.Disk) where
  open p use {Disk}

  verify_blob_once-verified :
      (key : Text) (verify : Disk → Result Bool × Disk) (s : Service Disk)
      → let (r, s') = verify_blob_once p fetcher key verify s in
        r ≡ ok true → is_verified key s' ≡ true
  unfolding verify_blob_once
  verify_blob_once-verified key verify s h =
      let s₁ : Service Disk = record s { disk = (verify s.disk).1 } in
      elim (Bool-cases (is_verified key s)) [
        | inl known ↦ rw (known, verify_blob_once) known
        | inr new ↦ ground (arith, new, marked key s₁)
      ]

  validate_contents-verified :
      (repo : RepoConfig) (cache_path : Text) (node : BaseNode) (size : ℕ) (s s' : Service Disk)
      (n : ℕ)
      → validate_contents p fetcher repo cache_path node size s ≡ (ok (some n), s')
      → (is_verified (task_key repo.id node.object_oid) s' ≡ true) × (n ≡ size)
  unfolding validate_contents
  validate_contents-verified repo cache_path node size s s' n h =
      let key = task_key repo.id node.object_oid in
      let verify = fetcher.verify_blob repo node.object_oid cache_path in
      ground (arith, verify_blob_once-verified key verify s)

  -- If the check of a cached blob ends with a size, the blob is marked verified then, the file had
  -- that size at the check, and it is the size of the node where that is known.
  pub validate_cached_blob-verified :
      (repo : RepoConfig) (cache_path : Text) (node : BaseNode) (s s' : Service Disk) (n : ℕ)
      → validate_cached_blob p fetcher repo cache_path node s ≡ (ok (some n), s')
      → (is_verified (task_key repo.id node.object_oid) s' ≡ true)
        × (node.size_state ≡ SizeState.known → node.size_bytes ≡ pos n)
        × ((p.stat_size cache_path s.disk).0 ≡ ok n)
  unfolding validate_cached_blob
  validate_cached_blob-verified repo cache_path node s s' n h =
      elim (Result-cases (p.stat_size cache_path s.disk).0) [
        | inr (e, failed) ↦ absurd (ground (arith, failed))
        | inl (size, found) ↦
            let s₁ : Service Disk = record s { disk = (p.stat_size cache_path s.disk).1 } in
            let right : wrong_size node size ≡ false = elim (Bool-cases (wrong_size node size)) [
              | inl wrong ↦ absurd (ground (arith, found, wrong))
              | inr fine ↦ fine
            ] in
            let step : validate_contents p fetcher repo cache_path node size s₁
                ≡ (ok (some n), s') =
              ground (arith, found, right) in
            let (v, e) = validate_contents-verified repo cache_path node size s₁ s' n step in
            (
              v,
              λ known. ground (arith, right, known, ℤ_beq_iff node.size_bytes (pos size), e),
              ground (arith, found, e),
            )
      ]

  read_cached_blob-le :
      (cache_path : Text) (size : ℕ) (max : ℤ) (d d' : Disk) (data' : Text)
      → read_cached_blob p fetcher cache_path size max d ≡ (ok data', d')
      → ltb_ℤ max (pos (length data')) ≡ false
  unfolding read_cached_blob
  read_cached_blob-le cache_path size max d d' data' h = ground arith

  -- A fetcher gives no more bytes than it was asked for.
  abbrev pub Keeps : Type 0
  Keeps =
      (repo : RepoConfig) (oid : Text) (max : ℤ) (d d' : Disk) (data' : Text)
      → fetcher.read_blob repo oid max d ≡ (ok data', d')
      → ltb_ℤ max (pos (length data')) ≡ false

  read_valid_blob-le :
      (repo : RepoConfig) (node : BaseNode) (max : ℤ) (s s' : Service Disk) (data' : Text)
      → Keeps
      → read_valid_blob p fetcher repo node max s ≡ (ok data', s')
      → ltb_ℤ max (pos (length data')) ≡ false
  unfolding read_valid_blob
  read_valid_blob-le repo node max s s' data' k h =
      let cache_path = cache_path_for repo node.object_oid in
      let s₁ = (validate_cached_blob p fetcher repo cache_path node s).1 in
      elim (Result-cases (validate_cached_blob p fetcher repo cache_path node s).0) [
        | inr (e, failed) ↦ absurd (ground (arith, failed))
        | inl (o, found) ↦ elim (Option-cases o) [
          | inl miss ↦
              k repo node.object_oid max s₁.disk
                (fetcher.read_blob repo node.object_oid max s₁.disk).1 data'
                (ground (arith, found, miss))
          | inr (size, hit) ↦
              read_cached_blob-le cache_path size max s₁.disk
                (read_cached_blob p fetcher cache_path size max s₁.disk).1 data'
                (ground (arith, found, hit))
        ]
      ]

  -- Where the fetcher gives no more bytes than it is asked for, ReadBlob of the hydrator never
  -- gives more than the limit.
  pub read_blob-le :
      (repo : RepoConfig) (node : BaseNode) (max : ℤ) (s s' : Service Disk) (data' : Text)
      → Keeps
      → read_blob p fetcher repo node max s ≡ (ok data', s')
      → ltb_ℤ max (pos (length data')) ≡ false
  unfolding read_blob
  read_blob-le repo node max s s' data' k h =
      let cache_path = cache_path_for repo node.object_oid in
      let s₁ : Service Disk = record s { disk = (p.stat_size cache_path s.disk).1 } in
      let direct =
        k repo node.object_oid max s₁.disk (fetcher.read_blob repo node.object_oid max s₁.disk).1
          data' in
      let checked = read_valid_blob-le repo node max s₁ s' data' k in
      ground (arith, direct, checked)
