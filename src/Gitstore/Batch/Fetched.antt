-- ===== src/Gitstore/Batch/Fetched.antt =====
-- What a call gives when it ends well comes from one use of a process.
use artifact_fs_extropic.Base.{
  arith, ◌≡◌, inl, inr, Bool, false, Text, length, ℤ, pos, is_negative, ltb_ℤ, Bool-cases,
  Result-cases, ok, Error, Exec,
}
use artifact_fs_extropic.Model.{RepoConfig}
use artifact_fs_extropic.Platform.{Platform}
use artifact_fs_extropic.Gitstore.Batch.{CatFileCommand, Wire, read_object}
use artifact_fs_extropic.Gitstore.Batch.Pool.{
  Store, acquire, close_process, second_try, with_process, is_too_large, read_blob,
}
use artifact_fs_extropic.Gitstore.Batch.Protocol.{read_object-le}

module _ (p : Platform) (cat : CatFileCommand p.Disk) where
  open p use {Disk}

  second_try-from :
      {A : Type 0} (Q : A → Type 0) (git_dir : Text) (m : Exec (Wire Disk) A) (s : Store Disk)
      (x : A)
      → ((w w' : Wire Disk) → m w ≡ (ok x, w') → Q x)
      → (second_try p cat git_dir m s).0 ≡ ok x
      → Q x
  unfolding second_try
  second_try-from Q git_dir m s x from h =
      let s₁ = (acquire p cat git_dir s).1 in
      elim (Result-cases (acquire p cat git_dir s).0) [
        | inr (f, e) ↦ absurd (ground (arith, e))
        | inl (b, e) ↦
            let w : Wire Disk = record { proc = b; disk = s₁.disk } in
            elim (Result-cases (m w).0) [
              | inl (y, good) ↦ from w (m w).1 (ground (arith, e, good))
              | inr (f, bad) ↦ absurd (ground (arith, e, bad))
            ]
      ]

  with_process-from :
      {A : Type 0} (Q : A → Type 0) (is_final : Error → Bool) (git_dir : Text)
      (m : Exec (Wire Disk) A) (s : Store Disk) (x : A)
      → ((w w' : Wire Disk) → m w ≡ (ok x, w') → Q x)
      → (with_process p cat is_final git_dir m s).0 ≡ ok x
      → Q x
  unfolding with_process
  with_process-from Q is_final git_dir m s x from h =
      let s₁ = (acquire p cat git_dir s).1 in
      elim (Result-cases (acquire p cat git_dir s).0) [
        | inr (f, e) ↦ absurd (ground (arith, e))
        | inl (b, e) ↦
            let w : Wire Disk = record { proc = b; disk = s₁.disk } in
            let s₂ : Store Disk = record s₁ { disk = (m w).1.disk } in
            elim (Result-cases (m w).0) [
              | inl (y, good) ↦ from w (m w).1 (ground (arith, e, good))
              | inr (f, bad) ↦ elim (Bool-cases (is_final f)) [
                | inl final ↦ absurd (ground (arith, e, bad, final))
                | inr again ↦
                    second_try-from Q git_dir m (close_process s₂) x from
                      (ground (arith, e, bad, again))
              ]
            ]
      ]

  -- ReadBlob of the git store never gives more bytes than the limit, at the first try or the
  -- second.
  pub read_blob-fits :
      (repo : RepoConfig) (oid : Text) (max : ℤ) (s : Store Disk) (data' : Text)
      → (read_blob p cat repo oid max s).0 ≡ ok data'
      → ltb_ℤ max (pos (length data')) ≡ false
  unfolding read_blob
  read_blob-fits repo oid max s data' h = elim (Bool-cases (is_negative max)) [
    | inl negative ↦ absurd (ground (arith, negative))
    | inr fine ↦
        with_process-from (λ (d : Text). ltb_ℤ max (pos (length d)) ≡ false) is_too_large
          repo.git_dir (read_object p cat oid max) s data'
          (λ w w' q. read_object-le p cat oid max w w' data' q) (ground (arith, fine))
  ]
