-- ===== src/Inodes/Table.antt =====
-- The two tables of the inodes agree, so a path has one inode as long as the kernel holds it.
use artifact_fs_extropic.Base.{
  arith, ℕ, ◌≡◌, ◌<◌, sym, ap, ◌∙◌, inl, inr, false, none, some, Text, Text_eq, ℕ_eq, nat_eq,
  nat_eq_iff, text_eq, text_eq_iff, find, put, find-put, Option-cases, Bool-cases,
}
use artifact_fs_extropic.Model.{FileType}
use artifact_fs_extropic.Inodes.{
  InodeRef, PathInode, InodeTable, inode_id, inode_path, new_inode, inode_at,
}

-- A path leads to an inode of that path, an inode's path leads to it, and the numbers from the
-- next one on are free.
pub record IsValid (t : InodeTable) : Type 0 where
  pub leads :
      (q : Text) (x : PathInode)
      → find inode_path q t.path_to_inode ≡ some x
      → (r : InodeRef) × (find inode_id x.id t.inodes ≡ some r) × (r.path ≡ q)
  pub known :
      (i : ℕ) (r : InodeRef)
      → find inode_id i t.inodes ≡ some r
      → (x : PathInode) × (find inode_path r.path t.path_to_inode ≡ some x) × (x.id ≡ i)
  pub fresh : (i : ℕ) (r : InodeRef) → find inode_id i t.inodes ≡ some r → i < t.next_inode_id

module _ (t : InodeTable) (v : IsValid t) where
  -- A path without an inode is in neither table.
  unknown_path :
      (path : Text) → inode_at t path ≡ none → find inode_path path t.path_to_inode ≡ none
  unfolding inode_at
  unknown_path path free = elim (Option-cases (find inode_path path t.path_to_inode)) [
    | inl missing ↦ missing
    | inr (x, found) ↦
        let (r, there, _) = v.leads path x found in absurd (ground (arith, found, there))
  ]

  new_inode-leads :
      (path : Text) (type : FileType) (mode : ℕ) (q : Text) (x : PathInode)
      → let t' = (new_inode t path type mode).1 in
        find inode_path q t'.path_to_inode ≡ some x
        → (r : InodeRef) × (find inode_id x.id t'.inodes ≡ some r) × (r.path ≡ q)
  unfolding new_inode
  new_inode-leads path type mode q x h =
      let ref = (new_inode t path type mode).0 in
      let at =
        find-put inode_path q (record { path = path; id = t.next_inode_id }) t.path_to_inode in
      let put_at = find-put inode_id x.id ref t.inodes in
      elim (Bool-cases (text_eq path q)) [
        | inl same ↦
            let e : x.id ≡ t.next_inode_id = ground arith in
            (
              ref,
              ground (arith, e, put_at, nat_eq_iff t.next_inode_id x.id),
              (text_eq_iff path q).0 same,
            )
        | inr apart ↦
            let (r, there, p) = v.leads q x (ground arith) in
            (
              r,
              ground (arith, there, put_at, v.fresh x.id r there, nat_eq_iff t.next_inode_id x.id),
              p,
            )
      ]

  new_inode-known :
      (path : Text) (type : FileType) (mode : ℕ) (i : ℕ) (r : InodeRef)
      → find inode_path path t.path_to_inode ≡ none
      → let t' = (new_inode t path type mode).1 in
        find inode_id i t'.inodes ≡ some r
        → (x : PathInode) × (find inode_path r.path t'.path_to_inode ≡ some x) × (x.id ≡ i)
  unfolding new_inode
  new_inode-known path type mode i r free h =
      let ref = (new_inode t path type mode).0 in
      let x : PathInode = record { path = path; id = t.next_inode_id } in
      let at = find-put inode_path r.path x t.path_to_inode in
      let put_at = find-put inode_id i ref t.inodes in
      elim (Bool-cases (nat_eq t.next_inode_id i)) [
        | inl same ↦
            let e : ref ≡ r = ground arith in
            let p : path ≡ r.path = ap (λ z. z.path) e in
            (
              x,
              ground (arith, p, at, text_eq_iff path r.path),
              (nat_eq_iff t.next_inode_id i).0 same,
            )
        | inr apart ↦
            let (y, there, n) = v.known i r (ground arith) in
            let other : text_eq path r.path ≡ false = elim (Bool-cases (text_eq path r.path)) [
              | inl hit ↦ absurd (
                  cc (
                    sym (
                      ap (λ z. find inode_path z t.path_to_inode) ((text_eq_iff path r.path).0 hit)
                      ∙ there)
                    ∙ free))
              | inr miss ↦ miss
            ] in
            (y, ground (arith, there, at, other), n)
      ]

  pub new_inode-IsValid :
      (path : Text) (type : FileType) (mode : ℕ)
      → inode_at t path ≡ none
      → IsValid (new_inode t path type mode).1
  unfolding new_inode
  new_inode-IsValid path type mode free = record {
    leads = λ q x h. new_inode-leads path type mode q x h;
    known = λ i r h. new_inode-known path type mode i r (unknown_path path free) h;
    fresh = λ i r h. ground (
      arith,
      find-put inode_id i ((new_inode t path type mode).0) t.inodes,
      v.fresh i r,
      nat_eq_iff t.next_inode_id i,
    );
  }

  -- A change of the count alone.
  pub counted-IsValid :
      (r r' : InodeRef)
      → find inode_id r.id t.inodes ≡ some r
      → r'.id ≡ r.id
      → r'.path ≡ r.path
      → IsValid (record t { inodes = put inode_id r' t.inodes })
  counted-IsValid r r' there i p = record {
    leads = λ q x h.
        let (y, at, e) = v.leads q x h in
        let put_at = find-put inode_id x.id r' t.inodes in
        elim (Bool-cases (nat_eq r'.id x.id)) [
          | inl same ↦
              let n : x.id ≡ r.id = sym ((nat_eq_iff r'.id x.id).0 same) ∙ i in
              let hit : find inode_id x.id t.inodes ≡ some r =
                ap (λ z. find inode_id z t.inodes) n ∙ there in
              let yr : y ≡ r = ground (arith, at, hit) in
              (r', ground (arith, same, put_at), p ∙ ap (λ z. z.path) (sym yr) ∙ e)
          | inr apart ↦ (y, ground (arith, apart, put_at, at), e)
        ];
    known = λ j z h.
        let put_at = find-put inode_id j r' t.inodes in
        elim (Bool-cases (nat_eq r'.id j)) [
          | inl same ↦
              let zr : r' ≡ z = ground (arith, same, put_at) in
              let n : r.id ≡ j = sym i ∙ (nat_eq_iff r'.id j).0 same in
              let (x, at, e) = v.known r.id r there in
              (
                x,
                ap (λ y. find inode_path y t.path_to_inode) (ap (λ y. y.path) (sym zr) ∙ p) ∙ at,
                e ∙ n,
              )
          | inr apart ↦ v.known j z (ground (arith, apart, put_at))
        ];
    fresh = λ j z h. ground (
      arith,
      find-put inode_id j r' t.inodes,
      v.fresh j z,
      v.fresh r.id r there,
      i,
      nat_eq_iff r'.id j,
    );
  }
