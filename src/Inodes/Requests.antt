-- ===== src/Inodes/Requests.antt =====
-- allocInode and ForgetInode under any sequence of requests of the kernel.
use artifact_fs_extropic.Base.{
  arith, ℕ, ◌≡◌, refl, ap, ◌∙◌, inl, inr, false, not, ◌&&◌, List, [], ◌∷◌, some, Text, Text_eq,
  ℕ_eq, nat_eq, nat_eq_iff, text_eq, text_eq_iff, find, put, delete, find-put, find-delete,
  find-key, Option-cases, Bool-cases, subst,
}
use artifact_fs_extropic.Path.{dot}
use artifact_fs_extropic.Model.{FileType}
use artifact_fs_extropic.Inodes.{
  InodeRef, PathInode, InodeTable, inode_id, inode_path, new_inode, inode_at, alloc_inode,
  forget_inode, incremented, lowered, is_positive, new_table, root_inode,
}
use artifact_fs_extropic.Inodes.Table.{IsValid, new_inode-IsValid, counted-IsValid}

module _ (t : InodeTable) (v : IsValid t) where
  -- The inode that a path has is in the table under its number, and has that path.
  inode_at_sound :
      (path : Text) (ref : InodeRef)
      → inode_at t path ≡ some ref
      → (find inode_id ref.id t.inodes ≡ some ref) × (ref.path ≡ path)
  unfolding inode_at
  inode_at_sound path ref h = elim (Option-cases (find inode_path path t.path_to_inode)) [
    | inl missing ↦ absurd (ground (arith, missing))
    | inr (x, found) ↦
        let (r, there, p) = v.leads path x found in
        let e : r ≡ ref = ground (arith, found, there) in
        let n : r.id ≡ x.id = find-key inode_id x.id t.inodes r there in
        let at : find inode_id r.id t.inodes ≡ some r =
          ap (λ z. find inode_id z t.inodes) n ∙ there in
        subst (λ z. (find inode_id z.id t.inodes ≡ some z) × (z.path ≡ path)) e (at, p)
  ]

  alloc_inode-IsValid :
      (path : Text) (type : FileType) (mode : ℕ) → IsValid (alloc_inode t path type mode).1
  unfolding alloc_inode
  alloc_inode-IsValid path type mode = elim (Option-cases (inode_at t path)) [
    | inl free ↦ rw (free, alloc_inode) (new_inode-IsValid t v path type mode free)
    | inr (ref, held) ↦
        rw (held, alloc_inode)
          (counted-IsValid t v ref (record ref { refcnt = incremented ref.refcnt })
            (inode_at_sound path ref held).0 refl refl)
  ]

  -- On a valid table, allocating an inode leaves every inode that the kernel holds in place, with
  -- its path.
  pub alloc_inode-keeps :
      (path : Text) (type : FileType) (mode : ℕ) (i : ℕ) (r : InodeRef)
      → find inode_id i t.inodes ≡ some r
      → (r' : InodeRef) × (find inode_id i (alloc_inode t path type mode).1.inodes ≡ some r')
        × (r'.path ≡ r.path)
  unfolding alloc_inode new_inode
  alloc_inode-keeps path type mode i r h = elim (Option-cases (inode_at t path)) [
    | inl free ↦
        let at = find-put inode_id i ((new_inode t path type mode).0) t.inodes in
        rw (free, alloc_inode)
          (r, ground (arith, h, at, v.fresh i r h, nat_eq_iff t.next_inode_id i), refl)
    | inr (ref, held) ↦
        let ref' : InodeRef = record ref { refcnt = incremented ref.refcnt } in
        let at = find-put inode_id i ref' t.inodes in
        let (there, _) = inode_at_sound path ref held in
        rw (held, alloc_inode)
          (elim (Bool-cases (nat_eq ref.id i)) [
            | inl same ↦
                let e : ref ≡ r = ground (
                  arith,
                  there,
                  h,
                  ap (λ z. find inode_id z t.inodes) ((nat_eq_iff ref.id i).0 same),
                ) in
                (ref', ground (arith, same, at), ap (λ z. z.path) e)
            | inr apart ↦ (r, ground (arith, apart, at, h), refl)
          ])
  ]

  dropped-IsValid :
      (id : ℕ) (ref : InodeRef)
      → find inode_id id t.inodes ≡ some ref
      → IsValid (record t {
        inodes = delete inode_id id t.inodes;
        path_to_inode = delete inode_path ref.path t.path_to_inode;
      })
  dropped-IsValid id ref there = record {
    leads = λ q x h.
        let gone = find-delete inode_path q ref.path t.path_to_inode in
        let apart : text_eq ref.path q ≡ false = ground (arith, gone) in
        let found : find inode_path q t.path_to_inode ≡ some x = ground (arith, gone) in
        let (r, at, e) = v.leads q x found in
        let other : nat_eq id x.id ≡ false = elim (Bool-cases (nat_eq id x.id)) [
          | inr miss ↦ miss
          | inl hit ↦
              let both : r ≡ ref = ground (
                arith,
                at,
                there,
                ap (λ z. find inode_id z t.inodes) ((nat_eq_iff id x.id).0 hit),
              ) in
              absurd (ground (arith, apart, text_eq_iff ref.path q, ap (λ z. z.path) both, e))
        ] in
        (r, ground (arith, at, other, find-delete inode_id x.id id t.inodes), e);
    known = λ j r h.
        let gone = find-delete inode_id j id t.inodes in
        let apart : nat_eq id j ≡ false = ground (arith, gone) in
        let found : find inode_id j t.inodes ≡ some r = ground (arith, gone) in
        let (x, at, e) = v.known j r found in
        let (y, at', e') = v.known id ref there in
        let other : text_eq ref.path r.path ≡ false = elim (Bool-cases (text_eq ref.path r.path)) [
          | inr miss ↦ miss
          | inl hit ↦
              let both : x ≡ y = ground (
                arith,
                at,
                at',
                ap (λ z. find inode_path z t.path_to_inode) ((text_eq_iff ref.path r.path).0 hit),
              ) in
              absurd (ground (arith, apart, nat_eq_iff id j, ap (λ z. z.id) both, e, e'))
        ] in
        (x, ground (arith, at, other, find-delete inode_path r.path ref.path t.path_to_inode), e);
    fresh = λ j r h. v.fresh j r (ground (arith, find-delete inode_id j id t.inodes));
  }

  forget_inode-IsValid : (id n : ℕ) → IsValid (forget_inode t id n)
  unfolding forget_inode
  forget_inode-IsValid id n = elim (Option-cases (find inode_id id t.inodes)) [
    | inl missing ↦ rw (missing, forget_inode) v
    | inr (ref, there) ↦
        let ref' : InodeRef = record ref { refcnt = lowered ref.refcnt n } in
        let k : ref.id ≡ id = find-key inode_id id t.inodes ref there in
        let at : find inode_id ref.id t.inodes ≡ some ref =
          ap (λ z. find inode_id z t.inodes) k ∙ there in
        let counted = counted-IsValid t v ref ref' at refl refl in
        let dropped = dropped-IsValid id ref there in
        rw (there, forget_inode)
          (elim (Bool-cases (not (is_positive ref'.refcnt) && not ref.is_root)) [
            | inl last ↦ rw last dropped
            | inr held ↦ rw held counted
          ])
  ]

-- What the kernel asks of the table: the calls that look a path up or make it, and forget.
pub data Request : Type 0 where
  looks_up : Text → FileType → ℕ → Request
  forgets : ℕ → ℕ → Request

unfoldable pub serve : List Request → InodeTable → InodeTable
serve [] t = t
serve (looks_up path type mode ∷ rs) t = serve rs (alloc_inode t path type mode).1
serve (forgets id n ∷ rs) t = serve rs (forget_inode t id n)

serve_lem : (rs : List Request) (t : InodeTable) → IsValid t → IsValid (serve rs t)
unfolding serve
serve_lem [] t v = v
serve_lem (looks_up path type mode ∷ rs) t v =
    serve_lem rs (alloc_inode t path type mode).1 (alloc_inode-IsValid t v path type mode)
serve_lem (forgets id n ∷ rs) t v =
    serve_lem rs (forget_inode t id n) (forget_inode-IsValid t v id n)

pub new_table-IsValid : IsValid new_table
unfolding find
new_table-IsValid = record {
  leads =
      λ q x h. (root_inode, ground (arith, text_eq_iff dot q), ground (arith, text_eq_iff dot q));
  known =
      λ i r h. (record { path = dot; id = 1 }, ground (arith, text_eq_iff dot dot), ground arith);
  fresh = λ i r h. ground (arith, nat_eq_iff 1 i);
}

-- After any sequence of lookups and forgets on a new table, each path leads to an inode of that
-- path, the path of each inode leads to it, and the numbers from the next one on are free.
pub serve-IsValid : (rs : List Request) → IsValid (serve rs new_table)
serve-IsValid rs = serve_lem rs new_table new_table-IsValid

counted_at :
    (t : InodeTable) (path : Text) (ref ref' : InodeRef)
    → inode_at t path ≡ some ref
    → ref'.id ≡ ref.id
    → inode_at (record t { inodes = put inode_id ref' t.inodes }) path ≡ some ref'
unfolding inode_at
counted_at t path ref ref' h i = elim (Option-cases (find inode_path path t.path_to_inode)) [
  | inl missing ↦ absurd (ground (arith, missing))
  | inr (x, found) ↦
      let there : find inode_id x.id t.inodes ≡ some ref = ground (arith, found) in
      let n : ref.id ≡ x.id = find-key inode_id x.id t.inodes ref there in
      ground (arith, found, find-put inode_id x.id ref' t.inodes, nat_eq_iff ref'.id x.id, i, n)
]

-- On a valid table, allocInode returns an inode of the path, and the path leads to that inode
-- afterwards.
pub alloc_inode-at :
    (t : InodeTable) (path : Text) (type : FileType) (mode : ℕ)
    → IsValid t
    → (inode_at (alloc_inode t path type mode).1 path ≡ some (alloc_inode t path type mode).0)
      × ((alloc_inode t path type mode).0.path ≡ path)
unfolding alloc_inode new_inode inode_at
alloc_inode-at t path type mode v = elim (Option-cases (inode_at t path)) [
  | inl free ↦
      let ref = (new_inode t path type mode).0 in
      let x : PathInode = record { path = path; id = t.next_inode_id } in
      let at = find-put inode_path path x t.path_to_inode in
      let put_at = find-put inode_id t.next_inode_id ref t.inodes in
      rw (free, alloc_inode)
        (
          ground (
            arith,
            at,
            put_at,
            text_eq_iff path path,
            nat_eq_iff t.next_inode_id t.next_inode_id,
          ),
          refl,
        )
  | inr (ref, held) ↦
      let ref' : InodeRef = record ref { refcnt = incremented ref.refcnt } in
      let (there, p) = inode_at_sound t v path ref held in
      rw (held, alloc_inode) (counted_at t path ref ref' held refl, p)
]
