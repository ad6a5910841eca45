-- ===== src/Gitstore/Batch/Protocol.antt =====
-- One answer of `git cat-file --batch` is read as it was printed, and nothing more.
use artifact_fs_extropic.Base.{
  arith, ℕ, zero, suc, ◌≤◌, ◌≡◌, ◌≢◌, refl, sym, ap, ◌∙◌, inl, inr, false, [], ◌∷◌, ◌++◌, some,
  Text, text, Text_eq, text_eq, text_eq_iff, ltb, length, length-append, nat_eq, ℤ, pos, negsuc,
  ltb_ℤ, All-append, All-mono, Bool-cases, Result-cases, Result, ok, err, Error,
}
use artifact_fs_extropic.Strings.{is_space, fields, parse_int}
use artifact_fs_extropic.Strings.Fields.{IsWord, IsFree, fields-cons, fields-last, cut-append}
use artifact_fs_extropic.Platform.{Platform}
use artifact_fs_extropic.Gitstore.Batch.{
  CatFileCommand, CatFile, Wire, max_read_blob_bytes, first_bytes, later_bytes, parse_header,
  read_line, read_object_size, read_full, ask, copy_contents, finish_file, store_contents,
  fetch_to_file, read_contents, read_object,
}

-- What git documents for an object that it has: a header of three words, and the contents.
pub record Answer (contents : Text) : Type 0 where
  pub oid : Text
  pub type : Text
  pub size : Text
  pub oid_IsWord : IsWord oid
  pub type_IsWord : IsWord type
  pub size_IsWord : IsWord size
  pub found : type ≢ text "missing"
  pub sized : parse_int size ≡ some (pos (length contents))

abbrev pub header : {contents : Text} → Answer contents → Text
header a = a.oid ++ (b' ' ∷ (a.type ++ (b' ' ∷ a.size)))

abbrev pub printed : {contents : Text} → Answer contents → Text
printed {contents} a = header a ++ (b'\n' ∷ (contents ++ (b'\n' ∷ [])))

word-IsFree : (w : Text) → IsWord w → IsFree b'\n' w
word-IsFree w h =
    All-mono (λ c. is_space c ≡ false) (λ c. nat_eq c b'\n' ≡ false) w (λ c q. ground (arith, q))
      h.1

header-IsFree : {contents : Text} (a : Answer contents) → IsFree b'\n' (header a)
header-IsFree a =
    let at = λ (c : ℕ). nat_eq c b'\n' ≡ false in
    All-append at a.oid (b' ' ∷ (a.type ++ (b' ' ∷ a.size))) (word-IsFree a.oid a.oid_IsWord) (
      refl,
      All-append at a.type (b' ' ∷ a.size) (word-IsFree a.type a.type_IsWord)
          (refl, word-IsFree a.size a.size_IsWord),
    )

parse_header-size :
    {contents : Text} (a : Answer contents) → parse_header (header a) ≡ ok (pos (length contents))
unfolding parse_header
parse_header-size a =
    let e : fields (header a) ≡ a.oid ∷ a.type ∷ a.size ∷ [] =
      fields-cons a.oid (a.type ++ (b' ' ∷ a.size)) a.oid_IsWord
      ∙ ap (◌∷◌ a.oid) (
          fields-cons a.type a.size a.type_IsWord
          ∙ ap (◌∷◌ a.type) (fields-last a.size a.size_IsWord)) in
    let there : text_eq a.type (text "missing") ≡ false =
      elim (Bool-cases (text_eq a.type (text "missing"))) [
        | inl missing ↦ absurd (a.found ((text_eq_iff a.type (text "missing")).0 missing))
        | inr there ↦ there
      ] in
    rw (e, parse_header, there) (ground (arith, a.sized))

first_bytes-append : (s t : Text) → first_bytes (length s) (s ++ t) ≡ s
unfolding first_bytes
first_bytes-append [] t = refl
first_bytes-append (c ∷ s) t = ap (◌∷◌ c) (first_bytes-append s t)

later_bytes-append : (s t : Text) → later_bytes (length s) (s ++ t) ≡ t
unfolding later_bytes
later_bytes-append [] t = refl
later_bytes-append (c ∷ s) t = later_bytes-append s t

later_all : (s : Text) → later_bytes (suc (length s)) (s ++ (b'\n' ∷ [])) ≡ []
unfolding later_bytes
later_all [] = refl
later_all (c ∷ s) = later_all s

abbrev pub left_with : {D : Type 0} → CatFile → Text → D → Wire D
left_with b s d = record { proc = record b { unread = s }; disk = d }

read_full-contents :
    {D : Type 0} (contents t : Text) (b : CatFile) (d : D)
    → read_full (length contents) (left_with b (contents ++ t) d) ≡ (ok contents, left_with b t d)
unfolding read_full
read_full-contents contents t b d =
    let room : ltb (length (contents ++ t)) (length contents) ≡ false =
      ground (arith, length-append contents t) in
    rw (room, read_full)
      (rw (first_bytes-append contents t) (rw (later_bytes-append contents t) refl))

module _ (p : Platform) (cat : CatFileCommand p.Disk) where
  open p use {Disk}

  read_object_size-answer :
      {contents : Text} (a : Answer contents) (b : CatFile) (d : Disk)
      → read_object_size (left_with b (printed a) d)
        ≡ (ok (pos (length contents)), left_with b (contents ++ (b'\n' ∷ [])) d)
  unfolding read_object_size read_line
  read_object_size-answer {contents} a b d = ground (
    arith,
    cut-append b'\n' (header a) (contents ++ (b'\n' ∷ [])) (header-IsFree a),
    parse_header-size a,
  )

  ask-answer :
      {contents : Text} (a : Answer contents) (oid : Text) (w : Wire Disk) (d : Disk)
      → w.proc.unread ≡ []
      → cat.answer w.proc.git_dir oid w.disk ≡ (ok (printed a), d)
      → ask p cat oid w ≡ (ok tt, left_with w.proc (printed a) d)
  unfolding ask
  ask-answer a oid w d empty answered = ground (arith, answered, empty)

  read_contents-answer :
      (contents : Text) (max : ℤ) (b : CatFile) (d : Disk)
      → ltb_ℤ max (pos (length contents)) ≡ false
      → length contents ≤ max_read_blob_bytes
      → read_contents p cat max (pos (length contents)) (left_with b (contents ++ (b'\n' ∷ [])) d)
        ≡ (ok contents, left_with b [] d)
  unfolding read_contents
  read_contents-answer contents max b d fits small =
      let few : ltb max_read_blob_bytes (length contents) ≡ false = ground (arith, small) in
      ground (
        arith,
        fits,
        few,
        read_full-contents contents (b'\n' ∷ []) b d,
        later_bytes-append (b'\n' ∷ []) [],
      )

  -- Where nothing is unread and git answers with a header of three words, the contents and a line
  -- feed, a read gives the contents back and leaves nothing unread, if they keep to both limits.
  pub read_object-answer :
      {contents : Text} (a : Answer contents) (oid : Text) (max : ℤ) (w : Wire Disk) (d : Disk)
      → w.proc.unread ≡ []
      → cat.answer w.proc.git_dir oid w.disk ≡ (ok (printed a), d)
      → ltb_ℤ max (pos (length contents)) ≡ false
      → length contents ≤ max_read_blob_bytes
      → read_object p cat oid max w ≡ (ok contents, left_with w.proc [] d)
  unfolding read_object
  read_object-answer {contents} a oid max w d empty answered fits small = ground (
    arith,
    ask-answer a oid w d empty answered,
    read_object_size-answer a w.proc d,
    read_contents-answer contents max w.proc d fits small,
  )

  finish_file-proc :
      (tmp dst : Text) (size : ℤ) (copied : Result (Unit {0})) (w : Wire Disk)
      → (finish_file p cat tmp dst size copied w).1.proc ≡ w.proc
  unfolding finish_file
  finish_file-proc tmp dst size copied w = ground arith

  copy_contents-sync :
      (contents tmp : Text) (b : CatFile) (d : Disk)
      → let (r, w) =
          copy_contents p cat tmp
            (pos (length contents))
            (left_with b (contents ++ (b'\n' ∷ [])) d) in
        r ≡ ok tt → w.proc.unread ≡ []
  unfolding copy_contents
  copy_contents-sync contents tmp b d h =
      ground (arith, later_bytes-append contents (b'\n' ∷ []), later_bytes-append (b'\n' ∷ []) [])

  finish_file-ok :
      (tmp dst : Text) (size n : ℕ) (copied : Result (Unit {0})) (w : Wire Disk)
      → (finish_file p cat tmp dst (pos size) copied w).0 ≡ ok n
      → (copied ≡ ok tt) × (n ≡ size)
  unfolding finish_file
  finish_file-ok tmp dst size n (err e) w h = ground arith
  finish_file-ok tmp dst size n (ok tt) w h = (refl, ground arith)

  store_contents-sync :
      (contents dst : Text) (n : ℕ) (b : CatFile) (d : Disk)
      → let (r, w) =
          store_contents p cat dst
            (pos (length contents))
            (left_with b (contents ++ (b'\n' ∷ [])) d) in
        r ≡ ok n → (n ≡ length contents) × (w.proc.unread ≡ [])
  unfolding store_contents
  store_contents-sync contents dst n b d h =
      let tmp = dst ++ text ".tmp" in
      let d' = (p.open_trunc tmp 0o666 d).1 in
      let w =
        copy_contents p cat tmp (pos (length contents))
          (left_with b (contents ++ (b'\n' ∷ [])) d') in
      elim (Result-cases (p.open_trunc tmp 0o666 d).0) [
        | inr (e, failed) ↦ absurd (ground (arith, failed))
        | inl (x, created) ↦
            let stored : (finish_file p cat tmp dst (pos (length contents)) w.0 w.1).0 ≡ ok n =
              ground (arith, created) in
            let (copied, e) = finish_file-ok tmp dst (length contents) n w.0 w.1 stored in
            (
              e,
              ground (
                arith,
                created,
                copy_contents-sync contents tmp b d' copied,
                finish_file-proc tmp dst (pos (length contents)) w.0 w.1,
              ),
            )
      ]

  -- Where nothing is unread and git answers with a header of three words, the contents and a line
  -- feed, a fetch into a file that ends well gives the length of the contents and leaves nothing
  -- unread for the next call.
  pub fetch_to_file-sync :
      {contents : Text} (a : Answer contents) (oid dst : Text) (n : ℕ) (w : Wire Disk) (d : Disk)
      → w.proc.unread ≡ []
      → cat.answer w.proc.git_dir oid w.disk ≡ (ok (printed a), d)
      → (fetch_to_file p cat oid dst w).0 ≡ ok n
      → (n ≡ length contents) × ((fetch_to_file p cat oid dst w).1.proc.unread ≡ [])
  unfolding fetch_to_file
  fetch_to_file-sync {contents} a oid dst n w d empty answered h =
      let step : fetch_to_file p cat oid dst w
          ≡ store_contents p cat dst (pos (length contents))
              (left_with w.proc (contents ++ (b'\n' ∷ [])) d) =
        ground (arith, ask-answer a oid w d empty answered, read_object_size-answer a w.proc d) in
      let (e, f) = store_contents-sync contents dst n w.proc d (sym (ap (λ x. x.0) step) ∙ h) in
      (e, ap (λ x. x.1.proc.unread) step ∙ f)

  -- A temporary file that cannot be created leaves the process in step too.
  pub store_contents-drains :
      (contents dst : Text) (e : Error) (b : CatFile) (d : Disk)
      → (p.open_trunc (dst ++ text ".tmp") 0o666 d).0 ≡ err e
      → (store_contents p cat dst
          (pos (length contents))
          (left_with b (contents ++ (b'\n' ∷ [])) d)).1.proc.unread
        ≡ []
  unfolding store_contents
  store_contents-drains contents dst e b d failed = ground (arith, failed, later_all contents)

  first_bytes-length : (n : ℕ) (s : Text) → length (first_bytes n s) ≤ n
  unfolding first_bytes
  first_bytes-length zero s = omega arith
  first_bytes-length (suc n) [] = omega arith
  first_bytes-length (suc n) (c ∷ s) = omega (arith, first_bytes-length n s)

  read_contents-le :
      (max size : ℤ) (w w' : Wire Disk) (data' : Text)
      → read_contents p cat max size w ≡ (ok data', w')
      → ltb_ℤ max (pos (length data')) ≡ false
  unfolding read_contents read_full
  read_contents-le max (pos n) w w' data' h = ground (arith, first_bytes-length n w.proc.unread)
  read_contents-le max (negsuc n) w w' data' h = ground arith

  pub read_object-le :
      (oid : Text) (max : ℤ) (w w' : Wire Disk) (data' : Text)
      → read_object p cat oid max w ≡ (ok data', w')
      → ltb_ℤ max (pos (length data')) ≡ false
  unfolding read_object
  read_object-le oid max w w' data' h =
      let w₁ = (ask p cat oid w).1 in
      let (r, w₂) = read_object_size w₁ in
      elim (Result-cases (ask p cat oid w).0) [
        | inr (e, failed) ↦ absurd (ground (arith, failed))
        | inl (x, sent) ↦ elim (Result-cases r) [
          | inr (e, failed) ↦ absurd (ground (arith, sent, failed))
          | inl (size, sized) ↦ read_contents-le max size w₂ w' data' (ground (arith, sent, sized))
        ]
      ]
