-- ===== src/Gitstore/Tree/Records.antt =====
-- The records of `git ls-tree -z` are read back as they were printed.
use artifact_fs_extropic.Base.{
  arith, ℕ, ◌≡◌, refl, sym, ap, ◌∙◌, inl, inr, false, List, [], ◌∷◌, ◌++◌, Option, none, some, Text,
  text, Text_eq, text_eq, nat_eq, ◌==◌, if◌then◌else◌, All, All-append, All-mono, Bool-cases, pos,
}
use artifact_fs_extropic.Strings.{is_space, fields, cut, split_at, parse_octal}
use artifact_fs_extropic.Strings.Fields.{
  IsWord, IsFree, fields-cons, fields-last, cut-append, split_at-append,
}
use artifact_fs_extropic.Model.{BaseNode, SizeState}
use artifact_fs_extropic.Gitstore.Tree.{
  Scan, normalize_git_type, parse_record, add_blob, add_record, scan_records,
}
use mathlib.Core.List.{append_assoc, append-nil}

-- An entry of a tree, with its fields as git prints them.
pub record Entry : Type 0 where
  pub mode : Text
  pub type : Text
  pub oid : Text
  pub path : Text

abbrev pub entry_line : Entry → Text
entry_line e = e.mode ++ (b' ' ∷ (e.type ++ (b' ' ∷ (e.oid ++ (b'\t' ∷ e.path)))))

-- The output: each entry, and a NUL behind it.
abbrev pub printed : List Entry → Text
printed [] = []
printed (e ∷ es) = entry_line e ++ (0 ∷ printed es)

pub record IsEntry (e : Entry) : Type 0 where
  pub mode_IsWord : IsWord e.mode
  pub type_IsWord : IsWord e.type
  pub oid_IsWord : IsWord e.oid
  pub no_nul : IsFree 0 (entry_line e)

abbrev pub entry_node : Text → Entry → BaseNode
entry_node repo_id e = record {
  repo_id = repo_id;
  path = e.path;
  type = normalize_git_type e.type (parse_octal e.mode);
  mode = parse_octal e.mode;
  object_oid = e.oid;
  size_state = SizeState.unknown;
  size_bytes = pos 0;
}

-- The nodes of the entries that are not submodules.
abbrev pub entry_nodes : Text → List Entry → List BaseNode
entry_nodes repo_id [] = []
entry_nodes repo_id (e ∷ es) =
    if e.type == text "commit"
    then entry_nodes repo_id es
    else entry_node repo_id e ∷ entry_nodes repo_id es

word-IsFree : (w : Text) → IsWord w → IsFree b'\t' w
word-IsFree w h =
    All-mono (λ c. is_space c ≡ false) (λ c. nat_eq c b'\t' ≡ false) w (λ c q. ground (arith, q))
      h.1

abbrev meta : Entry → Text
meta e = e.mode ++ (b' ' ∷ (e.type ++ (b' ' ∷ e.oid)))

entry_line-meta : (e : Entry) → entry_line e ≡ meta e ++ (b'\t' ∷ e.path)
entry_line-meta e = sym (
    append_assoc e.mode (b' ' ∷ (e.type ++ (b' ' ∷ e.oid))) (b'\t' ∷ e.path)
    ∙ ap (λ x. e.mode ++ (b' ' ∷ x)) (append_assoc e.type (b' ' ∷ e.oid) (b'\t' ∷ e.path)))

meta-IsFree : (e : Entry) → IsEntry e → IsFree b'\t' (meta e)
meta-IsFree e v =
    let at = λ (c : ℕ). nat_eq c b'\t' ≡ false in
    All-append at e.mode (b' ' ∷ (e.type ++ (b' ' ∷ e.oid))) (word-IsFree e.mode v.mode_IsWord) (
      refl,
      All-append at e.type (b' ' ∷ e.oid) (word-IsFree e.type v.type_IsWord)
          (refl, word-IsFree e.oid v.oid_IsWord),
    )

pub parse_record-entry :
    (repo_id : Text) (e : Entry)
    → IsEntry e
    → parse_record repo_id (entry_line e)
      ≡ (if e.type == text "commit" then none else some (e.type, entry_node repo_id e))
unfolding parse_record
parse_record-entry repo_id e v =
    let f : fields (meta e) ≡ e.mode ∷ e.type ∷ e.oid ∷ [] =
      fields-cons e.mode (e.type ++ (b' ' ∷ e.oid)) v.mode_IsWord
      ∙ ap (◌∷◌ e.mode) (
          fields-cons e.type e.oid v.type_IsWord
          ∙ ap (◌∷◌ e.type) (fields-last e.oid v.oid_IsWord)) in
    let c : cut b'\t' (entry_line e) ≡ some (meta e, e.path) =
      ap (cut b'\t') (entry_line-meta e) ∙ cut-append b'\t' (meta e) e.path (meta-IsFree e v) in
    rw (c, parse_record, f) refl

add_record-nodes :
    (o : Option (Text × BaseNode)) (s : Scan)
    → (add_record o s).nodes ≡ elim o [ none ↦ s.nodes | some x ↦ s.nodes ++ (x.1 ∷ []) ]
unfolding add_record add_blob
add_record-nodes none s = refl
add_record-nodes (some (type, n)) s = ground arith

entry_added :
    (repo_id : Text) (e : Entry) (es : List Entry) (s : Scan)
    → IsEntry e
    → (add_record (parse_record repo_id (entry_line e)) s).nodes ++ entry_nodes repo_id es
      ≡ s.nodes ++ entry_nodes repo_id (e ∷ es)
entry_added repo_id e es s v =
    ap (λ o. (add_record o s).nodes ++ entry_nodes repo_id es) (parse_record-entry repo_id e v)
    ∙ elim (Bool-cases (text_eq e.type (text "commit"))) [
      | inl skipped ↦ rw skipped (ap (λ ns. ns ++ entry_nodes repo_id es) (add_record-nodes none s))
      | inr there ↦ rw there (
          ap (λ ns. ns ++ entry_nodes repo_id es)
            (add_record-nodes (some (e.type, entry_node repo_id e)) s)
          ∙ append_assoc s.nodes (entry_node repo_id e ∷ []) (entry_nodes repo_id es))
    ]

-- What `git ls-tree -z` prints for entries without a NUL, with words as mode, type and object, is
-- read back as the nodes of these entries in order, without those of submodules, behind the nodes
-- that were there.
pub scan_records-printed :
    (repo_id : Text) (es : List Entry) (s : Scan)
    → All IsEntry es
    → (scan_records repo_id (split_at 0 (printed es)) s).nodes ≡ s.nodes ++ entry_nodes repo_id es
unfolding scan_records
scan_records-printed repo_id [] s h =
    unfold split_at cut parse_record add_record in sym (append-nil s.nodes)
scan_records-printed repo_id (e ∷ es) s h =
    let s' = add_record (parse_record repo_id (entry_line e)) s in
    let step : (scan_records repo_id (split_at 0 (entry_line e ++ (0 ∷ printed es))) s).nodes
        ≡ s'.nodes ++ entry_nodes repo_id es =
      ap (λ ls. (scan_records repo_id ls s).nodes)
        (split_at-append 0 (entry_line e) (printed es) h.0.no_nul)
      ∙ scan_records-printed repo_id es s' h.1 in
    step ∙ entry_added repo_id e es s h.0
