-- ===== src/Resolver/Listing.antt =====
-- ReaddirTyped: which names it lists.
use artifact_fs_extropic.Base.{
  arith, ◌≡◌, refl, sym, ap, ◌∙◌, inl, inr, Bool, true, false, not, ◌&&◌, ◌||◌, List, [], ◌∷◌,
  Option, none, some, Text, Text_eq, text_eq, text_eq_iff, ◌==◌, if◌then◌else◌, put, delete, any,
  any-sort_by, sort_by, All, Bool-cases, Option-cases, ok,
}
use artifact_fs_extropic.Path.{filepath_base, dot, clean_path, child_name}
use artifact_fs_extropic.Model.{BaseNode, OverlayEntry, is_deleted, node_type}
use artifact_fs_extropic.Resolver.{
  Resolver, ReaddirEntry, entry_name, add_child, add_children, is_hidden, child_path, add_entry,
  add_entries, name_order, readdir_typed,
}

abbrev pub lists : Text → List ReaddirEntry → Bool
lists name es = any (λ e. e.name == name) es

lists-put :
    (name : Text) (e : ReaddirEntry) (es : List ReaddirEntry)
    → lists name (put entry_name e es) ≡ (text_eq e.name name || lists name es)
unfolding any put
lists-put name e [] = refl
lists-put name e (x ∷ es) = ground (arith, lists-put name e es, text_eq_iff x.name e.name)

lists-delete :
    (name k : Text) (es : List ReaddirEntry)
    → lists name (delete entry_name k es) ≡ (not (text_eq k name) && lists name es)
unfolding any delete
lists-delete name k [] = ground arith
lists-delete name k (x ∷ es) = ground (
  arith,
  lists-delete name k es,
  text_eq_iff x.name k,
  text_eq_iff x.name name,
  text_eq_iff k name,
)

-- Whether a node of the snapshot has the name, and whether an entry of the overlay lies at a child
-- of that name or below it.
abbrev pub names_node : Text → BaseNode → Bool
names_node name c = filepath_base c.path == name && not (filepath_base c.path == dot)

abbrev pub is_name : Text → Option Text → Bool
is_name name none = false
is_name name (some n) = n == name

abbrev pub under : Text → Text → OverlayEntry → Bool
under path name e = is_name name (child_name path e.path)

abbrev pub whiteout_of : Text → Text → OverlayEntry → Bool
whiteout_of path name e = under path name e && (is_deleted e && e.path == child_path path name)

add_child-lists :
    (name : Text) (set : List ReaddirEntry) (c : BaseNode)
    → lists name (add_child set c) ≡ (lists name set || names_node name c)
unfolding add_child
add_child-lists name set c =
    ground (arith, lists-put name (record { name = filepath_base c.path; type = c.type }) set)

add_children-lists :
    (name : Text) (set : List ReaddirEntry) (cs : List BaseNode)
    → lists name (add_children set cs) ≡ (lists name set || any (names_node name) cs)
unfolding add_children any
add_children-lists name set [] = ground arith
add_children-lists name set (c ∷ cs) =
    add_children-lists name (add_child set c) cs ∙ rw (add_child-lists name set c) (ground arith)

-- One entry at the child that the entry lies at or below.
named_entry :
    (r : Resolver) (path n name : Text) (set : List ReaddirEntry) (e : OverlayEntry)
    → r.overlay.get e.path ≡ some e
    → child_name path e.path ≡ some n
    → lists name (add_entry r path set e) ≡ (
        if is_hidden (r.overlay.get (child_path path name))
        then lists name set && not (whiteout_of path name e)
        else lists name set || under path name e)
unfolding add_entry
named_entry r path n name set e h c = elim (Bool-cases (text_eq n name)) [
  | inl same ↦
      let q : n ≡ name = (text_eq_iff n name).0 same in
      let c' : child_name path e.path ≡ some name = c ∙ ap some q in
      let self : text_eq name name ≡ true = (text_eq_iff name name).1 refl in
      elim (Bool-cases (text_eq e.path (child_path path name))) [
        | inl at ↦
            let g : r.overlay.get (child_path path name) ≡ some e =
              ap r.overlay.get (sym ((text_eq_iff e.path (child_path path name)).0 at)) ∙ h in
            rw (c', self, at, g)
              (ground (
                arith,
                self,
                lists-delete name name set,
                lists-put name (record { name = name; type = node_type e }) set,
              ))
        | inr below ↦
            rw (c', self, below)
              (ground
                (arith, self, lists-put name (record { name = name; type = node_type e }) set))
      ]
  | inr apart ↦
      rw (c, apart)
        (ground (
          arith,
          apart,
          lists-delete name n set,
          lists-put name (record { name = n; type = node_type e }) set,
        ))
]

add_entry-lists :
    (r : Resolver) (path name : Text) (set : List ReaddirEntry) (e : OverlayEntry)
    → r.overlay.get e.path ≡ some e
    → lists name (add_entry r path set e) ≡ (
        if is_hidden (r.overlay.get (child_path path name))
        then lists name set && not (whiteout_of path name e)
        else lists name set || under path name e)
add_entry-lists r path name set e h = elim (Option-cases (child_name path e.path)) [
  | inl outside ↦ (unfold add_entry in rw outside (ground arith))
  | inr (n, c) ↦ named_entry r path n name set e h c
]

-- The list that the overlay gives and its single lookups agree.
abbrev pub Agrees : Resolver → List OverlayEntry → Type 0
Agrees r es = All (λ e. r.overlay.get e.path ≡ some e) es

add_entries-lists :
    (r : Resolver) (path name : Text) (set : List ReaddirEntry) (es : List OverlayEntry)
    → Agrees r es
    → lists name (add_entries r path set es) ≡ (
        if is_hidden (r.overlay.get (child_path path name))
        then lists name set && not (any (whiteout_of path name) es)
        else lists name set || any (under path name) es)
unfolding add_entries any
add_entries-lists r path name set [] h = ground arith
add_entries-lists r path name set (e ∷ es) (here, later) =
    add_entries-lists r path name (add_entry r path set e) es later
    ∙ rw (add_entry-lists r path name set e here) (ground arith)

-- Where the list of the overlay and its single lookups agree, ReaddirTyped lists a name under a
-- whiteout exactly if a tracked child has it and the list lacks the whiteout, and any other name
-- exactly if a tracked child has it or an entry of the overlay lies at the child or below it.
pub readdir_typed-lists :
    (r : Resolver) (path name : Text) (cs : List BaseNode) (es : List OverlayEntry)
    (out : List ReaddirEntry)
    → r.snapshot.list_children r.generation (clean_path path) ≡ ok cs
    → r.overlay.list_by_prefix (clean_path path) ≡ ok es
    → Agrees r es
    → readdir_typed r path ≡ ok out
    → lists name out ≡ (
        if is_hidden (r.overlay.get (child_path (clean_path path) name))
        then any (names_node name) cs && not (any (whiteout_of (clean_path path) name) es)
        else any (names_node name) cs || any (under (clean_path path) name) es)
unfolding readdir_typed any
readdir_typed-lists r path name cs es out hc he agree h =
    let set = add_children [] cs in
    let merged = add_entries r (clean_path path) set es in
    let e : sort_by name_order merged ≡ out = ground arith in
    ap (lists name) (sym e)
    ∙ any-sort_by (λ x. text_eq x.name name) name_order merged
    ∙ add_entries-lists r (clean_path path) name set es agree
    ∙ rw (add_children-lists name [] cs) refl
