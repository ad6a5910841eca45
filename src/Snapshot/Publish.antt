-- ===== src/Snapshot/Publish.antt =====
-- PublishGeneration: what readers of each generation see after it.
use artifact_fs_extropic.Base.{
  arith, ℕ, suc, ◌-◌, ◌≡◌, refl, sym, ap, ◌∙◌, subst, ◌⊎◌, find-key, inl, inr, not, List, Option,
  none, some, Text, Text_eq, nat_eq, ltb, if◌then◌else◌, find, keep, IsKeyed, find-keep,
  keep-IsKeyed, keep-All, Option-cases, Result-cases, Error, ok, err,
}
use artifact_fs_extropic.Model.{BaseNode}
use artifact_fs_extropic.Snapshot.{
  Access, NodeKey_eq, NodeRow, Store, row_key, node_path, scanned, stored, next_generation,
  insert_nodes, set_states, write_generation, prune, publish_generation, get_node,
}
use artifact_fs_extropic.Snapshot.Inserts.{
  key, HasParents, IsValid, insert_nodes-find, insert_nodes-IsKeyed, insert_nodes-HasParents,
  insert_nodes-distinct,
}

module _ (fault : Access → Option Error) where
  -- The tables without the rows that an earlier attempt may have left at the generation.
  abbrev cleared : ℕ → Store → Store
  cleared gen s = record s { nodes = keep (λ r. not (nat_eq r.generation gen)) s.nodes }

  set_states-ok :
      (gen : ℕ) (oid ref : Text) (s s' : Store)
      → set_states fault gen oid ref s ≡ (ok tt, s')
      → s' ≡ record s { current = some gen; head_oid = some oid; head_ref = some ref }
  unfolding set_states
  set_states-ok gen oid ref s s' h = ground arith

  write_generation-ok :
      (oid ref : Text) (nodes : List BaseNode) (s s' : Store) (gen : ℕ)
      → write_generation fault oid ref nodes s ≡ (ok gen, s')
      → (gen ≡ next_generation s)
        × (t : Store) × (insert_nodes fault gen nodes (cleared gen s) ≡ (ok tt, t))
        × (s' ≡ record t { current = some gen; head_oid = some oid; head_ref = some ref })
  unfolding write_generation
  write_generation-ok oid ref nodes s s' gen h =
      let g = next_generation s in
      let t = (insert_nodes fault g nodes (cleared g s)).1 in
      let u = (set_states fault g oid ref t).1 in
      let e : g ≡ gen = ground arith in
      let done : insert_nodes fault g nodes (cleared g s) ≡ (ok tt, t) = ground arith in
      let set : set_states fault g oid ref t ≡ (ok tt, u) = ground arith in
      let last : s' ≡ u = ground arith in
      let inserted = λ (x : ℕ). (insert_nodes fault x nodes (cleared x s)).1 in
      let set_to = λ (x : ℕ). record (inserted x) {
        current = some x;
        head_oid = some oid;
        head_ref = some ref;
      } in
      (
        sym e,
        inserted gen,
        subst (λ x. insert_nodes fault x nodes (cleared x s) ≡ (ok tt, inserted x)) e done,
        last ∙ set_states-ok g oid ref t u set ∙ ap set_to e,
      )

  prune-find :
      (gen g : ℕ) (q : Text) (s : Store)
      → IsKeyed row_key s.nodes
      → (gen ≡ g) ⊎ (gen ≡ suc g)
      → find row_key (key g q) (prune fault gen s).nodes ≡ find row_key (key g q) s.nodes
  unfolding prune
  prune-find gen g q s k h = elim (Option-cases (find row_key (key g q) s.nodes)) [
    | inl missing ↦
        ground
          (arith, find-keep row_key (λ r. not (ltb r.generation (gen - 1))) (key g q) s.nodes k)
    | inr (r, found) ↦
        let e : r.generation ≡ g =
          ap (λ x. x.generation) (find-key row_key (key g q) s.nodes r found) in
        ground
          (arith, e, find-keep row_key (λ x. not (ltb x.generation (gen - 1))) (key g q) s.nodes k)
  ]

  prune-current : (gen : ℕ) (s : Store) → (prune fault gen s).current ≡ s.current
  unfolding prune
  prune-current gen s = ground arith

  cleared-find :
      (gen g : ℕ) (q : Text) (s : Store)
      → IsKeyed row_key s.nodes
      → find row_key (key g q) (cleared gen s).nodes
        ≡ (if nat_eq gen g then none else find row_key (key g q) s.nodes)
  cleared-find gen g q s k = elim (Option-cases (find row_key (key g q) s.nodes)) [
    | inl missing ↦
        ground (arith, find-keep row_key (λ r. not (nat_eq r.generation gen)) (key g q) s.nodes k)
    | inr (r, found) ↦
        let e : r.generation ≡ g =
          ap (λ x. x.generation) (find-key row_key (key g q) s.nodes r found) in
        ground
          (arith, e, find-keep row_key (λ x. not (nat_eq x.generation gen)) (key g q) s.nodes k)
  ]

  publish-cases :
      (oid ref : Text) (nodes : List BaseNode) (s s' : Store) (gen : ℕ)
      → publish_generation fault oid ref nodes s ≡ (ok gen, s')
      → (t : Store) × (write_generation fault oid ref nodes s ≡ (ok gen, t))
        × (s' ≡ prune fault gen t)
  unfolding publish_generation
  publish-cases oid ref nodes s s' gen h =
      let t = (write_generation fault oid ref nodes s).1 in (t, ground arith, ground arith)

  publish-find :
      (oid ref : Text) (nodes : List BaseNode) (s s' : Store) (gen g : ℕ) (q : Text)
      → IsKeyed row_key s.nodes
      → publish_generation fault oid ref nodes s ≡ (ok gen, s')
      → (gen ≡ g) ⊎ (gen ≡ suc g)
      → find row_key (key g q) s'.nodes ≡ (
          if nat_eq gen g
          then elim (find node_path q nodes) [ none ↦ none | some n ↦ some (stored gen n) ]
          else find row_key (key g q) s.nodes)
  publish-find oid ref nodes s s' gen g q k h near =
      let (u, written, last) = publish-cases oid ref nodes s s' gen h in
      let (_, t, inserted, set) = write_generation-ok oid ref nodes s u gen written in
      let kc : IsKeyed row_key (cleared gen s).nodes = keep-IsKeyed row_key _ s.nodes k in
      let kt : IsKeyed row_key t.nodes =
        subst (λ x. IsKeyed row_key x.1.nodes) inserted
          (insert_nodes-IsKeyed fault gen nodes (cleared gen s) kc) in
      let ku : IsKeyed row_key u.nodes = subst (λ x. IsKeyed row_key x.nodes) (sym set) kt in
      let same : u.nodes ≡ t.nodes = ap (λ x. x.nodes) set in
      let (_, at) = insert_nodes-find fault gen nodes (cleared gen s) t g q inserted in
      let p₁ = prune-find gen g q u ku near in
      let p₂ = cleared-find gen g q s k in
      ap (λ x. find row_key (key g q) x.nodes) last
      ∙ p₁
      ∙ ap (find row_key (key g q)) same
      ∙ at
      ∙ ground (arith, p₂)

  pub get_node_lem :
      (g : ℕ) (q : Text) (s : Store)
      → fault Access.query ≡ none
      → get_node fault g q s
        ≡ elim (find row_key (key g q) s.nodes) [ none ↦ none | some r ↦ some r.node ]
  unfolding get_node
  get_node_lem g q s f = rw (f, get_node)

module _ (fault read : Access → Option Error) where
  -- A PublishGeneration that ends well, on a table whose key holds, returns the next generation
  -- and makes it current, and GetNode then finds in it exactly the nodes given, if its query does
  -- not fail.
  pub publish-current :
      (oid ref : Text) (nodes : List BaseNode) (s s' : Store) (gen : ℕ) (q : Text)
      → IsKeyed row_key s.nodes
      → publish_generation fault oid ref nodes s ≡ (ok gen, s')
      → read Access.query ≡ none
      → (gen ≡ next_generation s)
        × (s'.current ≡ some gen)
        × (get_node read gen q s'
            ≡ elim (find node_path q nodes) [ none ↦ none | some n ↦ some (scanned n) ])
  publish-current oid ref nodes s s' gen q k h f =
      let (u, written, last) = publish-cases fault oid ref nodes s s' gen h in
      let (next, t, _, set) = write_generation-ok fault oid ref nodes s u gen written in
      let at = publish-find fault oid ref nodes s s' gen gen q k h (inl refl) in
      (
        next,
        ap (λ x. x.current) last ∙ prune-current fault gen u ∙ ap (λ x. x.current) set,
        get_node_lem read gen q s' f ∙ ground (arith, at),
      )

  -- A PublishGeneration that ends well, on a table whose key holds, leaves the nodes of the
  -- generation before it as they were for GetNode, if its query does not fail.
  pub publish-previous :
      (oid ref : Text) (nodes : List BaseNode) (s s' : Store) (gen : ℕ) (q : Text)
      → IsKeyed row_key s.nodes
      → publish_generation fault oid ref nodes s ≡ (ok (suc gen), s')
      → read Access.query ≡ none
      → get_node read gen q s' ≡ get_node read gen q s
  publish-previous oid ref nodes s s' gen q k h f =
      let at = publish-find fault oid ref nodes s s' (suc gen) gen q k h (inr refl) in
      get_node_lem read gen q s' f ∙ ground (arith, at) ∙ sym (get_node_lem read gen q s f)

  pub publish-failed :
      (oid ref : Text) (nodes : List BaseNode) (s s' : Store) (f : Error)
      → publish_generation fault oid ref nodes s ≡ (err f, s')
      → s' ≡ s
  unfolding publish_generation
  publish-failed oid ref nodes s s' f h = ground arith

module _ (fault : Access → Option Error) where
  prune-IsValid : (gen : ℕ) (s : Store) → IsValid s → IsValid (prune fault gen s)
  unfolding prune
  prune-IsValid gen s v =
      let c = λ (r : NodeRow). not (ltb r.generation (gen - 1)) in
      let kept : IsValid (record s { nodes = keep c s.nodes }) = record {
        keyed = keep-IsKeyed row_key c s.nodes v.keyed;
        parents = keep-All _ c s.nodes v.parents;
      } in
      ground (arith, kept, v)

  -- PublishGeneration, whether it ends well or not, keeps that no generation has a path twice and
  -- that each row has the parent of its path.
  pub publish-IsValid :
      (oid ref : Text) (nodes : List BaseNode) (s : Store)
      → IsValid s
      → IsValid (publish_generation fault oid ref nodes s).1
  publish-IsValid oid ref nodes s v =
      let s' = (publish_generation fault oid ref nodes s).1 in
      elim (Result-cases (publish_generation fault oid ref nodes s).0) [
        | inr (f, e) ↦
            subst IsValid (sym (publish-failed fault fault oid ref nodes s s' f (ground arith))) v
        | inl (gen, e) ↦
            let (u, written, last) = publish-cases fault oid ref nodes s s' gen (ground arith) in
            let (_, t, inserted, set) = write_generation-ok fault oid ref nodes s u gen written in
            let c = λ (r : NodeRow). not (nat_eq r.generation gen) in
            let kt : IsKeyed row_key t.nodes =
              subst (λ x. IsKeyed row_key x.1.nodes) inserted
                (insert_nodes-IsKeyed fault gen nodes (cleared fault gen s)
                  (keep-IsKeyed row_key c s.nodes v.keyed)) in
            let pt : HasParents t.nodes =
              subst (λ x. HasParents x.1.nodes) inserted
                (insert_nodes-HasParents fault gen nodes (cleared fault gen s)
                  (keep-All _ c s.nodes v.parents)) in
            let vu : IsValid u = subst IsValid (sym set) (record { keyed = kt; parents = pt }) in
            subst IsValid (sym last) (prune-IsValid gen u vu)
      ]

  -- A PublishGeneration that ends well was given no path twice.
  pub publish-distinct :
      (oid ref : Text) (nodes : List BaseNode) (s s' : Store) (gen : ℕ)
      → publish_generation fault oid ref nodes s ≡ (ok gen, s')
      → IsKeyed node_path nodes
  publish-distinct oid ref nodes s s' gen h =
      let (u, written, _) = publish-cases fault oid ref nodes s s' gen h in
      let (_, t, inserted, _) = write_generation-ok fault oid ref nodes s u gen written in
      insert_nodes-distinct fault gen nodes (cleared fault gen s) t inserted
