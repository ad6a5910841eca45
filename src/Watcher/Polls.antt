-- ===== src/Watcher/Polls.antt =====
-- What a poll reports.
use artifact_fs_extropic.Base.{
  arith, ℕ, ◌≡◌, refl, ap, ◌∙◌, inl, inr, true, false, Option, none, some, Text, Text_eq,
  text_eq_iff, ◌==◌, if◌then◌else◌, find, find-put, find-delete, Option-cases,
}
use artifact_fs_extropic.Watcher.{
  Files, Poller, seen_path, same_path, changed, current_ref_changed, head_ref_path, head_changed,
}

-- The time that was last seen for a path.
abbrev pub seen_mtime : Text → Poller → Option ℕ
seen_mtime path p = elim (find seen_path path p.prev) [ none ↦ none | some s ↦ some s.mtime ]

module _ (files : Files) where
  changed-seen :
      (path q : Text) (p : Poller)
      → seen_mtime q (changed files path p).1 ≡ elim (files.mtime path) [
        | none ↦ seen_mtime q p
        | some m ↦ if path == q then some m else seen_mtime q p
      ]
  unfolding changed
  changed-seen path q p = elim (Option-cases (files.mtime path)) [
    | inl missing ↦ rw (missing, changed)
    | inr (m, e) ↦
        let at = find-put seen_path q (record { path = path; mtime = m }) p.prev in
        rw (e, changed) (ground (arith, at))
  ]

  -- The last change of a file that is there has been seen.
  abbrev IsCaught : Text → Poller → Type 0
  IsCaught path p = (m : ℕ) → files.mtime path ≡ some m → seen_mtime path p ≡ some m

  changed-IsCaught : (path : Text) (p : Poller) → IsCaught path (changed files path p).1
  changed-IsCaught path p m h = ground (arith, changed-seen path path p, text_eq_iff path path)

  changed-keeps : (path q : Text) (p : Poller) → IsCaught q p → IsCaught q (changed files path p).1
  changed-keeps path q p caught m h =
      ground (arith, changed-seen path q p, text_eq_iff path q, caught m h)

  changed-quiet : (path : Text) (p : Poller) → IsCaught path p → (changed files path p).0 ≡ false
  unfolding changed
  changed-quiet path p caught = elim (Option-cases (files.mtime path)) [
    | inl missing ↦ rw (missing, changed)
    | inr (m, e) ↦ rw (e, changed) (ground (arith, caught m e))
  ]

  current_ref_changed-IsCaught :
      (ref : Text) (p : Poller) → IsCaught ref (current_ref_changed files ref p).1
  unfolding current_ref_changed
  current_ref_changed-IsCaught ref p m h = rw (h, current_ref_changed) (changed-IsCaught ref p m h)

  current_ref_changed-keeps :
      (ref q : Text) (p : Poller) → IsCaught q p → IsCaught q (current_ref_changed files ref p).1
  unfolding current_ref_changed
  current_ref_changed-keeps ref q p caught = elim (Option-cases (files.mtime ref)) [
    | inl missing ↦ rw (missing, current_ref_changed) caught
    | inr (m, e) ↦ rw (e, current_ref_changed) (changed-keeps ref q p caught)
  ]

  current_ref_changed-quiet :
      (ref : Text) (p : Poller) → IsCaught ref p → (current_ref_changed files ref p).0 ≡ false
  unfolding current_ref_changed
  current_ref_changed-quiet ref p caught = elim (Option-cases (files.mtime ref)) [
    | inl missing ↦ rw (missing, current_ref_changed)
    | inr (m, e) ↦ rw (e, current_ref_changed) (changed-quiet ref p caught)
  ]

  -- Of two polls in a row that find the same files, the second never reports a change, whatever
  -- the watcher saw before.
  pub head_changed-quiet :
      (head : Text) (p : Poller) → (head_changed files head (head_changed files head p).1).0 ≡ false
  unfolding head_changed
  head_changed-quiet head p =
      let p₁ = (changed files head p).1 in
      let caught = changed-IsCaught head p in
      elim (Option-cases (head_ref_path files head)) [
        | inl bare ↦
            let after : (head_changed files head p).1 ≡ p₁ = ground (arith, bare) in
            ground (arith, bare, after, changed-quiet head p₁ caught)
        | inr (ref, e) ↦
            let p₂ = (current_ref_changed files ref p₁).1 in
            let quiet = changed-quiet head p₂ (current_ref_changed-keeps ref head p₁ caught) in
            let kept = changed-keeps head ref p₂ (current_ref_changed-IsCaught ref p₁) in
            let still = current_ref_changed-quiet ref (changed files head p₂).1 kept in
            let after : (head_changed files head p).1 ≡ p₂ = ground (arith, e) in
            ground (arith, e, after, quiet, still)
      ]

module _ (files : Files) where
  changed-other :
      (path q : Text) (p : Poller)
      → (path == q) ≡ false
      → let p' = (changed files path p).1 in
        (find seen_path q p'.prev ≡ find seen_path q p.prev)
        × (find same_path q p'.first_seen_change ≡ find same_path q p.first_seen_change)
  unfolding changed
  changed-other path q p n = elim (Option-cases (files.mtime path)) [
    | inl missing ↦ rw (missing, changed) (refl, refl)
    | inr (m, e) ↦
        let put_at = find-put seen_path q (record { path = path; mtime = m }) p.prev in
        let cleared_at = find-delete same_path q path p.first_seen_change in
        rw (e, changed) (ground (arith, n, put_at, cleared_at))
  ]

  missing_ref :
      (ref : Text) (p : Poller)
      → files.mtime ref ≡ none
      → let p' = (current_ref_changed files ref p).1 in
        (p'.prev ≡ p.prev) × (find same_path ref p'.first_seen_change ≡ some ref)
  unfolding current_ref_changed
  missing_ref ref p h =
      rw (h, current_ref_changed)
        (ground (arith, find-put same_path ref ref p.first_seen_change, text_eq_iff ref ref))

  awaited_ref :
      (ref : Text) (p : Poller) (m : ℕ)
      → files.mtime ref ≡ some m
      → find seen_path ref p.prev ≡ none
      → find same_path ref p.first_seen_change ≡ some ref
      → (current_ref_changed files ref p).0 ≡ true
  unfolding current_ref_changed changed
  awaited_ref ref p m h new awaited = ground (arith, h, new, awaited)

  head_changed-after :
      (head ref : Text) (p : Poller)
      → head_ref_path files head ≡ some ref
      → let p₁ = (changed files head p).1 in
        ((head_changed files head p).1 ≡ (current_ref_changed files ref p₁).1)
        × ((current_ref_changed files ref p₁).0 ≡ true → (head_changed files head p).0 ≡ true)
  unfolding head_changed
  head_changed-after head ref p h = ground (arith, h)

-- If a poll finds the ref that HEAD names missing, and never seen before, and the next one finds
-- it there under the same name, then the second reports a change; HEAD is not that ref itself.
pub head_changed-appears :
    (before later : Files) (head ref : Text) (p : Poller) (m : ℕ)
    → before.mtime ref ≡ none
    → later.mtime ref ≡ some m
    → head_ref_path before head ≡ some ref
    → head_ref_path later head ≡ some ref
    → find seen_path ref p.prev ≡ none
    → (head == ref) ≡ false
    → (head_changed later head (head_changed before head p).1).0 ≡ true
head_changed-appears before later head ref p m b l hb hl new apart =
    let p₁ = (changed before head p).1 in
    let p₂ = (current_ref_changed before ref p₁).1 in
    let p₃ = (changed later head p₂).1 in
    let (prev₁, _) = changed-other before head ref p apart in
    let (prev₂, waits₂) = missing_ref before ref p₁ b in
    let (prev₃, waits₃) = changed-other later head ref p₂ apart in
    let still_new : find seen_path ref p₃.prev ≡ none =
      prev₃ ∙ ap (find seen_path ref) prev₂ ∙ prev₁ ∙ new in
    let found = awaited_ref later ref p₃ m l still_new (waits₃ ∙ waits₂) in
    let after : (head_changed before head p).1 ≡ p₂ = (head_changed-after before head ref p hb).0 in
    ap (λ x. (head_changed later head x).0) after
    ∙ (head_changed-after later head ref p₂ hl).1 found
