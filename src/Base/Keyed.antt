-- ===== src/Base/Keyed.antt =====
-- Tables in which no key stands twice, the primary keys of the program.
use mathlib.Core.Path.{◌≡◌, refl, sym, ◌∙◌}
use mathlib.Core.Bool.{Bool, false}
use mathlib.Core.Logic.{inl, inr}
use mathlib.Core.Option.{none, some}
use mathlib.Core.List.{List, [], ◌∷◌}
use native.Mathlib.Omega.{arith}
use artifact_fs_extropic.Base.Tests.{if◌then◌else◌, Eq, ◌==◌, Bool-cases}
use artifact_fs_extropic.Base.Lists.{keep, All}
use artifact_fs_extropic.Base.Table.{find, put, delete}

module _ {ℓ κ} {K : Type κ} {V : Type ℓ} ⦃e : Eq K⦄ (key : V → K) where
  -- Each key stands once.
  abbrev pub IsKeyed : List V → Type ℓ
  IsKeyed [] = Unit
  IsKeyed (r ∷ rs) = (find key (key r) rs ≡ none) × IsKeyed rs

  ==-flip : {a b : K} → (a == b) ≡ false → (b == a) ≡ false
  ==-flip {a} {b} h = ground (arith, e.same_iff a b, e.same_iff b a)

  find-put_other :
      (j : K) (v : V) (rs : List V)
      → (key v == j) ≡ false
      → find key j (put key v rs) ≡ find key j rs
  unfolding find put
  find-put_other j v [] h = rw h
  find-put_other j v (r ∷ rs) h = ground (
    arith,
    e.same_iff (key r) (key v),
    e.same_iff (key r) j,
    e.same_iff (key v) j,
    find-put_other j v rs,
  )

  pub put-IsKeyed : (v : V) (rs : List V) → IsKeyed rs → IsKeyed (put key v rs)
  unfolding put
  put-IsKeyed v [] h = (unfold find in refl, tt)
  put-IsKeyed v (r ∷ rs) h = elim (Bool-cases (key r == key v)) [
    | inl q ↦ rw q (rw ((e.same_iff (key r) (key v)).0 q) at h.0, h.1)
    | inr q ↦ rw q (find-put_other (key r) v rs (==-flip q) ∙ h.0, put-IsKeyed v rs h.1)
  ]

  -- A row that a condition on rows keeps is found again, and one that it drops is gone.
  pub find-keep :
      (c : V → Bool) (j : K) (rs : List V)
      → IsKeyed rs
      → find key j (keep c rs)
        ≡ elim (find key j rs) [ none ↦ none | some v ↦ if c v then some v else none ]
  unfolding find keep
  find-keep c j [] h = refl
  find-keep c j (r ∷ rs) h = elim (Bool-cases (key r == j)) [
    | inl q ↦
        let gone : find key j rs ≡ none = rw (sym ((e.same_iff (key r) j).0 q)) h.0 in
        elim (Bool-cases (c r)) [
          | inl kept ↦ rw (q, kept, q)
          | inr dropped ↦ rw (q, dropped) (find-keep c j rs h.1 ∙ rw gone)
        ]
    | inr q ↦ elim (Bool-cases (c r)) [
      | inl kept ↦ rw (q, kept, q) (find-keep c j rs h.1)
      | inr dropped ↦ rw (q, dropped) (find-keep c j rs h.1)
    ]
  ]

  pub keep-IsKeyed : (c : V → Bool) (rs : List V) → IsKeyed rs → IsKeyed (keep c rs)
  unfolding keep
  keep-IsKeyed c [] h = tt
  keep-IsKeyed c (r ∷ rs) h = elim (Bool-cases (c r)) [
    | inl kept ↦ rw kept (find-keep c (key r) rs h.1 ∙ rw (h.0), keep-IsKeyed c rs h.1)
    | inr dropped ↦ rw dropped (keep-IsKeyed c rs h.1)
  ]

  pub find-delete_other :
      (j k : K) (rs : List V) → find key j rs ≡ none → find key j (delete key k rs) ≡ none
  unfolding find delete
  find-delete_other j k [] h = refl
  find-delete_other j k (r ∷ rs) h = ground (arith, find-delete_other j k rs)

  pub delete-IsKeyed : (k : K) (rs : List V) → IsKeyed rs → IsKeyed (delete key k rs)
  unfolding delete
  delete-IsKeyed k [] h = tt
  delete-IsKeyed k (r ∷ rs) h =
      ground (arith, find-delete_other (key r) k rs, delete-IsKeyed k rs h.1)

  pub put-All {μ} : (P : V → Type μ) (v : V) (rs : List V) → P v → All P rs → All P (put key v rs)
  unfolding put
  put-All P v [] h hs = (h, tt)
  put-All P v (r ∷ rs) h hs = ground (arith, put-All P v rs h hs.1)

  pub delete-All {μ} : (P : V → Type μ) (k : K) (rs : List V) → All P rs → All P (delete key k rs)
  unfolding delete
  delete-All P k [] hs = tt
  delete-All P k (r ∷ rs) hs = ground (arith, delete-All P k rs hs.1)

  -- No row that is left has the key that was deleted.
  pub delete-All_other {μ} :
      (P : V → Type μ) (k : K) (rs : List V)
      → All P rs
      → All (λ r. P r × ((key r == k) ≡ false)) (delete key k rs)
  unfolding delete
  delete-All_other P k [] hs = tt
  delete-All_other P k (r ∷ rs) hs = elim (Bool-cases (key r == k)) [
    | inl here ↦ rw here (delete-All_other P k rs hs.1)
    | inr apart ↦ rw apart ((hs.0, apart), delete-All_other P k rs hs.1)
  ]

  pub find-All {μ} :
      (P : V → Type μ) (k : K) (rs : List V) (v : V) → All P rs → find key k rs ≡ some v → P v
  unfolding find
  find-All P k [] v hs h = cc
  find-All P k (r ∷ rs) v hs h = elim (Bool-cases (key r == k)) [
    | inl here ↦ let e : r ≡ v = ground arith in rw e at hs.0
    | inr later ↦ find-All P k rs v hs.1 (rw later at h)
  ]
