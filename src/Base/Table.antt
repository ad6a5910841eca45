-- ===== src/Base/Table.antt =====
-- A table with a primary key, and a Go map: rows, at most one for a key.
use mathlib.Core.Path.{◌≡◌, refl}
use mathlib.Core.Option.{Option, none, some}
use mathlib.Core.List.{List, [], ◌∷◌}
use native.Mathlib.Omega.{arith}
use artifact_fs_extropic.Base.Tests.{if◌then◌else◌, Eq, ◌==◌}

module _ {ℓ κ} {K : Type κ} {V : Type ℓ} ⦃e : Eq K⦄ (key : V → K) where
  -- SELECT … WHERE key = k
  unfoldable pub find : K → List V → Option V
  find k [] = none
  find k (r ∷ rs) = if key r == k then some r else find k rs

  -- INSERT … ON CONFLICT(key) DO UPDATE of every column
  unfoldable pub put : V → List V → List V
  put v [] = v ∷ []
  put v (r ∷ rs) = if key r == key v then v ∷ rs else r ∷ put v rs

  -- DELETE … WHERE key = k
  unfoldable pub delete : K → List V → List V
  delete k [] = []
  delete k (r ∷ rs) = if key r == k then delete k rs else r ∷ delete k rs

  pub find-put :
      (j : K) (v : V) (rs : List V) → find j (put v rs) ≡ (if key v == j then some v else find j rs)
  unfolding find put
  find-put j v [] = refl
  find-put j v (r ∷ rs) = ground (
    arith,
    e.same_iff (key r) (key v),
    e.same_iff (key r) j,
    e.same_iff (key v) j,
    find-put j v rs,
  )

  pub find-delete :
      (j k : K) (rs : List V) → find j (delete k rs) ≡ (if k == j then none else find j rs)
  unfolding find delete
  find-delete j k [] = ground arith
  find-delete j k (r ∷ rs) =
      ground (arith, e.same_iff (key r) k, e.same_iff (key r) j, e.same_iff k j, find-delete j k rs)

  pub find-key : (j : K) (rs : List V) (v : V) → find j rs ≡ some v → key v ≡ j
  unfolding find
  find-key j [] v h = cc
  find-key j (r ∷ rs) v h = ground (arith, e.same_iff (key r) j, find-key j rs v)
