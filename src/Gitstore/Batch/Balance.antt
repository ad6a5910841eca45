-- ===== src/Gitstore/Batch/Balance.antt =====
-- How the pools and the number of free processes change.
use artifact_fs_extropic.Base.{
  arith, ℕ, suc, ◌+◌, ◌≤◌, ◌≡◌, ◌≢◌, refl, ap, inl, inr, Bool, true, false, not, List, [], ◌∷◌,
  ◌++◌, Option, none, some, Text, Text_eq, text_eq, if◌then◌else◌, ltb, find, find-key, put,
  put-All, find-All, length, length-append, All, Bool-cases, Option-cases,
}
use artifact_fs_extropic.Gitstore.Batch.{CatFile, alive}
use artifact_fs_extropic.Gitstore.Batch.Pool.{
  BatchPool, pool_key, Store, get_pool, set_pool, close_process, split_last, release, total_free,
}

-- A pool has the store's limit and keeps to it.
abbrev pub IsCapped : ℕ → BatchPool → Type 0
IsCapped max_size q = (length q.free ≤ max_size) × (q.max_size ≡ max_size)

-- While calls hold k processes: each one that was started is held, free or closed.
pub record IsBalanced {D : Type 0} (k : ℕ) (s : Store D) : Type 0 where
  pub capped : All (IsCapped s.pool_max_size) s.pools
  pub count : s.started ≡ total_free s.pools + s.closed + k

abbrev free_of : Option BatchPool → ℕ
free_of none = 0
free_of (some q) = length q.free

total_free-put :
    (q : BatchPool) (qs : List BatchPool)
    → total_free (put pool_key q qs) + free_of (find pool_key q.git_dir qs)
      ≡ total_free qs + length q.free
unfolding total_free put find
total_free-put q [] = omega arith
total_free-put q (r ∷ qs) = elim (Bool-cases (text_eq r.git_dir q.git_dir)) [
  | inl same ↦ rw same (omega arith)
  | inr apart ↦ rw apart (omega (arith, total_free-put q qs))
]

get_pool-free :
    {D : Type 0} (git_dir : Text) (s : Store D)
    → length (get_pool git_dir s).free ≡ free_of (find pool_key git_dir s.pools)
unfolding get_pool
get_pool-free git_dir s = elim (Option-cases (find pool_key git_dir s.pools)) [
  | inl missing ↦ rw missing refl
  | inr (q, found) ↦ rw found refl
]

get_pool-key : {D : Type 0} (git_dir : Text) (s : Store D) → (get_pool git_dir s).git_dir ≡ git_dir
unfolding get_pool
get_pool-key git_dir s = elim (Option-cases (find pool_key git_dir s.pools)) [
  | inl missing ↦ rw missing refl
  | inr (q, found) ↦ rw found (find-key pool_key git_dir s.pools q found)
]

pub get_pool-IsCapped :
    {D : Type 0} (git_dir : Text) (s : Store D)
    → All (IsCapped s.pool_max_size) s.pools
    → IsCapped s.pool_max_size (get_pool git_dir s)
unfolding get_pool
get_pool-IsCapped git_dir s h = elim (Option-cases (find pool_key git_dir s.pools)) [
  | inl missing ↦ rw missing (omega arith, refl)
  | inr (q, found) ↦
      rw found (find-All pool_key (IsCapped s.pool_max_size) git_dir s.pools q h found)
]

-- A pool gets another list of free processes.
pub set_pool-count :
    {D : Type 0} (git_dir : Text) (bs : List CatFile) (s : Store D)
    → let q : BatchPool = record (get_pool git_dir s) { free = bs } in
      total_free (put pool_key q s.pools) + length (get_pool git_dir s).free
      ≡ total_free s.pools + length bs
set_pool-count git_dir bs s =
    let q : BatchPool = record (get_pool git_dir s) { free = bs } in
    let e = ap (λ k. free_of (find pool_key k s.pools)) (get_pool-key git_dir s) in
    omega (arith, total_free-put q s.pools, get_pool-free git_dir s, e)

pub set_pool-IsCapped :
    {D : Type 0} (git_dir : Text) (bs : List CatFile) (s : Store D)
    → All (IsCapped s.pool_max_size) s.pools
    → length bs ≤ s.pool_max_size
    → All
        (IsCapped s.pool_max_size)
        (put pool_key (record (get_pool git_dir s) { free = bs }) s.pools)
set_pool-IsCapped git_dir bs s h fits =
    put-All pool_key (IsCapped s.pool_max_size) (record (get_pool git_dir s) { free = bs }) s.pools
      (fits, (get_pool-IsCapped git_dir s h).1) h

split_last-some : (b : CatFile) (bs : List CatFile) → split_last (b ∷ bs) ≢ none
unfolding split_last
split_last-some b bs h = ground arith

pub split_last-length :
    (bs cs : List CatFile) (b : CatFile)
    → split_last bs ≡ some (b, cs)
    → length bs ≡ suc (length cs)
unfolding split_last
split_last-length [] cs b h = cc
split_last-length (c ∷ []) cs b h = let e : cs ≡ [] = cc in omega (arith, ap length e)
split_last-length (c ∷ d ∷ bs) cs b h = elim (Option-cases (split_last (d ∷ bs))) [
  | inl missing ↦ absurd (split_last-some d bs missing)
  | inr ((x, xs), found) ↦
      let e : c ∷ xs ≡ cs = cc in omega (arith, split_last-length (d ∷ bs) xs x found, ap length e)
]

pub either {ℓ κ} :
    {A : Type ℓ} (P : A → Type κ) (b : Bool) (x y : A)
    → (b ≡ true → P x)
    → (b ≡ false → P y)
    → P (if b then x else y)
either P true x y h k = h refl
either P false x y h k = k refl

pub release-IsBalanced :
    {D : Type 0} (k : ℕ) (git_dir : Text) (b : CatFile) (s : Store D)
    → IsBalanced (suc k) s
    → IsBalanced k (release git_dir b s)
unfolding release
release-IsBalanced k git_dir b s v =
    let q = get_pool git_dir s in
    let fits = get_pool-IsCapped git_dir s v.capped in
    let closing : IsBalanced k (close_process s) = record {
      capped = v.capped;
      count = omega (arith, v.count);
    } in
    either (IsBalanced k) (not (alive b)) (close_process s) _ (λ _. closing)
      (λ _.
        either (IsBalanced k) (ltb (length q.free) q.max_size)
          (set_pool (record q { free = q.free ++ (b ∷ []) }) s) (close_process s)
          (λ room. record {
            capped =
                set_pool-IsCapped git_dir (q.free ++ (b ∷ [])) s v.capped
                  (ground (arith, room, fits.0, fits.1, length-append q.free (b ∷ [])));
            count = omega (
              arith,
              v.count,
              set_pool-count git_dir (q.free ++ (b ∷ [])) s,
              length-append q.free (b ∷ []),
            );
          })
          (λ _. closing))
