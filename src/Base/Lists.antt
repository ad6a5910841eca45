-- ===== src/Base/Lists.antt =====
-- Lists under native numbers, and predicates over them by recursion.
use Prim.Native.Nat.{ℕ, suc, ◌+◌}
use mathlib.Core.Path.{◌≡◌, refl, ap}
use mathlib.Core.Bool.{Bool, true, false, ◌||◌, ◌&&◌}
use mathlib.Core.List.{List, [], ◌∷◌, ◌++◌, map}
use native.Mathlib.Omega.{arith}
use artifact_fs_extropic.Base.Tests.{if◌then◌else◌}

module _ {ℓ} {A : Type ℓ} where
  abbrev pub length : List A → ℕ
  length [] = 0
  length (x ∷ xs) = suc (length xs)

  pub length-append : (xs ys : List A) → length (xs ++ ys) ≡ length xs + length ys
  length-append [] ys = omega arith
  length-append (x ∷ xs) ys = omega (arith, length-append xs ys)

  -- A predicate at every row.
  abbrev pub All {κ} : (Q : A → Type κ) (rows : List A) → Type κ
  All Q [] = Unit
  All Q (r ∷ rows) = Q r × All Q rows

  pub All-append {κ} :
      (Q : A → Type κ) (front back : List A) → All Q front → All Q back → All Q (front ++ back)
  All-append Q [] back h k = k
  All-append Q (r ∷ front) back (here, later) k = (here, All-append Q front back later k)

  pub All-mono {κ μ} :
      (Q : A → Type κ) (R : A → Type μ) (rows : List A)
      → ((r : A) → Q r → R r)
      → All Q rows
      → All R rows
  All-mono Q R [] f h = tt
  All-mono Q R (r ∷ rows) f (here, later) = (f r here, All-mono Q R rows f later)

  pub All-both {κ μ} :
      (Q : A → Type κ) (R : A → Type μ) (rows : List A)
      → All Q rows
      → All R rows
      → All (λ r. Q r × R r) rows
  All-both Q R [] h k = tt
  All-both Q R (r ∷ rows) (q, qs) (r', rs) = ((q, r'), All-both Q R rows qs rs)

  -- The rows that a Boolean test keeps.
  unfoldable pub keep : (A → Bool) → List A → List A
  keep p [] = []
  keep p (x ∷ xs) = if p x then x ∷ keep p xs else keep p xs

  unfoldable pub any : (A → Bool) → List A → Bool
  any p [] = false
  any p (x ∷ xs) = p x || any p xs

  pub keep-All {κ} : (P : A → Type κ) (p : A → Bool) (xs : List A) → All P xs → All P (keep p xs)
  unfolding keep
  keep-All P p [] h = tt
  keep-All P p (x ∷ xs) h = ground (arith, keep-All P p xs h.1)

  -- The rows in the order of a query: ORDER BY, and sort.Slice. Rows that neither precede the
  -- other keep their places.
  unfoldable pub insert_by : (A → A → Bool) → A → List A → List A
  insert_by lt x [] = x ∷ []
  insert_by lt x (y ∷ ys) = if lt y x then y ∷ insert_by lt x ys else x ∷ y ∷ ys

  unfoldable pub sort_by : (A → A → Bool) → List A → List A
  unfolding insert_by
  sort_by lt [] = []
  sort_by lt (x ∷ xs) = insert_by lt x (sort_by lt xs)

  All-insert_by {κ} :
      (Q : A → Type κ) (lt : A → A → Bool) (x : A) (ys : List A)
      → Q x
      → All Q ys
      → All Q (insert_by lt x ys)
  unfolding insert_by
  All-insert_by Q lt x [] h k = (h, tt)
  All-insert_by Q lt x (y ∷ ys) h k = ground (arith, All-insert_by Q lt x ys h k.1)

  pub All-sort_by {κ} :
      (Q : A → Type κ) (lt : A → A → Bool) (xs : List A) → All Q xs → All Q (sort_by lt xs)
  unfolding sort_by
  All-sort_by Q lt [] h = tt
  All-sort_by Q lt (x ∷ xs) h = All-insert_by Q lt x (sort_by lt xs) h.0 (All-sort_by Q lt xs h.1)

  -- A test for some row does not see the order of the rows, and sees those that were kept.
  pub any-insert_by :
      (q : A → Bool) (lt : A → A → Bool) (x : A) (ys : List A)
      → any q (insert_by lt x ys) ≡ (q x || any q ys)
  unfolding any insert_by
  any-insert_by q lt x [] = refl
  any-insert_by q lt x (y ∷ ys) = ground (arith, any-insert_by q lt x ys)

  pub any-sort_by :
      (q : A → Bool) (lt : A → A → Bool) (xs : List A) → any q (sort_by lt xs) ≡ any q xs
  unfolding any sort_by
  any-sort_by q lt [] = refl
  any-sort_by q lt (x ∷ xs) =
      ground (arith, any-insert_by q lt x (sort_by lt xs), any-sort_by q lt xs)

  pub any-keep : (q c : A → Bool) (xs : List A) → any q (keep c xs) ≡ any (λ x. c x && q x) xs
  unfolding any keep
  any-keep q c [] = refl
  any-keep q c (x ∷ xs) = ground (arith, any-keep q c xs)

  pub any-keep_none :
      (q c : A → Bool) (xs : List A)
      → ((x : A) → c x ≡ true → q x ≡ false)
      → any q (keep c xs) ≡ false
  unfolding any keep
  any-keep_none q c [] h = refl
  any-keep_none q c (x ∷ xs) h = ground (arith, h x, any-keep_none q c xs h)

  pub keep-all : (xs : List A) → keep (λ _. true) xs ≡ xs
  unfolding keep
  keep-all [] = refl
  keep-all (x ∷ xs) = ap (◌∷◌ x) (keep-all xs)

pub any-map {ℓ κ} :
    {A : Type ℓ} {B : Type κ} (q : B → Bool) (f : A → B) (xs : List A)
    → any q (map f xs) ≡ any (λ x. q (f x)) xs
unfolding any
any-map q f [] = refl
any-map q f (x ∷ xs) = ground (arith, any-map q f xs)

pub All-map {ℓ κ μ} :
    {A : Type ℓ} {B : Type κ} (Q : B → Type μ) (f : A → B) (rows : List A)
    → All (λ r. Q (f r)) rows
    → All Q (map f rows)
All-map Q f [] h = tt
All-map Q f (r ∷ rows) (here, later) = (here, All-map Q f rows later)
