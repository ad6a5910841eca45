-- ===== src/Hydrator/Queue.antt =====
-- internal/hydrator/hydrator.go: the order in which the tasks of the queue are taken.
use artifact_fs_extropic.Base.{
  arith, subst, ◌<◌, ◌≤◌, ◌==◌, All, All-mono, ◌≡◌, refl, sym, ap, ◌∙◌, inl, inr, Bool, true, false,
  ◌||◌, List, [], ◌∷◌, none, some, any, Bool-cases, ℕ_eq, ℕ, zero, suc, length, ◌≢◌,
}
use mathlib.Core.List.Perm
use mathlib.Core.List.{Perm}
use artifact_fs_extropic.Hydrator.{HydrationTask, less, pop_from, pop, push, drain_from, drain}

-- A task of a higher priority, or of the same and not of a later time.
pub data NotAfter (t u : HydrationTask) : Type 0 where
  higher : u.priority < t.priority → NotAfter t u
  earlier : t.priority ≡ u.priority → t.enqueued_at ≤ u.enqueued_at → NotAfter t u

NotAfter-trans : {t u v : HydrationTask} → NotAfter t u → NotAfter u v → NotAfter t v
NotAfter-trans (higher h) (higher k) = higher (omega arith)
NotAfter-trans (higher h) (earlier e k) = higher (omega arith)
NotAfter-trans (earlier e h) (higher k) = higher (omega arith)
NotAfter-trans (earlier e h) (earlier f k) = earlier (e ∙ f) (omega arith)

less-NotAfter : (t u : HydrationTask) → less t u ≡ true → NotAfter t u
unfolding less
less-NotAfter t u h = elim (Bool-cases (t.priority == u.priority)) [
  | inl same ↦ earlier (ground (arith, same, h)) (ground (arith, same, h))
  | inr apart ↦ higher (ground (arith, apart, h))
]

not_less-NotAfter : (t u : HydrationTask) → less u t ≡ false → NotAfter t u
unfolding less
not_less-NotAfter t u h = elim (Bool-cases (u.priority == t.priority)) [
  | inl same ↦ earlier (ground (arith, same, h)) (ground (arith, same, h))
  | inr apart ↦ higher (ground (arith, apart, h))
]

pop_from-first :
    (t : HydrationTask) (ts : List HydrationTask)
    → let (best, rest) = pop_from t ts in All (NotAfter best) rest
unfolding pop_from
pop_from-first t [] = tt
pop_from-first t (u ∷ us) =
    let ih = pop_from-first u us in
    let best = (pop_from u us).0 in
    let rest = (pop_from u us).1 in
    elim (Bool-cases (less best t)) [
      | inl before ↦ rw before (less-NotAfter best t before, ih)
      | inr after ↦
          let first = not_less-NotAfter t best after in
          rw after
            (first, All-mono (NotAfter best) (NotAfter t) rest (λ x. NotAfter-trans first) ih)
    ]

pop_from-Perm :
    (t : HydrationTask) (ts : List HydrationTask)
    → let (best, rest) = pop_from t ts in Perm (t ∷ ts) (best ∷ rest)
unfolding pop_from
pop_from-Perm t [] = Perm.refl (t ∷ [])
pop_from-Perm t (u ∷ us) =
    let best = (pop_from u us).0 in
    let kept = Perm.cons t (pop_from-Perm u us) in
    elim (Bool-cases (less best t)) [
      | inl before ↦ rw before (Perm.trans kept (Perm.swap best t (pop_from u us).1))
      | inr after ↦ rw after kept
    ]

pop_from-any :
    (q : HydrationTask → Bool) (t : HydrationTask) (ts : List HydrationTask)
    → let (best, rest) = pop_from t ts in (q t || any q ts) ≡ (q best || any q rest)
unfolding pop_from any
pop_from-any q t [] = refl
pop_from-any q t (u ∷ us) =
    let ih = pop_from-any q u us in
    let best = (pop_from u us).0 in
    elim (Bool-cases (less best t)) [
      | inl before ↦ rw before (ground (arith, ih))
      | inr after ↦ rw after (ground (arith, ih))
    ]

-- The task that is taken from the queue has a priority that no task left in the queue exceeds, and
-- where one of them has the same priority, that one was not queued before it; and the queue was
-- the task taken and the tasks left, in some order.
pub pop-first :
    (queue rest : List HydrationTask) (best : HydrationTask)
    → pop queue ≡ some (best, rest)
    → All (NotAfter best) rest × Perm queue (best ∷ rest)
unfolding pop
pop-first [] rest best h = cc
pop-first (t ∷ ts) rest best h =
    let e : pop_from t ts ≡ (best, rest) = cc in
    (
      subst (λ x. All (NotAfter x.0) x.1) e (pop_from-first t ts),
      subst (λ x. Perm (t ∷ ts) (x.0 ∷ x.1)) e (pop_from-Perm t ts),
    )

-- A test holds of some task of the queue exactly if it holds of the task taken or of some task left.
pub pop-any :
    (q : HydrationTask → Bool) (queue rest : List HydrationTask) (best : HydrationTask)
    → pop queue ≡ some (best, rest)
    → any q queue ≡ (q best || any q rest)
unfolding pop any
pop-any q [] rest best h = cc
pop-any q (t ∷ ts) rest best h =
    let e : pop_from t ts ≡ (best, rest) = cc in
    subst (λ x. (q t || any q ts) ≡ (q x.0 || any q x.1)) e (pop_from-any q t ts)

pub any-push :
    (q : HydrationTask → Bool) (t : HydrationTask) (ts : List HydrationTask)
    → any q (push t ts) ≡ (any q ts || q t)
unfolding any
any-push q t [] = ground arith
any-push q t (u ∷ us) = ground (arith, any-push q t us)

pub pop-empty : (queue : List HydrationTask) → pop queue ≡ none → queue ≡ []
unfolding pop
pop-empty [] h = refl
pop-empty (t ∷ ts) h = cc

pop_from-length :
    (t : HydrationTask) (ts : List HydrationTask) → length (pop_from t ts).1 ≡ length ts
unfolding pop_from
pop_from-length t [] = refl
pop_from-length t (u ∷ us) = ground (arith, pop_from-length u us)

pub pop-length :
    (queue rest : List HydrationTask) (best : HydrationTask)
    → pop queue ≡ some (best, rest)
    → length queue ≡ suc (length rest)
unfolding pop
pop-length [] rest best h = cc
pop-length (t ∷ ts) rest best h =
    let e : pop_from t ts ≡ (best, rest) = cc in
    ap suc (sym (pop_from-length t ts) ∙ ap (λ x. length x.1) e)

pub pop_nonempty :
    (queue : List HydrationTask)
    → queue ≢ []
    → (best : HydrationTask) × (rest : List HydrationTask) × (pop queue ≡ some (best, rest))
unfolding pop
pop_nonempty [] h = absurd (h refl)
pop_nonempty (t ∷ ts) h = ((pop_from t ts).0, (pop_from t ts).1, refl)

pop_from-All :
    (Q : HydrationTask → Type 0) (t : HydrationTask) (ts : List HydrationTask)
    → Q t
    → All Q ts
    → let (best, rest) = pop_from t ts in Q best × All Q rest
unfolding pop_from
pop_from-All Q t [] h hs = (h, tt)
pop_from-All Q t (u ∷ us) h (k, ks) =
    let (b, r) = pop_from-All Q u us k ks in
    elim (Bool-cases (less (pop_from u us).0 t)) [
      | inl before ↦ rw before (b, (h, r))
      | inr after ↦ rw after (h, (b, r))
    ]

drain_from-All :
    (Q : HydrationTask → Type 0) (k : ℕ) (queue : List HydrationTask)
    → All Q queue
    → All Q (drain_from k queue)
unfolding drain_from pop
drain_from-All Q zero queue h = tt
drain_from-All Q (suc k) [] h = tt
drain_from-All Q (suc k) (t ∷ ts) (h, hs) =
    let (b, r) = pop_from-All Q t ts h hs in (b, drain_from-All Q k (pop_from t ts).1 r)

-- Each task comes with or before all that follow it.
pub InOrder : List HydrationTask → Type 0
InOrder [] = Unit
InOrder (t ∷ ts) = All (NotAfter t) ts × InOrder ts

drain_from-InOrder : (k : ℕ) (queue : List HydrationTask) → InOrder (drain_from k queue)
unfolding drain_from pop InOrder
drain_from-InOrder zero queue = tt
drain_from-InOrder (suc k) [] = tt
drain_from-InOrder (suc k) (t ∷ ts) = (
  drain_from-All (NotAfter (pop_from t ts).0) k (pop_from t ts).1 (pop_from-first t ts),
  drain_from-InOrder k (pop_from t ts).1,
)

drain_from-Perm :
    (k : ℕ) (queue : List HydrationTask) → length queue ≤ k → Perm queue (drain_from k queue)
unfolding drain_from pop
drain_from-Perm zero [] h = Perm.refl []
drain_from-Perm zero (t ∷ ts) h = absurd (omega arith)
drain_from-Perm (suc k) [] h = Perm.refl []
drain_from-Perm (suc k) (t ∷ ts) h =
    let rest = (pop_from t ts).1 in
    let fewer : length rest ≤ k = omega (arith, pop_from-length t ts) in
    Perm.trans (pop_from-Perm t ts) (Perm.cons (pop_from t ts).0 (drain_from-Perm k rest fewer))

-- The tasks that a worker takes from the queue, one after another, while nothing else is queued or
-- taken, are all the tasks of the queue, each as often as it stands there, and each has a higher
-- priority than any task that comes after it, or the same and was not queued later.
pub drain-InOrder : (queue : List HydrationTask) → InOrder (drain queue) × Perm queue (drain queue)
unfolding drain
drain-InOrder queue =
    (drain_from-InOrder (length queue) queue, drain_from-Perm (length queue) queue (omega arith))
