-- ===== src/Hydrator/Progress.antt =====
-- No wake-up is lost, and the workers serve every channel that waits.
use artifact_fs_extropic.Base.{
  arith, ℕ, zero, suc, ◌+◌, ◌*◌, ◌<◌, ◌≤◌, ◌≡◌, ◌≢◌, ◌⊎◌, refl, ap, inl, inr, true, List, [], ◌∷◌,
  Text_eq, length, length-append, if◌then◌else◌, any, All,
}
use artifact_fs_extropic.Inflight.{Pending, take}
use artifact_fs_extropic.Hydrator.{HydrationTask}
use artifact_fs_extropic.Hydrator.Sound.{is_queued, IsSound, Reach-IsSound}
use artifact_fs_extropic.Hydrator.Queue.{pop-length, pop_nonempty}
use artifact_fs_extropic.Hydrator.Workers.{
  Pool, signal_work, wake, begin_step, end_step, rest_worker, Work, signals, wakes, begins, ends,
  rests, Reach, worked,
}

is_nonempty : (queue : List HydrationTask) → (queue ≡ []) ⊎ (queue ≢ [])
is_nonempty [] = inl refl
is_nonempty (t ∷ ts) = inr (λ h. cc)

zero_or_more : (n : ℕ) → (n ≡ 0) ⊎ (0 < n)
zero_or_more zero = inl refl
zero_or_more (suc n) = inr (omega arith)

empty_or_more :
    (f : List Pending) → (f ≡ []) ⊎ ((p : Pending) × (after : List Pending) × (f ≡ p ∷ after))
empty_or_more [] = inl refl
empty_or_more (p ∷ after) = inr (p, after, refl)

waited_nonempty :
    (queue : List HydrationTask) (f : List Pending)
    → f ≢ []
    → All (λ p. is_queued queue p ≡ true) f
    → queue ≢ []
unfolding any
waited_nonempty queue [] h a q = h refl
waited_nonempty queue (p ∷ f) h a q = ground (arith, a.0, q)

-- While a channel waits, or a task is left, some worker or some caller that owes a signal can go on.
can-Work : (n : ℕ) (s : Pool) → 0 < n → IsSound n s → s.queue ≢ [] → (t : Pool) × Work s t
can-Work n s some_worker v todo = elim (zero_or_more s.owing) [
  | inr owed ↦ (_, signals owed)
  | inl no_debt ↦ elim (zero_or_more s.draining) [
    | inr draining ↦
        let (task, rest, popped) = pop_nonempty s.queue todo in
        (_, begins task rest draining popped)
    | inl none_drains ↦ elim (empty_or_more s.busy) [
      | inr (p, after, e) ↦ (_, ends [] p after e)
      | inl none_busy ↦
          let alarmed : s.signaled ≡ true =
            ground (arith, v.awake todo, no_debt, none_drains, ap length none_busy) in
          (_, wakes alarmed (omega (arith, v.workers, ap length none_busy)))
    ]
  ]
]

-- A bound on the steps that workers can still take when no call comes in.
unfoldable pub effort : Pool → ℕ
effort s =
    4 * length s.queue
    + 4 * length s.busy
    + s.draining
    + 3 * s.owing
    + (if s.signaled then 2 else 0)

pub Work-effort : {s t : Pool} → Work s t → effort t < effort s
unfolding effort signal_work wake begin_step end_step rest_worker take
Work-effort {s} (signals owed) = ground arith
Work-effort {s} (wakes signaled some_idle) = ground (arith, signaled)
Work-effort {s} (begins task rest some_worker popped) =
    ground (arith, pop-length s.queue rest task popped)
Work-effort {s} (ends before p after e) =
    ground (arith, ap length e, length-append before (p ∷ after), length-append before after)
Work-effort {s} (rests some_worker empty) = ground arith

-- So many steps of workers and of callers that owe a signal.
pub data Run (s : Pool) : ℕ → Pool → Type 0 where
  stops : Run s zero s
  goes_on : {k : ℕ} {t u : Pool} → Run s k t → Work t u → Run s (suc k) u

-- A run of workers and owed signals with no call between takes no more steps than the effort of
-- the state that it begins in, less that of the state where it ends; each step lowers the effort,
-- in which a queued task and a busy worker count four, an owed signal three, a signal two and a
-- draining worker one.
pub Run-effort : {s : Pool} {k : ℕ} {t : Pool} → Run s k t → k + effort t ≤ effort s
Run-effort stops = omega arith
Run-effort (goes_on r w) = omega (arith, Run-effort r, Work-effort w)

pub Run-Reach : {n : ℕ} {s : Pool} {k : ℕ} {t : Pool} → Reach n s → Run s k t → Reach n t
Run-Reach h stops = h
Run-Reach h (goes_on r w) = worked (Run-Reach h r) w

-- With at least one worker, from any state that calls and workers get to, a run of workers and
-- owed signals that can go no further has left no channel waiting, no task queued and no worker
-- busy: no wake-up is lost.
pub Run-served :
    (n k : ℕ) (s t : Pool)
    → 0 < n
    → Reach n s
    → Run s k t
    → ((u : Pool) → ¬ Work t u)
    → (t.wait ≡ []) × (t.queue ≡ []) × (t.busy ≡ [])
Run-served n k s t some_worker reached run over =
    let v = Reach-IsSound (Run-Reach reached run) in
    let done : t.queue ≡ [] = elim (is_nonempty t.queue) [
      | inl empty ↦ empty
      | inr todo ↦ let (u, w) = can-Work n t some_worker v todo in absurd (over u w)
    ] in
    let quiet : t.busy ≡ [] = elim (empty_or_more t.busy) [
      | inl empty ↦ empty
      | inr (p, after, e) ↦ absurd (over (end_step [] p after t) (ends [] p after e))
    ] in
    (
      elim (empty_or_more t.wait) [
        | inl empty ↦ empty
        | inr (p, after, e) ↦ absurd (waited_nonempty t.queue t.wait (λ q. cc) v.queued done)
      ],
      done,
      quiet,
    )
