-- ===== src/Hydrator/Notified.antt =====
-- internal/hydrator/hydrator.go: each channel that waits is sent a result.
use artifact_fs_extropic.Base.{
  arith, ℕ, ◌+◌, ◌<◌, ◌≡◌, refl, sym, ap, ◌∙◌, inl, inr, List, [], ◌∷◌, ◌++◌, none, Text, Text_eq,
  text_eq_iff, ◌==◌, nat_eq, if◌then◌else◌, find, delete, Bool-cases, IsKeyed,
}
use artifact_fs_extropic.Inflight.{Pending, pending_key, waiters_of, take, notify_waiters}
use artifact_fs_extropic.Hydrator.{key_of}
use artifact_fs_extropic.Hydrator.Workers.{
  Pool, signal_work, wake, begin_step, end_step, rest_worker, Work, signals, wakes, begins, ends,
  rests, Reach,
}
use artifact_fs_extropic.Hydrator.Sound.{Reach-IsSound}
use artifact_fs_extropic.Hydrator.Progress.{Run, stops, goes_on, Run-Reach, Run-served}

-- How often a channel stands in a list, and in the entries of a table.
unfoldable pub times : ℕ → List ℕ → ℕ
times ch [] = 0
times ch (c ∷ cs) = (if nat_eq c ch then 1 else 0) + times ch cs

unfoldable pub times_waiting : ℕ → List Pending → ℕ
unfolding times
times_waiting ch [] = 0
times_waiting ch (p ∷ ps) = times ch p.waiters + times_waiting ch ps

times-append : (ch : ℕ) (cs ds : List ℕ) → times ch (cs ++ ds) ≡ times ch cs + times ch ds
unfolding times
times-append ch [] ds = omega arith
times-append ch (c ∷ cs) ds = ground (arith, times-append ch cs ds)

times-notify_waiters :
    (ch : ℕ) (cs notified : List ℕ)
    → times ch (notify_waiters cs notified) ≡ times ch cs + times ch notified
unfolding times notify_waiters
times-notify_waiters ch [] notified = omega arith
times-notify_waiters ch (c ∷ cs) notified =
    ground
      (arith, times-notify_waiters ch cs (notified ++ (c ∷ [])), times-append ch notified (c ∷ []))

times_waiting-append :
    (ch : ℕ) (ps qs : List Pending)
    → times_waiting ch (ps ++ qs) ≡ times_waiting ch ps + times_waiting ch qs
unfolding times_waiting
times_waiting-append ch [] qs = omega arith
times_waiting-append ch (p ∷ ps) qs = ground (arith, times_waiting-append ch ps qs)

-- What a key does not have, deleting it leaves.
times_waiting-delete :
    (ch : ℕ) (key : Text) (ps : List Pending)
    → find pending_key key ps ≡ none
    → times_waiting ch (delete pending_key key ps) ≡ times_waiting ch ps
unfolding times_waiting find delete
times_waiting-delete ch key [] h = refl
times_waiting-delete ch key (p ∷ ps) h = elim (Bool-cases (p.key == key)) [
  | inl here ↦ absurd (ground (arith, here, h))
  | inr later ↦ ground (arith, later, times_waiting-delete ch key ps)
]

times-take :
    (ch : ℕ) (key : Text) (ps : List Pending)
    → IsKeyed pending_key ps
    → let (waits, left) = take ps key in
      times ch waits + times_waiting ch left ≡ times_waiting ch ps
unfolding take waiters_of times times_waiting find delete
times-take ch key [] k = refl
times-take ch key (p ∷ ps) (new, k) = elim (Bool-cases (p.key == key)) [
  | inl here ↦
      let gone : find pending_key key ps ≡ none =
        ap (λ x. find pending_key x ps) (sym ((text_eq_iff p.key key).0 here)) ∙ new in
      ground (arith, here, times_waiting-delete ch key ps gone)
  | inr later ↦ ground (arith, later, times-take ch key ps k)
]

-- How often a channel waits, is held by a busy worker, or was notified.
abbrev pub account : ℕ → Pool → ℕ
account ch s = times_waiting ch s.wait + times_waiting ch s.busy + times ch s.notified

Work-account :
    (ch : ℕ) {s t : Pool} → IsKeyed pending_key s.wait → Work s t → account ch t ≡ account ch s
unfolding signal_work wake begin_step end_step rest_worker times_waiting
Work-account ch {s} k (signals owed) = refl
Work-account ch {s} k (wakes signaled some_idle) = refl
Work-account ch {s} k (begins task rest some_worker popped) =
    ground (arith, times-take ch (key_of task) s.wait k)
Work-account ch {s} k (ends before p after e) = ground (
  arith,
  ap (times_waiting ch) e,
  times_waiting-append ch before (p ∷ after),
  times_waiting-append ch before after,
  times-notify_waiters ch p.waiters s.notified,
)
Work-account ch {s} k (rests some_worker empty) = refl

Run-account :
    (ch n : ℕ) {s : Pool} {k : ℕ} {t : Pool} → Reach n s → Run s k t → account ch t ≡ account ch s
Run-account ch n h stops = refl
Run-account ch n h (goes_on r w) =
    Work-account ch (Reach-IsSound (Run-Reach h r)).valid.keyed w ∙ Run-account ch n h r

-- With at least one worker, from any state that calls and workers get to, a run of workers and
-- owed signals that can go no further has sent every channel as many results as it had before the
-- run, and one more for each time that the channel waited when the run began, in the table or with
-- a busy worker.
pub Run-notified :
    (n k : ℕ) (s t : Pool) (ch : ℕ)
    → 0 < n
    → Reach n s
    → Run s k t
    → ((u : Pool) → ¬ Work t u)
    → times ch t.notified ≡ times_waiting ch s.wait + times_waiting ch s.busy + times ch s.notified
unfolding times_waiting
Run-notified n k s t ch some_worker reached run over =
    let (no_wait, _, no_busy) = Run-served n k s t some_worker reached run over in
    ground (
      arith,
      Run-account ch n reached run,
      ap (times_waiting ch) no_wait,
      ap (times_waiting ch) no_busy,
    )
