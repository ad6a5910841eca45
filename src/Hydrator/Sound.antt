-- ===== src/Hydrator/Sound.antt =====
-- What is true of the waiting channels, the queue and the workers in every state.
use artifact_fs_extropic.Base.{
  arith, ℕ, ◌+◌, ◌<◌, ◌≡◌, ◌≢◌, refl, sym, ap, subst, ◌∙◌, inl, inr, Bool, true, false, List, [],
  ◌∷◌, ◌++◌, Option, none, some, Text, Text_eq, text_eq_iff, ◌==◌, length, length-append,
  if◌then◌else◌, any, All, All-mono, find, find-key, find-All, delete-All, delete-All_other,
  put-All, delete, Bool-cases, Option-cases,
}
use artifact_fs_extropic.Inflight.{
  Pending, pending_key, waiters_of, add, remove, take, without_first, keep_waiters,
}
use artifact_fs_extropic.Inflight.Waiters.{
  IsValid, add-IsValid, remove-IsValid, take-IsValid, add-first, is_missing,
}
use artifact_fs_extropic.Hydrator.{HydrationTask, explicit_read_task, push, pop, task_key, key_of}
use artifact_fs_extropic.Hydrator.Queue.{pop-any, any-push}
use artifact_fs_extropic.Hydrator.Workers.{
  Pool, register, enqueue, abandon, signal_work, wake, begin_step, end_step, rest_worker, Call,
  registers, enqueues, abandons, Work, signals, wakes, begins, ends, rests, start, Reach, started,
  called, worked,
}

-- Some queued task fetches what the channels of an entry wait for.
abbrev pub is_queued : List HydrationTask → Pending → Bool
is_queued queue p = any (λ t. key_of t == p.key) queue

-- Whoever will look at the queue.
abbrev pub awake_count : Pool → ℕ
awake_count s = (if s.signaled then 1 else 0) + s.owing + s.draining + length s.busy

pub record IsSound (n : ℕ) (s : Pool) : Type 0 where
  pub valid : IsValid s.wait
  pub queued : All (λ p. is_queued s.queue p ≡ true) s.wait
  pub awake : s.queue ≢ [] → 0 < awake_count s
  pub workers : s.idle + s.draining + length s.busy ≡ n

push-queued :
    (t : HydrationTask) (queue : List HydrationTask) (wait : List Pending)
    → All (λ p. is_queued queue p ≡ true) wait
    → All (λ p. is_queued (push t queue) p ≡ true) wait
push-queued t queue wait h =
    All-mono (λ p. is_queued queue p ≡ true) (λ p. is_queued (push t queue) p ≡ true) wait
      (λ p q. ground (arith, any-push (λ x. key_of x == p.key) t queue)) h

put-queued :
    (queue : List HydrationTask) (key : Text) (ch : ℕ) (wait : List Pending)
    → any (λ t. key_of t == key) queue ≡ true
    → All (λ p. is_queued queue p ≡ true) wait
    → All (λ p. is_queued queue p ≡ true) (add wait key ch).1
unfolding add
put-queued queue key ch wait here h =
    put-All pending_key (λ p. is_queued queue p ≡ true)
      (record { key = key; waiters = waiters_of wait key ++ (ch ∷ []) }) wait here h

pushed_here :
    (t : HydrationTask) (queue : List HydrationTask)
    → any (λ x. key_of x == key_of t) (push t queue) ≡ true
pushed_here t queue =
    ground (arith, any-push (λ x. key_of x == key_of t) t queue, text_eq_iff (key_of t) (key_of t))

there-queued :
    (queue : List HydrationTask) (wait : List Pending) (key : Text)
    → is_missing (find pending_key key wait) ≡ false
    → All (λ p. is_queued queue p ≡ true) wait
    → any (λ t. key_of t == key) queue ≡ true
there-queued queue wait key there h = elim (Option-cases (find pending_key key wait)) [
  | inl missing ↦ absurd (ground (arith, missing))
  | inr (p, found) ↦
      let q = find-All pending_key (λ p. is_queued queue p ≡ true) key wait p h found in
      subst (λ k. any (λ t. key_of t == k) queue ≡ true) (find-key pending_key key wait p found) q
]

pushed_nonempty : (t : HydrationTask) (queue : List HydrationTask) → push t queue ≢ []
pushed_nonempty t [] h = cc
pushed_nonempty t (u ∷ us) h = cc

register-IsSound :
    (n : ℕ) (repo_id path oid : Text) (ch now : ℕ) (s : Pool)
    → IsSound n s
    → IsSound n (register repo_id path oid ch now s)
unfolding register
register-IsSound n repo_id path oid ch now s v =
    let key = task_key repo_id oid in
    let t = explicit_read_task repo_id path oid now in
    let first : (add s.wait key ch).0 ≡ is_missing (find pending_key key s.wait) =
      add-first s.wait key ch v.valid in
    elim (Bool-cases (add s.wait key ch).0) [
      | inl new ↦ record {
        valid = add-IsValid s.wait key ch v.valid;
        queued = rw new (
            put-queued (push t s.queue) key ch s.wait (pushed_here t s.queue)
              (push-queued t s.queue s.wait v.queued));
        awake = λ _. ground (arith, new);
        workers = v.workers;
      }
      | inr old ↦ record {
        valid = add-IsValid s.wait key ch v.valid;
        queued = rw old (
            put-queued s.queue key ch s.wait
              (there-queued s.queue s.wait key (sym first ∙ old) v.queued) v.queued);
        awake = λ h. ground (arith, old, v.awake (λ q. h (ground (arith, old, q))));
        workers = v.workers;
      }
    ]

enqueue-IsSound : (n : ℕ) (t : HydrationTask) (s : Pool) → IsSound n s → IsSound n (enqueue t s)
unfolding enqueue
enqueue-IsSound n t s v = record {
  valid = v.valid;
  queued = push-queued t s.queue s.wait v.queued;
  awake = λ _. omega arith;
  workers = v.workers;
}

kept-queued :
    (queue : List HydrationTask) (f : List Pending) (key : Text) (p : Pending) (o : Option (List ℕ))
    → find pending_key key f ≡ some p
    → All (λ p. is_queued queue p ≡ true) f
    → All (λ p. is_queued queue p ≡ true) (keep_waiters key o f)
kept-queued queue f key p none found h = h
kept-queued queue f key p (some []) found h =
    delete-All pending_key (λ p. is_queued queue p ≡ true) key f h
kept-queued queue f key p (some (w ∷ ws)) found h =
    put-All pending_key (λ p. is_queued queue p ≡ true) (record { key = key; waiters = w ∷ ws }) f
      (there-queued queue f key (rw found refl) h) h

abandon-IsSound :
    (n : ℕ) (key : Text) (ch : ℕ) (s : Pool) → IsSound n s → IsSound n (abandon key ch s)
unfolding abandon
abandon-IsSound n key ch s v = record {
  valid = remove-IsValid s.wait key ch v.valid;
  queued =
      unfold remove in
      elim (Option-cases (find pending_key key s.wait)) [
        | inl missing ↦ rw (missing, remove) (v.queued)
        | inr (p, found) ↦
            rw (found, remove)
              (kept-queued s.queue s.wait key p (without_first ch p.waiters) found v.queued)
      ];
  awake = v.awake;
  workers = v.workers;
}

pub Call-IsSound : (n : ℕ) {s t : Pool} → Call s t → IsSound n s → IsSound n t
Call-IsSound n {s} (registers repo_id path oid ch now) v =
    register-IsSound n repo_id path oid ch now s v
Call-IsSound n {s} (enqueues task) v = enqueue-IsSound n task s v
Call-IsSound n {s} (abandons key ch) v = abandon-IsSound n key ch s v

begin-queued :
    (task : HydrationTask) (queue rest : List HydrationTask) (f : List Pending)
    → pop queue ≡ some (task, rest)
    → All (λ p. is_queued queue p ≡ true) f
    → All (λ p. is_queued rest p ≡ true) (delete pending_key (key_of task) f)
begin-queued task queue rest f popped h =
    let split = λ (q : HydrationTask → Bool). pop-any q queue rest task popped in
    All-mono _ (λ p. is_queued rest p ≡ true) (delete pending_key (key_of task) f)
      (λ p q. ground (
        arith,
        q.0,
        q.1,
        split (λ t. key_of t == p.key),
        text_eq_iff (key_of task) p.key,
        text_eq_iff p.key (key_of task),
      ))
      (delete-All_other pending_key (λ p. is_queued queue p ≡ true) (key_of task) f h)

begin-IsSound :
    (n : ℕ) (task : HydrationTask) (rest : List HydrationTask) (s : Pool)
    → 0 < s.draining
    → pop s.queue ≡ some (task, rest)
    → IsSound n s
    → IsSound n (begin_step task rest s)
unfolding begin_step take
begin-IsSound n task rest s some_worker popped v = record {
  valid = unfold take in take-IsValid s.wait (key_of task) v.valid;
  queued = begin-queued task s.queue rest s.wait popped v.queued;
  awake = λ _. omega arith;
  workers = omega (arith, v.workers);
}

pub Work-IsSound : (n : ℕ) {s t : Pool} → Work s t → IsSound n s → IsSound n t
unfolding signal_work wake end_step rest_worker
Work-IsSound n {s} (signals owed) v = record {
  valid = v.valid;
  queued = v.queued;
  awake = λ _. omega arith;
  workers = v.workers;
}
Work-IsSound n {s} (wakes signaled some_idle) v = record {
  valid = v.valid;
  queued = v.queued;
  awake = λ _. omega arith;
  workers = omega (arith, v.workers);
}
Work-IsSound n {s} (begins task rest some_worker popped) v =
    begin-IsSound n task rest s some_worker popped v
Work-IsSound n {s} (ends before p after e) v = record {
  valid = v.valid;
  queued = v.queued;
  awake = λ _. omega arith;
  workers =
      omega (
        arith,
        v.workers,
        ap length e,
        length-append before (p ∷ after),
        length-append before after,
      );
}
Work-IsSound n {s} (rests some_worker empty) v = record {
  valid = v.valid;
  queued = v.queued;
  awake = λ h. absurd (h empty);
  workers = omega (arith, v.workers);
}

start-IsSound : (n : ℕ) → IsSound n (start n)
unfolding start
start-IsSound n = record {
  valid = record { keyed = tt; awaited = tt };
  queued = tt;
  awake = λ h. absurd (h refl);
  workers = omega arith;
}

pub Reach-IsSound : {n : ℕ} {s : Pool} → Reach n s → IsSound n s
Reach-IsSound {n} started = start-IsSound n
Reach-IsSound {n} (called r c) = Call-IsSound n c (Reach-IsSound r)
Reach-IsSound {n} (worked r w) = Work-IsSound n w (Reach-IsSound r)
