-- ===== src/Hydrator/Workers.antt =====
-- internal/hydrator/hydrator.go: the calls that wait for a blob and the workers that fetch it, one
-- step at a time. A step is what happens under the lock, or a use of the channel workReady. The
-- steps here are those of a service that is started and not yet stopped.
use artifact_fs_extropic.Base.{
  ℕ, suc, ◌-◌, ◌<◌, ◌≡◌, Bool, true, false, List, [], ◌∷◌, ◌++◌, some, Text, if◌then◌else◌,
}
use artifact_fs_extropic.Inflight.{Pending, add, remove, take, notify_waiters}
use artifact_fs_extropic.Hydrator.{HydrationTask, explicit_read_task, push, pop, task_key, key_of}

-- A worker is idle, before its select; draining, before a step; or busy, with the waiters of the task
-- that it fetches. A call owes a signal between its unlock and its signalWork.
pub record Pool : Type 0 where
  pub queue : List HydrationTask
  pub wait : List Pending
  pub signaled : Bool
  pub owing : ℕ
  pub idle : ℕ
  pub draining : ℕ
  pub busy : List Pending
  -- the channels that got a result, in order
  pub notified : List ℕ

-- EnsureHydrated under its lock, for a channel `ch` at a time `now`
unfoldable pub register : Text → Text → Text → ℕ → ℕ → Pool → Pool
register repo_id path oid ch now s =
    let (first, wait') = add s.wait (task_key repo_id oid) ch in
    record s {
      wait = wait';
      queue = if first then push (explicit_read_task repo_id path oid now) s.queue else s.queue;
      owing = if first then suc s.owing else s.owing;
    }

-- Enqueue, up to its signal
unfoldable pub enqueue : HydrationTask → Pool → Pool
enqueue task s = record s { queue = push task s.queue; owing = suc s.owing }

-- EnsureHydrated, when its context ends
unfoldable pub abandon : Text → ℕ → Pool → Pool
abandon key ch s = record s { wait = remove s.wait key ch }

-- signalWork: the channel has room for one signal
unfoldable pub signal_work : Pool → Pool
signal_work s = record s { signaled = true }

-- worker: it receives from workReady
unfoldable pub wake : Pool → Pool
wake s = record s { signaled = false; idle = s.idle - 1; draining = suc s.draining }

-- step, up to the unlock: the task has left the queue
unfoldable pub begin_step : HydrationTask → List HydrationTask → Pool → Pool
begin_step task rest s =
    let (waits, wait') = take s.wait (key_of task) in
    record s {
      queue = rest;
      wait = wait';
      draining = s.draining - 1;
      busy = record { key = key_of task; waiters = waits } ∷ s.busy;
    }

-- step after the fetch: the waiters are notified; then the signal that follows it
unfoldable pub end_step : List Pending → Pending → List Pending → Pool → Pool
unfolding signal_work
end_step before p after s = signal_work (record s {
  busy = before ++ after;
  draining = suc s.draining;
  notified = notify_waiters p.waiters s.notified;
})

-- worker: the queue is empty, and it goes back to its select
unfoldable pub rest_worker : Pool → Pool
rest_worker s = record s { idle = suc s.idle; draining = s.draining - 1 }

-- What a caller does.
pub data Call (s : Pool) : Pool → Type 0 where
  registers : (repo_id path oid : Text) (ch now : ℕ) → Call s (register repo_id path oid ch now s)
  enqueues : (task : HydrationTask) → Call s (enqueue task s)
  abandons : (key : Text) (ch : ℕ) → Call s (abandon key ch s)

-- What a worker does, or a caller that owes a signal.
pub data Work (s : Pool) : Pool → Type 0 where
  signals : 0 < s.owing → Work s (signal_work (record s { owing = s.owing - 1 }))
  wakes : s.signaled ≡ true → 0 < s.idle → Work s (wake s)
  begins :
      (task : HydrationTask) (rest : List HydrationTask)
      → 0 < s.draining
      → pop s.queue ≡ some (task, rest)
      → Work s (begin_step task rest s)
  ends :
      (before : List Pending) (p : Pending) (after : List Pending)
      → s.busy ≡ before ++ (p ∷ after)
      → Work s (end_step before p after s)
  rests : 0 < s.draining → s.queue ≡ [] → Work s (rest_worker s)

-- Start: so many workers, and nothing to do
unfoldable pub start : ℕ → Pool
start n = record {
  queue = [];
  wait = [];
  signaled = false;
  owing = 0;
  idle = n;
  draining = 0;
  busy = [];
  notified = [];
}

-- The states that n workers and any callers get to.
pub data Reach (n : ℕ) : Pool → Type 0 where
  started : Reach n (start n)
  called : {s t : Pool} → Reach n s → Call s t → Reach n t
  worked : {s t : Pool} → Reach n s → Work s t → Reach n t
