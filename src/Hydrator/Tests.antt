-- ===== src/Hydrator/Tests.antt =====
-- The theorems on the hydrator at a small repository, one worker and one channel.
use artifact_fs_extropic.Base.{
  All, arith, ◌≤◌, ◌+◌, ◌-◌, ◌≡◌, refl, Bool, true, false, [], ◌∷◌, Option, none, some, text,
  Text_eq, text_eq, ℕ_eq, ◌==◌, if◌then◌else◌, find, put, delete, length, pos, ltb_ℤ, ℤ_eq, ok, err,
  blob_too_large,
}
use mathlib.Core.List.{Perm}
use artifact_fs_extropic.Model.{BaseNode, RepoConfig, SizeState, FileType}
use artifact_fs_extropic.Path.{filepath_join, join, stack, push_elements, split, push_element}
use artifact_fs_extropic.Platform.Memory.{memory, Files, File, file_key}
use artifact_fs_extropic.Inflight.{waiters_of, add, take, notify_waiters}
use artifact_fs_extropic.Hydrator.{
  HydrationTask, Fetcher, Service, explicit_read_task, pop_from, pop, drain_from, drain, less,
  task_key, key_of, cache_path_for, is_verified, validate_cached_blob, validate_contents,
  verify_blob_once, read_blob, read_valid_blob, read_cached_blob,
}
use artifact_fs_extropic.Hydrator.Queue.{NotAfter, pop-first, InOrder, drain-InOrder}
use artifact_fs_extropic.Hydrator.Cache.{Keeps, validate_cached_blob-verified, read_blob-le}
use artifact_fs_extropic.Hydrator.Workers.{
  Pool, register, signal_work, wake, begin_step, end_step, rest_worker, Work, signals, wakes,
  begins, ends, rests, start, Reach, started, called, registers,
}
use artifact_fs_extropic.Hydrator.Sound.{IsSound, Reach-IsSound}
use artifact_fs_extropic.Hydrator.Notified.{times, times_waiting, Run-notified}
use artifact_fs_extropic.Hydrator.Progress.{Run, stops, goes_on, Run-effort, Run-served, effort}

abbrev low : HydrationTask
low = explicit_read_task (text "r") (text "a") (text "1") 5

abbrev high : HydrationTask
high = explicit_read_task (text "r") (text "b") (text "2") 3

popped : pop (low ∷ high ∷ []) ≡ some (high, low ∷ [])
unfolding pop pop_from less
popped = refl

pop-first_run : All (NotAfter high) (low ∷ []) × Perm (low ∷ high ∷ []) (high ∷ low ∷ [])
pop-first_run = pop-first (low ∷ high ∷ []) (low ∷ []) high popped

drained : drain (low ∷ high ∷ []) ≡ high ∷ low ∷ []
unfolding drain drain_from pop pop_from less
drained = refl

drain-InOrder_example :
    InOrder (drain (low ∷ high ∷ [])) × Perm (low ∷ high ∷ []) (drain (low ∷ high ∷ []))
drain-InOrder_example = drain-InOrder (low ∷ high ∷ [])

abbrev p0 : Pool
p0 = start 1

abbrev p1 : Pool
p1 = register (text "r") (text "a") (text "1") 7 5 p0

abbrev p2 : Pool
p2 = signal_work (record p1 { owing = p1.owing - 1 })

abbrev p3 : Pool
p3 = wake p2

abbrev p4 : Pool
p4 = begin_step low [] p3

abbrev p5 : Pool
p5 = end_step [] (record { key = key_of low; waiters = 7 ∷ [] }) [] p4

abbrev p6 : Pool
p6 = rest_worker p5

abbrev p7 : Pool
p7 = wake p6

abbrev p8 : Pool
p8 = rest_worker p7

reached : Reach 1 p1
reached = called started (registers (text "r") (text "a") (text "1") 7 5)

seven_steps : Run p1 7 p8
unfolding register signal_work wake begin_step end_step rest_worker start add take waiters_of find
    put delete pop pop_from text_eq task_key
seven_steps =
    goes_on
      (goes_on
        (goes_on
          (goes_on
            (goes_on (goes_on (goes_on stops (signals (omega arith))) (wakes refl (omega arith)))
              (begins low [] (omega arith) refl))
            (ends [] (record { key = key_of low; waiters = 7 ∷ [] }) [] refl))
          (rests (omega arith) refl))
        (wakes refl (omega arith)))
      (rests (omega arith) refl)

nothing_left : (u : Pool) → ¬ Work p8 u
unfolding register signal_work wake begin_step end_step rest_worker start add take waiters_of find
    put delete
nothing_left u (signals owed) = omega arith
nothing_left u (wakes signaled some_idle) = cc
nothing_left u (begins task rest some_worker q) = omega arith
nothing_left u (ends [] p after e) = cc
nothing_left u (ends (q ∷ before) p after e) = cc
nothing_left u (rests some_worker empty) = omega arith

Reach-IsSound_run : IsSound 1 p1
Reach-IsSound_run = Reach-IsSound reached

Run-effort_example : 7 + effort p8 ≤ effort p1
Run-effort_example = Run-effort seven_steps

Run-served_example : (p8.wait ≡ []) × (p8.queue ≡ []) × (p8.busy ≡ [])
Run-served_example = Run-served 1 7 p1 p8 (omega arith) reached seven_steps nothing_left

Run-notified_example : times 7 p8.notified ≡ 1
unfolding times times_waiting register signal_work wake begin_step end_step rest_worker start add
    take waiters_of find put delete notify_waiters
Run-notified_example = Run-notified 1 7 p1 p8 7 (omega arith) reached seven_steps nothing_left

abbrev repo : RepoConfig
repo = record {
  id = text "r";
  name = text "r";
  mount_root = text "/m";
  mount_path = text "/m/r";
  remote_url = text "u";
  remote_url_redacted = text "u";
  branch = text "main";
  refresh_interval = 30;
  git_dir = text "/g";
  overlay_dir = text "/o";
  blob_cache_dir = text "/c";
  meta_db_path = text "/d";
  overlay_db_path = text "/e";
  enabled = true;
}

abbrev node : BaseNode
node = record {
  repo_id = text "r";
  path = text "a";
  type = FileType.file;
  mode = 0o644;
  object_oid = text "1";
  size_state = SizeState.known;
  size_bytes = pos 3;
}

abbrev is_abc : Option File → Bool
is_abc none = false
is_abc (some f) = f.bytes == text "abc"

-- Every blob has the three bytes "abc".
abbrev abc : Fetcher Files
abc = record {
  blob_to_cache = λ _ _ name d. (ok 3, put file_key (record { name = name; bytes = text "abc" }) d);
  read_blob =
      λ _ _ max d. if ltb_ℤ max (pos 3) then (err blob_too_large, d) else (ok (text "abc"), d);
  verify_blob = λ _ _ name d. (ok (is_abc (find file_key name d)), d);
}

abc-Keeps : Keeps memory abc
abc-Keeps repo oid max d d' data' h = ground arith

abbrev cached : Service Files
cached = record {
  queue = [];
  wait = [];
  verified = [];
  disk = record { name = text "/c/1"; bytes = text "abc" } ∷ [];
}

abbrev checked : Service Files
checked = record cached { verified = task_key (text "r") (text "1") ∷ [] }

validated : validate_cached_blob memory abc repo (text "/c/1") node cached ≡ (ok (some 3), checked)
unfolding validate_cached_blob validate_contents verify_blob_once find put task_key text_eq
validated = refl

validate_cached_blob-verified_example :
    (is_verified (task_key (text "r") (text "1")) checked ≡ true)
    × (node.size_state ≡ SizeState.known → node.size_bytes ≡ pos 3)
    × ((memory.stat_size (text "/c/1") cached.disk).0 ≡ ok 3)
validate_cached_blob-verified_example =
    validate_cached_blob-verified memory abc repo (text "/c/1") node cached checked 3 validated

read_back : read_blob memory abc repo node (pos 5) cached ≡ (ok (text "abc"), checked)
unfolding read_blob read_valid_blob read_cached_blob cache_path_for filepath_join join stack
    push_elements split push_element validate_cached_blob validate_contents verify_blob_once find
    put task_key text_eq
read_back = refl

read_blob-le_example : ltb_ℤ (pos 5) (pos (length (text "abc"))) ≡ false
read_blob-le_example =
    read_blob-le memory abc repo node (pos 5) cached checked (text "abc") abc-Keeps read_back
