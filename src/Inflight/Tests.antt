-- ===== src/Inflight/Tests.antt =====
-- The theorems on waiting channels at concrete ones.
use artifact_fs_extropic.Base.{
  ◌≡◌, refl, List, [], ◌∷◌, ◌++◌, text, Text_eq, text_eq, ◌==◌, if◌then◌else◌, find, put, delete,
}
use artifact_fs_extropic.Inflight.{
  Pending, pending_key, waiters_of, add, without_first, remove, take, notify_waiters, close_keys,
  close_all,
}
use artifact_fs_extropic.Inflight.Closing.{all_waiters, close_all-notifies}
use artifact_fs_extropic.Inflight.Waiters.{
  IsValid, add-IsValid, left, is_missing, add-first, remove-waiters, add-take,
}

-- Two channels wait for "a".
abbrev two : List Pending
two = (add (add [] (text "a") 1).1 (text "a") 2).1

two-IsValid : IsValid two
two-IsValid =
    add-IsValid (add [] (text "a") 1).1 (text "a") 2
      (add-IsValid [] (text "a") 1 (record { keyed = tt; awaited = tt }))

remove_run : waiters_of (remove two (text "a") 1) (text "a") ≡ 2 ∷ []
unfolding remove add waiters_of without_first find put text_eq
remove_run = refl

add-first_run : (add two (text "b") 3).0 ≡ is_missing (find pending_key (text "b") two)
add-first_run = add-first two (text "b") 3 two-IsValid

remove-waiters_run : waiters_of (remove two (text "a") 1) (text "a") ≡ (
    if text "a" == text "a" then left 1 (waiters_of two (text "a")) else waiters_of two (text "a"))
remove-waiters_run = remove-waiters two (text "a") (text "a") 1

add-take_run : (take (add two (text "a") 3).1 (text "a")).0 ≡ (
    if text "a" == text "a"
    then waiters_of two (text "a") ++ (3 ∷ [])
    else waiters_of two (text "a"))
add-take_run = add-take two (text "a") (text "a") 3

close_all_run : (close_all two).0 ≡ 1 ∷ 2 ∷ []
unfolding close_all close_keys take notify_waiters add waiters_of find put delete text_eq
close_all_run = refl

close_all-notifies_example : close_all two ≡ (all_waiters two, [])
close_all-notifies_example = close_all-notifies two two-IsValid
