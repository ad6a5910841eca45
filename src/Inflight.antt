-- ===== src/Inflight.antt =====
-- internal/hydrator/inflight.go: the channels that wait for a blob, by its key. A channel is a
-- number; notifying is the list of the channels that a value is sent to, each closed after it.
pub mod Waiters
pub mod Closing
mod Tests
use artifact_fs_extropic.Base.{
  ℕ, ◌≡◌, Bool, List, [], ◌∷◌, ◌++◌, Option, none, some, Text, Text_eq, ℕ_eq, nat_eq, ◌==◌,
  if◌then◌else◌, find, put, delete, length,
}

pub record Pending : Type 0 where
  pub key : Text
  pub waiters : List ℕ

abbrev pub pending_key : Pending → Text
pending_key p = p.key

-- f[key]: nil for a key that is missing
abbrev pub waiters_at : Option Pending → List ℕ
waiters_at none = []
waiters_at (some p) = p.waiters

unfoldable pub waiters_of : List Pending → Text → List ℕ
waiters_of f key = waiters_at (find pending_key key f)

abbrev pub set_waiters : Text → List ℕ → List Pending → List Pending
set_waiters key waiters f = put pending_key (record { key = key; waiters = waiters }) f

unfoldable pub add : List Pending → Text → ℕ → Bool × List Pending
unfolding waiters_of
add f key ch =
    let waiters = waiters_of f key ++ (ch ∷ []) in (length waiters == 1, set_waiters key waiters f)

-- The loop of remove: without the first place of the channel, if it has one.
unfoldable pub without_first : ℕ → List ℕ → Option (List ℕ)
without_first ch [] = none
without_first ch (w ∷ ws) =
    let rest = without_first ch ws in
    if w == ch then some ws else elim rest [ none ↦ none | some vs ↦ some (w ∷ vs) ]

abbrev pub keep_waiters : Text → Option (List ℕ) → List Pending → List Pending
keep_waiters key none f = f
keep_waiters key (some []) f = delete pending_key key f
keep_waiters key (some (w ∷ ws)) f = set_waiters key (w ∷ ws) f

unfoldable pub remove : List Pending → Text → ℕ → List Pending
unfolding without_first
remove f key ch = elim (find pending_key key f) [
  | none ↦ f
  | some p ↦ keep_waiters key (without_first ch p.waiters) f
]

unfoldable pub take : List Pending → Text → List ℕ × List Pending
unfolding waiters_of
take f key = (waiters_of f key, delete pending_key key f)

-- notifyWaiters: each channel gets the value and is closed
unfoldable pub notify_waiters : List ℕ → List ℕ → List ℕ
notify_waiters [] notified = notified
notify_waiters (ch ∷ chs) notified = notify_waiters chs (notified ++ (ch ∷ []))

-- closeAll: the loop over the keys, in the order of the table; the channels notified so far
unfoldable pub close_keys : List Pending → List ℕ → List Pending → List ℕ × List Pending
unfolding take notify_waiters
close_keys [] notified f = (notified, f)
close_keys (p ∷ ps) notified f =
    let (waiters, f') = take f p.key in close_keys ps (notify_waiters waiters notified) f'

unfoldable pub close_all : List Pending → List ℕ × List Pending
unfolding close_keys
close_all f = close_keys f [] f
