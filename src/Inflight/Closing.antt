-- ===== src/Inflight/Closing.antt =====
-- closeAll: every channel that waits is notified once, and none waits afterwards.
use mathlib.Core.List.{append-nil, append_assoc}
use artifact_fs_extropic.Base.{
  arith, ℕ, ◌≡◌, refl, sym, ap, ◌∙◌, List, [], ◌∷◌, ◌++◌, none, Text, Text_eq, text_eq_iff, find,
  delete, IsKeyed,
}
use artifact_fs_extropic.Inflight.{
  Pending, pending_key, waiters_of, take, notify_waiters, close_keys, close_all,
}
use artifact_fs_extropic.Inflight.Waiters.{IsValid}

-- All waiters, key by key.
abbrev pub all_waiters : List Pending → List ℕ
all_waiters [] = []
all_waiters (p ∷ ps) = p.waiters ++ all_waiters ps

delete_missing :
    (k : Text) (f : List Pending) → find pending_key k f ≡ none → delete pending_key k f ≡ f
unfolding find delete
delete_missing k [] h = refl
delete_missing k (p ∷ ps) h = ground (arith, delete_missing k ps)

notify_waiters_lem : (ws notified : List ℕ) → notify_waiters ws notified ≡ notified ++ ws
unfolding notify_waiters
notify_waiters_lem [] notified = sym (append-nil notified)
notify_waiters_lem (w ∷ ws) notified =
    notify_waiters_lem ws (notified ++ (w ∷ [])) ∙ append_assoc notified (w ∷ []) ws

take_first :
    (p : Pending) (ps : List Pending)
    → find pending_key p.key ps ≡ none
    → take (p ∷ ps) p.key ≡ (p.waiters, ps)
unfolding take waiters_of find delete
take_first p ps h =
    rw ((text_eq_iff p.key p.key).1 refl) (ap (λ f. (p.waiters, f)) (delete_missing p.key ps h))

close_keys_lem :
    (f : List Pending) (notified : List ℕ)
    → IsKeyed pending_key f
    → close_keys f notified f ≡ (notified ++ all_waiters f, [])
unfolding close_keys
close_keys_lem [] notified k = ap (λ x. (x, [])) (sym (append-nil notified))
close_keys_lem (p ∷ ps) notified (new, k) =
    ap (λ x. close_keys ps (notify_waiters x.0 notified) x.1) (take_first p ps new)
    ∙ close_keys_lem ps (notify_waiters p.waiters notified) k
    ∙ ap (λ x. (x, []))
        (ap (λ x. x ++ all_waiters ps) (notify_waiters_lem p.waiters notified)
          ∙ append_assoc notified p.waiters (all_waiters ps))

-- While no key stands twice, closeAll notifies each waiting channel in turn, once for each time
-- that it waits and no other, and leaves no key.
pub close_all-notifies : (f : List Pending) → IsValid f → close_all f ≡ (all_waiters f, [])
unfolding close_all
close_all-notifies f v = close_keys_lem f [] v.keyed
