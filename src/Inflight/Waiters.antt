-- ===== src/Inflight/Waiters.antt =====
-- Who waits for which key after each operation.
use artifact_fs_extropic.Base.{
  arith, ℕ, ◌≡◌, ◌≢◌, refl, sym, ap, ◌∙◌, inl, inr, Bool, true, false, List, [], ◌∷◌, ◌++◌, Option,
  none, some, Text, Text_eq, ℕ_eq, nat_eq, text_eq, text_eq_iff, ◌==◌, if◌then◌else◌, find,
  find-put, find-delete, length, length-append, IsKeyed, put-IsKeyed, delete-IsKeyed, All, put-All,
  delete-All, find-All, Option-cases, Bool-cases,
}
use artifact_fs_extropic.Inflight.{
  Pending, pending_key, waiters_of, add, without_first, keep_waiters, remove, take,
}

-- No key stands twice, and a key that is there has a waiter.
pub record IsValid (f : List Pending) : Type 0 where
  pub keyed : IsKeyed pending_key f
  pub awaited : All (λ p. p.waiters ≢ []) f

append-nonempty : (ws : List ℕ) (c : ℕ) → ws ++ (c ∷ []) ≢ []
append-nonempty [] c h = cc
append-nonempty (w ∷ ws) c h = cc

pub add-IsValid : (f : List Pending) (key : Text) (ch : ℕ) → IsValid f → IsValid (add f key ch).1
unfolding add
add-IsValid f key ch v =
    let p : Pending = record { key = key; waiters = waiters_of f key ++ (ch ∷ []) } in
    record {
      keyed = put-IsKeyed pending_key p f v.keyed;
      awaited =
          put-All pending_key (λ x. x.waiters ≢ []) p f (append-nonempty (waiters_of f key) ch)
            v.awaited;
    }

-- What is left of the waiters for a key.
abbrev pub left : ℕ → List ℕ → List ℕ
left ch ws = elim (without_first ch ws) [ none ↦ ws | some vs ↦ vs ]

kept-IsValid :
    (f : List Pending) (key : Text) (o : Option (List ℕ))
    → IsValid f
    → IsValid (keep_waiters key o f)
kept-IsValid f key none v = v
kept-IsValid f key (some []) v = record {
  keyed = delete-IsKeyed pending_key key f v.keyed;
  awaited = delete-All pending_key _ key f v.awaited;
}
kept-IsValid f key (some (w ∷ ws)) v =
    let p : Pending = record { key = key; waiters = w ∷ ws } in
    record {
      keyed = put-IsKeyed pending_key p f v.keyed;
      awaited = put-All pending_key (λ x. x.waiters ≢ []) p f (λ h. cc) v.awaited;
    }

pub remove-IsValid :
    (f : List Pending) (key : Text) (ch : ℕ) → IsValid f → IsValid (remove f key ch)
unfolding remove
remove-IsValid f key ch v = elim (Option-cases (find pending_key key f)) [
  | inl missing ↦ rw (missing, remove) v
  | inr (p, found) ↦ rw (found, remove) (kept-IsValid f key (without_first ch p.waiters) v)
]

pub take-IsValid : (f : List Pending) (key : Text) → IsValid f → IsValid (take f key).1
unfolding take
take-IsValid f key v = record {
  keyed = delete-IsKeyed pending_key key f v.keyed;
  awaited = delete-All pending_key _ key f v.awaited;
}

add-there :
    (f : List Pending) (key : Text) (ch : ℕ)
    → nat_eq (length (waiters_of f key ++ (ch ∷ []))) 1 ≡ nat_eq (length (waiters_of f key)) 0
add-there f key ch = ground (arith, length-append (waiters_of f key) (ch ∷ []))

nonempty_length : (ws : List ℕ) → ws ≢ [] → nat_eq (length ws) 0 ≡ false
nonempty_length [] h = absurd (h refl)
nonempty_length (w ∷ ws) h = ground arith

abbrev pub is_missing : Option Pending → Bool
is_missing none = true
is_missing (some _) = false

-- While every key that is there has a waiter, add says that it is the first one exactly if the key
-- was missing.
pub add-first :
    (f : List Pending) (key : Text) (ch : ℕ)
    → IsValid f
    → (add f key ch).0 ≡ is_missing (find pending_key key f)
unfolding add waiters_of
add-first f key ch v = add-there f key ch ∙ elim (Option-cases (find pending_key key f)) [
  | inl missing ↦ rw (missing, waiters_of) refl
  | inr (p, found) ↦
      rw (found, waiters_of)
        (nonempty_length p.waiters
          (find-All pending_key (λ x. x.waiters ≢ []) key f p v.awaited found))
]

kept-waiters :
    (f : List Pending) (key q : Text) (o : Option (List ℕ))
    → waiters_of (keep_waiters key o f) q
      ≡ (if key == q then elim o [ none ↦ waiters_of f q | some vs ↦ vs ] else waiters_of f q)
unfolding waiters_of
kept-waiters f key q none = ground arith
kept-waiters f key q (some []) = ground (arith, find-delete pending_key q key f)
kept-waiters f key q (some (w ∷ ws)) =
    ground (arith, find-put pending_key q (record { key = key; waiters = w ∷ ws }) f)

-- remove takes the first place of the channel from the waiters of its key, and changes those of no
-- other key.
pub remove-waiters :
    (f : List Pending) (key q : Text) (ch : ℕ)
    → waiters_of (remove f key ch) q
      ≡ (if key == q then left ch (waiters_of f q) else waiters_of f q)
unfolding remove waiters_of without_first
remove-waiters f key q ch = elim (Option-cases (find pending_key key f)) [
  | inl missing ↦ elim (Bool-cases (text_eq key q)) [
    | inl same ↦
        let e : key ≡ q = (text_eq_iff key q).0 same in
        let gone : find pending_key q f ≡ none = ap (λ k. find pending_key k f) (sym e) ∙ missing in
        rw (missing, remove, same, gone) refl
    | inr apart ↦ rw (missing, remove, apart) refl
  ]
  | inr (p, found) ↦
      let step : remove f key ch ≡ keep_waiters key (without_first ch p.waiters) f =
        rw (found, remove) refl in
      ap (λ x. waiters_of x q) step
      ∙ kept-waiters f key q (without_first ch p.waiters)
      ∙ elim (Bool-cases (text_eq key q)) [
        | inl same ↦
            let e : key ≡ q = (text_eq_iff key q).0 same in
            let at : find pending_key q f ≡ some p =
              ap (λ k. find pending_key k f) (sym e) ∙ found in
            let there : waiters_of f q ≡ p.waiters = rw (at, waiters_of) refl in
            let rest : elim (without_first ch p.waiters) [ none ↦ waiters_of f q | some vs ↦ vs ]
                ≡ left ch (waiters_of f q) =
              ap (λ z. elim (without_first ch p.waiters) [ none ↦ z | some vs ↦ vs ]) there
              ∙ sym (ap (left ch) there) in
            ground (arith, same, rest)
        | inr apart ↦ rw apart refl
      ]
]

-- take after add returns the earlier waiters and then the channel added, and for another key what
-- it would have returned before.
pub add-take :
    (f : List Pending) (key q : Text) (ch : ℕ)
    → (take (add f key ch).1 q).0
      ≡ (if key == q then waiters_of f q ++ (ch ∷ []) else waiters_of f q)
unfolding take add waiters_of
add-take f key q ch = elim (Bool-cases (text_eq key q)) [
  | inl same ↦
      let e : waiters_of f key ≡ waiters_of f q = ap (waiters_of f) ((text_eq_iff key q).0 same) in
      rw (same, sym e)
        (ground (
          arith,
          same,
          find-put pending_key q (record { key = key; waiters = waiters_of f key ++ (ch ∷ []) }) f,
        ))
  | inr apart ↦ rw apart (
      ground (
        arith,
        apart,
        find-put pending_key q (record { key = key; waiters = waiters_of f key ++ (ch ∷ []) }) f,
      ))
]
