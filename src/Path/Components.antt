-- ===== src/Path/Components.antt =====
-- The elements that filepath.Clean leaves, and how split, join and the stack fit together.
use mathlib.Core.List.{reverse-cons}
use artifact_fs_extropic.Base.{
  ℕ, ◌≡◌, ◌≢◌, refl, ap, ◌∙◌, inl, inr, Bool, true, false, List, [], ◌∷◌, ◌++◌, reverse, Text,
  text_eq, text_eq_iff, nat_eq, Text_eq, All, All-append, Bool-cases, arith,
}
use artifact_fs_extropic.Path.{
  slash, dot, dot_dot, split, join, push_element, push_elements, stack, is_rooted, or_dot, back_up,
  cons_first,
}

abbrev pub IsSlashFree : Text → Type 0
IsSlashFree w = All (λ c. c ≢ slash) w

-- An element that filepath.Clean keeps.
abbrev pub IsElement : Text → Type 0
IsElement w = (w ≢ []) × (w ≢ dot) × IsSlashFree w

-- Elements kept so far, the last one first: ".." only at the front of a relative path.
abbrev pub IsStack : Bool → List Text → Type 0
IsStack rooted [] = Unit
IsStack rooted (w ∷ ws) =
    IsElement w × (w ≡ dot_dot → (rooted ≡ false) × All (λ v. v ≡ dot_dot) ws) × IsStack rooted ws

dot_dot-IsElement : IsElement dot_dot
dot_dot-IsElement = (λ e. cc, λ e. cc, omega arith)

back_up-IsStack : (r : Bool) (ws : List Text) → IsStack r ws → IsStack r (back_up r ws)
back_up-IsStack true [] h = tt
back_up-IsStack false [] h = (dot_dot-IsElement, λ _. (refl, tt), tt)
back_up-IsStack r (w ∷ ws) h = elim (Bool-cases (text_eq w dot_dot)) [
  | inl e ↦
      let p = (text_eq_iff w dot_dot).0 e in
      rw e (dot_dot-IsElement, λ _. ((h.1 p).0, (p, (h.1 p).1)), h)
  | inr e ↦ rw e h.2
]

pub push_element-IsStack :
    (r : Bool) (ws : List Text) (w : Text)
    → IsSlashFree w
    → IsStack r ws
    → IsStack r (push_element r ws w)
unfolding push_element
push_element-IsStack r ws w f h = elim (Bool-cases (text_eq w [])) [
  | inl e ↦ rw e h
  | inr e₁ ↦ elim (Bool-cases (text_eq w dot)) [
    | inl e ↦ rw (e₁, e) h
    | inr e₂ ↦ elim (Bool-cases (text_eq w dot_dot)) [
      | inl e ↦ rw (e₁, e₂, e) (back_up-IsStack r ws h)
      | inr e₃ ↦
          rw (e₁, e₂, e₃)
            (
              (λ p. cc ((text_eq_iff w []).1 p), λ p. cc ((text_eq_iff w dot).1 p), f),
              λ p. absurd (cc ((text_eq_iff w dot_dot).1 p)),
              h,
            )
    ]
  ]
]

cons_first-IsSlashFree :
    (c : ℕ) (ws : List Text) → c ≢ slash → All IsSlashFree ws → All IsSlashFree (cons_first c ws)
cons_first-IsSlashFree c [] n h = ((n, tt), tt)
cons_first-IsSlashFree c (w ∷ ws) n h = ((n, h.0), h.1)

pub split-IsSlashFree : (s : Text) → All IsSlashFree (split s)
unfolding split
split-IsSlashFree [] = (tt, tt)
split-IsSlashFree (c ∷ s) = elim (Bool-cases (nat_eq c slash)) [
  | inl e ↦ rw e (tt, split-IsSlashFree s)
  | inr e ↦ rw e (cons_first-IsSlashFree c (split s) (ground arith) (split-IsSlashFree s))
]

pub push_elements-IsStack :
    (r : Bool) (ws vs : List Text)
    → All IsSlashFree vs
    → IsStack r ws
    → IsStack r (push_elements r ws vs)
unfolding push_elements
push_elements-IsStack r ws [] f h = h
push_elements-IsStack r ws (v ∷ vs) f h =
    push_elements-IsStack r (push_element r ws v) vs f.1 (push_element-IsStack r ws v f.0 h)

pub stack-IsStack : (p : Text) → IsStack (is_rooted p) (stack p)
unfolding stack
stack-IsStack p = push_elements-IsStack (is_rooted p) [] (split p) (split-IsSlashFree p) tt

pub push_elements-append :
    (r : Bool) (ws us vs : List Text)
    → push_elements r ws (us ++ vs) ≡ push_elements r (push_elements r ws us) vs
unfolding push_elements
push_elements-append r ws [] vs = refl
push_elements-append r ws (u ∷ us) vs = push_elements-append r (push_element r ws u) us vs

-- An element that the stack may hold on top is pushed as it is.
push_element-top :
    (r : Bool) (w : Text) (ws : List Text) → IsStack r (w ∷ ws) → push_element r ws w ≡ w ∷ ws
unfolding push_element
push_element-top r w [] h =
    ground (arith, text_eq_iff w [], text_eq_iff w dot, text_eq_iff w dot_dot)
push_element-top r w (v ∷ ws) h =
    ground
      (arith, text_eq_iff w [], text_eq_iff w dot, text_eq_iff w dot_dot, text_eq_iff v dot_dot)

pub push_elements-reverse :
    (r : Bool) (ws : List Text) → IsStack r ws → push_elements r [] (reverse ws) ≡ ws
unfolding push_elements
push_elements-reverse r [] h = refl
push_elements-reverse r (w ∷ ws) h =
    rw
      (
        reverse-cons w ws,
        push_elements-append r [] (reverse ws) (w ∷ []),
        push_elements-reverse r ws h.2,
      )
      (push_element-top r w ws h)

split-cons : (s : Text) → (w : Text) × (ws : List Text) × (split s ≡ w ∷ ws)
unfolding split
split-cons [] = ([], [], refl)
split-cons (c ∷ s) = elim (Bool-cases (nat_eq c slash)) [
  | inl e ↦ ([], split s, rw e)
  | inr e ↦ let (w, ws, q) = split-cons s in (c ∷ w, ws, rw (e, q))
]

cons_first-append :
    (c : ℕ) (a : Text) (vs : List Text)
    → cons_first c (split a ++ vs) ≡ cons_first c (split a) ++ vs
cons_first-append c a vs = let (w, ws, q) = split-cons a in rw q

pub split-append : (a b : Text) → split (a ++ slash ∷ b) ≡ split a ++ split b
unfolding split
split-append [] b = refl
split-append (c ∷ a) b = elim (Bool-cases (nat_eq c slash)) [
  | inl e ↦ rw e (ap (◌∷◌ []) (split-append a b))
  | inr e ↦ rw (e, split-append a b) (cons_first-append c a (split b))
]

pub split_element : (w : Text) → IsSlashFree w → split w ≡ w ∷ []
unfolding split
split_element [] h = refl
split_element (c ∷ w) h = ground (arith, split_element w h.1)

pub split-join :
    (w : Text) (ws : List Text) → All IsSlashFree (w ∷ ws) → split (join (w ∷ ws)) ≡ w ∷ ws
unfolding join
split-join w [] h = split_element w h.0
split-join w (v ∷ ws) h =
    rw (split-append w (join (v ∷ ws)), split_element w h.0, split-join v ws h.1)

-- No cleaned relative text starts with a slash.
pub join-not-rooted : (ws : List Text) → All IsElement ws → is_rooted (join ws) ≡ false
unfolding join
join-not-rooted [] h = refl
join-not-rooted ([] ∷ ws) h = absurd (h.0.0 refl)
join-not-rooted ((c ∷ w) ∷ []) h = ground arith
join-not-rooted ((c ∷ w) ∷ v ∷ ws) h = ground arith

pub IsStack-All : (r : Bool) (ws : List Text) → IsStack r ws → All IsElement ws
IsStack-All r [] h = tt
IsStack-All r (w ∷ ws) h = (h.0, IsStack-All r ws h.2)

pub reverse-All {κ} : (P : Text → Type κ) (ws : List Text) → All P ws → All P (reverse ws)
reverse-All P [] h = tt
reverse-All P (w ∷ ws) h =
    rw (reverse-cons w ws) (All-append P (reverse ws) (w ∷ []) (reverse-All P ws h.1) (h.0, tt))

pub IsStack-relative : (r : Bool) (ws : List Text) → IsStack r ws → IsStack false ws
IsStack-relative r [] h = tt
IsStack-relative r (w ∷ ws) h = (h.0, λ e. (refl, (h.1 e).1), IsStack-relative r ws h.2)

All-IsSlashFree : (ws : List Text) → All IsElement ws → All IsSlashFree ws
All-IsSlashFree [] h = tt
All-IsSlashFree (w ∷ ws) h = (h.0.2, All-IsSlashFree ws h.1)

reverse-cases :
    (w : Text) (ws : List Text) → (v : Text) × (vs : List Text) × (reverse (w ∷ ws) ≡ v ∷ vs)
reverse-cases w [] = (w, [], refl)
reverse-cases w (u ∷ ws) =
    let (v, vs, e) = reverse-cases u ws in
    (v, vs ++ w ∷ [], reverse-cons w (u ∷ ws) ∙ ap (λ us. us ++ w ∷ []) e)

join-not-nil : (w : Text) (ws : List Text) → IsElement w → text_eq (join (w ∷ ws)) [] ≡ false
unfolding join text_eq
join-not-nil [] ws h = absurd (h.0 refl)
join-not-nil (c ∷ w) [] h = refl
join-not-nil (c ∷ w) (v ∷ ws) h = refl

stack_relative :
    (p : Text) (ws : List Text)
    → is_rooted p ≡ false
    → split p ≡ reverse ws
    → IsStack false ws
    → stack p ≡ ws
unfolding stack
stack_relative p ws plain e h = rw (plain, e) (push_elements-reverse false ws h)

pub join-reverse :
    (r : Bool) (w : Text) (ws : List Text)
    → IsStack r (w ∷ ws)
    → let p = join (reverse (w ∷ ws)) in
      (text_eq p [] ≡ false) × (is_rooted p ≡ false) × (split p ≡ reverse (w ∷ ws))
join-reverse r w ws h =
    let (v, vs, e) = reverse-cases w ws in
    let elements = rw e at (reverse-All IsElement (w ∷ ws) (IsStack-All r (w ∷ ws) h)) in
    rw e (
      join-not-nil v vs elements.0,
      join-not-rooted (v ∷ vs) elements,
      split-join v vs (All-IsSlashFree (v ∷ vs) elements),
    )

-- What a cleaned path is printed from is what it is read back to.
pub stack-or_dot :
    (r : Bool) (ws : List Text) → IsStack r ws → stack (or_dot (join (reverse ws))) ≡ ws
stack-or_dot r [] h = unfold stack split push_elements push_element join text_eq in refl
stack-or_dot r (w ∷ ws) h =
    let (full, plain, e) = join-reverse r w ws h in
    rw full
      (stack_relative (join (reverse (w ∷ ws))) (w ∷ ws) plain e (IsStack-relative r (w ∷ ws) h))

pub join-reverse-not-rooted :
    (r : Bool) (ws : List Text) → IsStack r ws → is_rooted (join (reverse ws)) ≡ false
join-reverse-not-rooted r [] h = unfold join in refl
join-reverse-not-rooted r (w ∷ ws) h = (join-reverse r w ws h).1
