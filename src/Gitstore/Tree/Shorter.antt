-- ===== src/Gitstore/Tree/Shorter.antt =====
-- The directory of a path is shorter than the path, so a climb ends.
use artifact_fs_extropic.Base.{
  arith, ℕ, suc, ◌+◌, ◌-◌, ◌<◌, ◌≤◌, ◌≡◌, ◌≢◌, ◌⊎◌, refl, ap, ◌∙◌, inl, inr, Bool, true, false,
  List, [], ◌∷◌, ◌++◌, reverse, Text, Text_eq, text_eq, text_eq_iff, length, length-append,
  Bool-cases, nat_eq, nat_eq_iff,
}
use artifact_fs_extropic.Path.{
  cons_first, slash, dot_dot, split, join, is_rooted, push_element, push_elements, stack, or_dot,
  filepath_clean, up_to_slash, filepath_dir,
}
use artifact_fs_extropic.Path.Components.{split-append, push_elements-append}
use artifact_fs_extropic.Gitstore.Tree.{is_top}
use mathlib.Core.List.{reverse-cons}

-- The length of the elements, a slash after each.
abbrev weight : List Text → ℕ
weight [] = 0
weight (w ∷ ws) = suc (length w) + weight ws

weight-append : (ws vs : List Text) → weight (ws ++ vs) ≡ weight ws + weight vs
weight-append [] vs = omega arith
weight-append (w ∷ ws) vs = omega (arith, weight-append ws vs)

weight-cons_first : (c : ℕ) (ws : List Text) → ws ≢ [] → weight (cons_first c ws) ≡ suc (weight ws)
weight-cons_first c [] h = absurd (h refl)
weight-cons_first c (w ∷ ws) h = omega arith

weight-split : (s : Text) → weight (split s) ≡ suc (length s)
unfolding split
weight-split [] = refl
weight-split (c ∷ s) = elim (Bool-cases (nat_eq c slash)) [
  | inl q ↦ rw q (omega (arith, weight-split s))
  | inr q ↦ rw q (
      weight-cons_first c (split s) (λ h. omega (arith, ap weight h, weight-split s))
      ∙ ap suc (weight-split s))
]

weight-reverse : (ws : List Text) → weight (reverse ws) ≡ weight ws
weight-reverse [] = refl
weight-reverse (w ∷ ws) =
    ap weight (reverse-cons w ws)
    ∙ omega (arith, weight-append (reverse ws) (w ∷ []), weight-reverse ws)

length-join : (ws : List Text) → length (join ws) ≡ weight ws - 1
unfolding join
length-join [] = refl
length-join (w ∷ []) = omega arith
length-join (w ∷ v ∷ ws) =
    omega (arith, length-append w (slash ∷ join (v ∷ ws)), length-join (v ∷ ws))

push_element-weight :
    (r : Bool) (ws : List Text) (w : Text)
    → weight (push_element r ws w) ≤ weight ws + suc (length w)
unfolding push_element
push_element-weight r [] w = ground (arith, text_eq_iff w dot_dot)
push_element-weight r (v ∷ ws) w = ground (arith, text_eq_iff w dot_dot)

push_elements-weight :
    (r : Bool) (ws vs : List Text) → weight (push_elements r ws vs) ≤ weight ws + weight vs
unfolding push_elements
push_elements-weight r ws [] = omega arith
push_elements-weight r ws (v ∷ vs) =
    omega (arith, push_element-weight r ws v, push_elements-weight r (push_element r ws v) vs)

-- A slash at the end, or at the front, stands for no element.
push-trailing :
    (r : Bool) (q : Text)
    → push_elements r [] (split (q ++ slash ∷ [])) ≡ push_elements r [] (split q)
push-trailing r q =
    ap (push_elements r []) (split-append q [])
    ∙ push_elements-append r [] (split q) (split [])
    ∙ (unfold split push_elements push_element text_eq in refl)

stack-trailing :
    (q : Text)
    → is_rooted (q ++ slash ∷ []) ≡ false
    → weight (stack (q ++ slash ∷ [])) ≤ suc (length q)
unfolding stack
stack-trailing q h = rw h (
    rw (push-trailing false q)
      (omega (arith, push_elements-weight false [] (split q), weight-split q)))

stack-rooted_trailing :
    (q : Text) → is_rooted (q ++ slash ∷ []) ≡ true → weight (stack (q ++ slash ∷ [])) ≤ length q
unfolding stack
stack-rooted_trailing [] h = unfold split push_elements push_element text_eq in omega arith
stack-rooted_trailing (c ∷ t) h =
    let e : push_elements true [] (split (c ∷ t)) ≡ push_elements true [] (split t) =
      unfold split push_elements push_element text_eq in rw h refl in
    rw h (
      rw (push-trailing true (c ∷ t))
        (rw e (omega (arith, push_elements-weight true [] (split t), weight-split t))))

later_nonempty : (q : Text) → text_eq (q ++ slash ∷ []) [] ≡ false
unfolding text_eq
later_nonempty [] = refl
later_nonempty (c ∷ q) = refl

up_to_slash-cases :
    (p : Text)
    → (up_to_slash p ≡ [])
      ⊎ ((q : Text) × (up_to_slash p ≡ q ++ slash ∷ []) × (suc (length q) ≤ length p))
unfolding up_to_slash text_eq
up_to_slash-cases [] = inl refl
up_to_slash-cases (c ∷ s) = elim (up_to_slash-cases s) [
  | inl none_later ↦ elim (Bool-cases (nat_eq c slash)) [
    | inl here ↦
        inr
          ([], rw (none_later, here) (ap (λ x. x ∷ []) ((nat_eq_iff c slash).0 here)), omega arith)
    | inr apart ↦ inl (rw (none_later, apart) refl)
  ]
  | inr (q, e, fits) ↦ inr (c ∷ q, rw e (rw (later_nonempty q) refl), omega (arith, fits))
]

or_dot-top : (s : Text) → (is_top (or_dot s) ≡ true) ⊎ (or_dot s ≡ s)
or_dot-top s = elim (Bool-cases (text_eq s [])) [
  | inl empty ↦ inl (rw empty (unfold text_eq in refl))
  | inr full ↦ inr (rw full refl)
]

full_weight : (s : Text) → text_eq s [] ≡ false → 0 < length s
unfolding text_eq
full_weight [] h = cc
full_weight (c ∷ s) h = omega arith

cleaned-shorter :
    (q : Text)
    → let d = filepath_clean (q ++ slash ∷ []) in (is_top d ≡ true) ⊎ (length d ≤ length q)
unfolding filepath_clean
cleaned-shorter q =
    let ws = stack (q ++ slash ∷ []) in
    let size : length (join (reverse ws)) ≡ weight ws - 1 =
      length-join (reverse ws) ∙ ap (λ n. n - 1) (weight-reverse ws) in
    elim (Bool-cases (is_rooted (q ++ slash ∷ []))) [
      | inr relative ↦ elim (or_dot-top (join (reverse ws))) [
        | inl top ↦ inl (rw relative top)
        | inr same ↦ inr (rw (relative, same) (omega (arith, size, stack-trailing q relative)))
      ]
      | inl rooted ↦ elim (Bool-cases (text_eq (join (reverse ws)) [])) [
        | inl empty ↦
            inl (rw (rooted, (text_eq_iff (join (reverse ws)) []).0 empty) (unfold text_eq in refl))
        | inr full ↦ inr (
            rw rooted (
              omega (
                arith,
                size,
                stack-rooted_trailing q rooted,
                full_weight (join (reverse ws)) full,
              )))
      ]
    ]

-- The directory of a path is "." or "/", or it is shorter than the path.
pub dir-shorter :
    (p : Text) → (is_top (filepath_dir p) ≡ true) ⊎ (length (filepath_dir p) < length p)
unfolding filepath_dir
dir-shorter p = elim (up_to_slash-cases p) [
  | inl none_there ↦ inl (
      rw none_there
        (unfold filepath_clean stack split push_elements push_element join text_eq in refl))
  | inr (q, e, fits) ↦ rw e (elim (cleaned-shorter q) [
    | inl top ↦ inl top
    | inr shorter ↦ inr (omega (arith, shorter, fits))
  ])
]
