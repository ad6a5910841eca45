-- ===== src/Path/Clean.antt =====
-- CleanPath: what its results look like, and that it is a normal form.
use artifact_fs_extropic.Base.{
  ◌≡◌, refl, sym, ap, subst, ◌∙◌, inl, inr, true, false, List, [], ◌∷◌, reverse, Text, text_eq,
  text_eq_iff, ◌==◌, Text_eq, if◌then◌else◌, Bool-cases, arith, none, some,
}
use artifact_fs_extropic.Path.{
  slash, dot, root, split, join, push_element, push_elements, stack, is_rooted, or_dot, cut_prefix,
  filepath_clean, clean_path,
}
use artifact_fs_extropic.Path.Components.{
  join-reverse, push_elements-reverse, IsStack, stack-IsStack, stack-or_dot,
  join-reverse-not-rooted, IsStack-relative,
}

abbrev printed : Text → Text
printed p = or_dot (join (reverse (stack p)))

-- What CleanPath does with the result of filepath.Clean.
abbrev strip_root : Text → Text
strip_root q =
    if q == root then dot else or_dot (elim (cut_prefix root q) [ none ↦ q | some rest ↦ rest ])

strip_root-rooted : (q : Text) → strip_root (slash ∷ q) ≡ or_dot q
unfolding text_eq cut_prefix
strip_root-rooted [] = refl
strip_root-rooted (c ∷ q) = refl

strip_root-relative : (q : Text) → is_rooted q ≡ false → strip_root (or_dot q) ≡ or_dot q
unfolding text_eq cut_prefix
strip_root-relative [] h = refl
strip_root-relative (c ∷ q) h = ground arith

dot-stack : stack dot ≡ []
unfolding stack split push_elements push_element text_eq
dot-stack = refl

root-stack : stack root ≡ []
unfolding stack split push_elements push_element text_eq
root-stack = refl

nil-stack : stack [] ≡ []
unfolding stack split push_elements push_element text_eq
nil-stack = refl

printed-nil : (p : Text) → stack p ≡ [] → printed p ≡ dot
unfolding join text_eq
printed-nil p h = rw h

clean-rooted : (p : Text) → is_rooted p ≡ true → filepath_clean p ≡ slash ∷ join (reverse (stack p))
unfolding filepath_clean
clean-rooted p e = rw e

clean-relative : (p : Text) → is_rooted p ≡ false → filepath_clean p ≡ printed p
unfolding filepath_clean
clean-relative p e = rw e

strip_root-clean : (p : Text) → strip_root (filepath_clean p) ≡ printed p
strip_root-clean p = elim (Bool-cases (is_rooted p)) [
  | inl e ↦ ap strip_root (clean-rooted p e) ∙ strip_root-rooted (join (reverse (stack p)))
  | inr e ↦
      ap strip_root (clean-relative p e)
      ∙ strip_root-relative (join (reverse (stack p)))
          (join-reverse-not-rooted (is_rooted p) (stack p) (stack-IsStack p))
]

stack-slash : (s : Text) → stack (slash ∷ s) ≡ push_elements true [] (split s)
unfolding stack split push_elements push_element text_eq
stack-slash s = refl

stack-rooted : (ws : List Text) → IsStack true ws → stack (slash ∷ join (reverse ws)) ≡ ws
stack-rooted [] h = unfold stack split push_elements push_element join text_eq in refl
stack-rooted (w ∷ ws) h =
    stack-slash (join (reverse (w ∷ ws)))
    ∙ ap (push_elements true []) (join-reverse true w ws h).2
    ∙ push_elements-reverse true (w ∷ ws) h

-- filepath.Clean keeps the elements that lexical processing leaves.
pub filepath_clean-stack : (p : Text) → stack (filepath_clean p) ≡ stack p
filepath_clean-stack p = elim (Bool-cases (is_rooted p)) [
  | inl e ↦
      ap stack (clean-rooted p e)
      ∙ stack-rooted (stack p) (subst (λ r. IsStack r (stack p)) e (stack-IsStack p))
  | inr e ↦ ap stack (clean-relative p e) ∙ stack-or_dot (is_rooted p) (stack p) (stack-IsStack p)
]

-- The result is printed from the elements of the path, whether it is rooted or not.
pub clean_path-printed : (p : Text) → clean_path p ≡ printed p
unfolding clean_path
clean_path-printed p =
    let special = λ (q : Text) (e : p ≡ q) (h : stack q ≡ []). printed-nil p (ap stack e ∙ h) in
    elim (Bool-cases (text_eq p dot)) [
      | inl e ↦ rw e (sym (special dot ((text_eq_iff p dot).0 e) dot-stack))
      | inr e₁ ↦ elim (Bool-cases (text_eq p root)) [
        | inl e ↦ rw (e₁, e) (sym (special root ((text_eq_iff p root).0 e) root-stack))
        | inr e₂ ↦ elim (Bool-cases (text_eq p [])) [
          | inl e ↦ rw (e₁, e₂, e) (sym (special [] ((text_eq_iff p []).0 e) nil-stack))
          | inr e₃ ↦ rw (e₁, e₂, e₃) (strip_root-clean p)
        ]
      ]
    ]

-- CleanPath keeps the elements that lexical processing leaves.
pub clean_path-stack : (p : Text) → stack (clean_path p) ≡ stack p
clean_path-stack p =
    ap stack (clean_path-printed p) ∙ stack-or_dot (is_rooted p) (stack p) (stack-IsStack p)

-- CleanPath is a normal form: cleaning a cleaned path changes nothing.
pub clean_path_idem : (p : Text) → clean_path (clean_path p) ≡ clean_path p
clean_path_idem p =
    clean_path-printed (clean_path p)
    ∙ ap (λ ws. or_dot (join (reverse ws))) (clean_path-stack p)
    ∙ sym (clean_path-printed p)

-- "." or elements joined by slashes, each non-empty, without a slash and not ".", with ".." only
-- at the front.
abbrev pub IsClean : Text → Type 0
IsClean p = (ws : List Text) × IsStack false ws × (p ≡ or_dot (join (reverse ws)))

-- CleanPath returns "." or a relative path of non-empty elements with no slash and no ".", in
-- which ".." stands only at the front.
pub clean_path-IsClean : (p : Text) → IsClean (clean_path p)
clean_path-IsClean p =
    (stack p, IsStack-relative (is_rooted p) (stack p) (stack-IsStack p), clean_path-printed p)

pub clean_path_of_clean : (p : Text) → IsClean p → clean_path p ≡ p
clean_path_of_clean p (ws, h, e) =
    clean_path-printed p
    ∙ ap (λ us. or_dot (join (reverse us))) (ap stack e ∙ stack-or_dot false ws h)
    ∙ sym e
