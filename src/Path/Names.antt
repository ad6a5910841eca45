-- ===== src/Path/Names.antt =====
-- Repository names and the children of a directory.
use artifact_fs_extropic.Base.{
  ◌≡◌, ◌≢◌, refl, sym, ap, ◌∙◌, inl, inr, Bool, false, List, Option, [], ◌∷◌, ◌++◌, Text, text_eq,
  text_eq_iff, nat_eq, ◌==◌, Text_eq, if◌then◌else◌, Bool-cases, arith, none, some, ◌||◌, any, ok,
}
use artifact_fs_extropic.Path.{
  slash, dot, dot_dot, split, push_element, push_elements, stack, is_rooted, cut_prefix, cut_before,
  first_name, filepath_clean, filepath_join, validate_repo_name, child_name, contains,
}
use artifact_fs_extropic.Path.Clean.{filepath_clean-stack}
use artifact_fs_extropic.Path.Components.{
  IsSlashFree, split-append, split_element, push_elements-append,
}

-- The elements of a joined path, for an element that filepath.Clean keeps as it is.
abbrev pub IsPlain : Text → Type 0
IsPlain w = (w ≢ []) × (w ≢ dot) × (w ≢ dot_dot) × IsSlashFree w

is_rooted-append : (a b : Text) → a ≢ [] → is_rooted (a ++ b) ≡ is_rooted a
is_rooted-append [] b h = absurd (h refl)
is_rooted-append (c ∷ a) b h = refl

push_plain :
    (r : Bool) (ws : List Text) (w : Text) → IsPlain w → push_elements r ws (w ∷ []) ≡ w ∷ ws
unfolding push_elements push_element
push_plain r ws w h = ground (arith, text_eq_iff w [], text_eq_iff w dot, text_eq_iff w dot_dot)

stack-append : (a w : Text) → a ≢ [] → IsPlain w → stack (a ++ slash ∷ w) ≡ w ∷ stack a
unfolding stack
stack-append a w h p =
    rw
      (
        is_rooted-append a (slash ∷ w) h,
        split-append a w,
        split_element w p.3,
        push_elements-append (is_rooted a) [] (split a) (w ∷ []),
      )
      (push_plain (is_rooted a) (stack a) w p)

-- cut_prefix finds the rest exactly of the texts that start with the prefix.
pub cut_prefix-append : (p s : Text) → cut_prefix p (p ++ s) ≡ some s
unfolding cut_prefix
cut_prefix-append [] s = refl
cut_prefix-append (c ∷ p) s = ground (arith, cut_prefix-append p s)

pub cut_prefix_sound : (p t s : Text) → cut_prefix p t ≡ some s → t ≡ p ++ s
unfolding cut_prefix
cut_prefix_sound [] t s h = ground arith
cut_prefix_sound (c ∷ p) [] s h = cc
cut_prefix_sound (c ∷ p) (d ∷ t) s h = ground (arith, cut_prefix_sound p t s)

-- What follows the first element of a relative path: nothing, or a slash and more.
abbrev pub IsRest : Text → Type 0
IsRest [] = Unit
IsRest (c ∷ s) = c ≡ slash

cut_before-append : (w s : Text) → IsSlashFree w → IsRest s → cut_before slash (w ++ s) ≡ w
unfolding cut_before
cut_before-append [] [] h r = refl
cut_before-append [] (c ∷ s) h r = ground arith
cut_before-append (c ∷ w) s h r = ground (arith, cut_before-append w s h.1 r)

cut_before_sound :
    (t : Text)
    → (s : Text) × (t ≡ cut_before slash t ++ s) × IsSlashFree (cut_before slash t) × IsRest s
unfolding cut_before
cut_before_sound [] = ([], refl, tt, tt)
cut_before_sound (c ∷ t) = elim (Bool-cases (nat_eq c slash)) [
  | inl e ↦ (c ∷ t, rw e refl, rw e tt, ground arith)
  | inr e ↦
      let (s, q, f, r) = cut_before_sound t in (s, rw e (ap (◌∷◌ c) q), rw e (ground arith, f), r)
]

-- The text in front of the children of a directory.
abbrev pub below : Text → Text
below parent = if parent == dot then [] else parent ++ slash ∷ []

cut_prefix-nil : (t : Text) → cut_prefix [] t ≡ some t
unfolding cut_prefix
cut_prefix-nil t = refl

child_name_lem : (parent p : Text) → child_name parent p ≡ first_name (cut_prefix (below parent) p)
child_name_lem parent p = elim (Bool-cases (text_eq parent dot)) [
  | inl e ↦ (unfold child_name cut_prefix in rw e)
  | inr e ↦ unfold child_name in rw e
]

-- childName finds the name of a child, and of a path below it, for a name that is not empty and
-- has no slash.
pub child_name-below :
    (parent name rest : Text)
    → name ≢ []
    → IsSlashFree name
    → IsRest rest
    → child_name parent (below parent ++ (name ++ rest)) ≡ some name
child_name-below parent [] rest n f r = absurd (n refl)
child_name-below parent (c ∷ name) rest n f r =
    child_name_lem parent (below parent ++ ((c ∷ name) ++ rest))
    ∙ ap first_name (cut_prefix-append (below parent) ((c ∷ name) ++ rest))
    ∙ unfold text_eq in ap some (cut_before-append (c ∷ name) rest f r)

first_name_sound :
    (r : Option Text) (name : Text)
    → first_name r ≡ some name
    → (t rest : Text) × (r ≡ some t) × (t ≡ name ++ rest) × IsSlashFree name × IsRest rest
first_name_sound none name h = cc
first_name_sound (some t) name h =
    let (s, q, f, r) = cut_before_sound t in
    let e : cut_before slash t ≡ name = ground (arith, text_eq_iff t []) in
    (t, s, refl, rw e at q, rw e at f, r)

-- A name that childName returns is an element without slash that follows the directory in the
-- path, with nothing or a slash after it.
pub child_name_sound :
    (parent path name : Text)
    → child_name parent path ≡ some name
    → (rest : Text) × (path ≡ below parent ++ (name ++ rest)) × IsSlashFree name × IsRest rest
child_name_sound parent path name h =
    let (t, rest, e, q, f, r) =
      first_name_sound (cut_prefix (below parent) path) name
        (sym (child_name_lem parent path) ∙ h) in
    (rest, cut_prefix_sound (below parent) path t e ∙ ap (λ u. below parent ++ u) q, f, r)

-- A name that ValidateRepoName accepts.
contains_prefix : (sub s : Text) → contains sub s ≡ false → cut_prefix sub s ≡ none
unfolding contains
contains_prefix sub [] h = ground arith
contains_prefix sub (c ∷ s) h = ground arith

any-IsSlashFree : (w : Text) → any (λ c. nat_eq c slash || nat_eq c b'\\') w ≡ false → IsSlashFree w
unfolding any
any-IsSlashFree [] h = tt
any-IsSlashFree (c ∷ w) h = ground (arith, any-IsSlashFree w)

validate_repo_name-IsPlain :
    (name : Text) → name ≢ dot → validate_repo_name name ≡ ok tt → IsPlain name
unfolding validate_repo_name
validate_repo_name-IsPlain name n h = (
  λ e. ground (arith, text_eq_iff name []),
  n,
  λ e. ground (arith, text_eq_iff name dot_dot),
  any-IsSlashFree name (ground arith),
)

filepath_join-stack :
    (a b : Text) → a ≢ [] → b ≢ [] → stack (filepath_join a b) ≡ stack (a ++ slash ∷ b)
unfolding filepath_join
filepath_join-stack a b p q =
    let joined : filepath_join a b ≡ filepath_clean (a ++ slash ∷ b) =
      ground (arith, text_eq_iff a [], text_eq_iff b []) in
    ap stack joined ∙ filepath_clean-stack (a ++ slash ∷ b)

-- A name that ValidateRepoName accepts, other than ".", is one plain element of a path: joined to
-- a directory it adds exactly itself to the elements of the directory.
pub validate_repo_name-join :
    (dir name : Text)
    → dir ≢ []
    → name ≢ dot
    → validate_repo_name name ≡ ok tt
    → stack (filepath_join dir name) ≡ name ∷ stack dir
validate_repo_name-join dir name d n h =
    let plain = validate_repo_name-IsPlain name n h in
    filepath_join-stack dir name d plain.0 ∙ stack-append dir name d plain
