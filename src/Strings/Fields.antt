-- ===== src/Strings/Fields.antt =====
-- Fields and lines are read back as they were printed.
use artifact_fs_extropic.Base.{
  arith, ℕ, ◌≡◌, ◌≢◌, refl, sym, ap, ◌∙◌, false, List, [], ◌∷◌, ◌++◌, some, Text, nat_eq, All,
}
use artifact_fs_extropic.Strings.{is_space, end_field, fields_from, fields, cut, split_at}
use mathlib.Core.List.{append_assoc, append-nil}

-- A word has no white space.
abbrev pub IsWord : Text → Type 0
IsWord w = (w ≢ []) × All (λ c. is_space c ≡ false) w

fields_from-word :
    (v w s : Text)
    → All (λ c. is_space c ≡ false) w
    → fields_from v (w ++ s) ≡ fields_from (v ++ w) s
unfolding fields_from
fields_from-word v [] s h = ap (λ x. fields_from x s) (sym (append-nil v))
fields_from-word v (c ∷ w) s h = rw (h.0) (
    fields_from-word (v ++ (c ∷ [])) w s h.1
    ∙ ap (λ x. fields_from x s) (append_assoc v (c ∷ []) w))

end_word : (w : Text) (ws : List Text) → w ≢ [] → end_field w ws ≡ w ∷ ws
end_word [] ws h = absurd (h refl)
end_word (c ∷ w) ws h = refl

pub fields-last : (w : Text) → IsWord w → fields w ≡ w ∷ []
unfolding fields fields_from
fields-last w (full, h) =
    ap (fields_from []) (sym (append-nil w)) ∙ fields_from-word [] w [] h ∙ end_word w [] full

pub fields-cons : (w s : Text) → IsWord w → fields (w ++ b' ' ∷ s) ≡ w ∷ fields s
unfolding fields fields_from
fields-cons w s (full, h) = fields_from-word [] w (b' ' ∷ s) h ∙ end_word w (fields_from [] s) full

-- No byte of a text is the given one.
abbrev pub IsFree : ℕ → Text → Type 0
IsFree sep s = All (λ c. nat_eq c sep ≡ false) s

pub cut-append : (sep : ℕ) (a b : Text) → IsFree sep a → cut sep (a ++ sep ∷ b) ≡ some (a, b)
unfolding cut
cut-append sep [] b h = ground arith
cut-append sep (c ∷ a) b h = rw (h.0) (rw (cut-append sep a b h.1) refl)

pub split_at-append :
    (sep : ℕ) (a b : Text) → IsFree sep a → split_at sep (a ++ sep ∷ b) ≡ a ∷ split_at sep b
unfolding split_at
split_at-append sep [] b h = ground arith
split_at-append sep (c ∷ a) b h = rw (h.0) (rw (split_at-append sep a b h.1) refl)
