-- ===== src/Gitstore/Commands/Quoting.antt =====
-- The credential helper's command gives the shell one word with the payload, whatever it contains.
use artifact_fs_extropic.Base.{
  ℕ, ◌≡◌, refl, ap, inl, inr, [], ◌∷◌, ◌++◌, Option, none, some, Text, text, nat_eq, nat_eq_iff,
  if◌then◌else◌, Bool-cases, Bool, ◌&&◌, ◌||◌, leb, any,
}
use artifact_fs_extropic.Strings.{replace_byte}
use artifact_fs_extropic.Gitstore.Commands.{credential_helper}

abbrev cons_word : ℕ → Option (Text × Text) → Option (Text × Text)
cons_word c none = none
cons_word c (some (w, rest)) = some (c ∷ w, rest)

-- A blank, a line feed or an operator of the shell (; & | ( ) < >), which end a word.
abbrev ends_word : ℕ → Bool
ends_word c = any (nat_eq c) (text " \t\n;&|()<>")

-- A byte that the shell takes as it is outside of quotes: a letter, a digit, or one of _ - . / : = @ + , %
abbrev is_plain : ℕ → Bool
is_plain c =
    leb b'a' c && leb c b'z'
    || leb b'A' c && leb c b'Z'
    || leb b'0' c && leb c b'9'
    || any (nat_eq c) (text "_-./:=@+,%")

-- Where the shell is in a word: before its first byte, outside of quotes, in single quotes, or behind
-- a backslash.
pub data Quote : Type 0 where
  before outside inside escaped : Quote

-- A word of the shell that needs no expansion, and what follows it: a single quote begins and ends
-- what is taken as it is, and outside of it a backslash takes the next byte as it is, unless that is
-- a line feed, plain bytes stand for themselves, and a blank, a line feed or an operator ends the
-- word. There is no such word if it has no byte and no quote, if a quote is left open, or if another
-- byte is outside of quotes: the shell may expand or split there ($ ` " * ? [ ~ # and others).
unfoldable pub shell_word : Quote → Text → Option (Text × Text)
shell_word before [] = none
shell_word outside [] = some ([], [])
shell_word inside [] = none
shell_word escaped [] = none
shell_word inside (c ∷ s) =
    if nat_eq c b'\'' then shell_word outside s else cons_word c (shell_word inside s)
shell_word escaped (c ∷ s) = if nat_eq c b'\n' then none else cons_word c (shell_word outside s)
shell_word before (c ∷ s) =
    if nat_eq c b'\''
    then shell_word inside s
    else if nat_eq c b'\\'
    then shell_word escaped s
    else if is_plain c
    then cons_word c (shell_word outside s)
    else none
shell_word outside (c ∷ s) =
    if nat_eq c b'\''
    then shell_word inside s
    else if nat_eq c b'\\'
    then shell_word escaped s
    else if ends_word c
    then some ([], c ∷ s)
    else if is_plain c
    then cons_word c (shell_word outside s)
    else none

quoted_word :
    (payload : Text)
    → shell_word inside (replace_byte b'\'' (text "'\\''") payload ++ text "'; }; f")
      ≡ some (payload, text "; }; f")
unfolding shell_word replace_byte any
quoted_word [] = refl
quoted_word (c ∷ s) = elim (Bool-cases (nat_eq c b'\'')) [
  | inl quote ↦ rw (quote, (nat_eq_iff c b'\'').0 quote) (ap (cons_word b'\'') (quoted_word s))
  | inr plain ↦ rw (plain, plain) (ap (cons_word c) (quoted_word s))
]

-- Whatever bytes the credentials contain, the command of the credential helper is the call of
-- printf followed by what the shell reads as one word without expansion, the credentials
-- themselves, up to the semicolon that the code put behind it.
pub credential_helper-word :
    (payload : Text)
    → (command : Text) × (credential_helper payload ≡ text "!f() { printf '%s\\n' " ++ command)
      × (shell_word before command ≡ some (payload, text "; }; f"))
unfolding credential_helper
credential_helper-word payload =
    let body = replace_byte b'\'' (text "'\\''") payload ++ text "'; }; f" in
    (b'\'' ∷ body, refl, unfold shell_word in quoted_word payload)
