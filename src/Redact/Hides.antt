-- ===== src/Redact/Hides.antt =====
-- internal/auth/redact.go: what a redacted message does not depend on.
use artifact_fs_extropic.Base.{
  arith, ◌≡◌, refl, true, false, List, [], ◌∷◌, map, Option, none, some, Text, text, Text_eq, ◌==◌,
}
use artifact_fs_extropic.Strings.{split_at}
use artifact_fs_extropic.Path.{contains}
use artifact_fs_extropic.Redact.{
  Url, Redaction, redact_user, scheme_mark, redact_url, redact_remote_url, redact_word,
  redact_string,
}

-- A user with a name or with a password.
pub data IsNamed : Option (Text × Option Text) → Type 0 where
  by_name : (username : Text) → (username == []) ≡ false → IsNamed (some (username, none))
  by_password : (username password : Text) → IsNamed (some (username, some password))

-- URLs that are the same but for their credentials.
pub record SameButUser (u u' : Url) : Type 0 where
  pub named : IsNamed u.user
  pub named' : IsNamed u'.user
  pub query : u.query ≡ u'.query
  pub others : u.others ≡ u'.others

redact_user-named :
    (x : Option (Text × Option Text)) → IsNamed x → redact_user x ≡ some (text "REDACTED", none)
redact_user-named _ (by_name username h) = ground (arith, h)
redact_user-named _ (by_password username password) = refl

module _ (rules : Redaction) where
  -- Words that are the same, or URLs that are the same but for their credentials.
  pub data Alike : Text → Text → Type 0 where
    same : (w : Text) → Alike w w
    urls :
        (w w' : Text) (u u' : Url)
        → (w == []) ≡ false
        → (w' == []) ≡ false
        → contains scheme_mark w ≡ true
        → contains scheme_mark w' ≡ true
        → rules.parse_url w ≡ some u
        → rules.parse_url w' ≡ some u'
        → SameButUser u u'
        → Alike w w'

  pub data AllAlike : List Text → List Text → Type 0 where
    no_words : AllAlike [] []
    word :
        (w w' : Text) (ws ws' : List Text)
        → Alike w w'
        → AllAlike ws ws'
        → AllAlike (w ∷ ws) (w' ∷ ws')

  redact_url-same : (u u' : Url) → SameButUser u u' → redact_url rules u ≡ redact_url rules u'
  redact_url-same u u' h = ground (
    arith,
    redact_user-named u.user h.named,
    redact_user-named u'.user h.named',
    h.query,
    h.others,
  )

  redact_word-Alike : (w w' : Text) → Alike w w' → redact_word rules w ≡ redact_word rules w'
  unfolding redact_remote_url
  redact_word-Alike _ _ (same w) = refl
  redact_word-Alike _ _ (urls w w' u u' n n' c c' p p' h) =
      rw (c, c', n, n', p, p', redact_url-same u u' h)

  redact_words-Alike :
      (ws ws' : List Text)
      → AllAlike ws ws'
      → map (redact_word rules) ws ≡ map (redact_word rules) ws'
  redact_words-Alike _ _ no_words = refl
  redact_words-Alike _ _ (word w w' ws ws' h hs) =
      rw (redact_word-Alike w w' h, redact_words-Alike ws ws' hs)

  -- If two messages are not empty and contain "://" once the tokens in them are replaced, and
  -- their words are then the same one by one, but for the credentials of URLs with a username or a
  -- password, RedactString gives the same for both: it shows nothing of these credentials.
  pub redact_string-hides :
      (s s' : Text)
      → (s == []) ≡ false
      → (s' == []) ≡ false
      → contains scheme_mark (rules.replace_tokens s) ≡ true
      → contains scheme_mark (rules.replace_tokens s') ≡ true
      → AllAlike (split_at b' ' (rules.replace_tokens s)) (split_at b' ' (rules.replace_tokens s'))
      → redact_string rules s ≡ redact_string rules s'
  unfolding redact_string
  redact_string-hides s s' n n' c c' h = rw (n, n', c, c', redact_words-Alike _ _ h)
