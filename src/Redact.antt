-- ===== src/Redact.antt =====
-- internal/auth/redact.go: how credentials are taken out of URLs and messages. The expression
-- tokenLike and net/url are parameters.
pub mod Hides
pub mod Tests
use artifact_fs_extropic.Base.{
  Bool, true, false, List, [], ◌∷◌, ◌++◌, map, Option, none, some, Text, text, Text_eq, ◌==◌,
  if◌then◌else◌,
}
use artifact_fs_extropic.Strings.{split_at}
use artifact_fs_extropic.Path.{contains}

-- A parsed URL: the user and the password, if it has them, the query, and all else.
pub record Url : Type 0 where
  pub user : Option (Text × Option Text)
  pub query : Text
  pub others : Text

pub record Redaction : Type 0 where
  -- tokenLike.ReplaceAllString(s, "$1=REDACTED")
  pub replace_tokens : Text → Text
  -- url.Parse, and String of what it gives
  pub parse_url : Text → Option Url
  pub print_url : Url → Text

-- url.User("REDACTED"), where there is a username or a password
abbrev pub redact_user : Option (Text × Option Text) → Option (Text × Option Text)
redact_user none = none
redact_user (some (username, none)) =
    if username == [] then some ([], none) else some (text "REDACTED", none)
redact_user (some (_, some _)) = some (text "REDACTED", none)

abbrev pub scheme_mark : Text
scheme_mark = text "://"

-- strings.Join(parts, " ")
unfoldable pub join_words : List Text → Text
join_words [] = []
join_words (w ∷ []) = w
join_words (w ∷ v ∷ ws) = w ++ b' ' ∷ join_words (v ∷ ws)

module _ (rules : Redaction) where
  abbrev pub redact_url : Url → Url
  redact_url u = record u {
    user = redact_user u.user;
    query = if u.query == [] then [] else rules.replace_tokens u.query;
  }

  -- RedactRemoteURL
  unfoldable pub redact_remote_url : Text → Text
  redact_remote_url raw = if raw == [] then [] else elim (rules.parse_url raw) [
    | none ↦ rules.replace_tokens raw
    | some u ↦ rules.print_url (redact_url u)
  ]

  abbrev pub redact_word : Text → Text
  redact_word w = if contains scheme_mark w then redact_remote_url w else w

  -- RedactString
  unfoldable pub redact_string : Text → Text
  unfolding redact_remote_url join_words
  redact_string s =
      if s == []
      then []
      else let t = rules.replace_tokens s in
        if contains scheme_mark t then join_words (map redact_word (split_at b' ' t)) else t
