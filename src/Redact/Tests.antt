-- ===== src/Redact/Tests.antt =====
-- The theorem on redacted messages, at two messages with a URL each, and what they become.
use artifact_fs_extropic.Base.{
  ◌≡◌, refl, [], ◌++◌, Option, none, some, Text, text, Text_eq, text_eq,
}
use artifact_fs_extropic.Strings.{cut, split_at}
use artifact_fs_extropic.Path.{contains, cut_prefix}
use artifact_fs_extropic.Redact.{Url, Redaction, join_words, redact_remote_url, redact_string}
use artifact_fs_extropic.Redact.Hides.{
  by_name, Alike, same, urls, AllAlike, no_words, word, redact_string-hides,
}

-- URLs of the form https://user@rest, and no tokens.
abbrev url_of : Text → Option (Text × Text) → Url
url_of rest none = record { user = none; query = []; others = rest }
url_of _ (some (user, rest)) = record { user = some (user, none); query = []; others = rest }

abbrev parsed : Option Text → Option Url
parsed none = none
parsed (some rest) = some (url_of rest (cut b'@' rest))

abbrev shown_user : Option (Text × Option Text) → Text
shown_user none = []
shown_user (some (user, _)) = user ++ text "@"

abbrev sample : Redaction
sample = record {
  replace_tokens = λ s. s;
  parse_url = λ s. parsed (cut_prefix (text "https://") s);
  print_url = λ u. text "https://" ++ (shown_user u.user ++ u.others);
}

abbrev url_a : Text
url_a = text "https://abc@host/x"

abbrev url_b : Text
url_b = text "https://xyz1@host/x"

abbrev message : Text → Text
message url = text "fatal: " ++ (url ++ text " failed")

redacted_message : redact_string sample (message url_a) ≡ message (text "https://REDACTED@host/x")
unfolding redact_string redact_remote_url contains cut_prefix cut split_at join_words text_eq
redacted_message = refl

abbrev host_url : Text → Url
host_url user = record { user = some (user, none); query = []; others = text "host/x" }

urls-Alike : Alike sample url_a url_b
unfolding contains cut_prefix cut text_eq
urls-Alike =
    urls url_a url_b (host_url (text "abc")) (host_url (text "xyz1")) refl refl refl refl refl refl
      (record {
        named = by_name (text "abc") refl;
        named' = by_name (text "xyz1") refl;
        query = refl;
        others = refl;
      })

words_alike : AllAlike sample (split_at b' ' (message url_a)) (split_at b' ' (message url_b))
unfolding split_at
words_alike = word (text "fatal:") (text "fatal:") _ _ (same (text "fatal:")) (
    word url_a url_b _ _ urls-Alike
      (word (text "failed") (text "failed") _ _ (same (text "failed")) no_words))

redact_string-hides_example :
    redact_string sample (message url_a) ≡ redact_string sample (message url_b)
unfolding contains cut_prefix text_eq
redact_string-hides_example =
    redact_string-hides sample (message url_a) (message url_b) refl refl refl refl words_alike
