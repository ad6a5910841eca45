-- ===== src/Strings.antt =====
-- What the program uses of Go's packages strings and strconv to read what git prints. White space is
-- that of ASCII, as git prints it between fields.
pub mod Fields
use artifact_fs_extropic.Base.{
  ℕ, ◌+◌, ◌*◌, ◌-◌, ◌^◌, ◌≡◌, Bool, true, false, not, ◌&&◌, ◌||◌, List, [], ◌∷◌, ◌++◌, reverse,
  Option, none, some, Text, nat_eq, ltb, leb, if◌then◌else◌, ℤ, pos, negsuc,
}
use artifact_fs_extropic.Path.{cons_first}

-- unicode.IsSpace on a byte of ASCII
abbrev pub is_space : ℕ → Bool
is_space c = nat_eq c b' ' || (leb 9 c && leb c 13)

-- strings.TrimSpace
unfoldable pub trim_left : Text → Text
trim_left [] = []
trim_left (c ∷ s) = let rest = trim_left s in if is_space c then rest else c ∷ s

unfoldable pub trim_space : Text → Text
unfolding trim_left
trim_space s = reverse (trim_left (reverse (trim_left s)))

-- strings.Fields: the field that is being read, if any, and the rest
abbrev pub end_field : Text → List Text → List Text
end_field [] ws = ws
end_field (c ∷ w) ws = (c ∷ w) ∷ ws

unfoldable pub fields_from : Text → Text → List Text
fields_from w [] = end_field w []
fields_from w (c ∷ s) =
    let ended = end_field w (fields_from [] s) in
    let longer = fields_from (w ++ (c ∷ [])) s in if is_space c then ended else longer

unfoldable pub fields : Text → List Text
unfolding fields_from
fields s = fields_from [] s

-- strings.Split(s, sep) for a byte `sep`
unfoldable pub split_at : ℕ → Text → List Text
split_at sep [] = [] ∷ []
split_at sep (c ∷ s) = if nat_eq c sep then [] ∷ split_at sep s else cons_first c (split_at sep s)

-- strings.SplitN(s, sep, 2): the two parts, if the separator is there
abbrev pub cons_cut : ℕ → Option (Text × Text) → Option (Text × Text)
cons_cut c none = none
cons_cut c (some (before, after)) = some (c ∷ before, after)

unfoldable pub cut : ℕ → Text → Option (Text × Text)
cut sep [] = none
cut sep (c ∷ s) = if nat_eq c sep then some ([], s) else cons_cut c (cut sep s)

-- The digits of a number in a base up to ten.
unfoldable pub digits_from : ℕ → ℕ → Text → Option ℕ
digits_from base n [] = some n
digits_from base n (c ∷ s) =
    let rest = digits_from base (n * base + (c - b'0')) s in
    if leb b'0' c && ltb (c - b'0') base then rest else none

unfoldable pub digits : ℕ → Text → Option ℕ
unfolding digits_from
digits base [] = none
digits base (c ∷ s) = digits_from base 0 (c ∷ s)

abbrev pub in_int64 : Bool → ℕ → Option ℤ
in_int64 false n = if ltb n (2 ^ 63) then some (pos n) else none
in_int64 true n =
    if nat_eq n 0 then some (pos 0) else if leb n (2 ^ 63) then some (negsuc (n - 1)) else none

abbrev pub signed : Bool → Option ℕ → Option ℤ
signed minus none = none
signed minus (some n) = in_int64 minus n

-- strconv.ParseInt(s, 10, 64)
unfoldable pub parse_int : Text → Option ℤ
unfolding digits
parse_int [] = none
parse_int (c ∷ s) =
    if nat_eq c b'-'
    then signed true (digits 10 s)
    else if nat_eq c b'+'
    then signed false (digits 10 s)
    else signed false (digits 10 (c ∷ s))

-- The value of strconv.ParseUint(s, 8, 32) with its error dropped: the largest one where it is too large.
abbrev pub clamp_uint32 : Option ℕ → ℕ
clamp_uint32 none = 0
clamp_uint32 (some n) = if ltb n (2 ^ 32) then n else 2 ^ 32 - 1

unfoldable pub parse_octal : Text → ℕ
unfolding digits
parse_octal s = clamp_uint32 (digits 8 s)

-- strings.ReplaceAll(s, old, new) for one byte `old`
unfoldable pub replace_byte : ℕ → Text → Text → Text
replace_byte old new [] = []
replace_byte old new (c ∷ s) =
    if nat_eq c old then new ++ replace_byte old new s else c ∷ replace_byte old new s

-- The value of strconv.Atoi(s) with its error dropped.
abbrev pub clamp_int : Bool → Option ℕ → ℤ
clamp_int minus none = pos 0
clamp_int false (some n) = if ltb n (2 ^ 63) then pos n else pos (2 ^ 63 - 1)
clamp_int true (some n) =
    if nat_eq n 0 then pos 0 else if leb n (2 ^ 63) then negsuc (n - 1) else negsuc (2 ^ 63 - 1)

unfoldable pub atoi : Text → ℤ
unfolding digits
atoi [] = pos 0
atoi (c ∷ s) =
    if nat_eq c b'-'
    then clamp_int true (digits 10 s)
    else if nat_eq c b'+'
    then clamp_int false (digits 10 s)
    else clamp_int false (digits 10 (c ∷ s))
