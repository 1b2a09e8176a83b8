-- ===== src/Namer/Title.antt =====
-- The text functions behind getClaimNameFromTitle: the two regular expressions, strings.Trim and
-- strings.Split at "-", and truncateUnicode.
use ytsync.Base.{
  ℕ, zero, suc, Char, code, String, Bool, true, false, ◌&&◌, List, [], ◌∷◌, any, ◌==◌,
  if◌then◌else◌,
}

abbrev one_of : List ℕ → Char → Bool
one_of cs c = any (λ d. code c == d) cs

-- [ =&#:$@*%？?;、\\"/<>%{}|｜^~\x60[\]\s]
abbrev pub claim_name_regexp : Char → Bool
claim_name_regexp = one_of (
    b' ' ∷ b'=' ∷ b'&' ∷ b'#' ∷ b':' ∷ b'$' ∷ b'@' ∷ b'*' ∷ b'%' ∷ 0xFF1F ∷ b'?' ∷ b';' ∷ 0x3001
    ∷ 92 ∷ 34 ∷ b'/' ∷ b'<' ∷ b'>' ∷ 123 ∷ 125 ∷ b'|' ∷ 0xFF5C ∷ b'^' ∷ b'~' ∷ 0x60 ∷ b'[' ∷ b']'
    ∷ 9 ∷ 10 ∷ 12 ∷ 13 ∷ [])

unfoldable pub replace_chars : String → String
replace_chars String.[] = String.[]
replace_chars (String.◌∷◌ c s) =
    String.◌∷◌ (if claim_name_regexp c then "-" else c) (replace_chars s)

trim_left : String → String
trim_left String.[] = String.[]
trim_left (String.◌∷◌ c s) =
    let rest = trim_left s in if code c == b'-' then rest else String.◌∷◌ c s

abbrev is_empty : String → Bool
is_empty String.[] = true
is_empty (String.◌∷◌ c s) = false

trim_right : String → String
trim_right String.[] = String.[]
trim_right (String.◌∷◌ c s) =
    let rest = trim_right s in
    if code c == b'-' && is_empty rest then String.[] else String.◌∷◌ c rest

-- strings.Trim(s, "-")
unfoldable pub trim_dashes : String → String
unfolding trim_left trim_right
trim_dashes s = trim_right (trim_left s)

abbrev prepend : Char → List String → List String
prepend c [] = String.◌∷◌ c "" ∷ []
prepend c (w ∷ ws) = String.◌∷◌ c w ∷ ws

-- strings.Split(s, "-")
unfoldable pub split_dash : String → List String
split_dash String.[] = "" ∷ []
split_dash (String.◌∷◌ c s) =
    let rest = split_dash s in if code c == b'-' then "" ∷ rest else prepend c rest

-- (&|>|<|\/|:|\n|\r)*
abbrev re_name_blacklist : Char → Bool
re_name_blacklist = one_of (b'&' ∷ b'>' ∷ b'<' ∷ b'/' ∷ b':' ∷ 10 ∷ 13 ∷ [])

remove_blacklisted : String → String
remove_blacklisted String.[] = String.[]
remove_blacklisted (String.◌∷◌ c s) =
    let rest = remove_blacklisted s in if re_name_blacklist c then rest else String.◌∷◌ c rest

-- The loop of truncateUnicode: the first `limit` code points.
unfoldable pub take_runes : ℕ → String → String
take_runes zero s = String.[]
take_runes (suc limit) String.[] = String.[]
take_runes (suc limit) (String.◌∷◌ c s) = String.◌∷◌ c (take_runes limit s)

unfoldable pub truncate_unicode : String → ℕ → String
unfolding remove_blacklisted take_runes
truncate_unicode name limit = take_runes limit (remove_blacklisted name)
