-- ===== src/Namer/Examples.antt =====
-- Names from the titles of namer/names_test.go, and GetNextName on names that are taken.
use ytsync.Base.{
  Char, String, ◌≡◌, refl, true, false, some, List, [], ◌∷◌, insert, has_key, length, byte_len,
}
use ytsync.Namer.{
  Names, get_claim_name_from_title, get_next_name, itoa, truncate_unicode, hash_name, take_runes,
}
use ytsync.Namer.Fresh.{next_names, next_names_total, AllNew, AllDifferent}

-- Titles without capitals, so that no case table is needed.
abbrev same : Char → Char
same c = c

abbrev no_hash : String → String
no_hash s = "0123456789abcdef"

sanitized : get_claim_name_from_title same "wtf-*aaa" 0 ≡ "wtf-aaa"
unfolding get_claim_name_from_title byte_len itoa truncate_unicode
sanitized = refl

second_attempt : get_claim_name_from_title same "test-@" 2 ≡ "test-2"
unfolding get_claim_name_from_title byte_len itoa truncate_unicode
second_attempt = refl

long_title :
    get_claim_name_from_title same "aaaaaaaaaaaaaaaaaaaaaaaaaaaaaaaaaaaaaaaaaaaaaaaaaaaaaaa" 50
    ≡ "aaaaaaaaaaaaaaaaaaaaaaaaaaaaaaaaaaaaa-50"
unfolding get_claim_name_from_title byte_len itoa truncate_unicode
long_title = refl

hashed :
    get_next_name same no_hash "@" [] ≡ some ("0123456789abcde-1", ("0123456789abcde-1", true) ∷ [])
unfolding get_next_name has_key insert get_claim_name_from_title byte_len itoa hash_name take_runes
hashed = refl

abbrev taken : Names
taken = ("test", true) ∷ ("test-2", false) ∷ []

next_names_total_example :
    (found : List String) × (final : Names) × (next_names same no_hash ("test" ∷ "test" ∷ []) taken
      ≡ some (found, final))
    × (length found ≡ 2)
    × AllNew taken found
    × AllDifferent found
next_names_total_example = next_names_total same no_hash ("test" ∷ "test" ∷ []) taken
