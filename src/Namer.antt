-- ===== src/Namer.antt =====
-- namer/names.go: claim names from video titles. A Go string is a text of code points; the case
-- table of Unicode (`lower`) and MD5 in hexadecimal (`md5_hex`) are arguments. The map of names is
-- an association list. Attempts are numbers without bound.
pub mod Decimal
pub mod Title
pub mod Fresh
pub mod Length
mod Examples
use ytsync.Base.{
  ℕ, zero, suc, ◌+◌, ◌-◌, Char, code, String, ◌⧺◌, byte_len, Bool, true, false, ◌&&◌, ◌||◌, Option,
  none, some, List, [], ◌∷◌, length, any, ltb, leb, ◌==◌, if◌then◌else◌, insert, has_key,
}
unfoldable pub use Decimal.{itoa}
unfoldable pub use Title.{replace_chars, trim_dashes, split_dash, take_runes, truncate_unicode}

-- The loop over the chunks after the first; `40 - len(suffix)` is the source's maxLen.
unfoldable pub add_chunks : String → String → List String → String
add_chunks suffix name [] = name
add_chunks suffix name (chunk ∷ chunks) =
    let tmp_name = name ⧺ "-" ⧺ chunk in
    let skipped = add_chunks suffix name chunks in
    let longer = add_chunks suffix tmp_name chunks in
    if byte_len chunk == 0
    then skipped
    else if ltb 40 (byte_len tmp_name + byte_len suffix)
    then if ltb (byte_len name) 20
      then truncate_unicode tmp_name (40 - byte_len suffix - byte_len name)
      else name
    else longer

unfoldable pub suffix_of : ℕ → String
suffix_of attempt = if ltb 1 attempt then "-" ⧺ itoa attempt else ""

unfoldable pub join_chunks : String → List String → String
unfolding add_chunks
join_chunks suffix [] = suffix
join_chunks suffix (name ∷ chunks) =
    if ltb 40 (byte_len name + byte_len suffix)
    then truncate_unicode name (40 - byte_len suffix) ⧺ suffix
    else add_chunks suffix name chunks ⧺ suffix

abbrev pub Names : Type 0
Names = List (String × Bool)

module _ (lower : Char → Char) where
  abbrev pub to_lower : String → String
  to_lower String.[] = String.[]
  to_lower (String.◌∷◌ c s) = String.◌∷◌ (lower c) (to_lower s)

  unfoldable pub get_claim_name_from_title : String → ℕ → String
  unfolding join_chunks suffix_of replace_chars trim_dashes split_dash
  get_claim_name_from_title title attempt =
      join_chunks (suffix_of attempt) (split_dash (to_lower (trim_dashes (replace_chars title))))

-- `for { name = f(attempt); if !exists { break }; attempt++ }` on fuel.
unfoldable pub first_unused : ℕ → (ℕ → String) → Names → ℕ → Option String
first_unused zero f names attempt = none
first_unused (suc fuel) f names attempt =
    let rest = first_unused fuel f names (suc attempt) in
    if has_key (f attempt) names then rest else some (f attempt)

module _ (lower : Char → Char) (md5_hex : String → String) where
  unfoldable pub hash_name : String → ℕ → String
  hash_name prefix attempt = take_runes 15 (md5_hex prefix) ⧺ "-" ⧺ itoa attempt

  -- One attempt more than there are names, and the first attempt, are fuel enough (Fresh).
  abbrev pub name_fuel : Names → ℕ
  name_fuel names = suc (suc (length names))

  or_hash : String → Names → Option String → Option String
  or_hash prefix names none = none
  or_hash prefix names (some name) =
      if ltb (byte_len name) 2
      then first_unused (name_fuel names) (hash_name prefix) names 1
      else some name

  record_name : Names → Option String → Option (String × Names)
  record_name names none = none
  record_name names (some name) = some (name, insert name true names)

  -- GetNextName, which holds the lock of the namer.
  unfoldable pub get_next_name : String → Names → Option (String × Names)
  unfolding first_unused or_hash record_name
  get_next_name prefix names = record_name names (
      or_hash prefix names
        (first_unused (name_fuel names) (get_claim_name_from_title lower prefix) names 1))
