-- ===== src/Tags.antt =====
-- SanitizeTags of tags_manager/tags_mapping.go, with its tables. The regular expressions and
-- sort.Strings are arguments; the map of sanitized tags is an association list.
pub mod Tables
pub mod Final
pub mod Replaced
mod Examples
use ytsync.Base.{
  ℕ, String, Bool, true, false, not, Option, none, some, List, [], ◌∷◌, ◌++◌, Dict, insert, delete,
  lookup, any, str_eq, ltb, byte_len, if◌then◌else◌, Result, ok, err,
}
use ytsync.Tags.Tables.{tags_to_skip, map_and_replace, map_and_keep, channel_wide_tags}

-- The replacements of normalizeTag, and its test for characters that no tag may have.
pub record TagTexts : Type 0 where
  pub to_lower : String → String
  pub without_hash_tags : String → String
  pub without_parentheses : String → String
  pub without_odd_ends : String → String
  pub with_single_spaces : String → String
  pub trimmed : String → String
  pub has_weird_chars : String → Bool

abbrev pub tag_max_length : ℕ
tag_max_length = 50

-- normalizeTag; its error is always nil.
unfoldable pub normalize_tag : TagTexts → String → String
unfolding byte_len
normalize_tag texts tag =
    let t = texts.trimmed (
      texts.with_single_spaces (
        texts.without_odd_ends
          (texts.without_parentheses (texts.without_hash_tags (texts.to_lower tag))))) in
    if texts.has_weird_chars t then "" else if ltb tag_max_length (byte_len t) then "" else t

unfoldable pub unsanitized : TagTexts → List String → List String
unsanitized texts [] = []
unsanitized texts (tag ∷ tags) =
    let t = normalize_tag texts tag in
    let ts = unsanitized texts tags in if str_eq t "" then ts else t ∷ ts

-- The sanitized tags, and whether they are curated.
abbrev pub Sanitized : Type 0
Sanitized = Dict Bool

unfoldable pub cleanup : List String → Sanitized → Sanitized
cleanup [] d = d
cleanup (t ∷ ts) d = cleanup ts (if any (λ s. str_eq s t) tags_to_skip then d else insert t false d)

abbrev pub replace_one : String → Option String → Sanitized → Sanitized
replace_one t none d = d
replace_one t (some match_) d = insert match_ true (delete t d)

unfoldable pub replace : List String → Sanitized → Sanitized
replace [] d = d
replace (t ∷ ts) d = replace ts (replace_one t (lookup t map_and_replace) d)

abbrev pub add_one : String → Option String → Sanitized → Sanitized
add_one t none d = d
add_one t (some match_) d = insert t false (insert match_ true d)

unfoldable pub add_matches : List String → Sanitized → Sanitized
add_matches [] d = d
add_matches (t ∷ ts) d = add_matches ts (add_one t (lookup t map_and_keep) d)

abbrev pub add_curated : List String → Sanitized → Sanitized
add_curated [] d = d
add_curated (t ∷ ts) d = add_curated ts (insert t true d)

abbrev pub tags_for_channel : Option (List String) → List String
tags_for_channel none = []
tags_for_channel (some tags) = tags

-- GetTagsForChannel
unfoldable pub get_tags_for_channel : String → List String
get_tags_for_channel id = tags_for_channel (lookup id channel_wide_tags)

unfoldable pub add : List String → String → Sanitized → Sanitized
add ts channel_id d = add_curated (get_tags_for_channel channel_id) (add_matches ts d)

-- The tags that are curated, or those that are not.
unfoldable pub tags_of : Bool → Sanitized → List String
tags_of curated [] = []
tags_of curated ((t, b) ∷ rest) =
    let ts = tags_of curated rest in if (if curated then b else not b) then t ∷ ts else ts

unfoldable pub sanitized_of : List String → String → Sanitized
sanitized_of ts channel_id = add ts channel_id (replace ts (cleanup ts []))

unfoldable pub sanitize_tags :
    TagTexts → (List String → List String) → List String → String → List String
sanitize_tags texts sort tags channel_id =
    let d = sanitized_of (unsanitized texts tags) channel_id in
    sort (tags_of true d) ++ sort (tags_of false d)
