-- ===== src/Tags/Examples.antt =====
-- The tags of a video of a channel with news, two of which stand in the tables.
use ytsync.Base.{lookup, insert, delete, ◌≡◌, refl, String, true, false, List, [], ◌∷◌, has_key}
use ytsync.Tags.Tables.{tags_to_skip, channel_wide_tags, map_and_keep, map_and_replace}
use ytsync.Tags.{
  tags_of, sanitized_of, add, get_tags_for_channel, add_matches, unsanitized, normalize_tag,
  replace, cleanup, TagTexts, sanitize_tags,
}
use ytsync.Tags.Replaced.{has_tag, sanitize_tags_replaced}

abbrev same : String → String
same t = t

abbrev texts : TagTexts
texts = record {
  to_lower = same;
  without_hash_tags = same;
  without_parentheses = same;
  without_odd_ends = same;
  with_single_spaces = same;
  trimmed = same;
  has_weird_chars = λ t. false;
}

abbrev in_order : List String → List String
in_order ts = ts

abbrev tags : List String
tags = "nfl" ∷ "gaming" ∷ "video" ∷ "field" ∷ []

nfl : has_key "nfl" map_and_replace ≡ true
unfolding has_key map_and_replace
nfl = refl

sanitize_tags_replaced_example :
    has_tag "nfl" (sanitize_tags texts in_order tags "UCG749Dj4V2fKa143f8sE60Q") ≡ false
sanitize_tags_replaced_example =
    sanitize_tags_replaced texts in_order tags "UCG749Dj4V2fKa143f8sE60Q" "nfl" (λ ts. refl) nfl

-- The author's tag "gaming" loses its mark, and stands after the curated ones.
sanitized_gaming :
    sanitize_tags texts in_order ("gaming" ∷ "nfl" ∷ []) "" ≡ "sports" ∷ "gaming" ∷ []
unfolding sanitize_tags tags_of sanitized_of add get_tags_for_channel lookup channel_wide_tags
    add_matches unsanitized normalize_tag map_and_keep insert replace map_and_replace delete cleanup
    tags_to_skip
sanitized_gaming = refl
