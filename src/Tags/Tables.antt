-- ===== src/Tags/Tables.antt =====
-- The tables of tags_manager/tags_mapping.go. A key that a table lists twice would be refused by the
-- compiler, so the first entry of a key is its only one.
mod Skipped
mod KeptFirst
mod KeptSecond
mod KeptThird
mod Channels
use ytsync.Base.{String, Dict, [], ◌∷◌, ◌++◌}
unfoldable pub use Skipped.{tags_to_skip}
use KeptFirst.{kept_first}
use KeptSecond.{kept_second}
use KeptThird.{kept_third}
unfoldable pub use Channels.{channel_wide_tags}

unfoldable pub map_and_replace : Dict String
map_and_replace =
    ("nfl", "sports")
    ∷ ("minecraft (award-winning work)", "gaming")
    ∷ ("minecraft survival", "gaming")
    ∷ ("modded minecraft", "gaming")
    ∷ ("minecraft movie", "gaming")
    ∷ ("minecraft videos", "gaming")
    ∷ []

unfoldable pub map_and_keep : Dict String
map_and_keep = kept_first ++ kept_second ++ kept_third
