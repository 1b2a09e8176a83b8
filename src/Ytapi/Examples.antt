-- ===== src/Ytapi/Examples.antt =====
-- A playlist of two videos, one of which is published, and a last uploaded video beside them.
use ytsync.Base.{
  byte_len, str_eq, err, false, if◌then◌else◌, Bool, ◌≡◌, refl, String, true, List, [], ◌∷◌, ◌⊎◌,
  ◌↔◌, In, lookup, ok, any, contains,
}
use ytsync.Manager.State.{SyncedVideo, no_video}
use ytsync.Ytapi.{ListingEnv, is_finished, video_ids}
use ytsync.Ytapi.Information.{InformationEnv, get_videos}
use ytsync.Ytapi.Information.Listed.{Listed, get_videos-Listed}
use ytsync.Ytapi.Wanted.{video_ids_iff}

abbrev Log : Type 0
Log = List String

abbrev in_slice : String → List String → Bool
in_slice text parts = any (λ part. contains text part) parts

abbrev entry : SyncedVideo
entry = record no_video { video_id = "v1"; published = true; metadata_version = 2 }

abbrev listing : ListingEnv Log
listing = record {
  substring_in_slice = in_slice;
  get_playlist_video_ids = λ channel n log. (ok ("v1" ∷ "v2" ∷ []), "playlist" ∷ log);
  get_videos = λ channel ids log. (ok ids, "videos" ∷ log);
  new_youtube_video =
      λ id i log. (ok (record { id = id; playlist_position = i; is_mocked = false }), log);
  sort_by_published_at = λ videos. videos;
}

abbrev third : String
third = "v3"

video_ids_iff_example :
    In third (video_ids listing (("v1", entry) ∷ []) third ("v1" ∷ "v2" ∷ [])) ↔ (
      (In third ("v1" ∷ "v2" ∷ []) ⊎ (third ≡ third))
      × (is_finished listing (lookup third (("v1", entry) ∷ [])) ≡ false))
video_ids_iff_example =
    video_ids_iff listing (("v1", entry) ∷ []) third third ("v1" ∷ "v2" ∷ []) refl

-- The second video is private.
abbrev information : InformationEnv Log String
information = record {
  stop_closed = λ log. false;
  video_state = λ id log. (ok "pending", log);
  get_video_information =
      λ id log. (if str_eq id "video2" then err "private video" else ok id, log);
  mark_failed = λ channel id reason log. (ok tt, id ∷ log);
}

get_videos-Listed_example :
    Listed information "UC1" ("v" ∷ "video1" ∷ "video2" ∷ []) ("video1" ∷ [])
unfolding get_videos byte_len
get_videos-Listed_example =
    get_videos-Listed information "UC1" ("v" ∷ "video1" ∷ "video2" ∷ []) ("video1" ∷ []) []
      ("video2" ∷ []) refl
