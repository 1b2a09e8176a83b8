-- ===== src/Ytapi.antt =====
-- GetVideosToSync of ytapi/ytapi.go. The playlist, the information on each video, the videos made of
-- it and the sort of the library are arguments.
pub mod Wanted
pub mod Information
mod Examples
use ytsync.Base.{
  ℕ, zero, suc, String, Bool, true, false, not, ◌&&◌, ◌||◌, Option, none, some, List, [], ◌∷◌, ◌++◌,
  Dict, str_eq, any, keep, map, lookup, insert, has_key, ltb, ◌==◌, if◌then◌else◌, Result, ok, err,
  Method, resume, return, fail, ◌>>=◌, ◌>>◌,
}
use ytsync.Shared.{never_retry_failures}
use ytsync.Manager.State.{SyncedVideo}

-- The video of a playlist with its position, or one that only stands for an upgrade.
pub record QueuedVideo : Type 0 where
  pub id : String
  pub playlist_position : ℕ
  pub is_mocked : Bool

pub record ListingEnv (W : Type 0) : Type 0 where
  pub substring_in_slice : String → List String → Bool
  pub get_playlist_video_ids : String → ℕ → W → Result String (List String) × W
  pub get_videos : String → List String → W → Result String (List String) × W
  pub new_youtube_video : String → ℕ → W → Result String QueuedVideo × W
  pub sort_by_published_at : List QueuedVideo → List QueuedVideo

-- The variable mostRecentlyFailedChannel of the package, and the world.
pub record Listing (W : Type 0) : Type 0 where
  pub most_recently_failed_channel : String
  pub world : W

abbrev pub new_metadata_version : ℕ
new_metadata_version = 2

abbrev pub with_position : ℕ → List String → Dict ℕ
with_position i [] = []
with_position i (id ∷ ids) = (id, i) ∷ with_position (suc i) ids

abbrev pub add_all : Dict ℕ → Dict ℕ → Dict ℕ
add_all [] d = d
add_all ((id, i) ∷ rest) d = add_all rest (insert id i d)

abbrev pub position_of : Option ℕ → ℕ
position_of none = 0
position_of (some i) = i

abbrev pub mocked : String → QueuedVideo
mocked id = record { id = id; playlist_position = 0; is_mocked = true }

abbrev pub needs_upgrade : SyncedVideo → Bool
needs_upgrade v = v.published && ltb v.metadata_version new_metadata_version

-- The last loop: the videos to upgrade that are not in the playlist.
unfoldable pub upgrades : Dict ℕ → Dict SyncedVideo → List QueuedVideo
upgrades playlist [] = []
upgrades playlist ((id, v) ∷ rest) =
    let others = upgrades playlist rest in
    if needs_upgrade v && not (has_key id playlist) then mocked id ∷ others else others

abbrev pub is_empty : List String → Bool
is_empty [] = true
is_empty (_ ∷ _) = false

module _ {W : Type 0} (env : ListingEnv W) where
  abbrev pub on_service : {A : Type 0} → (W → Result String A × W) → Method (Listing W) A
  on_service call s = let (r, w) = call s.world in (r, record s { world = w })

  -- Whether an entry says that its video need not be synced.
  unfoldable pub is_finished : Option SyncedVideo → Bool
  is_finished none = false
  is_finished (some sv) =
      env.substring_in_slice sv.failure_reason never_retry_failures
      || (sv.published && sv.metadata_version == new_metadata_version)

  -- The videos of the playlist that are queued, in its order.
  unfoldable pub unfinished : Dict SyncedVideo → List String → List String
  unfolding is_finished
  unfinished synced ids = keep (λ id. not (is_finished (lookup id synced))) ids

  abbrev pub positions : List String → Dict ℕ
  positions ids = add_all (with_position 0 ids) []

  abbrev pub adds_last : Dict SyncedVideo → String → List String → Bool
  adds_last synced last ids =
      not (str_eq last "")
      && not (is_finished (lookup last synced))
      && not (has_key last (positions ids))

  -- The ids and positions with the video that was uploaded last, which is always tried.
  unfoldable pub video_ids : Dict SyncedVideo → String → List String → List String
  unfolding unfinished
  video_ids synced last all_videos =
      let ids = unfinished synced all_videos in
      if adds_last synced last ids then ids ++ last ∷ [] else ids

  unfoldable pub playlist_map : Dict SyncedVideo → String → List String → Dict ℕ
  unfolding unfinished
  playlist_map synced last all_videos =
      let ids = unfinished synced all_videos in
      if adds_last synced last ids then insert last 0 (positions ids) else positions ids

  abbrev pub check_found : String → List String → Method (Listing W) (Unit {0})
  check_found channel ids s =
      if not (is_empty ids)
      then (ok tt, s)
      else if str_eq channel s.most_recently_failed_channel
      then (err "playlist items not found", s)
      else (ok tt, record s { most_recently_failed_channel = channel })

  unfoldable pub make_videos : Dict ℕ → List String → Method (Listing W) (List QueuedVideo)
  make_videos playlist [] s = (ok [], s)
  make_videos playlist (id ∷ ids) s =
      resume (λ v. make_videos playlist ids >>= λ vs. return (v ∷ vs))
        (on_service (env.new_youtube_video id (position_of (lookup id playlist))) s)

  abbrev pub quick_limit : Bool → ℕ → ℕ
  quick_limit quick_sync max_videos = if quick_sync && ltb 50 max_videos then 50 else max_videos

  unfoldable pub get_videos_to_sync :
      String → Dict SyncedVideo → Bool → ℕ → String → Method (Listing W) (List QueuedVideo)
  get_videos_to_sync channel synced quick_sync max_videos last = do
    all_videos ← on_service (env.get_playlist_video_ids channel (quick_limit quick_sync max_videos))
    let ids = video_ids synced last all_videos
    let playlist = playlist_map synced last all_videos
    check_found channel ids
    infos ← on_service (env.get_videos channel ids)
    videos ← make_videos playlist infos
    return (env.sort_by_published_at (videos ++ upgrades playlist synced))
