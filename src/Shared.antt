-- ===== src/Shared.antt =====
-- shared/shared.go: channels, flags, statuses, and how many videos of a channel are synced. Counts
-- are numbers without bound.
mod Errors
pub mod Status
pub mod Quota
mod Examples
use ytsync.Base.{
  ℕ, String, Bool, true, false, not, ◌&&◌, Option, none, some, List, [], ◌∷◌, ltb, leb, str_eq,
  if◌then◌else◌,
}
unfoldable pub use Errors.{
  fatal_errors, errors_no_retry, wallet_errors, blockchain_errors, never_retry_failures,
}

pub record Fee : Type 0 where
  pub amount : String
  pub address : String
  pub currency : String

pub record PublishAddress : Type 0 where
  pub address : String
  pub is_mine : Bool

pub record YoutubeChannel : Type 0 where
  pub channel_id : String
  pub total_videos : ℕ
  pub total_subscribers : ℕ
  pub desired_channel_name : String
  pub fee : Option Fee
  pub channel_claim_id : String
  pub transfer_state : ℕ
  pub publish_address : PublishAddress
  pub public_key : String
  pub length_limit : ℕ
  pub size_limit : ℕ
  pub last_uploaded_video : String
  pub wipe_db : Bool
  pub language : String
  pub is_deleted_on_youtube : Bool

pub record SyncFlags : Type 0 where
  pub take_over_existing_channel : Bool
  pub skip_space_check : Bool
  pub sync_update : Bool
  pub single_run : Bool
  pub remove_db_unpublished : Bool
  pub upgrade_metadata : Bool
  pub disable_transfers : Bool
  pub quick_sync : Bool
  pub max_tries : ℕ
  pub refill : ℕ
  pub limit : ℕ
  pub status : String
  pub secondary_status : String
  pub channel_id : String
  pub with_deleted_on_youtube : Bool
  pub sync_from : ℕ
  pub sync_until : ℕ
  pub concurrent_jobs : ℕ
  pub videos_limit : ℕ
  pub max_video_size : ℕ
  pub max_video_length : ℕ

-- defaultVideosToSync
abbrev pub default_videos_to_sync : List (ℕ × ℕ)
default_videos_to_sync =
    (10000, 1000)
    ∷ (5000, 500)
    ∷ (1000, 400)
    ∷ (800, 250)
    ∷ (600, 200)
    ∷ (200, 80)
    ∷ (100, 20)
    ∷ (1, 10)
    ∷ []

-- The loop over the table, in whatever order the map yields it.
unfoldable pub largest_quota : ℕ → ℕ → List (ℕ × ℕ) → ℕ
largest_quota subscribers videos_to_sync [] = videos_to_sync
largest_quota subscribers videos_to_sync ((s, r) ∷ table) =
    largest_quota subscribers
      (if leb s subscribers && ltb videos_to_sync r then r else videos_to_sync) table

-- VideosToSync, with the order in which the map is walked.
unfoldable pub videos_to_sync : List (ℕ × ℕ) → SyncFlags → ℕ → ℕ
unfolding largest_quota
videos_to_sync table f total_subscribers =
    if ltb 0 f.videos_limit then f.videos_limit else largest_quota total_subscribers 0 table

unfoldable pub is_single_channel_sync : SyncFlags → Bool
is_single_channel_sync f = not (str_eq f.channel_id "")

pub record VideoStatus : Type 0 where
  pub channel_id : String
  pub video_id : String
  pub status : String
  pub claim_id : String
  pub claim_name : String
  pub failure_reason : String
  pub size : Option ℕ
  pub metadata_version : ℕ
  pub is_transferred : Option Bool
