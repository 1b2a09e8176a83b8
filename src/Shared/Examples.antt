-- ===== src/Shared/Examples.antt =====
-- The subscriber counts of shared/shared_test.go.

use ytsync.Base.{◌≡◌, refl, false}
use ytsync.Shared.{SyncFlags, default_videos_to_sync, videos_to_sync}

abbrev no_flags : SyncFlags
no_flags = record {
  take_over_existing_channel = false;
  skip_space_check = false;
  sync_update = false;
  single_run = false;
  remove_db_unpublished = false;
  upgrade_metadata = false;
  disable_transfers = false;
  quick_sync = false;
  max_tries = 3;
  refill = 0;
  limit = 0;
  status = "";
  secondary_status = "";
  channel_id = "";
  with_deleted_on_youtube = false;
  sync_from = 0;
  sync_until = 0;
  concurrent_jobs = 1;
  videos_limit = 0;
  max_video_size = 2048;
  max_video_length = 7200;
}

-- The test of the repository expects 50 here.
subscribers_101 : videos_to_sync default_videos_to_sync no_flags 101 ≡ 20
unfolding videos_to_sync
subscribers_101 = refl

subscribers_21000 : videos_to_sync default_videos_to_sync no_flags 21000 ≡ 1000
unfolding videos_to_sync
subscribers_21000 = refl
