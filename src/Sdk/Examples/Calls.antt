-- ===== src/Sdk/Examples/Calls.antt =====
-- Calls of a server that does not answer as often as its mark says.
use ytsync.Base.{
  insert, ℕ, zero, suc, ◌<◌, ◌≡◌, refl, String, true, false, none, some, [], ◌∷◌, Result, ok, err,
  arith,
}
use ytsync.Shared.{SyncFlags, VideoStatus}
use ytsync.Manager.State.{SyncedVideo}
use ytsync.Sdk.Api.{
  synced_videos_of, claim_names_of, ApiEnv, Reply, Values, fetch_channels, set_channel_cert,
  set_channel_status, set_channel_claim_id, delete_videos, mark_video_status, video_state,
  get_released_date,
}
use ytsync.Sdk.Api.Ends.{Returns, is_trouble, every_call-Returns}
use ytsync.Sdk.Api.Synced.{Answered, set_channel_status-Answered}

abbrev post : String → Values → ℕ → Result String Reply × ℕ
post endpoint values zero =
    (ok (record { status_code = 200; body = "ok"; body_error = none }), zero)
post endpoint values (suc n) = (err "timeout", n)

abbrev first : SyncedVideo
first = record {
  video_id = "v1";
  published = true;
  failure_reason = "";
  claim_name = "first";
  claim_id = "c1";
  size = 1000;
  metadata_version = 2;
  transferred = false;
}

abbrev server : ApiEnv ℕ
server = record {
  api_url = "https://api.lbry.com";
  api_token = "token";
  host_name = "ytsync1";
  post_form = post;
  sleep = λ n. n;
  unix_time = λ n. 1700000000;
  join_ids = λ ids. "";
  decode_channels = λ body. err "no document";
  decode_videos = λ body. ok (record { error = none; content = some (first ∷ []) });
  decode_text = λ body. ok (record { error = none; content = some body });
  decode_release = λ body. err "no document";
  null_error = λ e. "";
  invalid_response = λ n. "invalid API response";
  missing_claim = λ id name. "claimID or claimName missing";
}

recovers :
    (endpoint : String) (values : Values) (n : ℕ)
    → is_trouble (post endpoint values n).0 ≡ true
    → (post endpoint values n).1 < n
unfolding is_trouble
recovers endpoint values zero h = absurd (ground arith)
recovers endpoint values (suc n) h = omega arith

abbrev flags : SyncFlags
flags = record {
  take_over_existing_channel = false;
  skip_space_check = false;
  sync_update = false;
  single_run = false;
  remove_db_unpublished = true;
  upgrade_metadata = false;
  disable_transfers = false;
  quick_sync = false;
  max_tries = 2;
  refill = 0;
  limit = 0;
  status = "";
  secondary_status = "";
  channel_id = "";
  with_deleted_on_youtube = false;
  sync_from = 0;
  sync_until = 0;
  concurrent_jobs = 1;
  videos_limit = 5;
  max_video_size = 2048;
  max_video_length = 7200;
}

abbrev published : VideoStatus
published = record {
  channel_id = "UC1";
  video_id = "v1";
  status = "published";
  claim_id = "c1";
  claim_name = "first";
  failure_reason = "";
  size = some 1000;
  metadata_version = 2;
  is_transferred = none;
}

every_call-Returns_example :
    Returns (fetch_channels server 3 "queued" flags) 2
    × Returns (set_channel_cert server 3 "queued" "UC1") 2
    × Returns (set_channel_status server 3 "queued" "UC1" "no" none) 2
    × Returns (set_channel_claim_id server 3 "queued" "UC1") 2
    × Returns (delete_videos server 3 ("v1" ∷ [])) 2
    × Returns (mark_video_status server 3 published) 2
    × Returns (video_state server 3 "queued") 2
    × Returns (get_released_date server 3 "queued") 2
every_call-Returns_example =
    every_call-Returns server (λ n. n) recovers 3 2 flags published ("v1" ∷ []) "queued" "UC1" "no"
      none (omega arith)

set_channel_status-Answered_example : Answered server (("v1", first) ∷ []) (("first", true) ∷ [])
unfolding set_channel_status synced_videos_of claim_names_of insert
set_channel_status-Answered_example =
    set_channel_status-Answered server 3 "UC1" "syncing" "" none 2 0 (("v1", first) ∷ [])
      (("first", true) ∷ []) refl
