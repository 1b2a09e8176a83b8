-- ===== src/Sources/Examples/Videos.antt =====
-- A download that yt-dlp never can make, and a video that is published.
use ytsync.Namer.{get_next_name, get_claim_name_from_title}
use ytsync.Sources.{publish_and_retry_existing_names}
use ytsync.Base.{
  has_key, byte_len, insert, ℕ, suc, ◌≡◌, refl, true, false, none, some, [], ◌∷◌, str_eq,
  if◌then◌else◌, ok,
}
use ytsync.Manager.Process.{SyncParams}
use ytsync.Sources.Video.{get_best_thumbnail, YtdlVideo, YoutubeVideo, Fetch}
use ytsync.Sources.Download.{DownloadEnv, download}
use ytsync.Sources.Download.Qualities.{Ends, download_lowest}
use ytsync.Sources.Sync.{
  refusal, fetch_and_publish, download_until, trigger_thumbnail_save, publish, SourceEnv,
  download_and_publish,
}
use ytsync.Sources.Sync.Guards.{IsPublishable, download_and_publish-ok}

-- The world counts the processes at quality 360.
abbrev no_formats : DownloadEnv ℕ
no_formats = record {
  make_video_dir = λ w. (ok tt, w);
  video_exists = λ w. (ok false, w);
  check_metadata = λ w. (ok tt, w);
  check_cookies_integrity = λ w. (ok tt, w);
  get_source_address = λ w. (ok "10.0.0.1", w);
  release_ip = λ _ w. w;
  set_throttled = λ _ w. w;
  run_command = λ q _ _ w. (
    ok (record {
      exit_error = some "exit status 1";
      error_log = "Requested format is not available";
      out_log = "";
    }),
    if str_eq q "360" then suc w else w,
  );
  video_size = λ w. (ok 1000, w);
  delete_video = λ w. w;
}

abbrev Untouched : ℕ → Type 0
Untouched w = w ≡ 0

download_lowest_example : Ends no_formats Untouched (download no_formats 5 600 0)
download_lowest_example =
    download_lowest no_formats Untouched 5 600 0 (λ w h. h) (λ w h. h) (λ w h. h) (λ w h. h)
      (λ w h. h) (λ _ w h. h) (λ _ w h. h) (λ w h. h) (λ w h. h) (λ q b ip e w h. rw e h) refl

abbrev lecture : YtdlVideo
lecture = record {
  duration = 600;
  is_live = false;
  availability = "public";
  live_status = "not_live";
  thumbnails = record { url = "https://i.ytimg.com/vi/a/hq.jpg"; width = 480 } ∷ [];
  thumbnail_url = "https://i.ytimg.com/vi/a/hq.jpg";
  tags = [];
  categories = "27" ∷ [];
}

abbrev video : YoutubeVideo
video = record {
  id = "a";
  title = "test";
  description = "A lecture";
  published_at = 1500000000;
  youtube_info = some lecture;
  youtube_channel_id = "UC1";
  mocked = false;
}

abbrev params : SyncParams
params = record {
  claim_address = "bAddress";
  amount = 200000;
  channel_id = "c1";
  max_video_size = 2048;
  max_video_length = 7200000000000;
  fee = none;
  default_account = "main";
}

abbrev services : SourceEnv ℕ
services = record {
  prefix_error = λ p e. p;
  bugged_message = λ n. "live stream";
  too_many_claims = λ id. id;
  lower = λ c. c;
  md5_hex = λ t. "0123456789abcdef";
  trim_space = λ t. t;
  first_bytes = λ n t. t;
  without_urls = λ t. t;
  detect_language = λ t. none;
  parse_amount = λ t. ok t;
  sanitize_tags = λ ts c. ok ts;
  downloads = λ v. record no_formats { video_exists = λ w. (ok true, w) };
  probe = λ v w. (ok 600000000000, w);
  mirror_thumbnail = λ url name w. (ok url, w);
  get_downloaded_path = λ v w. (ok "/a/test.mp4", w);
  stream_create = λ name path amount options w. (ok "claim", suc w);
  delete_video = λ v w. w;
  claim_search = λ id w. (ok [], w);
  stream_abandon = λ c w. (ok tt, w);
  stream_update = λ id size options w. (ok [], w);
}

abbrev before : Fetch ℕ
before = record { size = none; thumbnail_url = ""; names = []; world = 0 }

download_and_publish-ok_example :
    (info : YtdlVideo) × (some lecture ≡ some info) × IsPublishable info params.max_video_length
unfolding download_and_publish refusal fetch_and_publish download_until download
    trigger_thumbnail_save get_best_thumbnail publish publish_and_retry_existing_names get_next_name
    has_key byte_len get_claim_name_from_title insert
download_and_publish-ok_example =
    download_and_publish-ok services 10 video params before
      (record {
        size = none;
        thumbnail_url = "https://i.ytimg.com/vi/a/hq.jpg";
        names = ("test", true) ∷ [];
        world = 1;
      })
      (record { claim_id = "claim"; claim_name = "test" }) refl
