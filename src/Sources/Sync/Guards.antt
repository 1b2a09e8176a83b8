-- ===== src/Sources/Sync/Guards.antt =====
-- Which videos downloadAndPublish publishes.
use ytsync.Base.{
  ℕ, ◌*◌, ◌≤◌, ◌≡◌, refl, String, true, false, ◌&&◌, ◌||◌, Option, none, some, ok, str_eq, leb,
  arith,
}
use ytsync.Manager.Process.{SyncParams, SyncSummary}
use ytsync.Sources.Video.{YtdlVideo, YoutubeVideo, Fetch}
use ytsync.Sources.Sync.{
  SourceEnv, second, min_duration, refusal, unless_refused, with_info, download_and_publish,
}

-- A video that may be published, for a limit in nanoseconds.
pub record IsPublishable (info : YtdlVideo) (limit : ℕ) : Type 0 where
  pub finished : info.is_live ≡ false
  pub available :
      (str_eq info.availability "public" || str_eq info.availability "needs_auth") ≡ true
  pub long_enough : min_duration ≤ info.duration * second
  pub short_enough : info.duration * second ≤ limit
  pub not_bugged :
      (str_eq info.live_status "post_live" && leb (7200 * second) (info.duration * second)) ≡ false

module _ {W : Type 0} (env : SourceEnv W) where
  refusal-none :
      (info : YtdlVideo) (limit : ℕ) → refusal env info limit ≡ none → IsPublishable info limit
  unfolding refusal
  refusal-none info limit h = record {
    finished = ground arith;
    available = ground arith;
    long_enough = ground arith;
    short_enough = ground arith;
    not_bugged = ground arith;
  }

  unless_refused-ok :
      (fuel : ℕ) (v : YoutubeVideo) (info : YtdlVideo) (params : SyncParams) (o : Option String)
      (s t : Fetch W) (summary : SyncSummary)
      → unless_refused env fuel v info params o s ≡ some (ok summary, t)
      → o ≡ none
  unless_refused-ok fuel v info params none s t summary h = refl
  unless_refused-ok fuel v info params (some e) s t summary h = absurd (ground arith)

  Allowed : Option YtdlVideo → ℕ → Type 0
  Allowed o limit = (info : YtdlVideo) × (o ≡ some info) × IsPublishable info limit

  with_info-ok :
      (fuel : ℕ) (v : YoutubeVideo) (params : SyncParams) (o : Option YtdlVideo) (s t : Fetch W)
      (summary : SyncSummary)
      → with_info env fuel v params o s ≡ some (ok summary, t)
      → Allowed o params.max_video_length
  unfolding Allowed
  with_info-ok fuel v params none s t summary h = absurd (ground arith)
  with_info-ok fuel v params (some info) s t summary h = (
    info,
    refl,
    refusal-none info params.max_video_length (
        unless_refused-ok fuel v info params (refusal env info params.max_video_length) s t summary
          h),
  )

  -- A video that downloadAndPublish has published is known to YouTube, no live stream that still
  -- runs, public or behind a login, at least seven seconds and at most as long as the channel allows,
  -- and no stream of two hours or more that has just ended.
  pub download_and_publish-ok :
      (fuel : ℕ) (v : YoutubeVideo) (params : SyncParams) (s t : Fetch W) (summary : SyncSummary)
      → download_and_publish env fuel v params s ≡ some (ok summary, t)
      → (info : YtdlVideo) × (v.youtube_info ≡ some info)
        × IsPublishable info params.max_video_length
  unfolding download_and_publish Allowed
  download_and_publish-ok fuel v params s t summary h =
      with_info-ok fuel v params v.youtube_info s t summary h
