-- ===== src/Sources/Sync.antt =====
-- Sync, downloadAndPublish, publish and triggerThumbnailSave of sources/youtubeVideo.go. The repeated
-- downloads after an answer 429 run on fuel, as the loops of Download and of the names do.
pub mod Guards
use ytsync.Base.{
  ℕ, zero, suc, ◌*◌, String, Bool, true, false, not, ◌&&◌, ◌⧺◌, ◌++◌, Option, none, some, List, [],
  ◌∷◌, lookup, map, byte_len, Char, contains, str_eq, ltb, leb, ◌==◌, if◌then◌else◌, Result, ok,
  err, Method,
}
use ytsync.Shared.{Fee}
use ytsync.Manager.State.{SyncedVideo}
use ytsync.Manager.Process.{SyncParams, SyncSummary}
use ytsync.Sources.{publish_and_retry_existing_names}
use ytsync.Sources.Download.{DownloadEnv, download}
use ytsync.Sources.Loops.{Loop, once, done, failed, go_on, ◌>>=◌, ◌>>◌, with_prefix}
use ytsync.Sources.Video.{
  YtdlVideo, YoutubeVideo, Fetch, StreamOptions, on_service, get_best_thumbnail, youtube_categories,
}

abbrev pub second : ℕ
second = 1000000000

abbrev pub min_duration : ℕ
min_duration = 7 * second

-- A claim that ClaimSearch finds: what reprocess reads of it.
pub record CurrentClaim : Type 0 where
  pub has_thumbnail : Bool
  pub stream_size : Result String ℕ
  pub txid : String
  pub nout : ℕ

pub record SourceEnv (W : Type 0) : Type 0 where
  pub prefix_error : String → String → String
  pub bugged_message : ℕ → String
  pub too_many_claims : String → String
  pub lower : Char → Char
  pub md5_hex : String → String
  pub trim_space : String → String
  -- s[:n], which may cut a character.
  pub first_bytes : ℕ → String → String
  pub without_urls : String → String
  -- The ISO 639-1 code, where the detection is reliable and there is one.
  pub detect_language : String → Option String
  pub parse_amount : String → Result String String
  pub sanitize_tags : List String → String → Result String (List String)
  pub downloads : YoutubeVideo → DownloadEnv W
  -- The duration of the video on the disk.
  pub probe : YoutubeVideo → W → Result String ℕ × W
  pub mirror_thumbnail : String → String → W → Result String String × W
  pub get_downloaded_path : YoutubeVideo → W → Result String String × W
  pub stream_create : String → String → ℕ → StreamOptions → W → Result String String × W
  pub delete_video : YoutubeVideo → W → W
  pub claim_search : String → W → Result String (List CurrentClaim) × W
  pub stream_abandon : CurrentClaim → W → Result String (Unit {0}) × W
  pub stream_update : String → ℕ → StreamOptions → W → Result String (List SyncSummary) × W

module _ {W : Type 0} (env : SourceEnv W) where
  unfoldable pub get_abbrev_description : YoutubeVideo → String → String
  unfolding byte_len
  get_abbrev_description v lbry_channel_id =
      let description = env.trim_space v.description in
      let link = "\nhttps://www.youtube.com/watch?v=" ⧺ v.id in
      let additional =
        if str_eq lbry_channel_id "5fc52291980268b82413ca4c0ace1b8d749f3ffb"
        then link
          ⧺ "\nNote: All Khan Academy content is available for free at (www.khanacademy.org)"
        else link in
      (if ltb 6500 (byte_len description) then env.first_bytes 6500 description else description)
      ⧺ "\n..."
      ⧺ additional

  abbrev pub tags_or_none : Result String (List String) → List String
  tags_or_none (ok tags) = tags
  tags_or_none (err _) = []

  abbrev pub category_of : Option String → String
  category_of none = ""
  category_of (some text) = text

  -- The tags of getMetadata; its languages and locations are nil.
  unfoldable pub get_metadata : YoutubeVideo → YtdlVideo → List String
  get_metadata v info =
      let sanitized =
        tags_or_none
          (env.sanitize_tags (if v.mocked then [] else info.tags) v.youtube_channel_id) in
      if v.mocked
      then sanitized
      else sanitized ++ map (λ c. category_of (lookup c youtube_categories)) info.categories

  abbrev pub mirrored :
      YtdlVideo
      → YoutubeVideo
      → Result String String × Fetch W
      → Option (Result String (Unit {0}) × Fetch W)
  mirrored info v (ok url, s) = some (ok tt, record s { thumbnail_url = url })
  mirrored info v (err _, s) =
      go_on (λ (url : String) t. some (ok tt, record t { thumbnail_url = url }))
        (some (
          on_service (env.mirror_thumbnail info.thumbnail_url v.id)
            (record s { thumbnail_url = "" })))

  unfoldable pub trigger_thumbnail_save : YoutubeVideo → YtdlVideo → Loop (Fetch W) (Unit {0})
  trigger_thumbnail_save v info s =
      let best = get_best_thumbnail info.thumbnails in
      let r = mirrored info v (on_service (env.mirror_thumbnail best.url v.id) s) in
      if best.width == 0 then some (err "default youtube thumbnail found", s) else r

  abbrev pub detected : Option String → Option String → List String
  detected (some code) title = code ∷ []
  detected none (some code) = code ∷ []
  detected none none = []

  abbrev pub parse_fee : Option Fee → Result String (Option Fee)
  parse_fee none = ok none
  parse_fee (some fee) = elim (env.parse_amount fee.amount) [
    | err e ↦ err e
    | ok amount ↦ ok (some (record fee { amount = amount }))
  ]

  abbrev pub publish_options :
      YoutubeVideo → YtdlVideo → SyncParams → Option Fee → Fetch W → StreamOptions
  publish_options v info params fee s = record {
    title = some v.title;
    description = some (get_abbrev_description v params.channel_id);
    claim_address = some params.claim_address;
    languages =
        detected (env.detect_language (env.without_urls v.description))
          (env.detect_language v.title);
    thumbnail_url = s.thumbnail_url;
    tags = get_metadata v info;
    funding_account = params.default_account;
    fee = fee;
    release_time = v.published_at;
    channel_id = params.channel_id;
    duration = none;
  }

  abbrev pub named :
      Fetch W
      → Option (Result String SyncSummary × (List (String × Bool)) × W)
      → Option (Result String SyncSummary × Fetch W)
  named s none = none
  named s (some (r, names, w)) = some (r, record s { names = names; world = w })

  abbrev pub publish_from :
      ℕ → YoutubeVideo → SyncParams → StreamOptions → String → Loop (Fetch W) SyncSummary
  publish_from fuel v params options path s = named s (
      publish_and_retry_existing_names (λ name. env.stream_create name path params.amount options)
        env.lower env.md5_hex fuel v.title s.names s.world)

  abbrev pub with_fee :
      ℕ → YoutubeVideo → YtdlVideo → SyncParams → Option Fee → Loop (Fetch W) SyncSummary
  with_fee fuel v info params fee = once (on_service (env.get_downloaded_path v)) >>= λ path s.
      publish_from fuel v params (publish_options v info params fee s) path s

  unfoldable pub publish : ℕ → YoutubeVideo → YtdlVideo → SyncParams → Loop (Fetch W) SyncSummary
  publish fuel v info params = once (λ s. (parse_fee params.fee, s)) >>= with_fee fuel v info params

  -- The early returns of downloadAndPublish, in nanoseconds; `none` goes on.
  unfoldable pub refusal : YtdlVideo → ℕ → Option String
  refusal info max_length =
      let dur = info.duration * second in
      if info.is_live
      then some "video is a live stream and hasn't completed yet"
      else if not (str_eq info.availability "public") && not (str_eq info.availability "needs_auth")
      then some "video is not public"
      else if ltb max_length dur
      then some "video is too long to process"
      else if ltb dur min_duration
      then some "video is too short to process"
      else if str_eq info.live_status "post_live" && leb (7200 * second) dur
      then some (env.bugged_message dur)
      else none

  abbrev pub set_size : Option ℕ → Fetch W → Fetch W
  set_size none s = s
  set_size (some n) s = record s { size = some n }

  abbrev pub after_download :
      (Fetch W → Option (Result String (Unit {0}) × Fetch W))
      → Fetch W
      → Option (Result String (Option ℕ) × W)
      → Option (Result String (Unit {0}) × Fetch W)
  after_download again s none = none
  after_download again s (some (ok size, w)) = some (ok tt, set_size size (record s { world = w }))
  after_download again s (some (err e, w)) =
      if contains e "HTTP Error 429"
      then again (record s { world = w })
      else some (err (env.prefix_error "download error" e), record s { world = w })

  -- `for { err = v.Download(); … }`
  unfoldable pub download_until : ℕ → ℕ → YoutubeVideo → YtdlVideo → Loop (Fetch W) (Unit {0})
  download_until zero fuel v info s = none
  download_until (suc n) fuel v info s =
      after_download (download_until n fuel v info) s
        (download (env.downloads v) fuel info.duration s.world)

  -- A video that cannot be probed is published all the same.
  abbrev pub check_probe : Result String ℕ × Fetch W → Option (Result String (Unit {0}) × Fetch W)
  check_probe (err _, s) = some (ok tt, s)
  check_probe (ok duration, s) =
      if ltb duration min_duration
      then some (err "video is too short to process", s)
      else some (ok tt, s)

  abbrev pub deleted :
      YoutubeVideo
      → Option (Result String SyncSummary × Fetch W)
      → Option (Result String SyncSummary × Fetch W)
  deleted v none = none
  deleted v (some (r, s)) = some (r, record s { world = env.delete_video v s.world })

  unfoldable pub fetch_and_publish :
      ℕ → YoutubeVideo → YtdlVideo → SyncParams → Loop (Fetch W) SyncSummary
  fetch_and_publish fuel v info params = do
    download_until fuel fuel v info
    λ s. check_probe (on_service (env.probe v) s)
    with_prefix (env.prefix_error "thumbnail error") (trigger_thumbnail_save v info)
    with_prefix (env.prefix_error "publish error") (λ s. deleted v (publish fuel v info params s))

  abbrev pub unless_refused :
      ℕ → YoutubeVideo → YtdlVideo → SyncParams → Option String → Loop (Fetch W) SyncSummary
  unless_refused fuel v info params (some e) = failed e
  unless_refused fuel v info params none = fetch_and_publish fuel v info params

  abbrev pub with_info :
      ℕ → YoutubeVideo → SyncParams → Option YtdlVideo → Loop (Fetch W) SyncSummary
  with_info fuel v params none = failed "Video is not available - hardcoded fix"
  with_info fuel v params (some info) =
      unless_refused fuel v info params (refusal info params.max_video_length)

  unfoldable pub download_and_publish : ℕ → YoutubeVideo → SyncParams → Loop (Fetch W) SyncSummary
  download_and_publish fuel v params = with_info fuel v params v.youtube_info
