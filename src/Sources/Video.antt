-- ===== src/Sources/Video.antt =====
-- sources/youtubeVideo.go: the data of a video, what is read and written while it is synced, and
-- what is published of it (getMetadata, getAbbrevDescription, triggerThumbnailSave, GetBestThumbnail
-- of thumbs/uploader.go). lbry.go, whatlanggo, the daemon, S3 and the sanitizing of tags are arguments.
use ytsync.Base.{ℕ, String, Bool, Option, List, [], ◌∷◌, Dict, ltb, if◌then◌else◌, Result, Method}
use ytsync.Shared.{Fee}
use ytsync.Namer.{Names}

pub record Thumbnail : Type 0 where
  pub url : String
  pub width : ℕ

-- What is read of ytdl.YtdlVideo; `thumbnail_url` is the answer of GetThumbnailUrl.
pub record YtdlVideo : Type 0 where
  pub duration : ℕ
  pub is_live : Bool
  pub availability : String
  pub live_status : String
  pub thumbnails : List Thumbnail
  pub thumbnail_url : String
  pub tags : List String
  pub categories : List String

pub record YoutubeVideo : Type 0 where
  pub id : String
  pub title : String
  pub description : String
  pub published_at : ℕ
  pub youtube_info : Option YtdlVideo
  pub youtube_channel_id : String
  pub mocked : Bool

-- The fields of the video that a sync sets, the namer, and the world of services.
pub record Fetch (W : Type 0) : Type 0 where
  pub size : Option ℕ
  pub thumbnail_url : String
  pub names : Names
  pub world : W

abbrev pub on_service : {W A : Type 0} → (W → Result String A × W) → Method (Fetch W) A
on_service call s = let (r, w) = call s.world in (r, record s { world = w })

-- The options of StreamCreate and StreamUpdate, where the source sets them to no constant.
pub record StreamOptions : Type 0 where
  pub title : Option String
  pub description : Option String
  pub claim_address : Option String
  pub languages : List String
  pub thumbnail_url : String
  pub tags : List String
  pub funding_account : String
  pub fee : Option Fee
  pub release_time : ℕ
  pub channel_id : String
  pub duration : Option ℕ

abbrev pub no_thumbnail : Thumbnail
no_thumbnail = record { url = ""; width = 0 }

abbrev pub wider : Thumbnail → List Thumbnail → Thumbnail
wider best [] = best
wider best (t ∷ ts) = wider (if ltb best.width t.width then t else best) ts

-- GetBestThumbnail: the first of the widest ones.
unfoldable pub get_best_thumbnail : List Thumbnail → Thumbnail
get_best_thumbnail ts = wider no_thumbnail ts

abbrev pub youtube_categories : Dict String
youtube_categories =
    ("1", "film & animation")
    ∷ ("2", "autos & vehicles")
    ∷ ("10", "music")
    ∷ ("15", "pets & animals")
    ∷ ("17", "sports")
    ∷ ("18", "short movies")
    ∷ ("19", "travel & events")
    ∷ ("20", "gaming")
    ∷ ("21", "videoblogging")
    ∷ ("22", "people & blogs")
    ∷ ("23", "comedy")
    ∷ ("24", "entertainment")
    ∷ ("25", "news & politics")
    ∷ ("26", "howto & style")
    ∷ ("27", "education")
    ∷ ("28", "science & technology")
    ∷ ("29", "nonprofits & activism")
    ∷ ("30", "movies")
    ∷ ("31", "anime/animation")
    ∷ ("32", "action/adventure")
    ∷ ("33", "classics")
    ∷ ("34", "comedy")
    ∷ ("35", "documentary")
    ∷ ("36", "drama")
    ∷ ("37", "family")
    ∷ ("38", "foreign")
    ∷ ("39", "horror")
    ∷ ("40", "sci-fi/fantasy")
    ∷ ("41", "thriller")
    ∷ ("42", "shorts")
    ∷ ("43", "shows")
    ∷ ("44", "trailers")
    ∷ []
