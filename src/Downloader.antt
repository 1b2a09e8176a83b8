-- ===== src/Downloader.antt =====
-- downloader/downloader.go: the lists and the metadata of videos, which yt-dlp fetches from an address
-- of the pool. The pool, the processes and the files are services. A wait for an address and the
-- attempts that are throttled may go on for ever, so both loops run on fuel, and `none` goes on.
pub mod Bound
mod Examples
use ytsync.Base.{
  ℕ, zero, suc, String, Bool, true, false, ◌&&◌, ◌||◌, ◌⧺◌, ◌++◌, Option, none, some, List, [], ◌∷◌,
  contains, str_eq, leb, if◌then◌else◌, Result, ok, err,
}
use ytsync.IpPool.{PoolError, all_ips_throttled}
use ytsync.Namer.Decimal.{itoa}
use ytsync.Shared.{errors_no_retry}
use ytsync.Sources.Loops.{Loop, go_on}

pub record DownloaderEnv (W : Type 0) : Type 0 where
  pub get_ip : String → W → Result PoolError String × W
  pub pool_message : PoolError → String
  pub is_stopped : W → Bool
  pub sleep : W → W
  pub release_ip : String → W → W
  pub set_throttled : String → W → W
  pub substring_in_slice : String → List String → Bool
  -- runCmd: the lines of the output, or the errors.
  pub run_cmd : List String → W → Result String (List String) × W
  pub metadata_dir : String

abbrev pub google_bot_ua : String
google_bot_ua = "Mozilla/5.0 (compatible; Googlebot/2.1; +http://www.google.com/bot.html)"

abbrev pub chrome_ua : String
chrome_ua =
    "Mozilla/5.0 (X11; Linux x86_64) AppleWebKit/537.36 (KHTML, like Gecko) Chrome/126.0.0.0 Safari/537.36"

abbrev pub next_ua : List String → List String
next_ua [] = "--user-agent" ∷ google_bot_ua ∷ []
next_ua (_ ∷ _) = "--user-agent" ∷ chrome_ua ∷ []

module _ {W : Type 0} (env : DownloaderEnv W) where
  abbrev pub after_get_ip :
      Loop W String → Result PoolError String × W → Option (Result String String × W)
  after_get_ip again (ok ip, w) = some (ok ip, w)
  after_get_ip again (err all_ips_throttled, w) =
      let later = again (env.sleep w) in
      if env.is_stopped w then some (err "interrupted by user", w) else later
  after_get_ip again (err e, w) = some (err (env.pool_message e), w)

  unfoldable pub get_ip_from_pool : ℕ → String → Loop W String
  get_ip_from_pool zero use_ w = none
  get_ip_from_pool (suc n) use_ w = after_get_ip (get_ip_from_pool n use_) (env.get_ip use_ w)

  abbrev pub then_released :
      String → Result String (List String) × W → Result String (List String) × W
  then_released ip (r, w) = (r, env.release_ip ip w)

  -- What follows a process; `next` makes the further attempts.
  unfoldable pub after_cmd :
      (ℕ → List String → Option String → Loop W (List String))
      → ℕ
      → List String
      → String
      → Result String (List String) × W
      → Option (Result String (List String) × W)
  after_cmd next n useragent ip (ok lines, w) = some (ok lines, w)
  after_cmd next n useragent ip (err e, w) =
      let agent =
        if contains e "YouTube said: Unable to extract video data"
        then next_ua useragent
        else useragent in
      if contains e "exit status 1"
      then if env.substring_in_slice e errors_no_retry
        then some (err e, w)
        else if contains e "HTTP Error 429" || contains e "returned non-zero exit status 8"
        then next (suc n) agent (some e) (env.set_throttled ip w)
        else next n agent (some e) w
      else next n useragent (some e) w

  -- The error after the last attempt; `nil` if there is none.
  abbrev pub last_result : Option String → Result String (List String)
  last_result none = ok []
  last_result (some e) = err e

  -- The loop of run, with the attempts that remain.
  unfoldable pub run_attempts :
      ℕ → ℕ → String → List String → ℕ → List String → Option String → Loop W (List String)
  run_attempts zero fuel use_ args n useragent last w = none
  run_attempts (suc f) fuel use_ args zero useragent last w = some (last_result last, w)
  run_attempts (suc f) fuel use_ args (suc n) useragent last w =
      go_on
        (λ ip u.
          after_cmd (run_attempts f fuel use_ args) n useragent ip
            (then_released ip (env.run_cmd (args ++ ("--source-address" ∷ ip ∷ useragent)) u)))
        (get_ip_from_pool fuel use_ w)

  unfoldable pub run : ℕ → String → List String → Loop W (List String)
  run fuel use_ args = run_attempts fuel fuel use_ args 3 [] none

  -- The ids of a tab, from a position on.
  unfoldable pub take_ids : ℕ → ℕ → List String → List String
  take_ids max_videos i [] = []
  take_ids max_videos i (v ∷ vs) =
      let rest = take_ids max_videos (suc i) vs in
      if str_eq v "" then rest else if leb max_videos i then [] else v ∷ rest

  abbrev pub prepend :
      List String
      → Option (Result String (List String) × W)
      → Option (Result String (List String) × W)
  prepend ids none = none
  prepend ids (some (ok more, w)) = some (ok (ids ++ more), w)
  prepend ids (some (err e, w)) = some (err e, w)

  abbrev pub after_tab :
      Loop W (List String)
      → ℕ
      → Option (Result String (List String) × W)
      → Option (Result String (List String) × W)
  after_tab rest max_videos none = none
  after_tab rest max_videos (some (ok ids, w)) = prepend (take_ids max_videos 0 ids) (rest w)
  after_tab rest max_videos (some (err e, w)) =
      let skipped = rest w in
      if contains e "This channel does not have a" || contains e "Incomplete data received"
      then skipped
      else some (err e, w)

  unfoldable pub from_tabs : ℕ → String → ℕ → List String → Loop W (List String)
  from_tabs fuel channel_name max_videos [] w = some (ok [], w)
  from_tabs fuel channel_name max_videos (tab ∷ tabs) w =
      after_tab (from_tabs fuel channel_name max_videos tabs) max_videos (
        run fuel channel_name
          ("--skip-download"
            ∷ ("https://www.youtube.com/channel/" ⧺ (channel_name ⧺ ("/" ⧺ tab)))
            ∷ "--get-id"
            ∷ "--flat-playlist"
            ∷ "--cookies"
            ∷ "cookies.txt"
            ∷ "--playlist-end"
            ∷ itoa max_videos
            ∷ [])
          w)

  unfoldable pub get_playlist_video_ids : ℕ → String → ℕ → Loop W (List String)
  get_playlist_video_ids fuel channel_name max_videos =
      from_tabs fuel channel_name max_videos ("videos" ∷ "shorts" ∷ "streams" ∷ [])

  -- GetVideoInformation; reading and decoding the file of the metadata is the argument `read_video`.
  unfoldable pub get_video_information :
      {A : Type 0} → (W → Result String A × W) → ℕ → String → Loop W A
  get_video_information read_video fuel video_id w =
      go_on (λ _ u. some (read_video u))
        (run fuel video_id
          ("--skip-download"
            ∷ "--no-warnings"
            ∷ "--write-info-json"
            ∷ ("https://www.youtube.com/watch?v=" ⧺ video_id)
            ∷ "--cookies"
            ∷ "cookies.txt"
            ∷ "-o"
            ∷ (env.metadata_dir ⧺ ("/" ⧺ video_id))
            ∷ [])
          w)
