-- ===== src/Sources/Download.antt =====
-- Download of sources/newYtDownload.go. The process
-- of yt-dlp, the files and the pool of addresses are services; the progress bar is left out. The loop
-- over the attempts runs on fuel, since an attempt that was throttled is not counted.
pub mod Qualities
use ytsync.Base.{
  ℕ, zero, suc, String, Bool, true, false, not, ◌&&◌, Option, none, some, List, [], ◌∷◌, length,
  contains, str_eq, ltb, leb, if◌then◌else◌, Result, ok, err,
}
use ytsync.Sources.Ytdlp.{KnownError, known_message, DownloadResults, CommandEnd, command_results}

pub record DownloadEnv (W : Type 0) : Type 0 where
  -- os.Mkdir, os.Stat of the video, of its metadata, and checkCookiesIntegrity.
  pub make_video_dir : W → Result String (Unit {0}) × W
  pub video_exists : W → Result String Bool × W
  pub check_metadata : W → Result String (Unit {0}) × W
  pub check_cookies_integrity : W → Result String (Unit {0}) × W
  pub get_source_address : W → Result String String × W
  pub release_ip : String → W → W
  pub set_throttled : String → W → W
  -- yt-dlp, for a quality, as Google's bot or not, from an address.
  pub run_command : String → Bool → String → W → Result String CommandEnd × W
  -- os.Stat and os.Chmod of the video.
  pub video_size : W → Result String ℕ × W
  pub delete_video : W → W

-- 1080 and the lower ones; videos of more than one hour start at 720.
unfoldable pub qualities : ℕ → List String
qualities seconds =
    if ltb 3600 seconds then "720" ∷ "480" ∷ "360" ∷ [] else "1080" ∷ "720" ∷ "480" ∷ "360" ∷ []

-- The end of a download: an error, or the size that is set, if it is.
abbrev pub Outcome : Type 0 → Type 0
Outcome W = Option (Result String (Option ℕ) × W)

abbrev pub known_result : Option KnownError → Result String (Option ℕ)
known_result none = ok none
known_result (some e) = err (known_message e)

abbrev pub used : String → Result String DownloadResults → Result String (DownloadResults × String)
used ip (ok r) = ok (r, ip)
used ip (err e) = err e

module _ {W : Type 0} (env : DownloadEnv W) where
  abbrev pub classified :
      String → Result String CommandEnd × W → Result String (DownloadResults × String) × W
  classified ip (err e, w) = (err e, w)
  classified ip (ok c, w) = (used ip (command_results c), w)

  abbrev pub released : {A : Type 0} → String → A × W → A × W
  released ip (a, w) = (a, env.release_ip ip w)

  abbrev pub run_from :
      String → Bool → Result String String × W → Result String (DownloadResults × String) × W
  run_from quality bot (err e, w) = (err e, w)
  run_from quality bot (ok ip, w) = classified ip (released ip (env.run_command quality bot ip w))

  -- One attempt: its results and the address that it used, which is released in any case.
  unfoldable pub attempt_once : String → Bool → W → Result String (DownloadResults × String) × W
  attempt_once quality bot w = run_from quality bot (env.get_source_address w)

  abbrev pub sized : Result String ℕ × W → Outcome W
  sized (ok n, w) = some (ok (some n), w)
  sized (err e, w) = some (err e, w)

  -- What follows an attempt; `next` makes the further ones. `rest` are the qualities below.
  unfoldable pub after_attempt :
      (ℕ → List String → Bool → Option KnownError → W → Outcome W)
      → ℕ
      → String
      → List String
      → Bool
      → Result String (DownloadResults × String) × W
      → Outcome W
  after_attempt next n quality rest bot (err e, w) = some (err e, env.delete_video w)
  after_attempt next n quality rest bot (ok (r, ip), w) =
      if r.successful
      then sized (env.video_size w)
      else if r.could_retry && r.reduce_resolution
      then if leb (length rest) 1
        then some (known_result r.known_error, env.delete_video w)
        else next n rest bot r.known_error (env.delete_video w)
      else if r.could_retry && r.change_user_agent
      then next n (quality ∷ rest) true r.known_error w
      else if r.could_retry && r.was_throttled
      then next (suc n) (quality ∷ rest) bot r.known_error (env.set_throttled ip w)
      else some (known_result r.known_error, env.delete_video w)

  -- The loop of Download, with the attempts that remain and the qualities from the present one on.
  unfoldable pub attempts : ℕ → ℕ → List String → Bool → Option KnownError → W → Outcome W
  attempts zero n qs bot last w = none
  attempts (suc f) zero qs bot last w = some (known_result last, w)
  attempts (suc f) (suc n) [] bot last w = some (err "runtime error: index out of range", w)
  attempts (suc f) (suc n) (q ∷ qs) bot last w =
      after_attempt (attempts f) n q qs bot (attempt_once q bot w)

  abbrev pub then_ : {A : Type 0} → Result String A × W → (A → W → Outcome W) → Outcome W
  then_ (ok a, w) next = next a w
  then_ (err e, w) next = some (err e, w)

  abbrev pub fetch : ℕ → ℕ → W → Outcome W
  fetch fuel seconds w = then_ (env.check_metadata w) λ _ u.
      then_ (env.check_cookies_integrity u)
        λ _ v. attempts fuel (length (qualities seconds)) (qualities seconds) false none v

  abbrev pub unless_there : ℕ → ℕ → Bool → W → Outcome W
  unless_there fuel seconds true w = some (ok none, w)
  unless_there fuel seconds false w = fetch fuel seconds w

  -- Download, for a video of so many seconds.
  unfoldable pub download : ℕ → ℕ → W → Outcome W
  download fuel seconds w =
      then_ (env.make_video_dir w) λ _ u. then_ (env.video_exists u) (unless_there fuel seconds)
