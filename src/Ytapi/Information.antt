-- ===== src/Ytapi/Information.antt =====
-- getVideos of ytapi/ytapi.go: the information on the videos, of a type of its own. The internal APIs
-- and the downloader are arguments.
pub mod Listed
use ytsync.Base.{
  ℕ, String, Bool, true, false, byte_len, List, [], ◌∷◌, ltb, str_eq, if◌then◌else◌, Result, ok,
  err, Method, resume, return, ◌>>=◌,
}

pub record InformationEnv (W A : Type 0) : Type 0 where
  pub stop_closed : W → Bool
  pub video_state : String → W → Result String String × W
  pub get_video_information : String → W → Result String A × W
  -- MarkVideoStatus with the status "failed", of a channel, a video and a reason.
  pub mark_failed : String → String → String → W → Result String (Unit {0}) × W

module _ {W A : Type 0} (env : InformationEnv W A) where
  abbrev pub informed :
      Method W (List A) → String → String → Result String A × W → Result String (List A) × W
  informed rest channel id (ok v, w) = resume (λ vs. return (v ∷ vs)) (rest w)
  informed rest channel id (err e, w) = resume (λ _. rest) (env.mark_failed channel id e w)

  abbrev pub with_state :
      Method W (List A) → String → String → Result String String × W → Result String (List A) × W
  with_state rest channel id (err e, w) = (err e, w)
  with_state rest channel id (ok state, w) =
      if str_eq state "published"
      then rest w
      else informed rest channel id (env.get_video_information id w)

  -- The loop: a video that cannot be looked up is marked as failed and left out.
  unfoldable pub get_videos : String → List String → Method W (List A)
  get_videos channel [] w = (ok [], w)
  get_videos channel (id ∷ ids) w =
      let r = with_state (get_videos channel ids) channel id (env.video_state id w) in
      if ltb (byte_len id) 5
      then get_videos channel ids w
      else if env.stop_closed w
      then (err "interrupted by user", w)
      else r
