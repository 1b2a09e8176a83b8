-- ===== src/Sdk/Api.antt =====
-- sdk/api.go: the calls of the internal APIs. The client, the decoding of JSON and the clock are
-- services. Each call repeats itself after an error of the client or an unwanted status code, so it
-- runs on fuel, and `none` is a call that still waits.
pub mod Synced
pub mod Ends
use ytsync.Base.{
  ℕ, zero, suc, String, Bool, true, false, not, ◌&&◌, ◌||◌, ◌⧺◌, ◌++◌, Option, none, some, List, [],
  ◌∷◌, Dict, insert, str_eq, ltb, leb, ◌==◌, if◌then◌else◌, Result, ok, err,
}
use ytsync.Shared.{YoutubeChannel, SyncFlags, VideoStatus}
use ytsync.Namer.{Names}
use ytsync.Namer.Decimal.{itoa}
use ytsync.Manager.State.{SyncedVideo}
use ytsync.Sources.Loops.{Loop}
use ytsync.Sdk.{sanitize_failure_reason}

abbrev pub Values : Type 0
Values = List (String × String)

-- An answer: its status code, and its body with the error of reading it.
pub record Reply : Type 0 where
  pub status_code : ℕ
  pub body : String
  pub body_error : Option String

-- The documents of the APIs, `none` for null.
pub record Response (A : Type 0) : Type 0 where
  pub error : Option String
  pub content : Option A

pub record VideoRelease : Type 0 where
  pub id : ℕ
  pub youtube_data_id : ℕ
  pub video_id : String
  pub release_time : String
  pub created_at : String
  pub updated_at : String

pub record ApiEnv (W : Type 0) : Type 0 where
  pub api_url : String
  pub api_token : String
  pub host_name : String
  pub post_form : String → Values → W → Result String Reply × W
  pub sleep : W → W
  pub unix_time : W → ℕ
  pub join_ids : List String → String
  pub decode_channels : String → Result String (Response (List YoutubeChannel))
  pub decode_videos : String → Result String (Response (List SyncedVideo))
  pub decode_text : String → Result String (Response String)
  pub decode_release : String → Result String (Response VideoRelease)
  -- errors.Err of an error that may be null, and the messages with numbers and ids.
  pub null_error : Option String → String
  pub invalid_response : ℕ → String
  pub missing_claim : String → String → String

abbrev pub text_of_bool : Bool → String
text_of_bool true = "true"
text_of_bool false = "false"

abbrev pub is_not_ok : Reply → Bool
is_not_ok r = not (r.status_code == 200)

abbrev pub is_not_found : Reply → Bool
is_not_found r = r.status_code == 404

-- What follows the decoding of a document.
abbrev pub unless_error :
    {A B : Type 0} → Result String (Response A) → (Option A → Result String B) → Result String B
unless_error (err e) next = err e
unless_error (ok d) next = elim d.error [ some e ↦ err e | none ↦ next d.content ]

module _ {W : Type 0} (env : ApiEnv W) where
  abbrev pub after_reply :
      {A : Type 0}
      → (Reply → Bool)
      → Loop W A
      → (Reply → Result String A)
      → Result String Reply × W
      → Option (Result String A × W)
  after_reply repeats again decode (err e, w) = again (env.sleep w)
  after_reply repeats again decode (ok r, w) =
      let later = again (env.sleep w) in if repeats r then later else some (decode r, w)

  -- One call, which `again` repeats.
  abbrev pub call :
      {A : Type 0}
      → String
      → Values
      → (Reply → Bool)
      → (Reply → Result String A)
      → Loop W A
      → Loop W A
  call endpoint values repeats decode again w =
      after_reply repeats again decode (env.post_form (env.api_url ⧺ endpoint) values w)

  abbrev pub some_channels :
      Result String (Response (List YoutubeChannel)) → Result String (List YoutubeChannel)
  some_channels (err e) = err e
  some_channels (ok d) = elim d.content [ none ↦ err (env.null_error d.error) | some cs ↦ ok cs ]

  unfoldable pub fetch_channels : ℕ → String → SyncFlags → Loop W (List YoutubeChannel)
  fetch_channels zero status flags w = none
  fetch_channels (suc n) status flags w =
      call "/yt/jobs"
        (("auth_token", env.api_token)
          ∷ ("sync_status", status)
          ∷ ("min_videos", itoa 1)
          ∷ ("after", itoa flags.sync_from)
          ∷ ("before", itoa flags.sync_until)
          ∷ ("sync_server", env.host_name)
          ∷ ("channel_id", flags.channel_id)
          ∷ ("with_deleted_on_youtube", text_of_bool flags.with_deleted_on_youtube)
          ∷ [])
        is_not_ok (λ r. some_channels (env.decode_channels r.body)) (fetch_channels n status flags)
        w

  unfoldable pub set_channel_cert : ℕ → String → String → Loop W (Unit {0})
  set_channel_cert zero cert_hex channel_id w = none
  set_channel_cert (suc n) cert_hex channel_id w =
      call "/yt/channel_cert"
        (("channel_claim_id", channel_id)
          ∷ ("channel_cert", cert_hex)
          ∷ ("auth_token", env.api_token)
          ∷ [])
        is_not_ok (λ r. unless_error (env.decode_text r.body) (λ _. ok tt))
        (set_channel_cert n cert_hex channel_id) w

  -- The maps of the videos and of the claim names.
  unfoldable pub synced_videos_of : List SyncedVideo → Dict SyncedVideo → Dict SyncedVideo
  synced_videos_of [] d = d
  synced_videos_of (v ∷ vs) d = synced_videos_of vs (insert v.video_id v d)

  unfoldable pub claim_names_of : List SyncedVideo → Names → Names
  claim_names_of [] names = names
  claim_names_of (v ∷ vs) names =
      claim_names_of vs
        (if not (str_eq v.claim_name "") then insert v.claim_name v.published names else names)

  abbrev pub maps_of : Reply → Option (List SyncedVideo) → Result String (Dict SyncedVideo × Names)
  maps_of r none = err (env.invalid_response r.status_code)
  maps_of r (some vs) = ok (synced_videos_of vs [], claim_names_of vs [])

  abbrev pub read_videos : Option String → Reply → Result String (Dict SyncedVideo × Names)
  read_videos (some e) r = err e
  read_videos none r = unless_error (env.decode_videos r.body) (maps_of r)

  -- A body that cannot be read is not asked for again.
  abbrev pub is_server_error : Reply → Bool
  is_server_error r = elim r.body_error [ some e ↦ false | none ↦ leb 500 r.status_code ]

  abbrev pub with_transfer_state : Option ℕ → Values → Values
  with_transfer_state none values = values
  with_transfer_state (some n) values = values ++ ("transfer_state", itoa n) ∷ []

  unfoldable pub set_channel_status :
      ℕ → String → String → String → Option ℕ → Loop W (Dict SyncedVideo × Names)
  set_channel_status zero channel_id status failure_reason transfer_state w = none
  set_channel_status (suc n) channel_id status failure_reason transfer_state w =
      let reason = sanitize_failure_reason failure_reason in
      call "/yt/channel_status"
        (with_transfer_state transfer_state (
          ("channel_id", channel_id)
          ∷ ("sync_server", env.host_name)
          ∷ ("auth_token", env.api_token)
          ∷ ("sync_status", status)
          ∷ ("failure_reason", reason)
          ∷ []))
        is_server_error (λ r. read_videos r.body_error r)
        (set_channel_status n channel_id status reason transfer_state) w

  -- Data that is null reads as the empty text here.
  abbrev pub expect_ok : Option String → Result String (Unit {0})
  expect_ok none = err "Unexpected API response"
  expect_ok (some text) = if str_eq text "ok" then ok tt else err "Unexpected API response"

  unfoldable pub set_channel_claim_id : ℕ → String → String → Loop W (Unit {0})
  set_channel_claim_id zero channel_id channel_claim_id w = none
  set_channel_claim_id (suc n) channel_id channel_claim_id w =
      call "/yt/set_channel_claim_id"
        (("channel_id", channel_id)
          ∷ ("auth_token", env.api_token)
          ∷ ("channel_claim_id", channel_claim_id)
          ∷ [])
        is_not_ok (λ r. unless_error (env.decode_text r.body) expect_ok)
        (set_channel_claim_id n channel_id channel_claim_id) w

  abbrev pub valid_ok : Reply → Option String → Result String (Unit {0})
  valid_ok r none = err (env.invalid_response r.status_code)
  valid_ok r (some text) =
      if str_eq text "ok" then ok tt else err (env.invalid_response r.status_code)

  unfoldable pub delete_videos : ℕ → List String → Loop W (Unit {0})
  delete_videos zero videos w = none
  delete_videos (suc n) videos w =
      call "/yt/video_delete"
        (("video_ids", env.join_ids videos) ∷ ("auth_token", env.api_token) ∷ []) is_not_ok
        (λ r. unless_error (env.decode_text r.body) (valid_ok r)) (delete_videos n videos) w

  abbrev pub size_value : Option ℕ → Values
  size_value none = []
  size_value (some n) = ("size", itoa n) ∷ []

  abbrev pub transferred_value : Option Bool → Values
  transferred_value none = []
  transferred_value (some b) = ("transferred", text_of_bool b) ∷ []

  abbrev pub is_published : VideoStatus → Bool
  is_published s = str_eq s.status "published" || str_eq s.status "upgradefailed"

  unfoldable pub status_values : VideoStatus → W → Values
  status_values s w =
      (("youtube_channel_id", s.channel_id)
        ∷ ("video_id", s.video_id)
        ∷ ("status", s.status)
        ∷ ("auth_token", env.api_token)
        ∷ [])
      ++ ((if is_published s
            then ("published_at", itoa (env.unix_time w))
              ∷ ("claim_id", s.claim_id)
              ∷ ("claim_name", s.claim_name)
              ∷ ((if ltb 0 s.metadata_version
                    then ("metadata_version", itoa s.metadata_version) ∷ []
                    else [])
                  ++ size_value s.size)
            else [])
          ++ ((if not (str_eq s.failure_reason "")
                then ("failure_reason", s.failure_reason) ∷ []
                else [])
              ++ transferred_value s.is_transferred))

  unfoldable pub mark_video_status : ℕ → VideoStatus → Loop W (Unit {0})
  mark_video_status zero status w = none
  mark_video_status (suc n) status w =
      let s = record status { failure_reason = sanitize_failure_reason status.failure_reason } in
      let posted =
        call "/yt/video_status" (status_values s w) is_not_ok
          (λ r. unless_error (env.decode_text r.body) (valid_ok r)) (mark_video_status n s) w in
      if is_published s && (str_eq s.claim_id "" || str_eq s.claim_name "")
      then some (err (env.missing_claim s.claim_id s.claim_name), w)
      else posted

  abbrev pub some_text : Reply → Option String → Result String String
  some_text r none = err (env.invalid_response r.status_code)
  some_text r (some text) = ok text

  abbrev pub is_unexpected : Reply → Bool
  is_unexpected r = not (is_not_found r) && is_not_ok r

  unfoldable pub video_state : ℕ → String → Loop W String
  video_state zero video_id w = none
  video_state (suc n) video_id w =
      call "/yt/video_state" (("video_id", video_id) ∷ ("auth_token", env.api_token) ∷ [])
        is_unexpected
        (λ r.
          let state = unless_error (env.decode_text r.body) (some_text r) in
          if is_not_found r then ok "not_found" else state)
        (video_state n video_id) w

  -- Data that is null reads as a release without a time.
  abbrev pub some_release : Reply → Option VideoRelease → Result String (Option VideoRelease)
  some_release r none = err (env.invalid_response r.status_code)
  some_release r (some v) =
      if not (str_eq v.release_time "")
      then ok (some v)
      else err (env.invalid_response r.status_code)

  unfoldable pub get_released_date : ℕ → String → Loop W (Option VideoRelease)
  get_released_date zero video_id w = none
  get_released_date (suc n) video_id w =
      call "/yt/released" (("video_id", video_id) ∷ ("auth_token", env.api_token) ∷ [])
        is_unexpected
        (λ r.
          let release = unless_error (env.decode_release r.body) (some_release r) in
          if is_not_found r then ok none else release)
        (get_released_date n video_id) w
