-- ===== src/Sdk/Api/Ends.antt =====
-- The calls of the internal APIs end, if the trouble with the server does.
use ytsync.Base.{
  ℕ, zero, suc, ◌<◌, ◌≡◌, refl, String, Bool, true, ◌&&◌, ◌||◌, Option, some, List, Result, ok, err,
  Bool-cases, inl, inr, arith, str_eq, ◌⧺◌,
}
use ytsync.Shared.{SyncFlags, VideoStatus}
use ytsync.Sources.Loops.{Loop}
use ytsync.Sdk.{sanitize_failure_reason}
use ytsync.Sdk.Api.{
  ApiEnv, Reply, Values, after_reply, call, is_not_ok, is_server_error, is_unexpected,
  fetch_channels, set_channel_cert, set_channel_status, set_channel_claim_id, delete_videos,
  mark_video_status, is_published, video_state, get_released_date, status_values,
}

-- No answer, or one with another status code than 200.
unfoldable pub is_trouble : Result String Reply → Bool
is_trouble (err _) = true
is_trouble (ok r) = is_not_ok r

abbrev pub Returns : {W A : Type 0} → Loop W A → W → Type 0
Returns {W} {A} m w = (r : Result String A) × (u : W) × (m w ≡ some (r, u))

module _ {W : Type 0} (env : ApiEnv W) (left : W → ℕ)
    (recovers : (endpoint : String) (values : Values) (w : W)
      → is_trouble (env.post_form endpoint values w).0 ≡ true
      → left (env.sleep (env.post_form endpoint values w).1) < left w) where
  after_reply-Returns :
      {A : Type 0} (repeats : Reply → Bool) (again : Loop W A) (decode : Reply → Result String A)
      (q : Result String Reply × W)
      → ((r : Reply) → repeats r ≡ true → is_not_ok r ≡ true)
      → (is_trouble q.0 ≡ true → Returns again (env.sleep q.1))
      → (r : Result String A) × (u : W) × (after_reply env repeats again decode q ≡ some (r, u))
  unfolding is_trouble
  after_reply-Returns repeats again decode (err e, w) trouble later = later refl
  after_reply-Returns repeats again decode (ok r, w) trouble later = elim (Bool-cases (repeats r)) [
    | inl e1 ↦ rw e1 (later (trouble r e1))
    | inr e2 ↦ rw e2 (decode r, w, refl)
  ]

  call-Returns :
      {A : Type 0} (n : ℕ) (endpoint : String) (values : Values) (repeats : Reply → Bool)
      (decode : Reply → Result String A) (again : Loop W A) (w : W)
      → ((r : Reply) → repeats r ≡ true → is_not_ok r ≡ true)
      → ((u : W) → left u < n → Returns again u)
      → left w < suc n
      → Returns (call env endpoint values repeats decode again) w
  call-Returns n endpoint values repeats decode again w trouble later enough =
      after_reply-Returns repeats again decode (env.post_form (env.api_url ⧺ endpoint) values w)
        trouble λ t. later _ (omega (arith, recovers (env.api_url ⧺ endpoint) values w t, enough))

  not_ok : (r : Reply) → is_not_ok r ≡ true → is_not_ok r ≡ true
  not_ok r h = h

  server_error : (r : Reply) → is_server_error env r ≡ true → is_not_ok r ≡ true
  server_error r h = ground arith

  unexpected : (r : Reply) → is_unexpected env r ≡ true → is_not_ok r ≡ true
  unexpected r h = ground arith

  fetch_channels-Returns :
      (n : ℕ) (status : String) (flags : SyncFlags) (w : W)
      → left w < n
      → Returns (fetch_channels env n status flags) w
  unfolding fetch_channels
  fetch_channels-Returns zero status flags w enough = absurd (omega arith)
  fetch_channels-Returns (suc n) status flags w enough =
      call-Returns n "/yt/jobs" _ is_not_ok _ (fetch_channels env n status flags) w not_ok
        (fetch_channels-Returns n status flags) enough

  set_channel_cert-Returns :
      (n : ℕ) (cert id : String) (w : W) → left w < n → Returns (set_channel_cert env n cert id) w
  unfolding set_channel_cert
  set_channel_cert-Returns zero cert id w enough = absurd (omega arith)
  set_channel_cert-Returns (suc n) cert id w enough =
      call-Returns n "/yt/channel_cert" _ is_not_ok _ (set_channel_cert env n cert id) w not_ok
        (set_channel_cert-Returns n cert id) enough

  set_channel_status-Returns :
      (n : ℕ) (id status reason : String) (state : Option ℕ) (w : W)
      → left w < n
      → Returns (set_channel_status env n id status reason state) w
  unfolding set_channel_status
  set_channel_status-Returns zero id status reason state w enough = absurd (omega arith)
  set_channel_status-Returns (suc n) id status reason state w enough =
      call-Returns n "/yt/channel_status" _ (is_server_error env) _
        (set_channel_status env n id status (sanitize_failure_reason reason) state) w server_error
        (set_channel_status-Returns n id status (sanitize_failure_reason reason) state) enough

  set_channel_claim_id-Returns :
      (n : ℕ) (id claim : String) (w : W)
      → left w < n
      → Returns (set_channel_claim_id env n id claim) w
  unfolding set_channel_claim_id
  set_channel_claim_id-Returns zero id claim w enough = absurd (omega arith)
  set_channel_claim_id-Returns (suc n) id claim w enough =
      call-Returns n "/yt/set_channel_claim_id" _ is_not_ok _ (set_channel_claim_id env n id claim)
        w not_ok (set_channel_claim_id-Returns n id claim) enough

  delete_videos-Returns :
      (n : ℕ) (videos : List String) (w : W) → left w < n → Returns (delete_videos env n videos) w
  unfolding delete_videos
  delete_videos-Returns zero videos w enough = absurd (omega arith)
  delete_videos-Returns (suc n) videos w enough =
      call-Returns n "/yt/video_delete" _ is_not_ok _ (delete_videos env n videos) w not_ok
        (delete_videos-Returns n videos) enough

  mark_video_status-Returns :
      (n : ℕ) (status : VideoStatus) (w : W)
      → left w < n
      → Returns (mark_video_status env n status) w
  unfolding mark_video_status
  mark_video_status-Returns zero status w enough = absurd (omega arith)
  mark_video_status-Returns (suc n) status w enough =
      let s : VideoStatus = record status {
        failure_reason = sanitize_failure_reason status.failure_reason;
      } in
      elim (Bool-cases (is_published env s && (str_eq s.claim_id "" || str_eq s.claim_name ""))) [
        | inl e1 ↦ rw e1 (_, w, refl)
        | inr e2 ↦ rw e2 (
            call-Returns n "/yt/video_status" (status_values env s w) is_not_ok _
              (mark_video_status env n s) w not_ok (mark_video_status-Returns n s) enough)
      ]

  video_state-Returns :
      (n : ℕ) (id : String) (w : W) → left w < n → Returns (video_state env n id) w
  unfolding video_state
  video_state-Returns zero id w enough = absurd (omega arith)
  video_state-Returns (suc n) id w enough =
      call-Returns n "/yt/video_state" _ (is_unexpected env) _ (video_state env n id) w unexpected
        (video_state-Returns n id) enough

  get_released_date-Returns :
      (n : ℕ) (id : String) (w : W) → left w < n → Returns (get_released_date env n id) w
  unfolding get_released_date
  get_released_date-Returns zero id w enough = absurd (omega arith)
  get_released_date-Returns (suc n) id w enough =
      call-Returns n "/yt/released" _ (is_unexpected env) _ (get_released_date env n id) w
        unexpected (get_released_date-Returns n id) enough

  -- If the server can be in trouble only so often (`left` decreases with each post that has no
  -- answer of status 200), every call of the internal APIs returns.
  pub every_call-Returns :
      (n : ℕ) (w : W) (flags : SyncFlags) (status : VideoStatus) (ids : List String)
      (a b c : String) (state : Option ℕ)
      → left w < n
      → Returns (fetch_channels env n a flags) w
        × Returns (set_channel_cert env n a b) w
        × Returns (set_channel_status env n a b c state) w
        × Returns (set_channel_claim_id env n a b) w
        × Returns (delete_videos env n ids) w
        × Returns (mark_video_status env n status) w
        × Returns (video_state env n a) w
        × Returns (get_released_date env n a) w
  every_call-Returns n w flags status ids a b c state h = (
    fetch_channels-Returns n a flags w h,
    set_channel_cert-Returns n a b w h,
    set_channel_status-Returns n a b c state w h,
    set_channel_claim_id-Returns n a b w h,
    delete_videos-Returns n ids w h,
    mark_video_status-Returns n status w h,
    video_state-Returns n a w h,
    get_released_date-Returns n a w h,
  )
