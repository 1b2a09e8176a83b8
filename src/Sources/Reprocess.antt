-- ===== src/Sources/Reprocess.antt =====
-- Sync and reprocess of sources/youtubeVideo.go: the update of a claim that is published already.
use ytsync.Base.{
  true, ℕ, String, Bool, false, ◌&&◌, ◌⧺◌, Option, none, some, List, [], ◌∷◌, ltb, ◌==◌,
  if◌then◌else◌, Result, ok, err,
}
use ytsync.Shared.{Fee}
use ytsync.Manager.State.{SyncedVideo}
use ytsync.Manager.Process.{SyncParams, SyncSummary}
use ytsync.Manager.Setup.{nil_dereference}
use ytsync.Manager.Integrity.{thumbnail_endpoint}
use ytsync.Sources.Loops.{Loop, once, done, failed, ◌>>=◌, ◌>>◌, with_prefix}
use ytsync.Sources.Video.{
  YtdlVideo, YoutubeVideo, Fetch, StreamOptions, on_service, get_best_thumbnail,
}
use ytsync.Sources.Sync.{
  SourceEnv, CurrentClaim, get_metadata, get_abbrev_description, parse_fee, download_and_publish,
}

abbrev pub no_info : YtdlVideo
no_info = record {
  duration = 0;
  is_live = false;
  availability = "";
  live_status = "";
  thumbnails = [];
  thumbnail_url = "";
  tags = [];
  categories = [];
}

abbrev pub info_of : Option YtdlVideo → YtdlVideo
info_of none = no_info
info_of (some info) = info

module _ {W : Type 0} (env : SourceEnv W) where
  abbrev pub only_claim : String → List CurrentClaim → Loop (Fetch W) CurrentClaim
  only_claim id [] = failed "cannot reprocess: no claim found for this video"
  only_claim id (c ∷ []) = done c
  only_claim id (_ ∷ _ ∷ _) = failed (env.too_many_claims id)

  -- The result of the last of three calls of MirrorThumbnail; its error is overwritten, and so are
  -- those of the others.
  abbrev pub text_or_empty :
      Result String String × Fetch W → Option (Result String String × Fetch W)
  text_or_empty (ok url, s) = some (ok url, s)
  text_or_empty (err _, s) = some (ok "", s)

  abbrev pub keep_url : Result String String × Fetch W → Fetch W
  keep_url (ok url, s) = record s { thumbnail_url = url }
  keep_url (err _, s) = record s { thumbnail_url = "" }

  abbrev pub mirror_best : YoutubeVideo → YtdlVideo → Result String String × Fetch W → Fetch W
  mirror_best v info (ok url, s) = record s { thumbnail_url = url }
  mirror_best v info (err _, s) =
      keep_url (
        on_service (env.mirror_thumbnail info.thumbnail_url v.id) (record s { thumbnail_url = "" }))

  unfoldable pub claim_thumbnail : YoutubeVideo → CurrentClaim → Loop (Fetch W) String
  claim_thumbnail v c s =
      let info = info_of v.youtube_info in
      let best = get_best_thumbnail info.thumbnails in
      let t = mirror_best v info (on_service (env.mirror_thumbnail best.url v.id) s) in
      let mirrored = text_or_empty (on_service (env.mirror_thumbnail info.thumbnail_url v.id) t) in
      if c.has_thumbnail
      then some (ok (thumbnail_endpoint ⧺ v.id), s)
      else if v.mocked
      then some (err "could not find thumbnail for mocked video", s)
      else if best.width == 0
      then some (err "default youtube thumbnail found", s)
      else mirrored

  abbrev pub update_options : YoutubeVideo → SyncParams → String → Option Fee → StreamOptions
  update_options v params thumbnail fee = record {
    title = if v.mocked then none else some v.title;
    description = if v.mocked then none else some (get_abbrev_description env v params.channel_id);
    claim_address = none;
    languages = [];
    thumbnail_url = thumbnail;
    tags = get_metadata env v (info_of v.youtube_info);
    funding_account = params.default_account;
    fee = fee;
    release_time = v.published_at;
    channel_id = params.channel_id;
    duration = if v.mocked then none else some (info_of v.youtube_info).duration;
  }

  abbrev pub first_claim : List SyncSummary → Loop (Fetch W) SyncSummary
  first_claim [] = failed "runtime error: index out of range"
  first_claim (c ∷ _) = done c

  -- The update of the claim, once the size is known.
  unfoldable pub update_claim :
      YoutubeVideo → SyncParams → String → String → ℕ → Loop (Fetch W) SyncSummary
  update_claim v params id thumbnail size = do
    λ s. some (ok tt, record s { size = some size })
    fee ← once (λ s. (parse_fee env params.fee, s))
    outputs ← once (on_service (env.stream_update id size (update_options v params thumbnail fee)))
    first_claim outputs

  -- A claim whose size cannot be found is abandoned and published anew.
  unfoldable pub publish_anew :
      ℕ → YoutubeVideo → SyncParams → CurrentClaim → String → Loop (Fetch W) SyncSummary
  publish_anew fuel v params c e =
      if v.mocked
      then failed (
          env.prefix_error
            "the video must be republished as we can't get the right size and it doesn't exist on youtube anymore"
            e)
      else once (on_service (env.stream_abandon c)) >> download_and_publish env fuel v params

  unfoldable pub with_size :
      ℕ
      → YoutubeVideo
      → SyncParams
      → SyncedVideo
      → CurrentClaim
      → String
      → Result String ℕ
      → Loop (Fetch W) SyncSummary
  with_size fuel v params existing c thumbnail (ok size) =
      update_claim v params existing.claim_id thumbnail size
  with_size fuel v params existing c thumbnail (err e) =
      if ltb 0 existing.size
      then update_claim v params existing.claim_id thumbnail existing.size
      else publish_anew fuel v params c e

  -- getMetadata of a video that is not mocked dereferences its information.
  abbrev pub needs_info : Bool → Option YtdlVideo → Loop (Fetch W) (Unit {0})
  needs_info true o = done tt
  needs_info false (some _) = done tt
  needs_info false none = failed nil_dereference

  unfoldable pub reprocess :
      ℕ → YoutubeVideo → SyncParams → SyncedVideo → Loop (Fetch W) SyncSummary
  reprocess fuel v params existing = do
    claims ← once (on_service (env.claim_search existing.claim_id))
    c ← only_claim existing.claim_id claims
    needs_info v.mocked v.youtube_info
    thumbnail ← claim_thumbnail v c
    with_size fuel v params existing c thumbnail c.stream_size

  unfoldable pub sync :
      ℕ → YoutubeVideo → SyncParams → Option SyncedVideo → Bool → Loop (Fetch W) SyncSummary
  sync fuel v params none again = download_and_publish env fuel v params
  sync fuel v params (some existing) again =
      if again && existing.published
      then with_prefix (env.prefix_error "upgrade failed") (reprocess fuel v params existing)
      else download_and_publish env fuel v params
