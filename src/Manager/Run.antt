-- ===== src/Manager/Run.antt =====
-- doSync and enqueueYoutubeVideos of manager/ytsync.go, with one worker that receives the videos in
-- their order. The listing of the videos, walletSetup and the daemon's calls are arguments.
use ytsync.Base.{
  subst, ap, ◌≡◌, refl, String, Option, none, some, List, str_eq, ltb, if◌then◌else◌, Result, ok,
  err, Method, ◌>>=◌, ◌>>◌, arith,
}
use ytsync.Shared.Status
use ytsync.Manager.State.{Sync, on_world}
use ytsync.Manager.Accounts.{enable_address_reuse, import_public_key}
use ytsync.Manager.Worker.{Video, WorkerEnv, start_worker}
use ytsync.Manager.Integrity.{IntegrityEnv}
use ytsync.Manager.Integrity.Remote.{check_integrity, prefixed}

pub record RunEnv (W : Type 0) : Type 0 where
  pub integrity : IntegrityEnv W
  pub worker : WorkerEnv W
  pub utxo_release : W → Result String (Unit {0}) × W
  pub channel_export : String → W → Result String (Option String) × W
  pub set_channel_cert : String → String → W → Result String (Unit {0}) × W
  pub get_videos_to_sync : Method (Sync W) (List Video)

module _ {W : Type 0} (env : RunEnv W) where
  abbrev pub or_prefix : {A : Type 0} → String → Method (Sync W) A → Method (Sync W) A
  or_prefix before m s = prefixed env.integrity before (m s)

  abbrev pub send_cert : Option String → Method (Sync W) (Unit {0})
  send_cert none s = (ok tt, s)
  send_cert (some cert) s =
      or_prefix "error setting channel cert"
        (on_world (env.set_channel_cert cert s.db_channel_data.channel_claim_id)) s

  unfoldable pub export_cert : Method (Sync W) (Unit {0})
  export_cert s =
      let r =
        (do
          cert ←
              or_prefix "error getting channel cert"
                (on_world (env.channel_export s.db_channel_data.channel_claim_id))
          send_cert cert)
          s in
      if ltb s.db_channel_data.transfer_state Status.transfer_complete then r else (ok tt, s)

  -- The videos go through the queue to the worker.
  unfoldable pub enqueue_youtube_videos : Method (Sync W) (Unit {0})
  enqueue_youtube_videos =
      env.get_videos_to_sync >>= λ videos. λ s. (ok tt, start_worker env.worker videos s)

  unfoldable pub work : Method (Sync W) (Unit {0})
  work s =
      let r = enqueue_youtube_videos s in
      if str_eq s.db_channel_data.desired_channel_name "@UCBerkeley"
      then (err "UCB is not supported in this version of YTSYNC", s)
      else if s.db_channel_data.is_deleted_on_youtube
      then (ok tt, s)
      else r

  abbrev pub hard_failure : Option String → Sync W → Result String (Unit {0}) × Sync W
  hard_failure none s = (ok tt, s)
  hard_failure (some reason) s = (err reason, s)

  -- The part of doSync before the workers.
  unfoldable pub prepare : Method (Sync W) (Unit {0})
  prepare = do
    or_prefix "could not set address reuse policy" (enable_address_reuse env.integrity.accounts)
    or_prefix "could not import the transferee public key"
        (import_public_key env.integrity.accounts)
    or_prefix "could not run uxo_release" (on_world env.utxo_release)
    or_prefix "Initial wallet setup failed! Manual Intervention is required."
        env.worker.wallet_setup
    check_integrity env.integrity
    export_cert

  abbrev pub after_work : Result String (Unit {0}) × Sync W → Result String (Unit {0}) × Sync W
  after_work (ok _, s) = hard_failure s.hard_video_failure s
  after_work (err e, s) = (err e, s)

  abbrev pub after_prepare : Result String (Unit {0}) × Sync W → Result String (Unit {0}) × Sync W
  after_prepare (ok _, s) = after_work (work s)
  after_prepare (err e, s) = (err e, s)

  unfoldable pub do_sync : Method (Sync W) (Unit {0})
  do_sync s = after_prepare (prepare s)

  hard_failure-ok :
      (o : Option String) (s t : Sync W) → hard_failure o s ≡ (ok tt, t) → (o ≡ none) × (s ≡ t)
  hard_failure-ok none s t h = (refl, ap (λ r. r.1) h)
  hard_failure-ok (some reason) s t h = absurd (ground arith)

  after_work-ok :
      (r : Result String (Unit {0}) × Sync W) (t : Sync W)
      → after_work r ≡ (ok tt, t)
      → (r ≡ (ok tt, t)) × (t.hard_video_failure ≡ none)
  after_work-ok (err e, s) t h = absurd (ground arith)
  after_work-ok (ok _, s) t h =
      let (clean, same) = hard_failure-ok s.hard_video_failure s t h in
      (ap (λ u. (ok tt, u)) same, subst (λ u. u.hard_video_failure ≡ none) same clean)

  after_prepare-ok :
      (r : Result String (Unit {0}) × Sync W) (t : Sync W)
      → after_prepare r ≡ (ok tt, t)
      → (u : Sync W) × (r ≡ (ok tt, u)) × (work u ≡ (ok tt, t)) × (t.hard_video_failure ≡ none)
  after_prepare-ok (err e, s) t h = absurd (ground arith)
  after_prepare-ok (ok _, s) t h =
      let (done, clean) = after_work-ok (work s) t h in (s, refl, done, clean)

  -- When doSync succeeds, its preparations succeeded, the videos were worked on without an error of
  -- the listing, and no worker has flagged a fatal failure.
  pub do_sync-ok :
      (s t : Sync W)
      → do_sync s ≡ (ok tt, t)
      → (u : Sync W) × (prepare s ≡ (ok tt, u))
        × (work u ≡ (ok tt, t))
        × (t.hard_video_failure ≡ none)
  unfolding do_sync
  do_sync-ok s t h = after_prepare-ok (prepare s) t h
