-- ===== src/Manager/Worker.antt =====
-- startWorker of manager/ytsync.go: the retry loop around processVideo. strings.ToLower, the lookup
-- of lbry.go in a list of messages, processVideo, walletSetup and the calls of services are
-- arguments; sleeping has no effect.
pub mod Retry
use ytsync.Base.{
  ℕ, zero, suc, ◌<◌, String, Bool, true, false, not, ◌&&◌, ◌||◌, Option, none, some, List, [], ◌∷◌,
  ltb, str_eq, contains, lookup, max, if◌then◌else◌, Result, ok, err, Method,
}
use ytsync.Shared.{
  SyncFlags, VideoStatus, fatal_errors, errors_no_retry, wallet_errors, blockchain_errors,
}
use ytsync.Shared.Status
use ytsync.Manager.State.{
  SyncedVideo, Sync, on_world, flag_failure, stop, append_synced_video, or_no_video,
}

-- ytapi.Video: what the manager reads of a video. Its size is set while it is processed, and stands
-- in the state.
pub record Video : Type 0 where
  pub id : String
  pub playlist_position : ℕ

-- How the loop over the attempts ends: the worker stops, or takes the next video.
pub data Next : Type 0 where
  stop_worker next_video : Next

abbrev pub size_or_zero : Option ℕ → ℕ
size_or_zero none = 0
size_or_zero (some n) = n

-- What the worker calls.
pub record WorkerEnv (W : Type 0) : Type 0 where
  pub flags : SyncFlags
  pub substring_in_slice : String → List String → Bool
  pub to_lower : String → String
  pub stop_closed : W → Bool
  pub process_video : Video → Method (Sync W) (Unit {0})
  pub wait_for_new_block : W → Result String (Unit {0}) × W
  pub wallet_setup : Method (Sync W) (Unit {0})
  pub mark_video_status : VideoStatus → W → Result String (Unit {0}) × W

abbrev pub video_status : String → String
video_status msg =
    if contains msg "upgrade failed" then Status.video_upgrade_failed else Status.video_failed

module _ {W : Type 0} where
  abbrev pub existing : Video → Sync W → SyncedVideo
  existing v s = or_no_video (lookup v.id s.synced_videos)

  abbrev pub existing_size : Video → Sync W → ℕ
  existing_size v s =
      if ltb 0 (existing v s).size then (existing v s).size else size_or_zero (lookup v.id s.sizes)

  abbrev pub failure : String → String → Video → Sync W → VideoStatus
  failure channel_id msg v s = record {
    channel_id = channel_id;
    video_id = v.id;
    status = video_status msg;
    claim_id = (existing v s).claim_id;
    claim_name = (existing v s).claim_name;
    failure_reason = msg;
    size = some (existing_size v s);
    metadata_version = 0;
    is_transferred = none;
  }

module _ {W : Type 0} (env : WorkerEnv W) where
  -- The stop channel is closed by this sync, or from outside.
  abbrev pub is_stopped : Sync W → Bool
  is_stopped s = s.stopped || env.stop_closed s.world

  -- The end of a video that failed for good: the failure is recorded, here and on the server. An
  -- error of the server is only logged.
  unfoldable pub fail_video : String → Video → Sync W → Sync W
  unfolding append_synced_video contains
  fail_video msg v s =
      let t =
        if contains msg "upgrade failed"
        then s
        else append_synced_video v.id false msg (existing v s).claim_name (existing v s).claim_id 0
            (existing_size v s) s in
      (on_world (env.mark_video_status (failure s.db_channel_data.channel_id msg v s)) t).1

  unfoldable pub should_retry : ℕ → String → Bool
  should_retry try_count msg =
      ltb 1 env.flags.max_tries
      && not (env.substring_in_slice msg errors_no_retry)
      && ltb try_count env.flags.max_tries

  -- An error while preparing the retry stops the group and leaves the video unmarked.
  abbrev pub prepared : Result String (Unit {0}) × Sync W → Bool × Sync W
  prepared (ok _, s) = (true, s)
  prepared (err e, s) = (false, stop s)

  unfoldable pub prepare_retry : String → Sync W → Bool × Sync W
  prepare_retry msg s =
      if env.substring_in_slice msg blockchain_errors
      then prepared (on_world env.wait_for_new_block s)
      else if env.substring_in_slice msg wallet_errors
      then prepared (env.wallet_setup s)
      else (true, s)

  -- What happens to an error of processVideo; `true` is `continue`.
  unfoldable pub handle_error : ℕ → String → Video → Sync W → Bool × Sync W
  unfolding flag_failure prepare_retry
  handle_error try_count msg v s =
      if contains (env.to_lower msg) "interrupted by user"
      then (false, fail_video msg v (stop s))
      else if env.substring_in_slice msg fatal_errors
      then (false, fail_video msg v (stop (flag_failure msg s)))
      else if should_retry try_count msg
      then prepare_retry msg s
      else (false, fail_video msg v s)

  abbrev pub again_or_next : (Sync W → Next × Sync W) → Bool × Sync W → Next × Sync W
  again_or_next again (true, s) = again s
  again_or_next again (false, s) = (next_video, s)

  unfoldable pub after_process :
      (Sync W → Next × Sync W) → ℕ → Video → Result String (Unit {0}) × Sync W → Next × Sync W
  after_process again try_count v (ok _, s) = (next_video, s)
  after_process again try_count v (err msg, s) =
      again_or_next again (handle_error try_count msg v s)

  -- The loop over the attempts of one video, on fuel; `try_count` attempts were made.
  unfoldable pub attempt : ℕ → ℕ → Video → Sync W → Next × Sync W
  attempt zero try_count v s = (next_video, s)
  attempt (suc fuel) try_count v s =
      let next =
        after_process (attempt fuel (suc try_count) v) (suc try_count) v (env.process_video v s) in
      if is_stopped s then (stop_worker, s) else next

  abbrev pub continue_with : (Sync W → Sync W) → Next × Sync W → Sync W
  continue_with rest (stop_worker, s) = s
  continue_with rest (next_video, s) = rest s

  -- startWorker, on the videos that it receives from the queue until this is closed.
  unfoldable pub start_worker : List Video → Sync W → Sync W
  start_worker [] s = s
  start_worker (v ∷ vs) s =
      let done = continue_with (start_worker vs) (attempt (max 1 env.flags.max_tries) 0 v s) in
      if is_stopped s then s else done
