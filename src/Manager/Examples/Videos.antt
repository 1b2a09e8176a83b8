-- ===== src/Manager/Examples/Videos.antt =====
-- Runs of processVideo, startWorker and getDefaultAccount.
use ytsync.Base.{◌≡◌, refl, String, true, false, some, [], ◌∷◌, ok, err, contains, ◌⊎◌}
use ytsync.Shared.{default_videos_to_sync, fatal_errors}
use ytsync.Manager.State.{Sync}
use ytsync.Manager.Worker.{Video, WorkerEnv, start_worker}
use ytsync.Manager.Worker.Retry.{FailedAs, start_worker_fatal}
use ytsync.Manager.Process.{ProcessEnv, process_video, skips}
use ytsync.Manager.Process.Once.{Recorded, process_video-Recorded}
use ytsync.Manager.Examples.{Log, said, in_slice, flags, start, accounts}

abbrev pub video : Video
video = record { id = "v1"; playlist_position = 0 }

abbrev pub other : Video
other = record { id = "v2"; playlist_position = 1 }

abbrev pub worker : String → WorkerEnv Log
worker why = record {
  flags = flags;
  substring_in_slice = in_slice;
  to_lower = λ s. s;
  stop_closed = λ log. false;
  process_video = λ v s. (err why, record s { world = v.id ∷ s.world });
  wait_for_new_block = said "wait_for_new_block";
  wallet_setup = λ s. (ok tt, s);
  mark_video_status = λ status. said "mark_video_status";
}

abbrev tried : Sync Log
tried = record start { world = "v1" ∷ [] }

abbrev after_fatal : Sync Log
after_fatal = start_worker (worker "no space left on device") (video ∷ other ∷ []) start

start_worker_fatal_example :
    (after_fatal.stopped ≡ true)
    × (after_fatal.hard_video_failure ≡ some "no space left on device")
    × FailedAs (worker "no space left on device") "no space left on device" video tried after_fatal
unfolding contains fatal_errors
start_worker_fatal_example =
    start_worker_fatal (worker "no space left on device") video (other ∷ []) start tried
      "no space left on device" refl refl refl refl

abbrev processing : ProcessEnv Log
processing = record {
  flags = flags;
  quotas = default_videos_to_sync;
  substring_in_slice = in_slice;
  accounts = accounts;
  check_used_space = said "check_used_space";
  sync_video = λ v params existing reprocess names log. record {
    result = ok (record { claim_id = "c1"; claim_name = "first" });
    size = some 100;
    names = ("first", true) ∷ names;
    world = "sync" ∷ log;
  };
  mark_video_status = λ status. said "mark_video_status";
}

process_video-Recorded_example :
    ((skips processing video start ≡ true)
      × (process_video processing video start ≡ (ok tt, start)))
    ⊎ ((skips processing video start ≡ false)
        × Recorded processing video start (process_video processing video start))
process_video-Recorded_example = process_video-Recorded processing video start
