-- ===== src/Manager/Examples/Cycle.antt =====
-- Runs of FullCycle: one that succeeds, and one whose daemon does not start.
use ytsync.Base.{
  ◌≡◌, refl, String, true, false, some, [], ◌∷◌, Result, ok, err, contains, str_eq, All,
}
use ytsync.Manager.Termination.{
  CycleEnv, full_cycle, set_status_syncing, cycle_body, in_video_directory, perform_shutdown_tasks,
}
use ytsync.Manager.Termination.Effects.{full_cycle_failed, perform_shutdown_tasks_running}
use ytsync.Manager.Examples.{Log, said, refused, in_slice, flags, start}

abbrev ended : Log → Result String (Unit {0}) × Log
ended log = (ok tt, "wait_for_daemon_process" ∷ log)

abbrev running : Log → Result String (Unit {0}) × Log
running log = (err "timeout reached", "wait_for_daemon_process" ∷ log)

abbrev cycle :
    (Log → Result String (Unit {0}) × Log) → (Log → Result String (Unit {0}) × Log) → CycleEnv Log
cycle daemon process = record {
  flags = flags;
  use_vpn = true;
  home = "/home/lbry";
  substring_in_slice = in_slice;
  prefix_error = λ before e. before;
  full_trace = λ e. e;
  stop_closed = λ log. false;
  start_vpn = said "start_vpn";
  stop_vpn = said "stop_vpn";
  start_daemon = daemon;
  stop_daemon = said "stop_daemon";
  wait_for_daemon_process = process;
  download_wallet = said "download_wallet";
  download_blockchain_db = λ log. (ok true, log);
  upload_wallet = said "upload_wallet";
  upload_blockchain_db = said "upload_blockchain_db";
  make_video_directory = said "make_video_directory";
  delete_sync_folder = λ log. log;
  release_ips = λ log. "release_ips" ∷ log;
  update_ips = said "update_ips";
  set_channel_status = λ id status reason state log. (ok ([], []), status ∷ log);
  wait_for_daemon_start = λ s. (ok tt, s);
  do_sync = λ s. (ok tt, s);
  process_transfers = λ s. (ok tt, s);
}

abbrev pub good : CycleEnv Log
good = cycle (said "start_daemon") ended

abbrev bad : CycleEnv Log
bad = cycle (refused "no daemon" "start_daemon") ended

abbrev stuck : CycleEnv Log
stuck = cycle (said "start_daemon") running

abbrev NotSynced : Log → Type 0
NotSynced log = All (λ call. str_eq call "synced" ≡ false) log

full_cycle_failed_example : NotSynced (full_cycle bad start).1.world
unfolding full_cycle set_status_syncing cycle_body in_video_directory
full_cycle_failed_example =
    full_cycle_failed bad NotSynced start (set_status_syncing bad start).1
      (cycle_body bad (set_status_syncing bad start).1).1 "no daemon" refl refl refl
      (λ log h. (refl, h)) (λ log h. (refl, h)) (λ log h. (refl, h)) (λ log h. (refl, h))
      (λ log h. (refl, h)) (λ id reason log h. (refl, h)) (λ id reason log h. (refl, h))
      (refl, (refl, (refl, (refl, (refl, (refl, (refl, tt)))))))

abbrev NoUpload : Log → Type 0
NoUpload log = All (λ call. contains call "upload" ≡ false) log

perform_shutdown_tasks_running_example :
    NoUpload (perform_shutdown_tasks stuck (some "no luck") start).1.world
unfolding contains
perform_shutdown_tasks_running_example =
    perform_shutdown_tasks_running stuck NoUpload (some "no luck") start (λ log h. (refl, h))
      (λ log h. (refl, h)) (λ log h. (refl, h)) (λ log. ("timeout reached", refl)) tt
