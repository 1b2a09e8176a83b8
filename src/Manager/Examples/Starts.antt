-- ===== src/Manager/Examples/Starts.antt =====
-- A manager whose one channel never gets its wallet. The world is the list of the channels that were
-- set to syncing.
use ytsync.Base.{refl, String, true, false, [], ◌∷◌, Result, ok, err, str_eq, if◌then◌else◌}
use ytsync.Manager.Termination.{
  CycleEnv, full_cycle, set_status_syncing, cycle_body, perform_shutdown_tasks,
  set_channel_termination_status, add_error,
}
use ytsync.Manager.Start.{StartEnv, start}
use ytsync.Manager.Start.Repeats.{NoThree, start-NoThree}
use ytsync.Manager.Examples.{Log, flags, channel}

abbrev silent : Log → Result String (Unit {0}) × Log
silent log = (ok tt, log)

abbrev no_wallet : CycleEnv Log
no_wallet = record {
  flags = flags;
  use_vpn = false;
  home = "/home/lbry";
  substring_in_slice = λ text parts. false;
  prefix_error = λ before e. before;
  full_trace = λ e. e;
  stop_closed = λ log. false;
  start_vpn = silent;
  stop_vpn = silent;
  start_daemon = silent;
  stop_daemon = silent;
  wait_for_daemon_process = λ log. (err "timeout reached", log);
  download_wallet = λ log. (err "no wallet", log);
  download_blockchain_db = λ log. (ok true, log);
  upload_wallet = silent;
  upload_blockchain_db = silent;
  make_video_directory = silent;
  delete_sync_folder = λ log. log;
  release_ips = λ w. w;
  update_ips = silent;
  set_channel_status = λ id status reason state log.
      (ok ([], []), if str_eq status "syncing" then id ∷ log else log);
  wait_for_daemon_start = λ s. (ok tt, s);
  do_sync = λ s. (ok tt, s);
  process_transfers = λ s. (ok tt, s);
}

abbrev manager : StartEnv Log
manager = record {
  cycle = no_wallet;
  should_clean_on_startup = true;
  clean_for_startup = silent;
  file_exists = λ f log. (false, log);
  remove_update = λ log. log;
  sleep = λ log. log;
  is_disk_full = λ log. (ok false, log);
  disk_full_message = "more than 90% of the space has been used";
  expected_one = λ n. "Expected 1 channel";
  fetch_channels = λ q log. (ok (channel ∷ []), log);
  sleep_until_quota_reset = λ log. log;
  cleanup_metadata = λ log. log;
  reflect_and_clean = silent;
}

start-NoThree_example : NoThree (start manager 3 []).1.world
unfolding full_cycle set_status_syncing cycle_body perform_shutdown_tasks
    set_channel_termination_status add_error
start-NoThree_example =
    start-NoThree manager (λ log. log) (λ f w. refl) (λ w. refl) (λ w. refl) (λ w. refl)
      (λ q w. refl) (λ w. refl) (λ w. refl) (λ w. refl) (λ e s. refl) (λ s. refl) 3 [] (λ w. refl)
      refl
