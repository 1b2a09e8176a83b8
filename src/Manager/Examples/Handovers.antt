-- ===== src/Manager/Examples/Handovers.antt =====
-- The wallet of a cycle, which the next cycle downloads.
use ytsync.Base.{◌≡◌, refl, String, true, false, none, [], Result, ok}
use ytsync.Manager.State.{Sync}
use ytsync.Manager.Termination.{CycleEnv, perform_shutdown_tasks, add_error}
use ytsync.Manager.Storage.{
  get_default_wallet_path, upload_loop, upload_wallet, download_wallet, get_wallet_paths, received,
}
use ytsync.Manager.Storage.Kept.{wallet}
use ytsync.Manager.Storage.Handover.{
  with_storage, daemon_ended, download_wallet-perform_shutdown_tasks,
}
use ytsync.Manager.Examples.{flags, start}
use ytsync.Manager.Examples.Stored.{Disk, services, laws, before}

abbrev passed : Disk → Result String (Unit {0}) × Disk
passed d = (ok tt, d)

abbrev cycle : CycleEnv Disk
cycle = record {
  flags = flags;
  use_vpn = false;
  home = "/home/lbry";
  substring_in_slice = λ text parts. false;
  prefix_error = λ before e. e;
  full_trace = λ e. e;
  stop_closed = λ d. false;
  start_vpn = passed;
  stop_vpn = passed;
  start_daemon = passed;
  stop_daemon = passed;
  wait_for_daemon_process = passed;
  download_wallet = passed;
  download_blockchain_db = λ d. (ok true, d);
  upload_wallet = passed;
  upload_blockchain_db = passed;
  make_video_directory = passed;
  delete_sync_folder = λ d. d;
  release_ips = λ w. w;
  update_ips = passed;
  set_channel_status = λ id status reason state d. (ok ([], []), d);
  wait_for_daemon_start = λ s. (ok tt, s);
  do_sync = λ s. (ok tt, s);
  process_transfers = λ s. (ok tt, s);
}

abbrev ended_sync : Sync Disk
ended_sync = record {
  db_channel_data = start.db_channel_data;
  synced_videos = [];
  names = [];
  default_account_id = "";
  hard_video_failure = none;
  state = record start.state { wallet_downloaded = true };
  stopped = false;
  sizes = [];
  world = before;
}

abbrev stored_disk : Disk
stored_disk = (upload_wallet services "UC1" before).1

download_wallet-perform_shutdown_tasks_example :
    wallet services laws (download_wallet services "UC1" stored_disk).1
    ≡ wallet services laws (daemon_ended (with_storage services "UC1" cycle) ended_sync).1.world
unfolding perform_shutdown_tasks add_error get_default_wallet_path upload_wallet upload_loop
    download_wallet get_wallet_paths received
download_wallet-perform_shutdown_tasks_example =
    download_wallet-perform_shutdown_tasks services laws "UC1" cycle (λ d. refl) ended_sync
      (perform_shutdown_tasks (with_storage services "UC1" cycle) none ended_sync).1 stored_disk
      (download_wallet services "UC1" stored_disk).1 refl refl refl refl refl
