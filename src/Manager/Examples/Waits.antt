-- ===== src/Manager/Examples/Waits.antt =====
-- A daemon that is never ready, whose processes never end; the world is the clock.
use ytsync.Base.{[], ℕ, ◌+◌, ◌≡◌, refl, String, true, false, none, some, Result, ok, arith}
use ytsync.Manager.State.{Sync}
use ytsync.Manager.Daemon.{
  DaemonEnv, seconds, minutes, wait_for_daemon_start, wait_for_daemon_process,
}
use ytsync.Manager.Daemon.Started.{ClockLaws, Answered, wait_for_daemon_start-ends}
use ytsync.Manager.Daemon.Timeout.{wait_for_daemon_process_goes_on}
use ytsync.Manager.Examples.{start}

abbrev stuck : DaemonEnv ℕ
stuck = record {
  status = λ t. (ok (record { wallet = false; is_running = true }), t);
  restart_daemon = λ t. (ok tt, t);
  is_lbrynet_running = λ t. (ok true, t);
  stop_closed = λ t. false;
  now = λ t. t;
  sleep = λ n t. t + n;
}

abbrev clock : ClockLaws stuck
clock = record {
  status-now = λ t. omega arith;
  restart-now = λ t. omega arith;
  sleep-now = λ n t. omega arith;
}

abbrev begun : Sync ℕ
begun = record {
  db_channel_data = start.db_channel_data;
  synced_videos = [];
  names = [];
  default_account_id = "";
  hard_video_failure = none;
  state = start.state;
  stopped = false;
  sizes = [];
  world = 5;
}

wait_for_daemon_start-ends_example :
    (r : Result String (Unit {0}) × Sync ℕ) × (wait_for_daemon_start stuck 1442 begun ≡ some r)
    × Answered stuck clock r
wait_for_daemon_start-ends_example = wait_for_daemon_start-ends stuck clock 1442 begun (omega arith)

wait_for_daemon_process_goes_on_example : wait_for_daemon_process stuck 1000000 (minutes 8) 5 ≡ none
wait_for_daemon_process_goes_on_example =
    wait_for_daemon_process_goes_on stuck (seconds 10) 1000000 5 (λ t. refl) (λ t. omega arith)
      (omega arith)
