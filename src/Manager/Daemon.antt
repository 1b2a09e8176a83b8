-- ===== src/Manager/Daemon.antt =====
-- The waits for the daemon in manager/ytsync.go: waitForDaemonStart and waitForDaemonProcess. The
-- daemon, its processes and the clock are arguments; times are numbers of nanoseconds. On fuel, where
-- `none` is a wait that goes on.
pub mod Started
pub mod Timeout
use ytsync.Base.{
  ℕ, zero, suc, ◌+◌, ◌-◌, ◌*◌, ◌%◌, ◌^◌, String, Bool, true, false, not, ◌&&◌, ◌||◌, Option, none,
  some, ltb, if◌then◌else◌, Result, ok, err,
}
use ytsync.Manager.State.{Sync, on_world, stop}

-- What is read of the daemon's status.
pub record DaemonStatus : Type 0 where
  pub wallet : Bool
  pub is_running : Bool

pub record DaemonEnv (W : Type 0) : Type 0 where
  pub status : W → Result String DaemonStatus × W
  pub restart_daemon : W → Result String (Unit {0}) × W
  pub is_lbrynet_running : W → Result String Bool × W
  pub stop_closed : W → Bool
  pub now : W → ℕ
  pub sleep : ℕ → W → W

abbrev pub seconds : ℕ → ℕ
seconds n = n * 1000000000

abbrev pub minutes : ℕ → ℕ
minutes n = seconds (60 * n)

abbrev pub is_ready : Result String DaemonStatus → Bool
is_ready (ok status) = status.wallet && status.is_running
is_ready (err e) = false

module _ {W : Type 0} (env : DaemonEnv W) where
  abbrev pub WaitResult : Type 0
  WaitResult = Option (Result String (Unit {0}) × Sync W)

  abbrev pub since : ℕ → Sync W → ℕ
  since begin_time s = env.now s.world - begin_time

  -- The end of a round: it gives up after two hours.
  abbrev pub wait_or_give_up : (Bool → Sync W → WaitResult) → ℕ → Bool → Sync W → WaitResult
  wait_or_give_up again begin_time restarted s =
      if ltb (minutes 120) (since begin_time s)
      then some (err "the daemon is taking too long to start. Something is wrong", stop s)
      else again restarted (record s { world = env.sleep (seconds 5) s.world })

  abbrev pub after_restart :
      (Bool → Sync W → WaitResult) → ℕ → Result String (Unit {0}) × Sync W → WaitResult
  after_restart again begin_time (ok _, s) = wait_or_give_up again begin_time true s
  after_restart again begin_time (err e, s) = some (err e, s)

  abbrev pub after_answer :
      (Bool → Sync W → WaitResult) → ℕ → Bool → Result String DaemonStatus × Sync W → WaitResult
  after_answer again begin_time restarted (r, s) =
      if is_ready r
      then some (ok tt, s)
      else if not restarted && ltb (minutes 2) (since begin_time s)
      then after_restart again begin_time (on_world env.restart_daemon s)
      else wait_or_give_up again begin_time restarted s

  unfoldable pub start_loop : ℕ → ℕ → Bool → Sync W → WaitResult
  start_loop zero begin_time restarted s = none
  start_loop (suc fuel) begin_time restarted s =
      if s.stopped || env.stop_closed s.world
      then some (err "interrupted during daemon startup", s)
      else after_answer (start_loop fuel begin_time) begin_time restarted (on_world env.status s)

  abbrev pub wait_for_daemon_start : ℕ → Sync W → WaitResult
  wait_for_daemon_start fuel s = start_loop fuel (env.now s.world) false s

  -- The product of two durations, which are 64-bit integers with a sign.
  abbrev pub duration_times : ℕ → ℕ → ℕ
  duration_times d e = d * e % 2 ^ 64

  -- A time and such an integer.
  abbrev pub add_duration : ℕ → ℕ → ℕ
  add_duration t d = if ltb d (2 ^ 63) then t + d else t - (2 ^ 64 - d)

  abbrev pub stop_time : ℕ → W → ℕ
  stop_time timeout w = add_duration (env.now w) (duration_times timeout (seconds 1))

  abbrev pub after_look :
      (W → Option (Result String (Unit {0}) × W))
      → Result String Bool × W
      → Option (Result String (Unit {0}) × W)
  after_look again (ok running, w) = if running then again w else some (ok tt, w)
  after_look again (err e, w) = some (err e, w)

  unfoldable pub process_loop : ℕ → ℕ → W → Option (Result String (Unit {0}) × W)
  process_loop zero end_time w = none
  process_loop (suc fuel) end_time w =
      if ltb end_time (env.now w)
      then some (err "timeout reached", w)
      else after_look (process_loop fuel end_time)
          (env.is_lbrynet_running (env.sleep (seconds 10) w))

  abbrev pub wait_for_daemon_process : ℕ → ℕ → W → Option (Result String (Unit {0}) × W)
  wait_for_daemon_process fuel timeout w = process_loop fuel (stop_time timeout w) w
