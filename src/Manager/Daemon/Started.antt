-- ===== src/Manager/Daemon/Started.antt =====
-- How waitForDaemonStart ends.
use ytsync.Base.{
  ◌&&◌, ◌||◌, ◌*◌, not, ◌<◌, zero, suc, false, if◌then◌else◌, ℕ, ◌+◌, ◌≤◌, ◌≡◌, refl, String, Bool,
  true, some, Result, ok, err, ltb, Bool-cases, arith, inl, inr,
}
use ytsync.Manager.State.{Sync, stop}
use ytsync.Manager.Daemon.{
  on_world, start_loop, after_answer, wait_for_daemon_start, DaemonEnv, seconds, minutes, is_ready,
  WaitResult, since, wait_or_give_up, after_restart,
}

-- What the wait relies on: no call turns the clock back, and a pause is as long as it should be.
pub record ClockLaws {W : Type 0} (env : DaemonEnv W) : Type 0 where
  pub status-now : (w : W) → env.now w ≤ env.now (env.status w).1
  pub restart-now : (w : W) → env.now w ≤ env.now (env.restart_daemon w).1
  pub sleep-now : (n : ℕ) (w : W) → env.now w + n ≤ env.now (env.sleep n w)

ltb-false : (a b : ℕ) → ltb a b ≡ false → b ≤ a
ltb-false a b h = ground arith

module _ {W : Type 0} (env : DaemonEnv W) (clock : ClockLaws env) where
  -- A wait that ends well has seen the daemon running with its wallet.
  abbrev pub Answered : Result String (Unit {0}) × Sync W → Type 0
  Answered r =
      r.0 ≡ ok tt → (w : W) × (is_ready (env.status w).0 ≡ true) × ((env.status w).1 ≡ r.1.world)

  abbrev Ends : WaitResult env → Type 0
  Ends o = (r : Result String (Unit {0}) × Sync W) × (o ≡ some r) × Answered r

  -- What stands behind the next round, if this one began at `t` at the latest.
  abbrev Again : (Bool → Sync W → WaitResult env) → ℕ → ℕ → Type 0
  Again again begin_time t =
      (restarted : Bool) (s : Sync W)
      → t ≤ begin_time + minutes 120
      → t + seconds 5 ≤ env.now s.world
      → Ends (again restarted s)

  refused : (e : String) (s : Sync W) → Ends (some (err e, s))
  refused e s = ((err e, s), refl, λ h. absurd (ground (arith, h)))

  wait_or_give_up-Ends :
      (again : Bool → Sync W → WaitResult env) (begin_time t : ℕ) (restarted : Bool) (s : Sync W)
      → t ≤ env.now s.world
      → Again again begin_time t
      → Ends (wait_or_give_up env again begin_time restarted s)
  wait_or_give_up-Ends again begin_time t restarted s later more =
      elim (Bool-cases (ltb (minutes 120) (since env begin_time s))) [
        | inl e ↦ rw e (refused _ (stop s))
        | inr e ↦ rw e (
            more restarted (record s { world = env.sleep (seconds 5) s.world })
              (omega (arith, ltb-false (minutes 120) (since env begin_time s) e, later))
              (omega (arith, later, clock.sleep-now (seconds 5) s.world)))
      ]

  after_restart-Ends :
      (again : Bool → Sync W → WaitResult env) (begin_time t : ℕ)
      (r : Result String (Unit {0}) × Sync W)
      → t ≤ env.now r.1.world
      → Again again begin_time t
      → Ends (after_restart env again begin_time r)
  after_restart-Ends again begin_time t (ok _, s) later more =
      wait_or_give_up-Ends again begin_time t true s later more
  after_restart-Ends again begin_time t (err e, s) later more = refused e s

  restart-Ends :
      (again : Bool → Sync W → WaitResult env) (begin_time t : ℕ) (restarted due : Bool)
      (s : Sync W)
      → t ≤ env.now s.world
      → Again again begin_time t
      → Ends (
          if not restarted && due
          then after_restart env again begin_time (on_world env.restart_daemon s)
          else wait_or_give_up env again begin_time restarted s)
  restart-Ends again begin_time t true due s later more =
      wait_or_give_up-Ends again begin_time t true s later more
  restart-Ends again begin_time t false false s later more =
      wait_or_give_up-Ends again begin_time t false s later more
  restart-Ends again begin_time t false true s later more =
      after_restart-Ends again begin_time t (on_world env.restart_daemon s)
        (omega (arith, later, clock.restart-now s.world)) more

  after_answer-Ends :
      (again : Bool → Sync W → WaitResult env) (begin_time t : ℕ) (restarted : Bool) (s : Sync W)
      → t ≤ env.now s.world
      → Again again begin_time t
      → Ends (after_answer env again begin_time restarted (on_world env.status s))
  after_answer-Ends again begin_time t restarted s later more =
      let u : Sync W = (on_world env.status s).1 in
      elim (Bool-cases (is_ready (env.status s.world).0)) [
        | inl e ↦ rw e ((ok tt, u), refl, λ _. (s.world, e, refl))
        | inr e ↦ rw e (
            restart-Ends again begin_time t restarted (ltb (minutes 2) (since env begin_time u)) u
              (omega (arith, later, clock.status-now s.world)) more)
      ]

  start_loop-Ends :
      (fuel begin_time : ℕ) (restarted : Bool) (s : Sync W)
      → 0 < fuel
      → begin_time + minutes 120 + seconds 5 < env.now s.world + fuel * seconds 5
      → Ends (start_loop env fuel begin_time restarted s)
  unfolding start_loop
  start_loop-Ends zero begin_time restarted s some_ enough = absurd (omega (arith, some_))
  start_loop-Ends (suc fuel) begin_time restarted s some_ enough =
      elim (Bool-cases (s.stopped || env.stop_closed s.world)) [
        | inl e ↦ rw e (refused _ s)
        | inr e ↦ rw e (
            after_answer-Ends (start_loop env fuel begin_time) begin_time (env.now s.world)
              restarted s (omega arith)
              (λ r t early later.
                start_loop-Ends fuel begin_time r t (omega (arith, early, enough))
                  (omega (arith, later, enough))))
      ]

  -- As the clock goes on, waitForDaemonStart ends within 1442 rounds; and if it ends without an error,
  -- the daemon's last status said that it runs and has its wallet.
  pub wait_for_daemon_start-ends :
      (fuel : ℕ) (s : Sync W)
      → 1442 ≤ fuel
      → (r : Result String (Unit {0}) × Sync W) × (wait_for_daemon_start env fuel s ≡ some r)
        × Answered r
  wait_for_daemon_start-ends fuel s enough =
      start_loop-Ends fuel (env.now s.world) false s (omega (arith, enough)) (omega (arith, enough))
