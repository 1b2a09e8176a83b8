-- ===== src/Manager/Daemon/Timeout.antt =====
-- How long waitForDaemonProcess waits.
use ytsync.Base.{
  ℕ, zero, suc, ◌+◌, ◌*◌, ◌≤◌, ◌≡◌, refl, String, Bool, true, false, Option, none, Result, ok, err,
  ltb, Bool-cases, arith, inl, inr,
}
use ytsync.Manager.Daemon.{
  DaemonEnv, seconds, minutes, stop_time, after_look, process_loop, wait_for_daemon_process,
}

module _ {W : Type 0} (env : DaemonEnv W) where
  -- The time that a round ends at.
  abbrev pub round : W → Result String Bool × W
  round w = env.is_lbrynet_running (env.sleep (seconds 10) w)

  looked :
      (again : W → Option (Result String (Unit {0}) × W)) (r : Result String Bool × W)
      → r.0 ≡ ok true
      → again r.1 ≡ none
      → after_look env again r ≡ none
  looked again (ok true, w) h e = e
  looked again (ok false, w) h e = absurd (ground (arith, h))
  looked again (err x, w) h e = absurd (ground (arith, h))

  waiting :
      (step n end_time : ℕ) (w : W)
      → ((v : W) → (round v).0 ≡ ok true)
      → ((v : W) → env.now (round v).1 ≤ env.now v + step)
      → env.now w + n * step ≤ end_time
      → process_loop env n end_time w ≡ none
  unfolding process_loop
  waiting step zero end_time w runs slow h = refl
  waiting step (suc n) end_time w runs slow h = elim (Bool-cases (ltb end_time (env.now w))) [
    | inl e ↦ absurd (grind (arith, e, h))
    | inr e ↦ rw e (
        looked (process_loop env n end_time) (round w) (runs w)
          (waiting step n end_time (round w).1 runs slow (grind (arith, h, slow w))))
  ]

  -- The timeout of eight minutes, multiplied by a second, is beyond 64 bits: while the daemon runs and
  -- no round takes more than a given time, waitForDaemonProcess goes on for every number of rounds
  -- that take 384654083 seconds at most, which are twelve years.
  pub wait_for_daemon_process_goes_on :
      (step n : ℕ) (w : W)
      → ((v : W) → (round v).0 ≡ ok true)
      → ((v : W) → env.now (round v).1 ≤ env.now v + step)
      → n * step ≤ seconds 384654083
      → wait_for_daemon_process env n (minutes 8) w ≡ none
  wait_for_daemon_process_goes_on step n w runs slow h =
      waiting step n (stop_time env (minutes 8) w) w runs slow (omega (arith, h))
