-- ===== src/Manager/Worker/Retry.antt =====
-- How often a video is attempted, and what a failure leaves behind.
use ytsync.Base.{
  ℕ, zero, suc, ◌+◌, ◌≤◌, ◌<◌, ◌≡◌, refl, ◌∙◌, ap, String, Bool, true, false, some, List, [], ◌∷◌,
  contains, lookup, lookup-insert, str_eq_refl, Bool-cases, inl, inr, max, if◌then◌else◌, Result,
  ok, err, arith,
}
use ytsync.Shared.{fatal_errors, errors_no_retry}
use ytsync.Manager.State.{SyncedVideo, Sync, flag_failure, or_reason, stop}
use ytsync.Manager.Worker.{
  continue_with, WorkerEnv, Video, Next, stop_worker, next_video, is_stopped, existing,
  existing_size, failure, fail_video, should_retry, handle_error, again_or_next, after_process,
  attempt, start_worker,
}

-- The entry of a video that failed, with the claim that it had.
abbrev pub failed_entry : {W : Type 0} → String → Video → Sync W → SyncedVideo
failed_entry msg v s = record {
  video_id = v.id;
  published = false;
  failure_reason = msg;
  claim_name = (existing v s).claim_name;
  claim_id = (existing v s).claim_id;
  size = existing_size v s;
  metadata_version = 0;
  transferred = false;
}

module _ {W : Type 0} (env : WorkerEnv W) where
  -- From the attempt MaxTries on, no error is retried.
  pub handle_last :
      (n : ℕ) (msg : String) (v : Video) (s : Sync W)
      → env.flags.max_tries ≤ n
      → (handle_error env n msg v s).0 ≡ false
  unfolding handle_error should_retry
  handle_last n msg v s h = ground arith

  again_last :
      (f g : Sync W → Next × Sync W) (r : Bool × Sync W)
      → r.0 ≡ false
      → again_or_next env f r ≡ again_or_next env g r
  again_last f g (true, s) h = cc
  again_last f g (false, s) h = refl

  finish_last :
      (f g : Sync W → Next × Sync W) (n : ℕ) (v : Video) (r : Result String (Unit {0}) × Sync W)
      → env.flags.max_tries ≤ n
      → after_process env f n v r ≡ after_process env g n v r
  unfolding after_process
  finish_last f g n v (ok _, s) h = refl
  finish_last f g n v (err msg, s) h = again_last f g _ (handle_last n msg v s h)

  again_same :
      (f g : Sync W → Next × Sync W) (r : Bool × Sync W)
      → ((s : Sync W) → f s ≡ g s)
      → again_or_next env f r ≡ again_or_next env g r
  again_same f g (true, s) h = h s
  again_same f g (false, s) h = refl

  finish_same :
      (f g : Sync W → Next × Sync W) (n : ℕ) (v : Video) (r : Result String (Unit {0}) × Sync W)
      → ((s : Sync W) → f s ≡ g s)
      → after_process env f n v r ≡ after_process env g n v r
  unfolding after_process
  finish_same f g n v (ok _, s) h = refl
  finish_same f g n v (err msg, s) h = again_same f g _ h

  unless_stopped :
      (s : Sync W) (x y : Next × Sync W)
      → x ≡ y
      → (if is_stopped env s then (stop_worker, s) else x)
        ≡ (if is_stopped env s then (stop_worker, s) else y)
  unless_stopped s x y e =
      ap (λ (z : Next × Sync W). if is_stopped env s then (stop_worker, s) else z) e

  -- The attempts of a video end by themselves: any two amounts of fuel that let the counter reach
  -- MaxTries, and at least one attempt, give the same result, so no attempt is cut off.
  pub attempt_fuel :
      (f g n : ℕ) (v : Video) (s : Sync W)
      → 0 < f
      → 0 < g
      → env.flags.max_tries ≤ n + f
      → env.flags.max_tries ≤ n + g
      → attempt env f n v s ≡ attempt env g n v s
  unfolding attempt
  attempt_fuel zero g n v s pf pg hf hg = absurd (omega arith)
  attempt_fuel (suc f) zero n v s pf pg hf hg = absurd (omega arith)
  attempt_fuel (suc zero) (suc g) n v s pf pg hf hg =
      unless_stopped s _ _ (finish_last _ _ (suc n) v (env.process_video v s) (omega arith))
  attempt_fuel (suc (suc f)) (suc zero) n v s pf pg hf hg =
      unless_stopped s _ _ (finish_last _ _ (suc n) v (env.process_video v s) (omega arith))
  attempt_fuel (suc (suc f)) (suc (suc g)) n v s pf pg hf hg = unless_stopped s _ _ (
      finish_same _ _ (suc n) v (env.process_video v s) (λ t.
        attempt_fuel (suc f) (suc g) (suc n) v t (omega arith) (omega arith) (omega arith)
          (omega arith)))

  fail_video-stopped :
      (msg : String) (v : Video) (s : Sync W)
      → ((fail_video env msg v s).stopped ≡ s.stopped)
        × ((fail_video env msg v s).hard_video_failure ≡ s.hard_video_failure)
  unfolding fail_video
  fail_video-stopped msg v s = (ground arith, ground arith)

  start_worker-stopped :
      (vs : List Video) (s : Sync W) → s.stopped ≡ true → start_worker env vs s ≡ s
  unfolding start_worker
  start_worker-stopped [] s h = refl
  start_worker-stopped (v ∷ vs) s h = ground arith

  attempt_fatal :
      (f n : ℕ) (v : Video) (s t : Sync W) (msg : String)
      → is_stopped env s ≡ false
      → env.process_video v s ≡ (err msg, t)
      → contains (env.to_lower msg) "interrupted by user" ≡ false
      → env.substring_in_slice msg fatal_errors ≡ true
      → attempt env (suc f) n v s ≡ (next_video, fail_video env msg v (stop (flag_failure msg t)))
  unfolding attempt after_process handle_error
  attempt_fatal f n v s t msg running processed quiet fatal = ground arith

  start_worker-fail_video :
      (v : Video) (vs : List Video) (s t : Sync W) (msg : String)
      → is_stopped env s ≡ false
      → env.process_video v s ≡ (err msg, t)
      → contains (env.to_lower msg) "interrupted by user" ≡ false
      → env.substring_in_slice msg fatal_errors ≡ true
      → start_worker env (v ∷ vs) s ≡ fail_video env msg v (stop (flag_failure msg t))
  unfolding start_worker
  start_worker-fail_video v vs s t msg running processed quiet fatal =
      let end = fail_video env msg v (stop (flag_failure msg t)) in
      let enough =
        attempt_fuel (max 1 env.flags.max_tries) (suc env.flags.max_tries) 0 v s (omega arith)
          (omega arith) (omega arith) (omega arith) in
      let once =
        enough ∙ attempt_fatal env.flags.max_tries 0 v s t msg running processed quiet fatal in
      rw (running, start_worker)
        (ap (continue_with env (start_worker env vs)) once
          ∙ start_worker-stopped vs end (fail_video-stopped msg v (stop (flag_failure msg t))).0)

  -- What the end of a failed video leaves behind.
  abbrev pub FailedAs : String → Video → Sync W → Sync W → Type 0
  FailedAs msg v t u =
      (u.world ≡ (env.mark_video_status (failure t.db_channel_data.channel_id msg v t) t.world).1)
      × (lookup v.id u.synced_videos ≡ (
          if contains msg "upgrade failed"
          then lookup v.id t.synced_videos
          else some (failed_entry msg v t)))

  fail_video-FailedAs :
      (msg : String) (v : Video) (t : Sync W) → FailedAs msg v t (fail_video env msg v t)
  unfolding fail_video
  fail_video-FailedAs msg v t = elim (Bool-cases (contains msg "upgrade failed")) [
    | inl e ↦ rw e (refl, refl)
    | inr e ↦
        rw e (refl, lookup-insert v.id v.id _ t.synced_videos ∙ ground (arith, str_eq_refl v.id))
  ]

  -- If the first attempt of a video ends with a fatal error, which is no interruption by the user, then
  -- the sync is stopped, the first such reason is kept, and the other videos have no effect: the world
  -- is that after the server was told the failure of this video, with its claim and its size, and the
  -- map of the videos has the failed entry for it, or the one that it had if an upgrade failed.
  pub start_worker_fatal :
      (v : Video) (vs : List Video) (s t : Sync W) (msg : String)
      → is_stopped env s ≡ false
      → env.process_video v s ≡ (err msg, t)
      → contains (env.to_lower msg) "interrupted by user" ≡ false
      → env.substring_in_slice msg fatal_errors ≡ true
      → ((start_worker env (v ∷ vs) s).stopped ≡ true)
        × ((start_worker env (v ∷ vs) s).hard_video_failure ≡ or_reason t.hard_video_failure msg)
        × FailedAs msg v t (start_worker env (v ∷ vs) s)
  unfolding flag_failure
  start_worker_fatal v vs s t msg running processed quiet fatal =
      let u = stop (flag_failure msg t) in
      rw (start_worker-fail_video v vs s t msg running processed quiet fatal) (
        (fail_video-stopped msg v u).0,
        (fail_video-stopped msg v u).1,
        fail_video-FailedAs msg v u,
      )

  -- An error that must not be retried is given up after one attempt, and the entry of the video then
  -- says so, with the claim that it had.
  pub attempt_no_retry :
      (f n : ℕ) (v : Video) (s t : Sync W) (msg : String)
      → is_stopped env s ≡ false
      → env.process_video v s ≡ (err msg, t)
      → contains (env.to_lower msg) "interrupted by user" ≡ false
      → env.substring_in_slice msg fatal_errors ≡ false
      → env.substring_in_slice msg errors_no_retry ≡ true
      → contains msg "upgrade failed" ≡ false
      → (u : Sync W) × (attempt env (suc f) n v s ≡ (next_video, u))
        × (lookup v.id u.synced_videos ≡ some (failed_entry msg v t))
        × (u.stopped ≡ t.stopped)
        × (u.hard_video_failure ≡ t.hard_video_failure)
  unfolding attempt after_process handle_error should_retry fail_video
  attempt_no_retry f n v s t msg running processed quiet calm final new = (
    fail_video env msg v t,
    ground arith,
    rw new (lookup-insert v.id v.id _ t.synced_videos ∙ ground (arith, str_eq_refl v.id)),
    (fail_video-stopped msg v t).0,
    (fail_video-stopped msg v t).1,
  )
