-- ===== src/Manager/Termination/Effects.antt =====
-- Which services are called at the end of a channel's sync. A property `I` of the world that some
-- calls keep holds at the end exactly when no other call was made.
use ytsync.Base.{
  str_eq, ◌≡◌, refl, String, false, ◌||◌, Option, none, some, inl, inr, Result, ok, err, Bool-cases,
  arith, subst, sym,
}
use ytsync.Shared.Status
use ytsync.Manager.State.{Sync, on_world}
use ytsync.Manager.Termination.Errors.{perform_shutdown_tasks-none}
use ytsync.Manager.Termination.{
  no_fail_conditions, db_wipe_conditions, CycleEnv, perform_shutdown_tasks,
  set_channel_termination_status, full_cycle, cycle_body, set_status_syncing, shut_vpn, save_wallet,
  save_all,
}

-- Every call of a service keeps `I`.
abbrev pub Keeps : {W A : Type 0} → (W → Type 0) → (W → A × W) → Type 0
Keeps {W} I call = (w : W) → I w → I (call w).1

module _ {W : Type 0} (env : CycleEnv W) (I : W → Type 0) where
  shut_vpn-Keeps :
      (e : Option String) (s : Sync W)
      → Keeps I env.stop_vpn
      → I s.world
      → I (shut_vpn env (e, s)).1.world
  shut_vpn-Keeps e s k h = elim (Bool-cases env.use_vpn) [
    | inl e1 ↦ rw e1 (k s.world h)
    | inr e2 ↦ rw e2 h
  ]

  save_wallet-Keeps :
      (e : Option String) (s : Sync W)
      → Keeps I env.upload_wallet
      → I s.world
      → I (save_wallet env (e, s)).1.world
  save_wallet-Keeps e s k h =
      elim (Bool-cases (s.state.wallet_downloaded || s.state.new_wallet_created)) [
        | inl e1 ↦ rw e1 (k s.world h)
        | inr e2 ↦ rw e2 h
      ]

  save_all-Keeps :
      (e : Option String) (r : Result String (Unit {0}) × Sync W)
      → Keeps I env.upload_wallet
      → Keeps I env.upload_blockchain_db
      → I r.1.world
      → I (save_all env e r).1.world
  save_all-Keeps e (ok _, s) kw kb h = kb _ (save_wallet-Keeps e s kw h)
  save_all-Keeps e (err _, s) kw kb h = h

  save_all-running :
      (e : Option String) (m : String) (r : Result String (Unit {0}) × Sync W)
      → r.0 ≡ err m
      → save_all env e r ≡ (e, r.1)
  save_all-running e m (ok _, s) h = absurd (ground arith)
  save_all-running e m (err _, s) h = refl

  -- While the process of the daemon is still seen to run, neither the wallet nor the blockchain
  -- database is uploaded: what the other calls of the shutdown keep holds at its end, whatever an
  -- upload would do.
  pub perform_shutdown_tasks_running :
      (e : Option String) (s : Sync W)
      → Keeps I env.stop_vpn
      → Keeps I env.stop_daemon
      → Keeps I env.wait_for_daemon_process
      → ((w : W) → (m : String) × ((env.wait_for_daemon_process w).0 ≡ err m))
      → I s.world
      → I (perform_shutdown_tasks env e s).1.world
  unfolding perform_shutdown_tasks
  perform_shutdown_tasks_running e s kv kd kw running h =
      let v = shut_vpn env (e, s) in
      let w = (env.stop_daemon v.1.world).1 in
      let (m, dead) = running w in
      subst (λ r. I r.1.world)
        (sym (
          save_all-running v.0 m
            (on_world env.wait_for_daemon_process (on_world env.stop_daemon v.1).1) dead))
        (kw w (kd v.1.world (shut_vpn-Keeps e s kv h)))

  perform_shutdown_tasks-Keeps :
      (e : Option String) (s : Sync W)
      → Keeps I env.stop_vpn
      → Keeps I env.stop_daemon
      → Keeps I env.wait_for_daemon_process
      → Keeps I env.upload_wallet
      → Keeps I env.upload_blockchain_db
      → I s.world
      → I (perform_shutdown_tasks env e s).1.world
  unfolding perform_shutdown_tasks
  perform_shutdown_tasks-Keeps e s kv kd kw ku kb h =
      save_all-Keeps _ (on_world env.wait_for_daemon_process _) ku kb
        (kw _ (kd _ (shut_vpn-Keeps e s kv h)))

  failed-Keeps :
      (e : String) (s : Sync W)
      → ((id reason : String) → Keeps I (env.set_channel_status id Status.failed reason none))
      → ((id reason : String) → Keeps I (env.set_channel_status id Status.wipe_db reason none))
      → I s.world
      → I (set_channel_termination_status env (some e) s).1.world
  unfolding set_channel_termination_status
  failed-Keeps e s kf kw h =
      let id = s.db_channel_data.channel_id in
      elim (Bool-cases (env.substring_in_slice e no_fail_conditions)) [
        | inl e1 ↦ rw e1 h
        | inr e2 ↦ rw e2 (elim (Bool-cases (env.substring_in_slice e db_wipe_conditions)) [
          | inl e3 ↦ rw e3 (kw id e s.world h)
          | inr e4 ↦ rw e4 (kf id e s.world h)
        ])
      ]

  still-failed :
      (m : String) (r : Option String × Sync W)
      → (r.0 ≡ none → some m ≡ none)
      → ((id reason : String) → Keeps I (env.set_channel_status id Status.failed reason none))
      → ((id reason : String) → Keeps I (env.set_channel_status id Status.wipe_db reason none))
      → I r.1.world
      → I (set_channel_termination_status env r.0 r.1).1.world
  still-failed m (none, s) lost kf kw h = absurd (ground (arith, lost refl))
  still-failed m (some e, s) lost kf kw h = failed-Keeps e s kf kw h

  -- A sync whose body fails is never reported to the server as synced, nor as complete in its
  -- transfer: what every other call of the end of a sync keeps (the VPN, the daemon, the uploads, and
  -- the statuses failed and pending wipe without a state of the transfer) holds at the end.
  pub full_cycle_failed :
      (s t u : Sync W) (m : String)
      → str_eq env.home "" ≡ false
      → set_status_syncing env s ≡ (ok tt, t)
      → cycle_body env t ≡ (err m, u)
      → Keeps I env.stop_vpn
      → Keeps I env.stop_daemon
      → Keeps I env.wait_for_daemon_process
      → Keeps I env.upload_wallet
      → Keeps I env.upload_blockchain_db
      → ((id reason : String) → Keeps I (env.set_channel_status id Status.failed reason none))
      → ((id reason : String) → Keeps I (env.set_channel_status id Status.wipe_db reason none))
      → I u.world
      → I (full_cycle env s).1.world
  unfolding full_cycle
  full_cycle_failed s t u m home syncing body kv kd kp ku kb kf kw h =
      rw (home, syncing, body)
        (still-failed m (perform_shutdown_tasks env (some m) u)
          (perform_shutdown_tasks-none env (some m) u) kf kw
          (perform_shutdown_tasks-Keeps (some m) u kv kd kp ku kb h))
