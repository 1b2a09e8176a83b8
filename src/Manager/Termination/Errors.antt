-- ===== src/Manager/Termination/Errors.antt =====
-- What becomes of an error at the end of a channel's sync.
use ytsync.Base.{
  subst, str_eq, ap, ◌≡◌, refl, String, ◌||◌, Option, none, some, inl, inr, Result, ok, err,
  Bool-cases, arith,
}
use ytsync.Manager.State.{Sync, on_world}
use ytsync.Manager.Termination.{
  no_fail_conditions, CycleEnv, add_error, perform_shutdown_tasks, set_channel_termination_status,
  full_cycle, cycle_body, set_status_syncing, shut_vpn, save_wallet, save_all, deferred,
  after_status,
}

module _ {W : Type 0} (env : CycleEnv W) where
  add_error-none :
      (before : String) (r : Result String (Unit {0})) (e : Option String)
      → add_error env before r e ≡ none
      → e ≡ none
  unfolding add_error
  add_error-none before (ok u) e h = h
  add_error-none before (err new) none h = refl
  add_error-none before (err new) (some old) h = absurd (ground arith)

  save_wallet-none : (e : Option String) (s : Sync W) → (save_wallet env (e, s)).0 ≡ none → e ≡ none
  save_wallet-none e s h =
      elim (Bool-cases (s.state.wallet_downloaded || s.state.new_wallet_created)) [
        | inl e1 ↦ add_error-none "" (on_world env.upload_wallet s).0 e (ground arith)
        | inr e2 ↦ ground arith
      ]

  shut_vpn-none : (e : Option String) (s : Sync W) → (shut_vpn env (e, s)).0 ≡ none → e ≡ none
  shut_vpn-none e s h = elim (Bool-cases env.use_vpn) [
    | inl e1 ↦ add_error-none "" (on_world env.stop_vpn s).0 e (ground arith)
    | inr e2 ↦ ground arith
  ]

  save_all-none :
      (e : Option String) (r : Result String (Unit {0}) × Sync W)
      → (save_all env e r).0 ≡ none
      → e ≡ none
  save_all-none e (err _, s) h = h
  save_all-none e (ok _, s) h = save_wallet-none e s (add_error-none _ _ _ h)

  -- No error of a sync is lost while it is shut down.
  pub perform_shutdown_tasks-none :
      (e : Option String) (s : Sync W) → (perform_shutdown_tasks env e s).0 ≡ none → e ≡ none
  unfolding perform_shutdown_tasks
  perform_shutdown_tasks-none e s h = shut_vpn-none e s (save_all-none (shut_vpn env (e, s)).0 _ h)

  termination-none :
      (e : Option String) (s : Sync W)
      → (set_channel_termination_status env e s).0 ≡ none
      → e ≡ none
  unfolding set_channel_termination_status
  termination-none none s h = refl
  termination-none (some e) s h = elim (Bool-cases (env.substring_in_slice e no_fail_conditions)) [
    | inl e1 ↦ absurd (ground arith)
    | inr e2 ↦ absurd (ground arith)
  ]

  deferred_no_error :
      (t : Sync W) (r : Result String (Unit {0}) × Sync W)
      → cycle_body env t ≡ r
      → (deferred env r).0 ≡ none
      → (u v : Sync W) × (cycle_body env t ≡ (ok tt, u))
        × (perform_shutdown_tasks env none u ≡ (none, v))
        × ((set_channel_termination_status env none v).0 ≡ none)
  deferred_no_error t (ok _, u) e h =
      let clean = termination-none (perform_shutdown_tasks env none u).0 _ h in
      (
        u,
        (perform_shutdown_tasks env none u).1,
        e,
        ap (λ o. (o, (perform_shutdown_tasks env none u).1)) clean,
        subst
            (λ o.
              (set_channel_termination_status env o (perform_shutdown_tasks env none u).1).0 ≡ none)
            clean h,
      )
  deferred_no_error t (err m, u) e h =
      let clean = perform_shutdown_tasks-none (some m) u (termination-none _ _ h) in
      absurd (ground arith)

  after_status_no_error :
      (s : Sync W) (r : Result String (Unit {0}) × Sync W)
      → set_status_syncing env s ≡ r
      → (after_status env r).0 ≡ none
      → (t u v : Sync W) × (set_status_syncing env s ≡ (ok tt, t))
        × (cycle_body env t ≡ (ok tt, u))
        × (perform_shutdown_tasks env none u ≡ (none, v))
        × ((set_channel_termination_status env none v).0 ≡ none)
  after_status_no_error s (err m, t) e h = absurd (ground arith)
  after_status_no_error s (ok _, t) e h =
      let d = deferred_no_error t (cycle_body env t) refl h in (t, d.0, d.1, e, d.2, d.3, d.4)

  -- A cycle that reports no error has set the channel to syncing, gone through its body without an
  -- error, and shut down without one.
  pub full_cycle_no_error :
      (s : Sync W)
      → (full_cycle env s).0 ≡ none
      → (t u v : Sync W) × (set_status_syncing env s ≡ (ok tt, t))
        × (cycle_body env t ≡ (ok tt, u))
        × (perform_shutdown_tasks env none u ≡ (none, v))
        × ((set_channel_termination_status env none v).0 ≡ none)
  unfolding full_cycle
  full_cycle_no_error s h = elim (Bool-cases (str_eq env.home "")) [
    | inl e1 ↦ absurd (ground arith)
    | inr e2 ↦ after_status_no_error s (set_status_syncing env s) refl (ground arith)
  ]
