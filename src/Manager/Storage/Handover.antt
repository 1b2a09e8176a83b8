-- ===== src/Manager/Storage/Handover.antt =====
-- FullCycle with the transfers of the wallet that manager/s3_storage.go makes: what one cycle hands over
-- to the next.
use ytsync.Base.{
  ◌≡◌, refl, ap, subst, ◌∙◌, String, Bool, true, false, ◌||◌, Option, none, some, Result, ok, err,
  if◌then◌else◌, Bool-cases, inl, inr, arith,
}
use ytsync.Manager.State.{Sync, on_world}
use ytsync.Manager.Termination.{
  CycleEnv, add_error, shut_vpn, save_wallet, save_all, perform_shutdown_tasks,
}
use ytsync.Manager.Storage.{StorageEnv, download_wallet, upload_wallet}
use ytsync.Manager.Storage.Laws.{StorageLaws}
use ytsync.Manager.Storage.Kept.{wallet, stored}
use ytsync.Manager.Storage.Restored.{upload_wallet-ok, download_wallet-ok}

-- The calls of downloadWallet and uploadWallet in FullCycle, for a channel.
abbrev pub with_storage : {W : Type 0} → StorageEnv W → String → CycleEnv W → CycleEnv W
with_storage storage channel env = record env {
  download_wallet = download_wallet storage channel;
  upload_wallet = upload_wallet storage channel;
}

-- Whether there is a wallet that the cycle has to send.
abbrev pub has_wallet : {W : Type 0} → Sync W → Bool
has_wallet s = s.state.wallet_downloaded || s.state.new_wallet_created

module _ {W : Type 0} (env : CycleEnv W) where
  add_error-none :
      (before : String) (r : Result String (Unit {0})) (e : Option String)
      → add_error env before r e ≡ none
      → (r ≡ ok tt) × (e ≡ none)
  unfolding add_error
  add_error-none before (ok tt) e h = (refl, h)
  add_error-none before (err x) none h = absurd (ground (arith, h))
  add_error-none before (err x) (some y) h = absurd (ground (arith, h))

  -- How the wait for the end of the daemon comes out, after the VPN was shut.
  abbrev pub daemon_ended : Sync W → Result String (Unit {0}) × Sync W
  daemon_ended s =
      on_world env.wait_for_daemon_process (on_world env.stop_daemon (shut_vpn env (none, s)).1).1

  has_wallet-daemon_ended : (s : Sync W) → has_wallet (daemon_ended s).1 ≡ has_wallet s
  has_wallet-daemon_ended s = elim (Bool-cases env.use_vpn) [
    | inl e ↦ rw e refl
    | inr e ↦ rw e refl
  ]

module _ {W C : Type 0} (storage : StorageEnv W) (laws : StorageLaws storage C) (channel : String)
    (env : CycleEnv W)
    (kept : (w : W)
      → stored storage laws channel (env.upload_blockchain_db w).1
        ≡ stored storage laws channel w) where
  -- The wallet with the error of its upload.
  abbrev with_upload : Option String → Sync W → Option String × Sync W
  with_upload e s =
      let (r, t) = on_world (upload_wallet storage channel) s in
      (add_error (with_storage storage channel env) "" r e, t)

  with_upload_if :
      (b : Bool) (e : Option String) (s : Sync W)
      → b ≡ true
      → (if b then with_upload e s else (e, s)).0 ≡ none
      → stored storage laws channel (if b then with_upload e s else (e, s)).1.world
        ≡ wallet storage laws s.world
  with_upload_if false e s has h = absurd (ground (arith, has))
  with_upload_if true e s has h =
      let r = upload_wallet storage channel s.world in
      let (good, _) = add_error-none (with_storage storage channel env) "" r.0 e h in
      (upload_wallet-ok storage laws channel s.world r.1 (ap (λ x. (x, r.1)) good)).1

  save_wallet-stored :
      (e : Option String) (s : Sync W)
      → has_wallet s ≡ true
      → (save_wallet (with_storage storage channel env) (e, s)).0 ≡ none
      → stored storage laws channel (save_wallet (with_storage storage channel env) (e, s)).1.world
        ≡ wallet storage laws s.world
  save_wallet-stored e s has h = with_upload_if (has_wallet s) e s has h

  save_all-stored :
      (e : Option String) (r : Result String (Unit {0}) × Sync W) (t : Sync W)
      → r.0 ≡ ok tt
      → has_wallet r.1 ≡ true
      → save_all (with_storage storage channel env) e r ≡ (none, t)
      → stored storage laws channel t.world ≡ wallet storage laws r.1.world
  save_all-stored e (err x, s) t good has h = absurd (ground (arith, good))
  save_all-stored e (ok _, s) t good has h =
      let saved = save_wallet (with_storage storage channel env) (e, s) in
      let (_, clean) =
        add_error-none (with_storage storage channel env) "failure uploading blockchain DB: "
          (env.upload_blockchain_db saved.1.world).0 saved.0 (ap (λ x. x.0) h) in
      subst (λ x. stored storage laws channel x.1.world ≡ wallet storage laws s.world) h
        (kept saved.1.world ∙ save_wallet-stored e s has clean)

  -- A cycle ends with a wallet that it has to send, the daemon has ended, and no error is reported of
  -- the shutdown; the upload of the database leaves the stored wallet alone. If a later cycle finds the
  -- stored wallet as it was then and downloads it without an error, then its wallet has the content
  -- that the wallet had when the daemon had ended.
  pub download_wallet-perform_shutdown_tasks :
      (s t : Sync W) (x y : W)
      → has_wallet s ≡ true
      → (daemon_ended (with_storage storage channel env) s).0 ≡ ok tt
      → perform_shutdown_tasks (with_storage storage channel env) none s ≡ (none, t)
      → stored storage laws channel x ≡ stored storage laws channel t.world
      → (with_storage storage channel env).download_wallet x ≡ (ok tt, y)
      → wallet storage laws y
        ≡ wallet storage laws (daemon_ended (with_storage storage channel env) s).1.world
  unfolding perform_shutdown_tasks
  download_wallet-perform_shutdown_tasks s t x y has good shut same down =
      let ended = daemon_ended (with_storage storage channel env) s in
      download_wallet-ok storage laws channel x y down
      ∙ (same
          ∙ save_all-stored (shut_vpn (with_storage storage channel env) (none, s)).0 ended t good
              (has_wallet-daemon_ended (with_storage storage channel env) s ∙ has) shut)
