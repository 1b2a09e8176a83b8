-- ===== src/Manager/Termination.antt =====
-- How the sync of a channel begins and ends, in manager/ytsync.go: setStatusSyncing,
-- performShutdownTasks, setChannelTerminationStatus and FullCycle, whose deferred calls run last to
-- first. The transfers of the wallet (manager/s3_storage.go), the processes of the daemon and of the
-- VPN, lbry.go's error prefix and its test on messages, doSync and processTransfers are arguments.
pub mod Errors
pub mod Effects
use ytsync.Base.{
  ℕ, String, Bool, true, false, not, ◌&&◌, ◌||◌, ◌⧺◌, Option, none, some, List, [], ◌∷◌, Dict,
  str_eq, if◌then◌else◌, Result, ok, err, Method, return, fail, resume, ◌>>=◌, ◌>>◌,
}
use ytsync.Shared.{SyncFlags}
use ytsync.Shared.Status
use ytsync.Namer.{Names}
use ytsync.Manager.State.{SyncedVideo, Sync, on_world, should_transfer}

abbrev pub no_fail_conditions : List String
no_fail_conditions =
    "this youtube channel is being managed by another server" ∷ "interrupted during daemon startup"
    ∷ "interrupted by user" ∷ "use --skip-space-check to ignore" ∷ "failure uploading blockchain DB"
    ∷ "default_wallet already exists" ∷ []

abbrev pub db_wipe_conditions : List String
db_wipe_conditions = "Missing inputs" ∷ []

pub record CycleEnv (W : Type 0) : Type 0 where
  pub flags : SyncFlags
  pub use_vpn : Bool
  pub home : String
  pub substring_in_slice : String → List String → Bool
  -- errors.Prefix and errors.FullTrace
  pub prefix_error : String → String → String
  pub full_trace : String → String
  pub stop_closed : W → Bool
  pub start_vpn : W → Result String (Unit {0}) × W
  pub stop_vpn : W → Result String (Unit {0}) × W
  pub start_daemon : W → Result String (Unit {0}) × W
  pub stop_daemon : W → Result String (Unit {0}) × W
  pub wait_for_daemon_process : W → Result String (Unit {0}) × W
  pub download_wallet : W → Result String (Unit {0}) × W
  -- Whether a database was downloaded: there may be none yet, or it may not be wanted.
  pub download_blockchain_db : W → Result String Bool × W
  pub upload_wallet : W → Result String (Unit {0}) × W
  pub upload_blockchain_db : W → Result String (Unit {0}) × W
  -- os.MkdirTemp and os.Chmod, and deleteSyncFolder.
  pub make_video_directory : W → Result String (Unit {0}) × W
  pub delete_sync_folder : W → W
  -- GetIPPool, whose error is dropped, and ReleaseAll; and UpdateIps.
  pub release_ips : W → W
  pub update_ips : W → Result String (Unit {0}) × W
  pub set_channel_status :
      String → String → String → Option ℕ → W → Result String (Dict SyncedVideo × Names) × W
  pub wait_for_daemon_start : Method (Sync W) (Unit {0})
  pub do_sync : Method (Sync W) (Unit {0})
  pub process_transfers : Method (Sync W) (Unit {0})

abbrev pub error_of : {A : Type 0} → Result String A → Option String
error_of (ok _) = none
error_of (err e) = some e

module _ {W : Type 0} (env : CycleEnv W) where
  -- A further error, with the texts that stand around it before an error that there already is.
  unfoldable pub add_error : String → Result String (Unit {0}) → Option String → Option String
  add_error before (ok _) e = e
  add_error before (err new) none = some new
  add_error before (err new) (some old) =
      some (env.prefix_error (before ⧺ (env.full_trace new ⧺ " + original error")) old)

  abbrev pub reload : Dict SyncedVideo × Names → Method (Sync W) (Unit {0})
  reload (videos, names) s = (ok tt, record s { synced_videos = videos; names = names })

  unfoldable pub set_status_syncing : Method (Sync W) (Unit {0})
  set_status_syncing s =
      (do
        reply ←
            on_world (env.set_channel_status s.db_channel_data.channel_id Status.syncing "" none)
        reload reply)
        s

  -- The part of performShutdownTasks on the VPN.
  abbrev pub shut_vpn : Option String × Sync W → Option String × Sync W
  shut_vpn (e, s) =
      if env.use_vpn
      then (let (r, t) = on_world env.stop_vpn s in
          (add_error "" r e, record t { state = record t.state { vpn_started = false } }))
      else (e, s)

  abbrev pub save_wallet : Option String × Sync W → Option String × Sync W
  save_wallet (e, s) =
      if s.state.wallet_downloaded || s.state.new_wallet_created
      then (let (r, t) = on_world env.upload_wallet s in (add_error "" r e, t))
      else (e, s)

  abbrev pub save_blockchain_db : Option String × Sync W → Option String × Sync W
  save_blockchain_db (e, s) =
      let (r, t) = on_world env.upload_blockchain_db s in
      (add_error "failure uploading blockchain DB: " r e, t)

  -- Nothing is uploaded while the daemon may still run. The errors of stopping it are only logged.
  abbrev pub save_all : Option String → Result String (Unit {0}) × Sync W → Option String × Sync W
  save_all e (ok _, s) = save_blockchain_db (save_wallet (e, s))
  save_all e (err _, s) = (e, s)

  abbrev pub shut_daemon : Option String × Sync W → Option String × Sync W
  shut_daemon (e, s) =
      save_all e (on_world env.wait_for_daemon_process (on_world env.stop_daemon s).1)

  unfoldable pub perform_shutdown_tasks : Option String → Sync W → Option String × Sync W
  perform_shutdown_tasks e s = shut_daemon (shut_vpn (e, s))

  abbrev pub is_interrupted : Sync W → Bool
  is_interrupted s = s.stopped || env.stop_closed s.world

  abbrev pub after_failed : String → String → Result String (Dict SyncedVideo × Names) → String
  after_failed name e (ok _) = e
  after_failed name e (err new) =
      env.prefix_error (("Failed setting failed state for channel " ⧺ name) ⧺ new) e

  abbrev pub failed_status : String → String
  failed_status e =
      if env.substring_in_slice e db_wipe_conditions then Status.wipe_db else Status.failed

  unfoldable pub set_channel_termination_status : Option String → Sync W → Option String × Sync W
  set_channel_termination_status (some e) s =
      let (r, t) =
        on_world (env.set_channel_status s.db_channel_data.channel_id (failed_status e) e none) s in
      if env.substring_in_slice e no_fail_conditions
      then (some e, s)
      else (some (after_failed s.db_channel_data.desired_channel_name e r), t)
  set_channel_termination_status none s =
      let transfer_state =
        if should_transfer env.flags s then some Status.transfer_complete else none in
      let (r, t) =
        on_world
          (env.set_channel_status s.db_channel_data.channel_id Status.synced "" transfer_state) s in
      if is_interrupted s then (none, s) else (error_of r, t)

  -- The end of downloadWallet: a wallet that is not there yet is a new one.
  abbrev pub note_wallet : Result String (Unit {0}) × Sync W → Result String (Unit {0}) × Sync W
  note_wallet (ok _, s) = (ok tt, record s { state = record s.state { wallet_downloaded = true } })
  note_wallet (err e, s) =
      if str_eq e "wallet not on S3"
      then (ok tt, record s { state = record s.state { new_wallet_created = true } })
      else (err (env.prefix_error "failure in downloading wallet" e), s)

  abbrev pub note_blockchain_db : Result String Bool × Sync W → Result String (Unit {0}) × Sync W
  note_blockchain_db (ok downloaded, s) = (
    ok tt,
    record s {
      state = record s.state {
        blockchain_db_downloaded = s.state.blockchain_db_downloaded || downloaded;
      };
    },
  )
  note_blockchain_db (err e, s) =
      (err (env.prefix_error "failure in downloading blockchain.db" e), s)

  abbrev pub note_vpn : Method (Sync W) (Unit {0})
  note_vpn s = (ok tt, record s { state = record s.state { vpn_started = true } })

  abbrev pub connect_vpn : Method (Sync W) (Unit {0})
  connect_vpn = if env.use_vpn then on_world env.start_vpn >> note_vpn else return tt

  abbrev pub transfer_if_due : Method (Sync W) (Unit {0})
  transfer_if_due s =
      let r = env.process_transfers s in if should_transfer env.flags s then r else (ok tt, s)

  -- FullCycle, from the directory of the videos on; this directory is deleted at the end.
  unfoldable pub in_video_directory : Method (Sync W) (Unit {0})
  in_video_directory s =
      let (r, t) =
        (do
          connect_vpn
          on_world (λ w. (ok tt, env.release_ips w))
          on_world env.update_ips
          on_world env.start_daemon
          env.wait_for_daemon_start
          env.do_sync
          transfer_if_due)
          s in
      (r, record t { world = env.delete_sync_folder t.world })

  -- FullCycle, after its status is set and its deferred calls stand.
  unfoldable pub cycle_body : Method (Sync W) (Unit {0})
  cycle_body = do
    λ s. note_wallet (on_world env.download_wallet s)
    λ s. note_blockchain_db (on_world env.download_blockchain_db s)
    on_world env.make_video_directory
    in_video_directory

  abbrev pub deferred : Result String (Unit {0}) × Sync W → Option String × Sync W
  deferred (r, s) =
      let (e, t) = perform_shutdown_tasks (error_of r) s in set_channel_termination_status e t

  abbrev pub after_status : Result String (Unit {0}) × Sync W → Option String × Sync W
  after_status (ok _, s) = deferred (cycle_body s)
  after_status (err e, s) = (some e, s)

  unfoldable pub full_cycle : Sync W → Option String × Sync W
  full_cycle s =
      let r = after_status (set_status_syncing s) in
      if str_eq env.home "" then (some "no $HOME env var found", s) else r
