-- ===== src/Util/Startup.antt =====
-- CleanForStartup and CleanupLbrynet of util/util.go, the clean start of a test: they remove the
-- daemon's databases, its blobs and the wallet. The file system and lbrycrd are arguments.
pub mod Held
use ytsync.Base.{
  ℕ, ◌-◌, String, Bool, true, false, not, ◌⧺◌, Option, none, some, List, [], ◌∷◌, str_eq, ltb,
  if◌then◌else◌, Result, ok, err, Method, resume, ◌>>=◌, ◌>>◌,
}
use ytsync.Util.Daemon.{
  HostEnv, is_reg_test, is_lbrynet_running, stop_daemon, get_lbrynet_dir, get_blobs_dir,
  get_lbryum_dir,
}

pub record StartupEnv (W : Type 0) : Type 0 where
  pub host : HostEnv W
  -- errors.Prefix, of an error or of nil.
  pub prefix_error : String → Option String → Option String
  pub exists : String → W → Bool
  pub glob : String → W → Result String (List String)
  pub remove : String → W → Result String (Unit {0}) × W
  pub remove_all : String → W → Result String (Unit {0}) × W
  pub mkdir : String → W → Result String (Unit {0}) × W
  -- lbrycrd: the client by the name of its chain and its address, the height, and new blocks.
  pub new_client : String → String → W → Result String (Unit {0})
  pub get_block_count : W → Result String ℕ × W
  pub generate : ℕ → W → Result String (Unit {0}) × W
  -- The configuration, and util.GetDefaultWalletPath.
  pub lbrycrd_string : String
  pub default_wallet_path : String

abbrev pub result_of : Option String → Result String (Unit {0})
result_of none = ok tt
result_of (some e) = err e

abbrev pub min_blocks_for_utxo : ℕ
min_blocks_for_utxo = 200

module _ {W : Type 0} (env : StartupEnv W) where
  abbrev pub asked : {A : Type 0} → (W → Result String A) → Method W A
  asked call w = (call w, w)

  unfoldable pub delete_all : List String → Method W (Unit {0})
  delete_all [] w = (ok tt, w)
  delete_all (f ∷ fs) w = resume (λ _. delete_all fs) (env.remove f w)

  abbrev pub delete_matches : String → Method W (Unit {0})
  delete_matches shape = asked (env.glob shape) >>= delete_all

  abbrev pub delete_data : Method W (Unit {0})
  delete_data = do
    delete_matches (get_lbrynet_dir env.host ⧺ "lbrynet.sqlite*")
    env.remove_all (get_blobs_dir env.host)
    env.mkdir (get_blobs_dir env.host)
    delete_matches (
        (get_lbryum_dir env.host ⧺ (if is_reg_test env.host then "lbc_regtest" else "lbc_mainnet"))
        ⧺ "/blockchain.db*")

  -- While the daemon runs nothing is removed; the error of this is made of an error that is nil.
  abbrev pub unless_running : Bool → Method W (Unit {0})
  unless_running true w =
      (result_of (env.prefix_error "cannot cleanup lbrynet as the daemon is running" none), w)
  unless_running false w = delete_data w

  unfoldable pub cleanup_lbrynet : Method W (Unit {0})
  cleanup_lbrynet = asked (is_lbrynet_running env.host) >>= unless_running

  abbrev pub stop_if : Bool → Method W (Unit {0})
  stop_if true w = stop_daemon env.host w
  stop_if false w = (ok tt, w)

  abbrev pub get_lbrycrd_client : W → Result String (Unit {0})
  get_lbrycrd_client = env.new_client (env.host.variable "CHAINNAME") env.lbrycrd_string

  abbrev pub retold_client : Result String (Unit {0}) → Result String (Unit {0})
  retold_client (ok _) = ok tt
  retold_client (err e) = result_of (env.prefix_error "error getting lbrycrd client" (some e))

  abbrev pub generate_missing : ℕ → Method W (Unit {0})
  generate_missing height w =
      if ltb height min_blocks_for_utxo
      then env.generate (min_blocks_for_utxo - height) w
      else (ok tt, w)

  abbrev pub remove_wallet : Method W (Unit {0})
  remove_wallet w =
      if env.exists env.default_wallet_path w
      then env.remove env.default_wallet_path w
      else (ok tt, w)

  abbrev pub fund_and_remove_wallet : Method W (Unit {0})
  fund_and_remove_wallet = do
    asked (λ w. retold_client (get_lbrycrd_client w))
    height ← env.get_block_count
    generate_missing height
    remove_wallet

  abbrev pub clean : Method W (Unit {0})
  clean = do
    running ← asked (is_lbrynet_running env.host)
    stop_if running
    cleanup_lbrynet
    fund_and_remove_wallet

  unfoldable pub clean_for_startup : Method W (Unit {0})
  clean_for_startup w = if is_reg_test env.host then clean w else (
    err
        "never cleanup wallet outside of regtest and with caution. this should only be done in local testing and requires regtest to be on",
    w,
  )
