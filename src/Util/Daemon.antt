-- ===== src/Util/Daemon.antt =====
-- The daemon of util/util.go: where it keeps its files, whether it runs, and how it is started and
-- stopped, as a container or as a service of systemd. The environment, Docker, the processes and
-- systemctl are arguments; a panic of the Docker client is not modelled.
use ytsync.Base.{
  ℕ, String, Bool, true, false, ◌⧺◌, Option, none, some, List, [], ◌∷◌, str_eq, if◌then◌else◌,
  Result, ok, err, Method,
}

-- ps.Process, as far as it is read.
pub record Process : Type 0 where
  pub executable : String
  pub pid : ℕ

pub record HostEnv (W : Type 0) : Type 0 where
  -- os.Getenv and strconv.ParseBool
  pub variable : String → String
  pub parse_bool : String → Option Bool
  -- The home directory of user.Current.
  pub home_dir : Result String String
  -- The ids of the containers of a name, all or those that run.
  pub container_list : String → Bool → W → List String
  pub container_start : String → W → Result String (Unit {0}) × W
  pub container_restart : String → W → Result String (Unit {0}) × W
  pub container_stop : String → W → Result String (Unit {0}) × W
  pub processes : W → Result String (List Process)
  -- sudo systemctl, with an action and a service.
  pub systemctl : String → String → W → Result String (Unit {0}) × W
  -- A pause of so many seconds.
  pub sleep : ℕ → W → W

abbrev pub set_or_no : Option Bool → Bool
set_or_no (some b) = b
set_or_no none = false

abbrev pub in_home : Result String String → String → String
in_home (ok home) path = home ⧺ path
in_home (err e) path = ""

abbrev pub nil_container : String
nil_container = "invalid memory address or nil pointer dereference"

module _ {W : Type 0} (env : HostEnv W) where
  abbrev pub is_set : String → Bool
  is_set name = set_or_no (env.parse_bool (env.variable name))

  abbrev pub is_using_docker : Bool
  is_using_docker = is_set "LBRYNET_USE_DOCKER"

  abbrev pub is_reg_test : Bool
  is_reg_test = is_set "REGTEST"

  abbrev pub should_clean_on_startup : Bool
  should_clean_on_startup = is_set "CLEAN_ON_STARTUP"

  abbrev pub is_blob_reflection_off : Bool
  is_blob_reflection_off = str_eq (env.variable "REFLECT_BLOBS") "false"

  abbrev pub get_blobs_dir : String
  get_blobs_dir =
      if str_eq (env.variable "BLOBS_DIRECTORY") ""
      then in_home env.home_dir "/.lbrynet/blobfiles/"
      else env.variable "BLOBS_DIRECTORY"

  abbrev pub get_lbrynet_dir : String
  get_lbrynet_dir =
      if str_eq (env.variable "LBRYNET_DIR") ""
      then in_home env.home_dir "/.lbrynet/"
      else env.variable "LBRYNET_DIR"

  abbrev pub get_lbryum_dir : String
  get_lbryum_dir =
      if str_eq (env.variable "LBRYUM_DIR") ""
      then in_home env.home_dir "/.lbryum/"
      else (env.variable "LBRYUM_DIR" ⧺ "/")

  abbrev pub get_blockchain_directory_name : String
  get_blockchain_directory_name = if is_reg_test then "lbc_regtest" else "lbc_mainnet"

  abbrev pub get_blockchain_db_path : String
  get_blockchain_db_path =
      (if str_eq (env.variable "LBRYUM_DIR") ""
        then if is_reg_test
          then (env.variable "HOME" ⧺ "/.lbryum_regtest")
          else (env.variable "HOME" ⧺ "/.lbryum")
        else env.variable "LBRYUM_DIR")
      ⧺ (if is_reg_test then "/lbc_regtest/blockchain.db" else "/lbc_mainnet/blockchain.db")

  abbrev pub single_container : String → List String → Result String (Option String)
  single_container name [] = ok none
  single_container name (c ∷ []) = ok (some c)
  single_container name (c ∷ d ∷ rest) = err (("more than one " ⧺ name) ⧺ " container found")

  abbrev pub get_docker_container : String → Bool → W → Result String (Option String)
  get_docker_container name all_ w = single_container name (env.container_list name all_ w)

  abbrev pub get_lbrynet_container : Bool → W → Result String (Option String)
  get_lbrynet_container = get_docker_container "lbrynet"

  abbrev pub is_some : Result String (Option String) → Result String Bool
  is_some (ok none) = ok false
  is_some (ok (some c)) = ok true
  is_some (err e) = err e

  -- The pid of the first process of the daemon, or none.
  abbrev pub daemon_process_id : List Process → Option ℕ
  daemon_process_id [] = none
  daemon_process_id (p ∷ ps) =
      if str_eq p.executable "lbrynet" then some p.pid else daemon_process_id ps

  abbrev pub has_process : Result String (List Process) → Result String Bool
  has_process (ok ps) = ok (elim (daemon_process_id ps) [ none ↦ false | some n ↦ true ])
  has_process (err e) = err e

  unfoldable pub is_lbrynet_running : W → Result String Bool
  is_lbrynet_running w =
      if is_using_docker
      then is_some (get_lbrynet_container false w)
      else has_process (env.processes w)

  -- What is done with the container; there is no test that there is one.
  abbrev pub with_container :
      (String → W → Result String (Unit {0}) × W)
      → Result String (Option String)
      → W
      → Result String (Unit {0}) × W
  with_container act (ok (some c)) w = act c w
  with_container act (ok none) w = (err nil_container, w)
  with_container act (err e) w = (err e, w)

  unfoldable pub start_daemon : Method W (Unit {0})
  start_daemon w =
      if is_using_docker
      then with_container env.container_start (get_lbrynet_container true w) w
      else env.systemctl "start" "lbrynet.service" w

  unfoldable pub restart_daemon : Method W (Unit {0})
  restart_daemon w =
      if is_using_docker
      then with_container env.container_restart (get_lbrynet_container true w) w
      else env.systemctl "restart" "lbrynet.service" w

  unfoldable pub stop_daemon : Method W (Unit {0})
  stop_daemon w =
      if is_using_docker
      then with_container env.container_stop (get_lbrynet_container false w) w
      else env.systemctl "stop" "lbrynet.service" w

  abbrev pub after_vpn : Result String (Unit {0}) × W → Result String (Unit {0}) × W
  after_vpn (ok _, w) = (ok tt, env.sleep 10 w)
  after_vpn (err e, w) = (err e, w)

  abbrev pub stop_vpn : Method W (Unit {0})
  stop_vpn w = after_vpn (env.systemctl "stop" "vpn.service" w)

  abbrev pub start_vpn : Method W (Unit {0})
  start_vpn w = after_vpn (env.systemctl "start" "vpn.service" w)

  abbrev pub restart_vpn : Method W (Unit {0})
  restart_vpn w = after_vpn (env.systemctl "restart" "vpn.service" w)
