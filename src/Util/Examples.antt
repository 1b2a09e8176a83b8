-- ===== src/Util/Examples.antt =====
-- A test whose daemon is stopped first; the world is whether it runs and the files that are removed.
use ytsync.Base.{
  any, not, if◌then◌else◌, ℕ, refl, String, Bool, true, false, none, some, List, [], ◌∷◌, ok,
  str_eq,
}
use ytsync.Util.Daemon.{HostEnv}
use ytsync.Util.Startup.{StartupEnv, clean_for_startup}
use ytsync.Util.Startup.Held.{HostLaws, Safe, clean_for_startup-Safe}

record Host : Type 0 where
  is_up : Bool
  removed : List String
  height : ℕ

abbrev host : HostEnv Host
host = record {
  variable = λ name. if str_eq name "REGTEST" then "true" else "";
  parse_bool = λ text. if str_eq text "true" then some true else none;
  home_dir = ok "/home/lbry";
  container_list = λ name all_ h. [];
  container_start = λ id h. (ok tt, h);
  container_restart = λ id h. (ok tt, h);
  container_stop = λ id h. (ok tt, h);
  processes = λ h. ok (if h.is_up then record { executable = "lbrynet"; pid = 7 } ∷ [] else []);
  systemctl = λ action service h. (ok tt, record h { is_up = false });
  sleep = λ n h. h;
}

abbrev startup : StartupEnv Host
startup = record {
  host = host;
  prefix_error = λ before e. e;
  exists = λ path h. false;
  glob = λ shape h. ok (shape ∷ []);
  remove = λ path h. (ok tt, record h { removed = path ∷ h.removed });
  remove_all = λ path h. (ok tt, record h { removed = path ∷ h.removed });
  mkdir = λ path h. (ok tt, h);
  new_client = λ chain address h. ok tt;
  get_block_count = λ h. (ok h.height, h);
  generate = λ n h. (ok tt, record h { height = 200 });
  lbrycrd_string = "";
  default_wallet_path = "wallet";
}

-- Whether anything but the wallet was removed.
abbrev others : Host → Bool
others h = any (λ path. not (str_eq path "wallet")) h.removed

abbrev laws : HostLaws startup others
laws = record {
  systemctl-seen = λ action service h. refl;
  container_stop-seen = λ id h. refl;
  get_block_count-seen = λ h. refl;
  generate-seen = λ n h. refl;
}

abbrev up : Host
up = record { is_up = true; removed = []; height = 0 }

clean_for_startup-Safe_example : Safe startup others laws up (clean_for_startup startup up).1
clean_for_startup-Safe_example = clean_for_startup-Safe startup others laws (λ h. refl) up
