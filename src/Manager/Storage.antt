-- ===== src/Manager/Storage.antt =====
-- The wallet of a channel on S3: getWalletPaths, downloadWallet and uploadWallet of
-- manager/s3_storage.go, and GetDefaultWalletPath of util/util.go. The environment, the file system,
-- S3 and the clock are arguments; handles that are open and how they are closed are not modelled.
pub mod Laws
pub mod Kept
pub mod Restored
pub mod Tries
pub mod Database
pub mod Handover
use ytsync.Base.{
  ℕ, zero, suc, ◌-◌, String, Bool, true, false, not, ◌⧺◌, Option, none, some, List, [], ◌∷◌, ltb,
  ◌==◌, str_eq, if◌then◌else◌, Result, ok, err, Method, return, fail, resume, ◌>>=◌, ◌>>◌,
}

-- awserr.Error
pub record S3Error : Type 0 where
  pub code : String
  pub message : String

pub record StorageEnv (W : Type 0) : Type 0 where
  -- os.Getenv and strconv.ParseBool
  pub variable : String → String
  pub parse_bool : String → Option Bool
  pub prefix_error : String → String → String
  -- The configured buckets, and s3.ErrCodeNoSuchKey.
  pub wallet_bucket : String
  pub blockchain_db_bucket : String
  pub no_such_key : String
  -- os.Stat, unless os.IsNotExist says so of its error.
  pub exists : String → W → Bool
  pub create : String → W → Result String (Unit {0}) × W
  pub open_file : String → W → Result String (Unit {0})
  pub rename : String → String → W → Result String (Unit {0}) × W
  pub remove : String → W → Result String (Unit {0}) × W
  -- session.NewSession
  pub new_session : W → Result String (Unit {0})
  -- The bucket, the key and the file.
  pub download : String → String → String → W → Result S3Error ℕ × W
  pub upload : String → String → String → W → Result String (Unit {0}) × W
  -- Seconds.
  pub now : W → ℕ
  pub sleep : ℕ → W → W

pub record WalletPaths : Type 0 where
  pub default_wallet : String
  pub temp_wallet : String
  pub key : String

abbrev pub true_or_no : Option Bool → Bool
true_or_no (some b) = b
true_or_no none = false

-- Sixty pauses of thirty seconds fill the thirty minutes of the attempts to upload a wallet.
abbrev pub upload_fuel : ℕ
upload_fuel = 61

module _ {W : Type 0} (env : StorageEnv W) where
  -- A call that only looks at the world.
  abbrev pub looked : {A : Type 0} → (W → Result String A) → Method W A
  looked call w = (call w, w)

  abbrev pub or_prefixed : {A : Type 0} → String → Result String A × W → Result String A × W
  or_prefixed before (ok a, w) = (ok a, w)
  or_prefixed before (err e, w) = (err (env.prefix_error before e), w)

  abbrev pub is_reg_test : Bool
  is_reg_test = true_or_no (env.parse_bool (env.variable "REGTEST"))

  unfoldable pub get_default_wallet_path : String
  get_default_wallet_path =
      if str_eq (env.variable "LBRYUM_DIR") ""
      then if is_reg_test
        then (env.variable "HOME" ⧺ "/.lbryum_regtest/wallets/default_wallet")
        else (env.variable "HOME" ⧺ "/.lbryum/wallets/default_wallet")
      else (env.variable "LBRYUM_DIR" ⧺ "/wallets/default_wallet")

  abbrev pub temp_wallet_path : String
  temp_wallet_path =
      if str_eq (env.variable "LBRYUM_DIR") ""
      then if is_reg_test
        then (env.variable "HOME" ⧺ "/.lbryum_regtest/wallets/tmp_wallet")
        else (env.variable "HOME" ⧺ "/.lbryum/wallets/tmp_wallet")
      else (env.variable "LBRYUM_DIR" ⧺ "/wallets/tmp_wallet")

  abbrev pub wallet_key : String → String
  wallet_key channel = if is_reg_test then "/regtest/" ⧺ channel else "/wallets/" ⧺ channel

  unfoldable pub get_wallet_paths : String → Method W WalletPaths
  get_wallet_paths channel w =
      if env.exists get_default_wallet_path w then (err "default_wallet already exists", w) else (
        ok (record {
          default_wallet = get_default_wallet_path;
          temp_wallet = temp_wallet_path;
          key = wallet_key channel;
        }),
        w,
      )

  -- getS3Downloader and getS3Uploader.
  abbrev pub get_s3_client : Method W (Unit {0})
  get_s3_client w = or_prefixed "error starting session" (looked env.new_session w)

  unfoldable pub received : Result S3Error ℕ × W → Result String (Unit {0}) × W
  received (ok n, w) = (if n == 0 then err "zero bytes written" else ok tt, w)
  received (err e, w) =
      (err (if str_eq e.code env.no_such_key then "wallet not on S3" else e.message), w)

  abbrev pub fetch_wallet : WalletPaths → Method W (Unit {0})
  fetch_wallet paths = do
    get_s3_client
    λ w. or_prefixed "error creating temp wallet" (env.create paths.temp_wallet w)
    λ w. received (env.download env.wallet_bucket paths.key paths.temp_wallet w)
    λ w.
        or_prefixed "error replacing temp wallet for default wallet"
          (env.rename paths.temp_wallet paths.default_wallet w)

  unfoldable pub download_wallet : String → Method W (Unit {0})
  download_wallet channel = get_wallet_paths channel >>= fetch_wallet

  abbrev pub after_upload :
      (Option String → W → Option String × W) → Result String (Unit {0}) × W → Option String × W
  after_upload again (ok _, w) = (none, w)
  after_upload again (err e, w) = again (some e) (env.sleep 30 w)

  -- The loop of uploadWallet, with the time at which it began and the last error.
  unfoldable pub upload_loop : ℕ → String → ℕ → Option String → W → Option String × W
  upload_loop zero key start last w = (last, w)
  upload_loop (suc fuel) key start last w =
      let r =
        after_upload (upload_loop fuel key start)
          (env.upload env.wallet_bucket key get_default_wallet_path w) in
      if ltb (env.now w - start) 1800 then r else (last, w)

  abbrev pub uploaded : Option String × W → Result String (Unit {0}) × W
  uploaded (none, w) = (ok tt, w)
  uploaded (some e, w) =
      (err (env.prefix_error "there was a problem uploading the wallet to S3" e), w)

  abbrev pub try_upload : String → Method W (Unit {0})
  try_upload channel w = uploaded (upload_loop upload_fuel (wallet_key channel) (env.now w) none w)

  abbrev pub send_wallet : String → Method W (Unit {0})
  send_wallet channel = do
    get_s3_client
    looked (env.open_file get_default_wallet_path)
    try_upload channel
    env.remove get_default_wallet_path

  unfoldable pub upload_wallet : String → Method W (Unit {0})
  upload_wallet channel w =
      let r = send_wallet channel w in
      if env.exists get_default_wallet_path w then r else (err "default_wallet does not exist", w)
