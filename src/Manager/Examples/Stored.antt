-- ===== src/Manager/Examples/Stored.antt =====
-- A wallet on a disk and on S3, both functions from names to contents, with a clock.
use ytsync.Base.{
  ◌∙◌, ◌≢◌, ℕ, ◌+◌, ◌≡◌, refl, ap, ◌⊎◌, inl, inr, String, Bool, true, false, Option, none, some,
  str_eq, str_eq_refl, eq_iff, if◌then◌else◌, Result, ok, err, Bool-cases, arith,
}
use ytsync.Manager.Storage.{
  S3Error, StorageEnv, get_default_wallet_path, upload_loop, upload_wallet, download_wallet,
  get_wallet_paths, received,
}
use ytsync.Manager.Storage.Laws.{StorageLaws, ClockLaws}
use ytsync.Manager.Storage.Kept.{wallet, stored, upload_wallet_keeps}
use ytsync.Manager.Storage.Restored.{download_wallet-upload_wallet}
use ytsync.Manager.Storage.Tries.{upload_loop_fuel}

pub record Disk : Type 0 where
  pub files : String → Option String
  pub objects : String → String → Option String
  pub clock : ℕ

abbrev pub is_there : Option String → Bool
is_there none = false
is_there (some c) = true

abbrev pub set : {A : Type 0} → String → A → (String → A) → String → A
set name a f q = if str_eq q name then a else f q

pub set_same : {A : Type 0} (name : String) (a : A) (f : String → A) → set name a f name ≡ a
set_same name a f = rw (str_eq_refl name) refl

pub set_other :
    {A : Type 0} (name : String) (a : A) (f : String → A) (q : String)
    → q ≢ name
    → set name a f q ≡ f q
set_other name a f q h = elim (Bool-cases (str_eq q name)) [
  | inl e ↦ absurd (ground (arith, e, h, eq_iff q name))
  | inr e ↦ rw e refl
]

abbrev pub fetched : String → Option String → Disk → Result S3Error ℕ × Disk
fetched p none d = (err (record { code = "NoSuchKey"; message = "no such key" }), d)
fetched p (some c) d = (ok 1, record d { files = set p (some c) d.files })

abbrev pub services : StorageEnv Disk
services = record {
  variable = λ name. if str_eq name "HOME" then "/home/lbry" else "";
  parse_bool = λ text. none;
  prefix_error = λ before e. e;
  wallet_bucket = "wallets";
  blockchain_db_bucket = "dbs";
  no_such_key = "NoSuchKey";
  exists = λ p d. is_there (d.files p);
  create = λ p d. (ok tt, record d { files = set p (some "") d.files });
  open_file = λ p d. ok tt;
  rename = λ p q d. (ok tt, record d { files = set q (d.files p) d.files });
  remove = λ p d. (ok tt, record d { files = set p none d.files });
  new_session = λ d. ok tt;
  download = λ bucket key p d. fetched p (d.objects bucket key) d;
  upload = λ bucket key p d.
      (ok tt, record d { objects = set bucket (set key (d.files p) (d.objects bucket)) d.objects });
  now = λ d. d.clock;
  sleep = λ n d. record d { clock = d.clock + n };
}

pub fetched-ok :
    (p : String) (o : Option String) (d : Disk) (n : ℕ)
    → (fetched p o d).0 ≡ ok n
    → (fetched p o d).1.files p ≡ o
fetched-ok p none d n h = absurd (ground (arith, h))
fetched-ok p (some c) d n h = set_same p (some c) d.files

abbrev pub laws : StorageLaws services String
laws = record {
  file = λ p d. d.files p;
  object = λ bucket key d. d.objects bucket key;
  exists-none = λ p d h. ap is_there h;
  create-only = λ p d. ((λ q h. set_other p (some "") d.files q h), λ bucket key. refl);
  remove-only = λ p d. ((λ q h. set_other p none d.files q h), λ bucket key. refl);
  remove-gone = λ p d h. set_same p none d.files;
  rename-ok = λ p q d h. set_same q (d.files p) d.files;
  download-ok = λ bucket key p d n h. fetched-ok p (d.objects bucket key) d n h;
  upload-file = λ bucket key p q d. refl;
  upload-ok = λ bucket key p d h.
      ap (λ f. f key) (set_same bucket (set key (d.files p) (d.objects bucket)) d.objects)
      ∙ set_same key (d.files p) (d.objects bucket);
  sleep-file = λ n q d. refl;
}

abbrev clock : ClockLaws services
clock = record { upload-now = λ bucket key p d. omega arith; sleep-now = λ n d. omega arith }

abbrev pub before : Disk
before = record {
  files = set "/home/lbry/.lbryum/wallets/default_wallet" (some "keys") (λ q. none);
  objects = λ bucket key. none;
  clock = 7;
}

upload_wallet_keeps_example :
    (wallet services laws (upload_wallet services "UC1" before).1 ≡ some "keys")
    ⊎ (stored services laws "UC1" (upload_wallet services "UC1" before).1 ≡ some "keys")
unfolding get_default_wallet_path
upload_wallet_keeps_example = upload_wallet_keeps services laws "UC1" before

abbrev wallet_sent : Disk
wallet_sent = (upload_wallet services "UC1" before).1

download_wallet-upload_wallet_example :
    wallet services laws (download_wallet services "UC1" wallet_sent).1 ≡ some "keys"
unfolding get_default_wallet_path upload_wallet upload_loop download_wallet get_wallet_paths
    received
download_wallet-upload_wallet_example =
    download_wallet-upload_wallet services laws "UC1" before wallet_sent
      (download_wallet services "UC1" wallet_sent).1 refl refl

upload_loop_fuel_example :
    upload_loop services 61 "/wallets/UC1" 7 none before
    ≡ upload_loop services 100 "/wallets/UC1" 7 none before
upload_loop_fuel_example =
    upload_loop_fuel services clock 61 100 "/wallets/UC1" 7 none before (omega arith) (omega arith)
