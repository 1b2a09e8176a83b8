-- ===== src/Manager/Storage/Database.antt =====
-- The blockchain database of a channel on S3: getBlockchainDBPaths, downloadBlockchainDB and
-- uploadBlockchainDB of manager/s3_storage.go.
pub mod Held
use ytsync.Base.{
  ℕ, String, Bool, true, false, not, ◌⧺◌, Option, none, some, List, [], ◌∷◌, ◌++◌, map, ◌==◌,
  str_eq, if◌then◌else◌, Result, ok, err, Method, return, fail, resume, ◌>>=◌, ◌>>◌,
}
use ytsync.Util.Archive.{ArchiveEnv, untar, unzstd, zstd_compress_files, create_tarball, said_of}
use ytsync.Manager.Storage.{StorageEnv, S3Error, is_reg_test, looked, or_prefixed, get_s3_client}

pub record DatabaseEnv (W : Type 0) : Type 0 where
  pub storage : StorageEnv W
  pub archive : ArchiveEnv W
  -- filepath.Glob
  pub glob : String → W → Result String (List String)
  -- strings.Replace, strings.HasSuffix and strings.Join
  pub replace : String → String → String → String
  pub has_suffix : String → String → Bool
  pub join_lines : List String → String

abbrev pub zst : String → String
zst path = path ⧺ ".zst"

module _ {W : Type 0} (env : DatabaseEnv W) where
  abbrev pub lbryum_dir : String
  lbryum_dir =
      if str_eq (env.storage.variable "LBRYUM_DIR") ""
      then if is_reg_test env.storage
        then (env.storage.variable "HOME" ⧺ "/.lbryum_regtest")
        else (env.storage.variable "HOME" ⧺ "/.lbryum")
      else env.storage.variable "LBRYUM_DIR"

  abbrev pub blockchain_db : String
  blockchain_db =
      if is_reg_test env.storage
      then (lbryum_dir ⧺ "/lbc_regtest/blockchain.db")
      else (lbryum_dir ⧺ "/lbc_mainnet/blockchain.db")

  abbrev pub temp_blockchain_db : String
  temp_blockchain_db =
      if is_reg_test env.storage
      then (lbryum_dir ⧺ "/lbc_regtest/tmp_blockchain.tar")
      else (lbryum_dir ⧺ "/lbc_mainnet/tmp_blockchain.tar")

  abbrev pub blockchain_db_key : String → String
  blockchain_db_key channel =
      if is_reg_test env.storage
      then said_of "/regtest_dbs/" channel ".tar"
      else said_of "/blockchain_dbs/" channel ".tar"

  abbrev pub blockchain_db_dir : String
  blockchain_db_dir = env.replace blockchain_db "blockchain.db" ""

  abbrev pub database_files : Method W (List String)
  database_files = looked env.storage (env.glob (blockchain_db ⧺ "*"))

  unfoldable pub remove_files : List String → Method W (Unit {0})
  remove_files [] w = (ok tt, w)
  remove_files (f ∷ fs) w = resume (λ _. remove_files fs) (env.storage.remove f w)

  abbrev pub removed_or : String → Result String (Unit {0}) × W → Result String (Unit {0}) × W
  removed_or path (ok _, w) = (ok tt, w)
  removed_or path (err e, w) = (err (said_of (said_of "error removing " path ": ") e ""), w)

  abbrev pub unpack : String → Method W (Unit {0})
  unpack path = do
    λ w.
        or_prefixed env.storage "error unzstding blockchain.db files"
          (unzstd env.archive path blockchain_db_dir w)
    λ w. removed_or path (env.storage.remove path w)

  -- The loop over the names of the files of the archive.
  unfoldable pub unpack_all : List String → Method W (Unit {0})
  unpack_all [] w = (ok tt, w)
  unpack_all (name ∷ names) w =
      let r = unpack (env.archive.join blockchain_db_dir name) w in
      if env.has_suffix name ".zst" then resume (λ _. unpack_all names) r else unpack_all names w

  abbrev pub unpack_archive : Method W Bool
  unpack_archive = do
    names ← λ w.
        or_prefixed env.storage "error extracting blockchain.db files"
          (untar env.archive temp_blockchain_db blockchain_db_dir w)
    unpack_all names
    return true

  -- Whether a database was downloaded.
  unfoldable pub received_db : Result S3Error ℕ × W → Result String Bool × W
  received_db (ok n, w) = if n == 0 then (err "zero bytes written", w) else unpack_archive w
  received_db (err e, w) =
      (if str_eq e.code env.storage.no_such_key then ok false else err e.message, w)

  -- The temporary file is removed at the end; an error of this is only logged.
  abbrev pub without_temp : Result String Bool × W → Result String Bool × W
  without_temp (r, w) = (r, (env.storage.remove temp_blockchain_db w).1)

  abbrev pub fetch_db : String → Method W Bool
  fetch_db channel = do
    get_s3_client env.storage
    λ w.
        or_prefixed env.storage "error creating temp blockchain DB file"
          (env.storage.create temp_blockchain_db w)
    λ w. without_temp (
        received_db (
          env.storage.download env.storage.blockchain_db_bucket (blockchain_db_key channel)
            temp_blockchain_db w))

  unfoldable pub download_blockchain_db : String → Bool → Method W Bool
  download_blockchain_db channel wipe_db w =
      let r =
        (do
          files ← database_files
          remove_files files
          if wipe_db then return false else fetch_db channel)
          w in
      if is_reg_test env.storage then (ok false, w) else r

  abbrev pub tar_path : String → String
  tar_path channel = blockchain_db_dir ⧺ (channel ⧺ ".tar")

  abbrev pub pack : String → List String → Method W (Unit {0})
  pack channel files = do
    zstd_compress_files env.archive files
    create_tarball env.archive (tar_path channel) (map zst files)

  abbrev pub send_db : String → Method W (Unit {0})
  send_db channel = do
    get_s3_client env.storage
    looked env.storage (env.storage.open_file (tar_path channel))
    env.storage.upload env.storage.blockchain_db_bucket (blockchain_db_key channel)
        (tar_path channel)

  -- Every file is tried; the errors are gathered.
  unfoldable pub delete_files : List String → W → List String × W
  delete_files [] w = ([], w)
  delete_files (f ∷ fs) w =
      let (r, u) = env.storage.remove f w in
      let (errors, v) = delete_files fs u in (elim r [ ok _ ↦ errors | err e ↦ e ∷ errors ], v)

  abbrev pub joined : List String × W → Result String (Unit {0}) × W
  joined ([], w) = (ok tt, w)
  joined (e ∷ es, w) = (err (env.join_lines (e ∷ es)), w)

  abbrev pub clean_up : String → List String → Method W (Unit {0})
  clean_up channel files = do
    env.storage.remove (tar_path channel)
    λ w. joined (delete_files (files ++ map zst files) w)

  abbrev pub upload_files : String → List String → Method W (Unit {0})
  upload_files channel files = do pack channel files; send_db channel; clean_up channel files

  -- A database that does not exist is no error.
  unfoldable pub upload_blockchain_db : String → Method W (Unit {0})
  upload_blockchain_db channel w =
      let r = (database_files >>= upload_files channel) w in
      if env.storage.exists blockchain_db w then r else (ok tt, w)
