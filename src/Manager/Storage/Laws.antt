-- ===== src/Manager/Storage/Laws.antt =====
-- What the wallet's code relies on: what the calls of the file system, of S3 and of the clock do to
-- the files and to the stored objects.
use ytsync.Base.{ℕ, ◌+◌, ◌≤◌, ◌≡◌, String, false, Option, none, ok}
use ytsync.Util.Archive.Keeps.{Only}
use ytsync.Manager.Storage.{StorageEnv}

pub record StorageLaws {W : Type 0} (env : StorageEnv W) (C : Type 0) : Type 1 where
  -- The content of a file, and of an object in a bucket.
  pub file : String → W → Option C
  pub object : String → String → W → Option C
  pub exists-none : (p : String) (w : W) → file p w ≡ none → env.exists p w ≡ false
  pub create-only : (p : String) (w : W) → Only file object p w (env.create p w)
  pub remove-only : (p : String) (w : W) → Only file object p w (env.remove p w)
  pub remove-gone :
      (p : String) (w : W) → (env.remove p w).0 ≡ ok tt → file p (env.remove p w).1 ≡ none
  pub rename-ok :
      (p q : String) (w : W) → (env.rename p q w).0 ≡ ok tt → file q (env.rename p q w).1 ≡ file p w
  pub download-ok :
      (bucket key p : String) (w : W) (n : ℕ)
      → (env.download bucket key p w).0 ≡ ok n
      → file p (env.download bucket key p w).1 ≡ object bucket key w
  pub upload-file :
      (bucket key p q : String) (w : W) → file q (env.upload bucket key p w).1 ≡ file q w
  pub upload-ok :
      (bucket key p : String) (w : W)
      → (env.upload bucket key p w).0 ≡ ok tt
      → object bucket key (env.upload bucket key p w).1 ≡ file p w
  pub sleep-file : (n : ℕ) (q : String) (w : W) → file q (env.sleep n w) ≡ file q w

-- What it relies on of the clock: no call turns it back, and a pause is as long as it should be.
pub record ClockLaws {W : Type 0} (env : StorageEnv W) : Type 0 where
  pub upload-now :
      (bucket key p : String) (w : W) → env.now w ≤ env.now (env.upload bucket key p w).1
  pub sleep-now : (n : ℕ) (w : W) → env.now w + n ≤ env.now (env.sleep n w)
