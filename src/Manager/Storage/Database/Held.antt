-- ===== src/Manager/Storage/Database/Held.antt =====
-- The files of the database stay until the archive of them is on S3.
use ytsync.Base.{◌⊎◌, resume, Result, ok, ◌≢◌, ◌≡◌, String, List, map, All}
use ytsync.Util.Archive.{create_tarball}
use ytsync.Util.Archive.Keeps.{Keeps, ArchiveLaws}
use ytsync.Util.Archive.Compressed.{Compressed}
use ytsync.Manager.Storage.Laws.{StorageLaws}
use ytsync.Manager.Storage.Database.{clean_up, DatabaseEnv, zst, blockchain_db_key, tar_path}

module _ {W C : Type 0} (env : DatabaseEnv W) (laws : StorageLaws env.storage C)
    (archive : ArchiveLaws env.archive laws.file laws.object) where
  -- A file of the database that is neither a compressed file nor the archive.
  abbrev pub Apart : String → List String → String → Type 0
  Apart channel files f = All (λ p. f ≢ zst p) files × (f ≢ tar_path env channel)

  abbrev pub Unchanged : List String → W → W → Type 0
  Unchanged files w u = All (λ f. laws.file f u ≡ laws.file f w) files

  -- The compressed files are, in `v`, those of what the files of the database held in `w`.
  abbrev Pressed : List String → W → W → Type 0
  Pressed files w v = Compressed env.archive laws.file laws.object archive files w v

  -- An archive is on S3 that was made, from `v` on, of the compressed files of what the files of the
  -- database held in `w`, and hold.
  abbrev pub Archived : String → List String → W → W → Type 0
  Archived channel files w t =
      (v u : W) × (create_tarball env.archive (tar_path env channel) (map zst files) v ≡ (ok tt, u))
      × Pressed files w v
      × Unchanged files w u
      × (laws.object env.storage.blockchain_db_bucket (blockchain_db_key env channel) t
          ≡ laws.file (tar_path env channel) u)

  abbrev Held : String → List String → W → W → Type 0
  Held channel files w t = Unchanged files w t ⊎ Archived channel files w t

  module _ (channel : String) (files : List String) (w v u : W)
      (made : create_tarball env.archive (tar_path env channel) (map zst files) v ≡ (ok tt, u))
      (pressed : Pressed files w v) (same : Unchanged files w u) where
    abbrev After : Result String (Unit {0}) × W → Type 0
    After r = Held channel files w (resume (λ _. clean_up env channel files) r).1
