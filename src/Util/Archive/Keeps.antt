-- ===== src/Util/Archive/Keeps.antt =====
-- What making an archive leaves alone: each call writes one file at most.
use mathlib.Core.Option
use ytsync.Base.{
  ◌≢◌, ◌≡◌, refl, ◌∙◌, ◌⧺◌, String, Option, List, [], ◌∷◌, All, Result, ok, err, Method, resume,
}
use ytsync.Util.Archive.{
  ArchiveEnv, retold, add_file_to_tar_writer, add_files, create_tarball, compress_file,
  zstd_compress_files,
}

-- A call that leaves the objects alone and, of the files, changes this one at most.
abbrev pub Only :
    {W A C : Type 0}
    → (String → W → Option C)
    → (String → String → W → Option C)
    → String
    → W
    → A × W
    → Type 0
Only file object path w r =
    ((q : String) → q ≢ path → file q r.1 ≡ file q w)
    × ((bucket key : String) → object bucket key r.1 ≡ object bucket key w)

-- What the code relies on: of the files, each call changes at most the one that it writes, and an
-- encoder that ends well has written what zstd makes of the content.
pub record ArchiveLaws {W C : Type 0} (env : ArchiveEnv W) (file : String → W → Option C)
    (object : String → String → W → Option C) : Type 0 where
  pub create-only : (p : String) (w : W) → Only file object p w (env.create p w)
  pub write_header-only :
      (tarball p : String) (w : W) → Only file object tarball w (env.write_header tarball p w)
  pub copy_into-only :
      (tarball p : String) (w : W) → Only file object tarball w (env.copy_into tarball p w)
  pub encode-only : (p q : String) (w : W) → Only file object q w (env.encode p q w)
  pub zstd : C → C
  pub encode-ok :
      (p q : String) (w : W)
      → (env.encode p q w).0 ≡ ok tt
      → file q (env.encode p q w).1 ≡ Option.map zstd (file p w)

-- A call, made in `w`, that leaves what is read as it is.
pub data Keeps {W C : Type 0} (read : W → Option C) (w : W) (r : Result String (Unit {0}) × W)
    : Type 0 where
  kept : read r.1 ≡ read w → Keeps read w r

module _ {W C : Type 0} {read : W → Option C} where
  pub as_kept : {w : W} {r : Result String (Unit {0}) × W} → Keeps read w r → read r.1 ≡ read w
  as_kept (kept e) = e

  pub then-Keeps :
      (r : Result String (Unit {0}) × W) (m : Method W (Unit {0})) (w : W)
      → Keeps read w r
      → ((u : W) → Keeps read u (m u))
      → Keeps read w (resume (λ _. m) r)
  then-Keeps (ok a, u) m w first rest = kept (as_kept (rest u) ∙ as_kept first)
  then-Keeps (err e, u) m w (kept first) rest = kept first

  pub retold-Keeps :
      (words : String → String) (r : Result String (Unit {0}) × W) (w : W)
      → Keeps read w r
      → Keeps read w (retold words r)
  retold-Keeps words (ok a, u) w (kept h) = kept h
  retold-Keeps words (err e, u) w (kept h) = kept h

  pub look-Keeps : (o : Result String (Unit {0})) (w : W) → Keeps read w (o, w)
  look-Keeps o w = kept refl

pub ruleset calls = (then-Keeps, retold-Keeps, look-Keeps)

module _ {W C : Type 0} (env : ArchiveEnv W) (file : String → W → Option C)
    (object : String → String → W → Option C) (laws : ArchiveLaws env file object) where
  encode-Keeps : (f p q : String) (w : W) → f ≢ q → Keeps (file f) w (env.encode p q w)
  encode-Keeps f p q w h = kept ((laws.encode-only p q w).0 f h)

  create-Keeps : (f p : String) (w : W) → f ≢ p → Keeps (file f) w (env.create p w)
  create-Keeps f p w h = kept ((laws.create-only p w).0 f h)

  pub compress_file-Keeps :
      (f p q : String) (w : W) → f ≢ q → Keeps (file f) w (compress_file env p q w)
  unfolding compress_file
  compress_file-Keeps f p q w h = search (calls, encode-Keeps, create-Keeps) depth 9

  write_header-Keeps :
      (f p tarball : String) (w : W) → f ≢ tarball → Keeps (file f) w (env.write_header tarball p w)
  write_header-Keeps f p tarball w h = kept ((laws.write_header-only tarball p w).0 f h)

  copy_into-Keeps :
      (f p tarball : String) (w : W) → f ≢ tarball → Keeps (file f) w (env.copy_into tarball p w)
  copy_into-Keeps f p tarball w h = kept ((laws.copy_into-only tarball p w).0 f h)

  add_file_to_tar_writer-Keeps :
      (f p tarball : String) (w : W)
      → f ≢ tarball
      → Keeps (file f) w (add_file_to_tar_writer env p tarball w)
  unfolding add_file_to_tar_writer
  add_file_to_tar_writer-Keeps f p tarball w h =
      search (calls, write_header-Keeps, copy_into-Keeps) depth 9

  add_files-Keeps :
      (f tarball : String) (ps : List String) (w : W)
      → f ≢ tarball
      → Keeps (file f) w (add_files env tarball ps w)
  unfolding add_files
  add_files-Keeps f tarball [] w h = kept refl
  add_files-Keeps f tarball (p ∷ ps) w h =
      search (calls, add_file_to_tar_writer-Keeps, λ (u : W). add_files-Keeps f tarball ps u h)

  pub create_tarball-Keeps :
      (f tarball : String) (ps : List String) (w : W)
      → f ≢ tarball
      → Keeps (file f) w (create_tarball env tarball ps w)
  unfolding create_tarball
  create_tarball-Keeps f tarball ps w h = search (calls, create-Keeps, add_files-Keeps)

  pub zstd_compress_files-Keeps :
      (f : String) (ps : List String) (w : W)
      → All (λ p. f ≢ p ⧺ ".zst") ps
      → Keeps (file f) w (zstd_compress_files env ps w)
  unfolding zstd_compress_files
  zstd_compress_files-Keeps f [] w h = kept refl
  zstd_compress_files-Keeps f (p ∷ ps) w h = search (
    calls,
    compress_file-Keeps f p (p ⧺ ".zst") w h.0,
    λ (u : W). zstd_compress_files-Keeps f ps u h.1,
  )
