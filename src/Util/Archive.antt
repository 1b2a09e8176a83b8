-- ===== src/Util/Archive.antt =====
-- Tarballs and zstd files, util/archive.go and util/compression.go. The file system and the libraries
-- for tar, zstd and paths are arguments; a handle is the path of its file, and closing it (with what
-- is written only then) is not modelled.
pub mod Keeps
pub mod Compressed
use ytsync.Base.{
  String, Bool, ◌⧺◌, Option, none, some, List, [], ◌∷◌, if◌then◌else◌, Result, ok, err, Method,
  return, resume, ◌>>=◌, ◌>>◌,
}

-- tar.Header, as far as it is read.
pub record Header : Type 0 where
  pub name : String
  pub is_dir : Bool

pub record ArchiveEnv (W : Type 0) : Type 0 where
  pub create : String → W → Result String (Unit {0}) × W
  pub open_file : String → W → Result String (Unit {0})
  pub stat : String → W → Result String (Unit {0})
  pub mkdir_all : String → W → Result String (Unit {0}) × W
  -- os.OpenFile with O_CREATE and O_TRUNC.
  pub open_target : String → W → Result String (Unit {0}) × W
  -- The header of a file, and its content, into a tarball.
  pub write_header : String → String → W → Result String (Unit {0}) × W
  pub copy_into : String → String → W → Result String (Unit {0}) × W
  -- What Next returns on a tarball until io.EOF or an error.
  pub headers : String → W → List Header × Option String
  -- The content of an entry of a tarball, into a file.
  pub copy_entry : String → String → String → W → Result String (Unit {0}) × W
  pub new_encoder : String → W → Result String (Unit {0})
  pub new_decoder : String → W → Result String (Unit {0})
  pub encode : String → String → W → Result String (Unit {0}) × W
  pub decode : String → String → W → Result String (Unit {0}) × W
  -- filepath.Base, filepath.Join and strings.TrimSuffix
  pub base : String → String
  pub join : String → String → String
  pub trim_suffix : String → String → String

abbrev pub said_of : String → String → String → String
said_of before e after = before ⧺ (e ⧺ after)

-- A message on a file.
abbrev pub about_file : String → String → String → String → String
about_file before path after e = said_of before path (said_of after e "'")

module _ {W : Type 0} where
  abbrev pub look : {A : Type 0} → (W → Result String A) → Method W A
  look call w = (call w, w)

  -- The error of a call, told in other words.
  abbrev pub retold : {A : Type 0} → (String → String) → Result String A × W → Result String A × W
  retold words (ok a, w) = (ok a, w)
  retold words (err e, w) = (err (words e), w)

module _ {W : Type 0} (env : ArchiveEnv W) where
  unfoldable pub add_file_to_tar_writer : String → String → Method W (Unit {0})
  add_file_to_tar_writer path tarball = do
    λ w.
        retold (about_file "Could not open file '" path "', got error '")
          (look (env.open_file path) w)
    λ w.
        retold (about_file "Could not get stat for file '" path "', got error '")
          (look (env.stat path) w)
    λ w.
        retold (about_file "Could not write header for file '" path "', got error '")
          (env.write_header tarball path w)
    λ w.
        retold (about_file "Could not copy the file '" path "' data to the tarball, got error '")
          (env.copy_into tarball path w)

  unfoldable pub add_files : String → List String → Method W (Unit {0})
  add_files tarball [] w = (ok tt, w)
  add_files tarball (path ∷ paths) w =
      resume (λ _. add_files tarball paths)
        (retold (about_file "Could not add file '" path "', to tarball, got error '")
          (add_file_to_tar_writer path tarball w))

  unfoldable pub create_tarball : String → List String → Method W (Unit {0})
  create_tarball tarball paths = do
    λ w.
        retold (about_file "Could not create tarball file '" tarball "', got error '")
          (env.create tarball w)
    add_files tarball paths

  unfoldable pub extract_file : String → String → String → Method W (Unit {0})
  extract_file tarball name path = do env.open_target path; env.copy_entry tarball name path

  abbrev pub end_of : Option String → Method W (List String)
  end_of none w = (ok [], w)
  end_of (some e) w = (err e, w)

  -- The loop of Untar over the headers, with what ends them. The names are those of the files.
  unfoldable pub extract_all :
      String → String → Option String → List Header → Method W (List String)
  extract_all tarball target end_ [] w = end_of end_ w
  extract_all tarball target end_ (h ∷ hs) w =
      let path = env.join target h.name in
      let rest = extract_all tarball target end_ hs in
      if h.is_dir
      then resume (λ _. rest) (env.mkdir_all path w)
      else resume (λ _. rest >>= λ names. return (h.name ∷ names))
          (extract_file tarball h.name path w)

  abbrev pub extract_from : String → String → Method W (List String)
  extract_from tarball target w =
      let (hs, end_) = env.headers tarball w in extract_all tarball target end_ hs w

  unfoldable pub untar : String → String → Method W (List String)
  untar tarball target = look (env.open_file tarball) >> extract_from tarball target

  unfoldable pub compress_file : String → String → Method W (Unit {0})
  compress_file source destination = do
    λ w.
        retold (about_file "Could not open source file '" source "', got error '")
          (look (env.open_file source) w)
    λ w.
        retold (about_file "Could not create destination file '" destination "', got error '")
          (env.create destination w)
    λ w.
        retold (λ e. said_of "Could not create zstd encoder, got error '" e "'")
          (look (env.new_encoder destination) w)
    λ w.
        retold (about_file "Could not compress the file '" source "', got error '")
          (env.encode source destination w)

  unfoldable pub zstd_compress_files : List String → Method W (Unit {0})
  zstd_compress_files [] w = (ok tt, w)
  zstd_compress_files (path ∷ paths) w =
      resume (λ _. zstd_compress_files paths)
        (retold (about_file "Could not compress file '" path "', got error '")
          (compress_file path (path ⧺ ".zst") w))

  unfoldable pub unzstd : String → String → Method W (Unit {0})
  unzstd path target =
      let extracted = env.join target (env.trim_suffix (env.base path) ".zst") in
      (do
        λ w.
            retold (about_file "Could not open zstd file '" path "', got error '")
              (look (env.open_file path) w)
        λ w.
            retold (λ e. said_of "Could not create zstd decoder, got error '" e "'")
              (look (env.new_decoder path) w)
        λ w.
            retold (about_file "Could not create target directory '" target "', got error '")
              (env.mkdir_all target w)
        λ w.
            retold (about_file "Could not create file for extraction '" extracted "', got error '")
              (env.create extracted w)
        λ w.
            retold (λ e. said_of "Could not extract the zstd content, got error '" e "'")
              (env.decode path extracted w))
