-- ===== src/Sources/Path.antt =====
-- Where the video of sources/youtubeVideo.go stands on the disk: videoDir, getFullPath,
-- getDownloadedPath and delete. The file system and the folding of case are arguments.
pub mod Length
use ytsync.Base.{
  ℕ, zero, suc, ◌-◌, String, Char, code, byte_len, Bool, true, false, not, ◌&&◌, ◌||◌, ◌⧺◌, List,
  [], ◌∷◌, ltb, leb, ◌==◌, str_eq, contains, if◌then◌else◌, Result, ok, err, Method,
}
use ytsync.Namer.{trim_dashes, split_dash}

-- [a-zA-Z0-9]
abbrev pub is_alphanumeric : Char → Bool
is_alphanumeric c =
    (leb b'0' (code c) && leb (code c) b'9')
    || (leb b'a' (code c) && leb (code c) b'z')
    || (leb b'A' (code c) && leb (code c) b'Z')

abbrev pub starts_with_dash : String → Bool
starts_with_dash String.[] = false
starts_with_dash (String.◌∷◌ c s) = code c == b'-'

-- The regular expression [^a-zA-Z0-9]+ with "-" in its place.
unfoldable pub dash_others : String → String
dash_others String.[] = ""
dash_others (String.◌∷◌ c s) =
    let rest = dash_others s in
    if is_alphanumeric c
    then String.◌∷◌ c rest
    else if starts_with_dash rest
    then rest
    else String.◌∷◌ "-" rest

abbrev pub width : Char → ℕ
width c = byte_len (String.◌∷◌ c "")

-- s[:n], for a cut that does not fall into a character.
unfoldable pub cut : ℕ → String → String
unfolding byte_len
cut n String.[] = ""
cut n (String.◌∷◌ c s) =
    let rest = cut (n - width c) s in if ltb n (width c) then "" else String.◌∷◌ c rest

abbrev pub max_len : ℕ
max_len = 30

abbrev pub first_name : String → String
first_name chunk = if ltb max_len (byte_len chunk) then cut max_len chunk else chunk

-- The loop over the chunks after the first.
unfoldable pub add_parts : String → List String → String
add_parts name [] = name
add_parts name (chunk ∷ chunks) =
    let longer = name ⧺ ("-" ⧺ chunk) in
    let rest = add_parts longer chunks in
    if ltb max_len (byte_len longer)
    then if ltb (byte_len name) 20 then cut max_len longer else name
    else rest

unfoldable pub name_of_chunks : List String → String
name_of_chunks [] = ""
name_of_chunks (chunk ∷ chunks) = add_parts (first_name chunk) chunks

abbrev pub or_id : String → String → String
or_id id name = if ltb (byte_len name) 1 then id else name

module _ (to_lower : String → String) where
  unfoldable pub file_name : String → String → String
  file_name id title =
      or_id id (name_of_chunks (split_dash (to_lower (trim_dashes (dash_others title)))))

  abbrev pub get_full_path : String → String → String → String
  get_full_path video_dir id title = video_dir ⧺ ("/" ⧺ (file_name id title ⧺ ".mp4"))

-- What is read of an os.FileInfo.
pub record FileInfo : Type 0 where
  pub name : String
  pub is_dir : Bool

pub record PathEnv (W : Type 0) : Type 0 where
  pub to_lower : String → String
  -- path.Join, and a name without its extension.
  pub join : String → String → String
  pub without_ext : String → String
  -- The entries of a directory, with what Info returns of each.
  pub read_dir : String → W → Result String (List (Result String FileInfo))
  pub remove : String → W → Result String (Unit {0}) × W
  pub prefix_error : String → String → String

module _ {W : Type 0} (env : PathEnv W) (dir id title : String) where
  abbrev pub video_dir : String
  video_dir = env.join dir id

  -- The loop of getDownloadedPath.
  unfoldable pub find_file : List (Result String FileInfo) → Result String String
  unfolding contains
  find_file [] = err "could not find any downloaded videos"
  find_file (err e ∷ entries) = err e
  find_file (ok info ∷ entries) =
      let rest = find_file entries in
      if info.is_dir
      then rest
      else if contains (get_full_path env.to_lower video_dir id title) (env.without_ext info.name)
      then ok (env.join video_dir info.name)
      else rest

  abbrev pub from_listing : Result String (List (Result String FileInfo)) → Result String String
  from_listing (ok entries) = find_file entries
  from_listing (err e) = err (env.prefix_error "list error" e)

  abbrev pub get_downloaded_path : W → Result String String
  get_downloaded_path w = from_listing (env.read_dir video_dir w)

  abbrev pub removed : Result String (Unit {0}) × W → Result String (Unit {0}) × W
  removed (ok _, w) = (ok tt, w)
  removed (err e, w) = (err (env.prefix_error "delete error" e), w)

  abbrev pub delete_found : Result String String → Method W (Unit {0})
  delete_found (ok path) w = removed (env.remove path w)
  delete_found (err e) w = (err e, w)

  abbrev pub delete_video : Method W (Unit {0})
  delete_video w = delete_found (get_downloaded_path w) w
