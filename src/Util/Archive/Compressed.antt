-- ===== src/Util/Archive/Compressed.antt =====
-- What ZstdCompressFiles writes.
use mathlib.Core.Option
use ytsync.Base.{
  ◌≢◌, ◌≡◌, refl, ◌∙◌, ap, ◌⧺◌, String, Option, List, [], ◌∷◌, All, All-mono, Result, ok, err,
  Method, resume, arith,
}
use ytsync.Util.Archive.{ArchiveEnv, retold, compress_file, zstd_compress_files}
use ytsync.Util.Archive.Keeps.{ArchiveLaws, as_kept, compress_file-Keeps, zstd_compress_files-Keeps}

-- If a call ends well, this content is read after it.
abbrev Made : {W C : Type 0} → (W → Option C) → Option C → Result String (Unit {0}) × W → Type 0
Made read x r = r.0 ≡ ok tt → read r.1 ≡ x

module _ {W C : Type 0} (read : W → Option C) (x : Option C) where
  then-Made :
      (words : String → String) (r : Result String (Unit {0}) × W) (m : Method W (Unit {0}))
      → Made read x (m r.1)
      → Made read x (resume (λ _. m) (retold words r))
  then-Made words (ok a, u) m h = h
  then-Made words (err e, u) m h = λ good. absurd (ground (arith, good))

  retold-Made :
      (words : String → String) (r : Result String (Unit {0}) × W)
      → Made read x r
      → Made read x (retold words r)
  retold-Made words (ok a, u) h = h
  retold-Made words (err e, u) h = λ good. absurd (ground (arith, good))

-- No compressed file is written twice.
abbrev pub Once : List String → Type 0
Once [] = Unit
Once (p ∷ ps) = All (λ q. p ⧺ ".zst" ≢ q ⧺ ".zst") ps × Once ps

module _ {W C : Type 0} (env : ArchiveEnv W) (file : String → W → Option C)
    (object : String → String → W → Option C) (laws : ArchiveLaws env file object) where
  compress_file-Made :
      (p q : String) (w : W)
      → p ≢ q
      → Made (file q) (Option.map laws.zstd (file p w)) (compress_file env p q w)
  unfolding compress_file
  compress_file-Made p q w ne =
      let x = Option.map laws.zstd (file p w) in
      let u = (env.create q w).1 in
      then-Made (file q) x _ (env.open_file p w, w) _
        (then-Made (file q) x _ (env.create q w) _ (
          then-Made (file q) x _ (env.new_encoder q u, u) _
            (retold-Made (file q) x _ (env.encode p q u) λ good.
              laws.encode-ok p q u good
              ∙ ap (Option.map laws.zstd) ((laws.create-only q w).0 p ne))))

  -- The compressed files in `v` are those of the contents in `w`.
  abbrev pub Compressed : List String → W → W → Type 0
  Compressed ps w v = All (λ p. file (p ⧺ ".zst") v ≡ Option.map laws.zstd (file p w)) ps

  first-Compressed :
      (p : String) (ps : List String) (w : W) (r : Result String (Unit {0}) × W)
      (words : String → String)
      → Made (file (p ⧺ ".zst")) (Option.map laws.zstd (file p w)) r
      → All (λ q. file q r.1 ≡ file q w) ps
      → All (λ q. p ⧺ ".zst" ≢ q ⧺ ".zst") ps
      → ((zstd_compress_files env ps r.1).0 ≡ ok tt
          → Compressed ps r.1 (zstd_compress_files env ps r.1).1)
      → (resume (λ _. zstd_compress_files env ps) (retold words r)).0 ≡ ok tt
      → Compressed (p ∷ ps) w (resume (λ _. zstd_compress_files env ps) (retold words r)).1
  first-Compressed p ps w (err e, u) words made same apart rest good = absurd (ground (arith, good))
  first-Compressed p ps w (ok a, u) words made same apart rest good = (
    as_kept (zstd_compress_files-Keeps env file object laws (p ⧺ ".zst") ps u apart) ∙ made refl,
    moved ps same (rest good),
  )
    where
      moved :
          (qs : List String)
          → All (λ q. file q u ≡ file q w) qs
          → Compressed qs u (zstd_compress_files env ps u).1
          → Compressed qs w (zstd_compress_files env ps u).1
      moved [] h k = tt
      moved (q ∷ qs) h k = (k.0 ∙ ap (Option.map laws.zstd) h.0, moved qs h.1 k.1)

  pub zstd_compress_files-Compressed :
      (ps : List String) (w : W)
      → All (λ f. All (λ p. f ≢ p ⧺ ".zst") ps) ps
      → Once ps
      → (zstd_compress_files env ps w).0 ≡ ok tt
      → Compressed ps w (zstd_compress_files env ps w).1
  unfolding zstd_compress_files
  zstd_compress_files-Compressed [] w apart once good = tt
  zstd_compress_files-Compressed (p ∷ ps) w apart once good =
      let q = p ⧺ ".zst" in
      first-Compressed p ps w (compress_file env p q w) _ (compress_file-Made p q w apart.0.0)
        (All-mono _ _ ps (λ f h. as_kept (compress_file-Keeps env file object laws f p q w h.0))
          apart.1)
        once.0
        (zstd_compress_files-Compressed ps (compress_file env p q w).1
          (All-mono _ _ ps (λ f h. h.1) apart.1) once.1)
        good
