-- ===== src/Downloader/Bound.antt =====
-- How many ids GetPlaylistVideoIDs returns.
use ytsync.Base.{
  ℕ, suc, ◌+◌, ◌-◌, ◌*◌, ◌≤◌, ◌≡◌, subst, String, false, Option, none, some, List, [], ◌∷◌, ◌++◌,
  length, All, All-append, str_eq, leb, contains, ◌||◌, Result, ok, err, Bool-cases, inl, inr,
  arith,
}
use ytsync.Sources.Loops.{Loop}
use ytsync.Downloader.{
  DownloaderEnv, take_ids, prepend, after_tab, from_tabs, get_playlist_video_ids,
}

pub IsId : String → Type 0
IsId v = str_eq v "" ≡ false

-- At most so many ids, none of them empty.
pub Bounded : ℕ → List String → Type 0
Bounded n ids = (length ids ≤ n) × All IsId ids

module _ {W : Type 0} (env : DownloaderEnv W) where
  take_ids-Bounded :
      (max_videos i : ℕ) (vs : List String)
      → Bounded (max_videos - i) (take_ids env max_videos i vs)
  unfolding take_ids Bounded IsId
  take_ids-Bounded max_videos i [] = (omega arith, tt)
  take_ids-Bounded max_videos i (v ∷ vs) =
      let (short, ids) = take_ids-Bounded max_videos (suc i) vs in
      elim (Bool-cases (str_eq v "")) [
        | inl e1 ↦ rw e1 (omega (arith, short), ids)
        | inr e2 ↦ elim (Bool-cases (leb max_videos i)) [
          | inl e3 ↦ rw (e2, e3) (omega arith, tt)
          | inr e4 ↦ rw (e2, e4) (ground (arith, short, e4), (e2, ids))
        ]
      ]

  -- What a call returned, if it did.
  abbrev Within : ℕ → Option (Result String (List String) × W) → Type 0
  Within n none = Unit {0}
  Within n (some (ok ids, w)) = Bounded n ids
  Within n (some (err e, w)) = Unit {0}

  length-append : (xs ys : List String) → length (xs ++ ys) ≡ length xs + length ys
  length-append [] ys = omega arith
  length-append (x ∷ xs) ys = omega (arith, length-append xs ys)

  prepend-Within :
      (m n : ℕ) (ids : List String) (r : Option (Result String (List String) × W))
      → Bounded m ids
      → Within n r
      → Within (n + m) (prepend env ids r)
  unfolding Bounded
  prepend-Within m n ids none b h = tt
  prepend-Within m n ids (some (err e, w)) b h = tt
  prepend-Within m n ids (some (ok more, w)) b h =
      (omega (arith, b.0, h.0, length-append ids more), All-append IsId ids more b.1 h.1)

  more_room :
      (m n : ℕ) (r : Option (Result String (List String) × W)) → Within n r → Within (n + m) r
  unfolding Bounded
  more_room m n none h = tt
  more_room m n (some (err e, w)) h = tt
  more_room m n (some (ok ids, w)) h = (omega (arith, h.0), h.1)

  after_tab-Within :
      (rest : Loop W (List String)) (m n : ℕ) (r : Option (Result String (List String) × W))
      → ((w : W) → Within n (rest w))
      → Within (n + m) (after_tab env rest m r)
  after_tab-Within rest m n none h = tt
  after_tab-Within rest m n (some (ok ids, w)) h =
      prepend-Within m n (take_ids env m 0 ids) (rest w)
        (subst (λ k. Bounded k (take_ids env m 0 ids)) (omega arith) (take_ids-Bounded m 0 ids))
        (h w)
  after_tab-Within rest m n (some (err e, w)) h =
      elim (Bool-cases
        (contains e "This channel does not have a" || contains e "Incomplete data received")) [
          | inl e1 ↦ rw e1 (more_room m n (rest w) (h w))
          | inr e2 ↦ rw e2 tt
        ]

  from_tabs-Within :
      (fuel : ℕ) (channel_name : String) (m : ℕ) (tabs : List String) (w : W)
      → Within (length tabs * m) (from_tabs env fuel channel_name m tabs w)
  unfolding from_tabs Bounded
  from_tabs-Within fuel channel_name m [] w = (omega arith, tt)
  from_tabs-Within fuel channel_name m (tab ∷ tabs) w =
      subst (λ n. Within n (from_tabs env fuel channel_name m (tab ∷ tabs) w)) (omega arith)
        (after_tab-Within (from_tabs env fuel channel_name m tabs) m (length tabs * m) _
          (from_tabs-Within fuel channel_name m tabs))

  -- GetPlaylistVideoIDs returns at most three times as many ids as it is asked for, and none of them
  -- is empty.
  pub get_playlist_video_ids-Bounded :
      (fuel : ℕ) (channel_name : String) (max_videos : ℕ) (w u : W) (ids : List String)
      → get_playlist_video_ids env fuel channel_name max_videos w ≡ some (ok ids, u)
      → Bounded (3 * max_videos) ids
  unfolding get_playlist_video_ids
  get_playlist_video_ids-Bounded fuel channel_name max_videos w u ids h =
      subst (Within (3 * max_videos)) h (from_tabs-Within fuel channel_name max_videos _ w)
