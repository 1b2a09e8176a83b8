-- ===== src/Sources/Download/Qualities.antt =====
-- Which qualities Download asks yt-dlp for.
use ytsync.Base.{
  All, false, ltb, ◌≡◌, str_eq, subst, sym, ℕ, zero, suc, ◌<◌, refl, String, Bool, true, ◌&&◌,
  Option, none, some, List, [], ◌∷◌, length, In, inl, inr, leb, Result, ok, err, Bool-cases, arith,
}
use ytsync.Manager.Termination.Effects.{Keeps}
use ytsync.Sources.Ytdlp.{DownloadResults, KnownError, CommandEnd}
use ytsync.Sources.Download.{
  unless_there, qualities, download, DownloadEnv, Outcome, classified, run_from, attempt_once,
  sized, after_attempt, attempts, then_,
}

-- All but the last.
abbrev pub but_last : List String → List String
but_last [] = []
but_last (q ∷ []) = []
but_last (q ∷ r ∷ rs) = q ∷ but_last (r ∷ rs)

module _ {W : Type 0} (env : DownloadEnv W) (I : W → Type 0) where
  -- `I` holds where the download has ended.
  abbrev pub Ends : Outcome W → Type 0
  Ends none = Unit {0}
  Ends (some (_, w)) = I w

  -- What a further round may assume.
  abbrev Next : (ℕ → List String → Bool → Option KnownError → W → Outcome W) → List String → Type 0
  Next next qs =
      (n : ℕ) (bot : Bool) (last : Option KnownError) (w : W) → I w → Ends (next n qs bot last w)

  sized-Ends : (r : Result String ℕ × W) → I r.1 → Ends (sized env r)
  sized-Ends (ok n, w) h = h
  sized-Ends (err e, w) h = h

  classified-kept :
      (ip : String) (r : Result String CommandEnd × W) → I r.1 → I (classified env ip r).1
  classified-kept ip (err e, w) h = h
  classified-kept ip (ok c, w) h = h

  module _ (address : Keeps I env.get_source_address)
      (release : (ip : String) (w : W) → I w → I (env.release_ip ip w))
      (throttle : (ip : String) (w : W) → I w → I (env.set_throttled ip w))
      (delete : (w : W) → I w → I (env.delete_video w)) (size : Keeps I env.video_size) where
    run_from-kept :
        (q : String) (bot : Bool) (r : Result String String × W)
        → ((ip : String) → Keeps I (env.run_command q bot ip))
        → I r.1
        → I (run_from env q bot r).1
    run_from-kept q bot (err e, w) run h = h
    run_from-kept q bot (ok ip, w) run h =
        let r = env.run_command q bot ip w in
        classified-kept ip (r.0, env.release_ip ip r.1) (release ip r.1 (run ip w h))

    after_attempt-Ends :
        (next : ℕ → List String → Bool → Option KnownError → W → Outcome W) (n : ℕ) (q : String)
        (qs : List String) (bot : Bool) (r : Result String (DownloadResults × String) × W)
        → Next next (q ∷ qs)
        → (1 < length qs → Next next qs)
        → I r.1
        → Ends (after_attempt env next n q qs bot r)
    unfolding after_attempt
    after_attempt-Ends next n q qs bot (err e, w) same lower h = delete w h
    after_attempt-Ends next n q qs bot (ok (r, ip), w) same lower h =
        elim (Bool-cases r.successful) [
          | inl e1 ↦ rw e1 (sized-Ends (env.video_size w) (size w h))
          | inr e2 ↦ elim (Bool-cases (r.could_retry && r.reduce_resolution)) [
            | inl e3 ↦ elim (Bool-cases (leb (length qs) 1)) [
              | inl e4 ↦ rw (e2, e3, e4) (delete w h)
              | inr e5 ↦
                  rw (e2, e3, e5)
                    (lower (ground (arith, e5)) n bot r.known_error (env.delete_video w)
                      (delete w h))
            ]
            | inr e6 ↦ elim (Bool-cases (r.could_retry && r.change_user_agent)) [
              | inl e7 ↦ rw (e2, e6, e7) (same n true r.known_error w h)
              | inr e8 ↦ elim (Bool-cases (r.could_retry && r.was_throttled)) [
                | inl e9 ↦
                    rw (e2, e6, e8, e9)
                      (same (suc n) bot r.known_error (env.set_throttled ip w) (throttle ip w h))
                | inr e0 ↦ rw (e2, e6, e8, e0) (delete w h)
              ]
            ]
          ]
        ]

    attempts-Ends :
        (f n : ℕ) (qs : List String) (bot : Bool) (last : Option KnownError) (w : W)
        → 1 < length qs
        → ((q : String) (bot : Bool) (ip : String)
            → In q (but_last qs)
            → Keeps I (env.run_command q bot ip))
        → I w
        → Ends (attempts env f n qs bot last w)
    unfolding attempts attempt_once
    attempts-Ends zero n qs bot last w two run h = tt
    attempts-Ends (suc f) zero qs bot last w two run h = h
    attempts-Ends (suc f) (suc n) [] bot last w two run h = h
    attempts-Ends (suc f) (suc n) (q ∷ []) bot last w two run h = absurd (omega (arith, two))
    attempts-Ends (suc f) (suc n) (q ∷ r ∷ rs) bot last w two run h =
        after_attempt-Ends (attempts env f) n q (r ∷ rs) bot
          (run_from env q bot (env.get_source_address w))
          (λ k b l u i. attempts-Ends f k (q ∷ r ∷ rs) b l u two run i)
          (λ more k b l u i. attempts-Ends f k (r ∷ rs) b l u more (λ p c a m. run p c a (inr m)) i)
          (run_from-kept q bot (env.get_source_address w) (λ ip. run q bot ip (inl refl))
            (address w h))

    then_-Ends :
        {A : Type 0} (r : Result String A × W) (next : A → W → Outcome W)
        → I r.1
        → ((a : A) (w : W) → I w → Ends (next a w))
        → Ends (then_ env r next)
    then_-Ends (ok a, w) next h k = k a w h
    then_-Ends (err e, w) next h k = h

Lower : String → Type 0
Lower q = str_eq q "360" ≡ false

All-at : (P : String → Type 0) (qs : List String) (q : String) → All P qs → In q qs → P q
All-at P [] q h m = absurd m
All-at P (x ∷ qs) q h (inl e) = subst P (sym e) h.0
All-at P (x ∷ qs) q h (inr m) = All-at P qs q h.1 m

but_last-Lower : (seconds : ℕ) → All Lower (but_last (qualities seconds))
unfolding qualities Lower
but_last-Lower seconds = elim (Bool-cases (ltb 3600 seconds)) [
  | inl e1 ↦ rw e1 (refl, (refl, tt))
  | inr e2 ↦ rw e2 (refl, (refl, (refl, tt)))
]

two_qualities : (seconds : ℕ) → 1 < length (qualities seconds)
unfolding qualities
two_qualities seconds = ground arith

module _ {W : Type 0} (env : DownloadEnv W) (I : W → Type 0) (meta : Keeps I env.check_metadata)
    (cookies : Keeps I env.check_cookies_integrity) (address : Keeps I env.get_source_address)
    (release : (ip : String) (w : W) → I w → I (env.release_ip ip w))
    (throttle : (ip : String) (w : W) → I w → I (env.set_throttled ip w))
    (delete : (w : W) → I w → I (env.delete_video w)) (size : Keeps I env.video_size)
    (run : (q : String) (bot : Bool) (ip : String)
      → str_eq q "360" ≡ false
      → Keeps I (env.run_command q bot ip)) where
  unless_there-Ends :
      (fuel seconds : ℕ) (there : Bool) (w : W)
      → I w
      → Ends env I (unless_there env fuel seconds there w)
  unfolding Lower
  unless_there-Ends fuel seconds true w i = i
  unless_there-Ends fuel seconds false w i =
      then_-Ends env I address release throttle delete size (env.check_metadata w) _ (meta w i)
        λ _ u j.
          then_-Ends env I address release throttle delete size (env.check_cookies_integrity u) _
            (cookies u j)
            λ _ v k.
              attempts-Ends env I address release throttle delete size fuel
                (length (qualities seconds)) (qualities seconds) false none v
                (two_qualities seconds)
                (λ q bot ip m. run q bot ip (All-at Lower _ q (but_last-Lower seconds) m)) k

-- Download never asks for the lowest of its qualities, 360: what every service keeps, and yt-dlp
-- keeps at every other quality, holds at the end, whatever yt-dlp would do at that one.
pub download_lowest :
    {W : Type 0} (env : DownloadEnv W) (I : W → Type 0) (fuel seconds : ℕ) (w : W)
    → Keeps I env.make_video_dir
    → Keeps I env.video_exists
    → Keeps I env.check_metadata
    → Keeps I env.check_cookies_integrity
    → Keeps I env.get_source_address
    → ((ip : String) (w : W) → I w → I (env.release_ip ip w))
    → ((ip : String) (w : W) → I w → I (env.set_throttled ip w))
    → ((w : W) → I w → I (env.delete_video w))
    → Keeps I env.video_size
    → ((q : String) (bot : Bool) (ip : String)
        → str_eq q "360" ≡ false
        → Keeps I (env.run_command q bot ip))
    → I w
    → Ends env I (download env fuel seconds w)
unfolding download Lower
download_lowest env I fuel seconds w dir exists meta cookies address release throttle delete size
      run h =
    then_-Ends env I address release throttle delete size (env.make_video_dir w) _ (dir w h)
      λ _ u i.
        then_-Ends env I address release throttle delete size (env.video_exists u)
          (unless_there env fuel seconds) (exists u i)
          λ there v j.
            unless_there-Ends env I meta cookies address release throttle delete size run fuel
              seconds there v j
