-- ===== src/Ytapi/Information/Listed.antt =====
-- What becomes of each video that getVideos is asked for.
use ytsync.Base.{
  ltb, ltb→lt, if◌then◌else◌, ◌≡◌, refl, sym, ap, subst, ◌∙◌, String, Bool, true, false, byte_len,
  List, [], ◌∷◌, ◌<◌, str_eq, eq_iff, Result, ok, err, return, resume-ok, Bool-cases, inl, inr,
  arith,
}
use ytsync.Ytapi.Information.{InformationEnv, informed, with_state, get_videos}

taken : {B : Type 0} (b : Bool) (x y r : B) → b ≡ true → (if b then x else y) ≡ r → x ≡ r
taken true x y r e h = h
taken false x y r e h = absurd (ground (arith, e))

skipped : {B : Type 0} (b : Bool) (x y r : B) → b ≡ false → (if b then x else y) ≡ r → y ≡ r
skipped true x y r e h = absurd (ground (arith, e))
skipped false x y r e h = h

module _ {W A : Type 0} (env : InformationEnv W A) (channel : String) where
  -- Each id is too short, known as published, marked as failed, or the next of the videos.
  pub data Listed : List String → List A → Type 0 where
    all_done : Listed [] []
    short :
        (id : String) (ids : List String) (vs : List A)
        → byte_len id < 5
        → Listed ids vs
        → Listed (id ∷ ids) vs
    published :
        (id : String) (ids : List String) (vs : List A) (w : W)
        → (env.video_state id w).0 ≡ ok "published"
        → Listed ids vs
        → Listed (id ∷ ids) vs
    marked :
        (id : String) (ids : List String) (vs : List A) (e : String) (w : W)
        → (env.get_video_information id w).0 ≡ err e
        → (env.mark_failed channel id e (env.get_video_information id w).1).0 ≡ ok tt
        → Listed ids vs
        → Listed (id ∷ ids) vs
    found :
        (id : String) (ids : List String) (v : A) (vs : List A) (w : W)
        → (env.get_video_information id w).0 ≡ ok v
        → Listed ids vs
        → Listed (id ∷ ids) (v ∷ vs)

  abbrev list_of : Result String (List A) → List A
  list_of (ok vs) = vs
  list_of (err e) = []

  -- What is known of the rest of the loop.
  abbrev Rest : List String → Type 0
  Rest ids = (vs : List A) (w u : W) → get_videos env channel ids w ≡ (ok vs, u) → Listed ids vs

  informed-Listed :
      (id : String) (ids : List String) (w : W) (r : Result String A × W) (vs : List A) (u : W)
      → env.get_video_information id w ≡ r
      → informed env (get_videos env channel ids) channel id r ≡ (ok vs, u)
      → Rest ids
      → Listed (id ∷ ids) vs
  informed-Listed id ids w (ok v, x) vs u e h rest =
      let (more, y, h1, h2) =
        resume-ok (λ ws. return (v ∷ ws)) (get_videos env channel ids x) vs u h in
      subst (Listed (id ∷ ids)) (ap (λ q. list_of q.0) h2)
        (found id ids v more w (ap (λ q. q.0) e) (rest more x y h1))
  informed-Listed id ids w (err m, x) vs u e h rest =
      let (a, y, h1, h2) =
        resume-ok (λ _. get_videos env channel ids) (env.mark_failed channel id m x) vs u h in
      marked id ids vs m w (ap (λ q. q.0) e)
        (subst (λ z. (env.mark_failed channel id m z).0 ≡ ok tt) (sym (ap (λ q. q.1) e))
          (ap (λ q. q.0) h1))
        (rest vs y u h2)

  with_state-Listed :
      (id : String) (ids : List String) (w : W) (r : Result String String × W) (vs : List A) (u : W)
      → env.video_state id w ≡ r
      → with_state env (get_videos env channel ids) channel id r ≡ (ok vs, u)
      → Rest ids
      → Listed (id ∷ ids) vs
  with_state-Listed id ids w (err m, x) vs u e h rest = absurd (ground (arith, h))
  with_state-Listed id ids w (ok state, x) vs u e h rest =
      elim (Bool-cases (str_eq state "published")) [
        | inl same ↦
            let known : state ≡ "published" = (eq_iff state "published").0 same in
            published id ids vs w (ap (λ q. q.0) e ∙ ap ok known)
              (rest vs x u (taken (str_eq state "published") _ _ _ same h))
        | inr other ↦
            informed-Listed id ids x (env.get_video_information id x) vs u refl
              (skipped (str_eq state "published") _ _ _ other h) rest
      ]

  -- When getVideos succeeds, each id that it was asked for, in order, is too short for a video, or is
  -- known to the server as published, or could not be looked up and was marked as failed, or has its
  -- information in the result, which holds nothing else.
  pub get_videos-Listed :
      (ids : List String) (vs : List A) (w u : W)
      → get_videos env channel ids w ≡ (ok vs, u)
      → Listed ids vs
  unfolding get_videos
  get_videos-Listed [] vs w u h = subst (Listed []) (ap (λ q. list_of q.0) h) all_done
  get_videos-Listed (id ∷ ids) vs w u h = elim (Bool-cases (ltb (byte_len id) 5)) [
    | inl few ↦
        short id ids vs (ltb→lt (byte_len id) 5 few)
          (get_videos-Listed ids vs w u (taken (ltb (byte_len id) 5) _ _ _ few h))
    | inr many ↦
        let h1 = skipped (ltb (byte_len id) 5) _ _ _ many h in
        elim (Bool-cases (env.stop_closed w)) [
          | inl stopped ↦ absurd (ground (arith, taken (env.stop_closed w) _ _ _ stopped h1))
          | inr running ↦
              with_state-Listed id ids w (env.video_state id w) vs u refl
                (skipped (env.stop_closed w) _ _ _ running h1)
                (λ ws x y k. get_videos-Listed ids ws x y k)
        ]
  ]
