-- ===== src/Sdk/Api/Synced.antt =====
-- What SetChannelStatus returns of the server's list of videos.
use ytsync.Base.{
  ◌⧺◌, true, false, zero, suc, ◌∙◌, suc, false, ℕ, subst, ◌≡◌, refl, String, Bool, not, ◌&&◌, ◌||◌,
  Option, none, some, List, [], ◌∷◌, any, Dict, lookup, has_key, lookup-insert, has_key-insert,
  insert, str_eq, Result, ok, err, Bool-cases, inl, inr, if◌then◌else◌, arith,
}
use ytsync.Namer.{Names}
use ytsync.Manager.State.{SyncedVideo}
use ytsync.Sdk.Api.{
  call, Values, is_server_error, sanitize_failure_reason, unless_error, Response, after_reply,
  read_videos, maps_of, Reply, set_channel_status, Loop, ApiEnv, synced_videos_of, claim_names_of,
}

-- The last video of a list with an id.
pub last_with : String → List SyncedVideo → Option SyncedVideo
last_with id [] = none
last_with id (v ∷ vs) = elim (last_with id vs) [
  | some x ↦ some x
  | none ↦ if str_eq v.video_id id then some v else none
]

abbrev pub is_claimed : String → SyncedVideo → Bool
is_claimed name v = not (str_eq v.claim_name "") && str_eq v.claim_name name

abbrev or_else : Option SyncedVideo → Option SyncedVideo → Option SyncedVideo
or_else (some x) o = some x
or_else none o = o

module _ {W : Type 0} (env : ApiEnv W) where
  lookup-synced_videos_of :
      (id : String) (vs : List SyncedVideo) (d : Dict SyncedVideo)
      → lookup id (synced_videos_of env vs d) ≡ or_else (last_with id vs) (lookup id d)
  unfolding synced_videos_of last_with
  lookup-synced_videos_of id [] d = refl
  lookup-synced_videos_of id (v ∷ vs) d =
      let ih = lookup-synced_videos_of id vs (insert v.video_id v d) in
      ground (arith, ih, lookup-insert v.video_id id v d)

  has_key-claim_names_of :
      (name : String) (vs : List SyncedVideo) (names : Names)
      → has_key name (claim_names_of env vs names)
        ≡ (any (is_claimed name) vs || has_key name names)
  unfolding claim_names_of
  has_key-claim_names_of name [] names = refl
  has_key-claim_names_of name (v ∷ vs) names = elim (Bool-cases (str_eq v.claim_name "")) [
    | inl e1 ↦ rw e1 (has_key-claim_names_of name vs names)
    | inr e2 ↦
        (let ih = has_key-claim_names_of name vs (insert v.claim_name v.published names) in
          ground (arith, ih, e2, has_key-insert v.claim_name name v.published names))
  ]

  -- The maps of a list.
  pub MapsOf : List SyncedVideo → Dict SyncedVideo → Names → Type 0
  MapsOf vs videos names =
      ((id : String) → lookup id videos ≡ last_with id vs)
      × ((name : String) → has_key name names ≡ any (is_claimed name) vs)

  -- A list that some answer of the server held.
  pub Answered : Dict SyncedVideo → Names → Type 0
  Answered videos names =
      (body : String) × (vs : List SyncedVideo) × (env.decode_videos body
        ≡ ok (record { error = none; content = some vs }))
      × MapsOf vs videos names

  Read : Result String (Dict SyncedVideo × Names) → Type 0
  Read (ok (videos, names)) = Answered videos names
  Read (err _) = Unit {0}

  or_else-none : (o : Option SyncedVideo) → or_else o none ≡ o
  or_else-none none = refl
  or_else-none (some x) = refl

  or_false : (b : Bool) → (b || false) ≡ b
  or_false true = refl
  or_false false = refl

  maps_of-Read :
      (r : Reply) (body : String) (c : Option (List SyncedVideo))
      → env.decode_videos body ≡ ok (record { error = none; content = c })
      → Read (maps_of env r c)
  unfolding Read Answered MapsOf has_key lookup
  maps_of-Read r body none h = tt
  maps_of-Read r body (some vs) h = (
    body,
    vs,
    h,
    (
      λ id. lookup-synced_videos_of id vs [] ∙ or_else-none (last_with id vs),
      λ name. has_key-claim_names_of name vs [] ∙ or_false (any (is_claimed name) vs),
    ),
  )

  document-Read :
      (r : Reply) (body : String) (e : Option String) (c : Option (List SyncedVideo))
      → env.decode_videos body ≡ ok (record { error = e; content = c })
      → Read (unless_error (ok (record { error = e; content = c })) (maps_of env r))
  unfolding Read
  document-Read r body (some e) c h = tt
  document-Read r body none c h = maps_of-Read r body c h

  decoded-Read :
      (r : Reply) (body : String) (d : Result String (Response (List SyncedVideo)))
      → env.decode_videos body ≡ d
      → Read (unless_error d (maps_of env r))
  unfolding Read
  decoded-Read r body (err e) h = tt
  decoded-Read r body (ok d) h = document-Read r body d.error d.content h

  read_videos-Read : (e : Option String) (r : Reply) → Read (read_videos env e r)
  unfolding Read
  read_videos-Read none r = decoded-Read r r.body (env.decode_videos r.body) refl
  read_videos-Read (some e) r = tt

  ReadAt : Option (Result String (Dict SyncedVideo × Names) × W) → Type 0
  ReadAt none = Unit {0}
  ReadAt (some (r, w)) = Read r

  after_reply-ReadAt :
      (again : Loop W (Dict SyncedVideo × Names)) (q : Result String Reply × W)
      → ((w : W) → ReadAt (again w))
      → ReadAt (after_reply env (is_server_error env) again (λ r. read_videos env r.body_error r) q)
  unfolding ReadAt
  after_reply-ReadAt again (err e, w) h = h (env.sleep w)
  after_reply-ReadAt again (ok r, w) h = elim (Bool-cases (is_server_error env r)) [
    | inl e1 ↦ rw e1 (h (env.sleep w))
    | inr e2 ↦ rw e2 (read_videos-Read r.body_error r)
  ]

  call-ReadAt :
      (values : Values) (again : Loop W (Dict SyncedVideo × Names)) (w : W)
      → ((w : W) → ReadAt (again w))
      → ReadAt (
          call env "/yt/channel_status" values
            (is_server_error env)
            (λ r. read_videos env r.body_error r)
            again
            w)
  call-ReadAt values again w h =
      after_reply-ReadAt again (env.post_form (env.api_url ⧺ "/yt/channel_status") values w) h

  set_channel_status-ReadAt :
      (n : ℕ) (id status reason : String) (state : Option ℕ) (w : W)
      → ReadAt (set_channel_status env n id status reason state w)
  unfolding set_channel_status ReadAt
  set_channel_status-ReadAt zero id status reason state w = tt
  set_channel_status-ReadAt (suc n) id status reason state w =
      call-ReadAt _ (set_channel_status env n id status (sanitize_failure_reason reason) state) w
        (set_channel_status-ReadAt n id status (sanitize_failure_reason reason) state)

  -- The maps that SetChannelStatus returns are those of a list of videos in an answer of the server:
  -- the video of an id is the last one of the list with this id, and the names are those of the
  -- videos that have one.
  pub set_channel_status-Answered :
      (n : ℕ) (id status reason : String) (state : Option ℕ) (w u : W) (videos : Dict SyncedVideo)
      (names : Names)
      → set_channel_status env n id status reason state w ≡ some (ok (videos, names), u)
      → Answered videos names
  unfolding ReadAt Read
  set_channel_status-Answered n id status reason state w u videos names h =
      subst ReadAt h (set_channel_status-ReadAt n id status reason state w)
