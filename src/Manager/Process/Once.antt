-- ===== src/Manager/Process/Once.antt =====
-- What processVideo leaves in the map of synced videos, and what a second call does.
use ytsync.Base.{
  ℕ, ◌≡◌, refl, sym, subst, ◌∙◌, ap, String, true, false, Option, none, some, ◌⊎◌, inl, inr, lookup,
  lookup-insert, has_key, has_key-insert, str_eq_refl, Result, ok, err, Bool-cases, arith, resume,
}
use ytsync.Manager.State.{SyncedVideo, Sync, append_synced_video, on_world}
use ytsync.Manager.Accounts.{get_default_account, get_default_account_synced_videos}
use ytsync.Manager.Worker.{Video}
use ytsync.Manager.Process.{
  ProcessEnv, SyncSummary, process_video, skips, sync_and_record, after_sync, record_published,
  set_size, new_metadata_version,
}

module _ {W : Type 0} (env : ProcessEnv W) where
  -- The entry of a video that was published.
  abbrev pub entry : Video → SyncSummary → ℕ → SyncedVideo
  entry v summary size = record {
    video_id = v.id;
    published = true;
    failure_reason = "";
    claim_name = summary.claim_name;
    claim_id = summary.claim_id;
    size = size;
    metadata_version = new_metadata_version;
    transferred = false;
  }

  -- Whether a call that started with `s` and returned `r` recorded what it should.
  unfoldable pub Recorded : Video → Sync W → Result String (Unit {0}) × Sync W → Type 0
  Recorded v s (ok _, t) =
      (summary : SyncSummary) × (size : ℕ) × (lookup v.id t.synced_videos
        ≡ some (entry v summary size))
      × (has_key v.id t.synced_videos ≡ true)
  Recorded v s (err _, t) = t.synced_videos ≡ s.synced_videos

  after_sync-Recorded :
      (v : Video) (result : Result String SyncSummary) (size : Option ℕ) (s : Sync W)
      → Recorded v s (after_sync env v result size s)
  unfolding Recorded record_published append_synced_video
  after_sync-Recorded v (err e) size s = refl
  after_sync-Recorded v (ok summary) none s = refl
  after_sync-Recorded v (ok summary) (some size) s = (
    summary,
    size,
    lookup-insert v.id v.id _ s.synced_videos ∙ ground (arith, str_eq_refl v.id),
    has_key-insert v.id v.id _ s.synced_videos ∙ ground (arith, str_eq_refl v.id),
  )

  Recorded-from :
      (v : Video) (s u : Sync W) (r : Result String (Unit {0}) × Sync W)
      → u.synced_videos ≡ s.synced_videos
      → Recorded v u r
      → Recorded v s r
  unfolding Recorded
  Recorded-from v s u (ok _, t) e h = h
  Recorded-from v s u (err _, t) e h = h ∙ e

  set_size_synced_videos :
      (v : Video) (size : Option ℕ) (s : Sync W)
      → (set_size env v size s).synced_videos ≡ s.synced_videos
  set_size_synced_videos v none s = refl
  set_size_synced_videos v (some n) s = refl

  sync_and_record-Recorded :
      (v : Video) (account : String) (s : Sync W) → Recorded v s (sync_and_record env v account s)
  unfolding sync_and_record
  sync_and_record-Recorded v account s =
      Recorded-from v s _ _ (set_size_synced_videos v _ _) (after_sync-Recorded v _ _ _)

  resume-Recorded :
      {A : Type 0} (v : Video) (s : Sync W) (next : A → Sync W → Result String (Unit {0}) × Sync W)
      (r : Result String A × Sync W)
      → r.1.synced_videos ≡ s.synced_videos
      → ((a : A) (u : Sync W) → Recorded v u (next a u))
      → Recorded v s (resume next r)
  unfolding Recorded
  resume-Recorded v s next (ok a, u) e h = Recorded-from v s u (next a u) e (h a u)
  resume-Recorded v s next (err m, u) e h = e

  -- processVideo either skips a video, and then changes nothing; or it succeeds, and then the
  -- entry of the video is that of a published one at metadata version 2; or it returns an error, and
  -- then the entries are as before.
  pub process_video-Recorded :
      (v : Video) (s : Sync W)
      → ((skips env v s ≡ true) × (process_video env v s ≡ (ok tt, s)))
        ⊎ ((skips env v s ≡ false) × Recorded v s (process_video env v s))
  unfolding process_video
  process_video-Recorded v s = elim (Bool-cases (skips env v s)) [
    | inl e ↦ inl (e, rw e refl)
    | inr e ↦ inr (
      e,
      rw e (
          resume-Recorded v s
            (λ _. λ u. resume (sync_and_record env v) (get_default_account env.accounts u))
            (on_world env.check_used_space s) refl
            λ checked u.
              resume-Recorded v u (sync_and_record env v) (get_default_account env.accounts u)
                (get_default_account_synced_videos env.accounts u) (sync_and_record-Recorded v)),
    )
  ]

  published-skips :
      (v : Video) (s : Sync W) (summary : SyncSummary) (size : ℕ)
      → lookup v.id s.synced_videos ≡ some (entry v summary size)
      → has_key v.id s.synced_videos ≡ true
      → skips env v s ≡ true
  unfolding skips
  published-skips v s summary size e k = rw (k, e) (ground arith)

  skipped-unchanged :
      (v : Video) (s : Sync W) → skips env v s ≡ true → process_video env v s ≡ (ok tt, s)
  unfolding process_video
  skipped-unchanged v s e = rw e refl

  -- A video is processed once: a second call after a successful one, in the state that the first one
  -- left, changes nothing and calls no service.
  pub process_video_once :
      (v : Video) (s t : Sync W)
      → process_video env v s ≡ (ok tt, t)
      → process_video env v t ≡ (ok tt, t)
  unfolding Recorded
  process_video_once v s t h = elim (process_video-Recorded v s) [
    | inl (_, same) ↦
        subst (λ u. process_video env v u ≡ (ok tt, u)) (ap (λ r. r.1) (sym same ∙ h)) (same)
    | inr (_, recorded) ↦
        (let e = subst (Recorded v s) h recorded in
          skipped-unchanged v t (published-skips v t e.0 e.1 e.2 e.3))
  ]
