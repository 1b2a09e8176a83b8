-- ===== src/Manager/Transfer/Queue.antt =====
-- Which videos transferVideos takes, and what a failure of one of them means for the channel.
use ytsync.Base.{
  ◌≡◌, refl, sym, subst, ap, String, Bool, true, false, not, ◌&&◌, List, [], ◌∷◌, ◌++◌, Dict, In,
  All, inl, inr, ok, err, if◌then◌else◌, Bool-cases, arith,
}
use ytsync.Manager.State.{SyncedVideo, Sync, on_world}
use ytsync.Manager.Accounts.{get_default_account}
use ytsync.Manager.Integrity.{Claim}
use ytsync.Manager.Transfer.{
  TransferEnv, is_eligible, has_stream, queue_updates, stream_update, update_all, transfer_videos,
  is_none, check_clean,
}

abbrev pub eligible : Dict SyncedVideo → List SyncedVideo
eligible [] = []
eligible ((_, v) ∷ rest) = if is_eligible v then v ∷ eligible rest else eligible rest

-- When the stream of every eligible video is in the list, all eligible videos are queued.
queue_updates-eligible :
    (channel : String) (streams : List Claim) (videos : Dict SyncedVideo)
    → All (λ entry. is_eligible entry.1 ≡ true → has_stream channel streams entry.1 ≡ true) videos
    → queue_updates channel streams videos ≡ eligible videos
unfolding queue_updates
queue_updates-eligible channel streams [] h = refl
queue_updates-eligible channel streams ((id, v) ∷ rest) h =
    let ih = queue_updates-eligible channel streams rest h.1 in
    elim (Bool-cases (is_eligible v)) [
      | inl e1 ↦ rw (e1, h.0 e1) (ap (λ vs. v ∷ vs) ih)
      | inr e2 ↦ rw e2 ih
    ]

-- A video whose stream is missing ends the queue: none of the videos after it is transferred,
-- whatever they are.
pub queue_updates_missing :
    (channel : String) (streams : List Claim) (before after : Dict SyncedVideo) (id : String)
    (v : SyncedVideo)
    → is_eligible v ≡ true
    → has_stream channel streams v ≡ false
    → queue_updates channel streams (before ++ (id, v) ∷ after)
      ≡ queue_updates channel streams before
unfolding queue_updates
queue_updates_missing channel streams [] after id v e h = rw (e, h) refl
queue_updates_missing channel streams ((key, x) ∷ before) after id v e h =
    let ih = queue_updates_missing channel streams before after id v e h in
    ap
      (λ others.
        if not (is_eligible x)
        then others
        else if has_stream channel streams x
        then x ∷ others
        else [])
      ih

module _ {W : Type 0} (env : TransferEnv W) where
  update_all-false :
      (account : String) (vs : List SyncedVideo) (s : Sync W)
      → (update_all env account vs false s).0 ≡ false
  unfolding update_all
  update_all-false account [] s = refl
  update_all-false account (v ∷ vs) s = update_all-false account vs _

  update_all_failed :
      (account : String) (vs : List SyncedVideo) (clean : Bool) (s : Sync W) (v : SyncedVideo)
      → In v vs
      → ((t : Sync W) → is_none env (stream_update env account v t).0 ≡ false)
      → (update_all env account vs clean s).0 ≡ false
  unfolding update_all
  update_all_failed account [] clean s v m h = absurd m
  update_all_failed account (x ∷ vs) clean s v (inl e) h =
      let k = subst (λ y. is_none env (stream_update env account y s).0 ≡ false) e (h s) in
      let both : (clean && is_none env (stream_update env account x s).0) ≡ false =
        ground (arith, k) in
      subst (λ b. (update_all env account vs b (stream_update env account x s).1).0 ≡ false)
        (sym both) (update_all-false account vs _)
  update_all_failed account (x ∷ vs) clean s v (inr m) h = update_all_failed account vs _ _ v m h

  check_clean-err :
      (r : Bool × Sync W)
      → r.0 ≡ false
      → (check_clean env r).0
        ≡ err "A video has failed to transfer for the channel...skipping channel transfer"
  check_clean-err (true, s) h = absurd (ground arith)
  check_clean-err (false, s) h = refl

  -- If the update of one queued video fails whenever it is made, transferVideos returns an error,
  -- whatever happens to the other videos.
  pub transfer_videos_unclean :
      (s t u : Sync W) (account : String) (streams : List Claim) (v : SyncedVideo)
      → get_default_account env.accounts s ≡ (ok account, t)
      → on_world (env.stream_list account) t ≡ (ok streams, u)
      → In v (queue_updates u.db_channel_data.channel_claim_id streams u.synced_videos)
      → ((x : Sync W) → is_none env (stream_update env account v x).0 ≡ false)
      → (transfer_videos env s).0
        ≡ err "A video has failed to transfer for the channel...skipping channel transfer"
  unfolding transfer_videos
  transfer_videos_unclean s t u account streams v chosen listed queued fails =
      rw (chosen, listed) (check_clean-err _ (update_all_failed account _ true u v queued fails))
