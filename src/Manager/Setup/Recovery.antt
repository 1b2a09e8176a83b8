-- ===== src/Manager/Setup/Recovery.antt =====
-- What ensureChannelOwnership does when ChannelCreate or ChannelUpdate fails.
use ytsync.Base.{
  ◌∙◌, ◌≡◌, refl, String, true, Option, none, some, List, [], ◌∷◌, Result, ok, err, leb, arith,
  resume,
}
use ytsync.Shared.Status
use ytsync.Manager.State.{Sync, on_world}
use ytsync.Manager.Setup.{
  SetupEnv, ListedChannel, ClaimCreateOptions, channel_claim_amount, nil_dereference, or_missing,
}
use ytsync.Manager.Setup.Ownership.{
  create_channel, update_channel, recovered, finish, only_channel,
  get_channel_claim_id_for_timed_out_creation,
}

module _ {W : Type 0} (env : SetupEnv W) where
  -- A failure that leaves the record of the channel as it was.
  Failed : Sync W → Result String (Unit {0}) × Sync W → Type 0
  Failed s r = (m : String) × (r.0 ≡ err m) × (r.1.db_channel_data ≡ s.db_channel_data)

  only_channel-unchanged :
      (channels : List ListedChannel) (s : Sync W)
      → (only_channel env channels s).1.db_channel_data ≡ s.db_channel_data
  only_channel-unchanged [] s = refl
  only_channel-unchanged (c ∷ []) s = ground arith
  only_channel-unchanged (c ∷ d ∷ cs) s = refl

  listed-unchanged :
      (r : Result String (Option (List ListedChannel)) × Sync W) (s : Sync W)
      → r.1.db_channel_data ≡ s.db_channel_data
      → (resume
          (λ answer. λ t. resume (only_channel env) (or_missing "no channel response" answer t))
          r).1.db_channel_data
        ≡ s.db_channel_data
  listed-unchanged (err e, t) s h = h
  listed-unchanged (ok none, t) s h = h
  listed-unchanged (ok (some channels), t) s h = only_channel-unchanged channels t ∙ h

  recovered-Failed :
      (e : String) (r : Result String String × Sync W) (s : Sync W)
      → r.1.db_channel_data ≡ s.db_channel_data
      → Failed s (finish env (recovered env e r))
  unfolding Failed
  recovered-Failed e (ok id, t) s h = (e, refl, h)
  recovered-Failed e (err e2, t) s h = (env.prefix_error e2 e, refl, h)

  -- When ChannelCreate fails, the channel stays without a claim: an error is returned, also where the
  -- claim was found in the wallet afterwards, and the record of the channel is as before.
  pub create_channel_error :
      (options : ClaimCreateOptions) (s t : Sync W) (e : String)
      → on_world
          (env.channel_create s.db_channel_data.desired_channel_name channel_claim_amount options)
          s
        ≡ (err e, t)
      → (m : String) × ((create_channel env options s).0 ≡ err m)
        × ((create_channel env options s).1.db_channel_data ≡ t.db_channel_data)
  unfolding create_channel Failed get_channel_claim_id_for_timed_out_creation
  create_channel_error options s t e h = rw h (
      recovered-Failed e (get_channel_claim_id_for_timed_out_creation env t) t
        (listed-unchanged (on_world env.channel_list t) t refl))

  -- When ChannelUpdate fails, for a channel that is not transferred yet, the missing response is
  -- dereferenced.
  pub update_channel_error :
      (options : ClaimCreateOptions) (account : String) (s t : Sync W) (e : String)
      → leb s.db_channel_data.transfer_state Status.transfer_pending ≡ true
      → on_world (env.channel_update s.db_channel_data.channel_claim_id account options) s
        ≡ (err e, t)
      → update_channel env options account s ≡ (err nil_dereference, t)
  unfolding update_channel
  update_channel_error options account s t e pending h = rw (pending, h) refl
