-- ===== src/Manager/Examples/Claims.antt =====
-- Two claims for one video, and the entries of the database beside them.
use ytsync.Base.{
  Dict, eq_iff, str_eq, ℕ, ◌≡◌, refl, sym, subst, ap, String, true, false, some, inl, inr, [], ◌∷◌,
  In, All, ok, arith,
}
use ytsync.Manager.State.{Sync, SyncedVideo}
use ytsync.Manager.Termination.Effects.{Keeps}
use ytsync.Manager.Integrity.{YtsyncClaim, Claim, IntegrityEnv, fix_dupes}
use ytsync.Manager.Integrity.Dupes.{Outdone, fix_dupes_latest}
use ytsync.Manager.Integrity.Remote.{search_transferred, forget, ytsync_claim}
use ytsync.Manager.Integrity.Consistent.{Removes, forget-Removes}
use ytsync.Manager.Examples.{Log, said, start, accounts}
use ytsync.Manager.Examples.Cycle.{good}

abbrev pub claim : String → ℕ → Claim
claim id height = record {
  claim_id = id;
  name = "first";
  kind = "claim";
  is_stream = true;
  thumbnail = some "https://thumbnails.lbry.com/v1";
  signing_channel = some "ch1";
  height = height;
  address = "bOther";
  txid = "tx";
  nout = 0;
  stream_size = some (ok 100);
}

abbrev pub integrity : IntegrityEnv Log
integrity = record {
  cycle = good;
  accounts = accounts;
  stream_list = λ account log. (ok [], "stream_list" ∷ log);
  stream_abandon = λ c. said c.claim_id;
  claim_search = λ id log. (ok [], "claim_search" ∷ log);
  mark_video_status = λ status. said "mark_video_status";
  delete_videos = λ ids. said "delete_videos";
  wait_for_new_block = said "wait_for_new_block";
}

abbrev older : Claim
older = claim "old" 5

abbrev pub newer : Claim
newer = claim "new" 9

abbrev KeepsNewer : Log → Type 0
KeepsNewer log = All (λ call. str_eq call "new" ≡ false) log

older-only :
    (c d : Claim)
    → In c (older ∷ newer ∷ [])
    → In d (older ∷ newer ∷ [])
    → Outdone c d
    → Keeps KeepsNewer (integrity.stream_abandon c)
unfolding Outdone
older-only c d (inl e) n out =
    subst (λ x. Keeps KeepsNewer (integrity.stream_abandon x)) (sym e) (λ log h. (refl, h))
older-only c d (inr (inl e)) (inl f) out =
    absurd (omega (arith, out.2, ap (λ x. x.height) e, ap (λ x. x.height) f))
older-only c d (inr (inl e)) (inr (inl f)) out = absurd (
    ground
      (arith, out.1, eq_iff d.claim_id c.claim_id, ap (λ x. x.claim_id) e, ap (λ x. x.claim_id) f))
older-only c d (inr (inl e)) (inr (inr f)) out = absurd f
older-only c d (inr (inr e)) n out = absurd e

fix_dupes_latest_example : KeepsNewer (fix_dupes integrity (older ∷ newer ∷ []) start).1.world
fix_dupes_latest_example =
    fix_dupes_latest integrity KeepsNewer (older ∷ newer ∷ []) start older-only tt

abbrev pub entry : SyncedVideo
entry = record {
  video_id = "v1";
  published = true;
  failure_reason = "";
  claim_name = "first";
  claim_id = "new";
  size = 100;
  metadata_version = 2;
  transferred = false;
}

abbrev known : Sync Log
known = record start { synced_videos = ("v1", entry) ∷ ("v2", entry) ∷ [] }

abbrev own_claims : Dict YtsyncClaim
own_claims = ("v1", ytsync_claim newer) ∷ []

forget-Removes_example :
    Removes integrity own_claims known.synced_videos
      (search_transferred integrity own_claims known.synced_videos known)
      (forget integrity own_claims own_claims known)
forget-Removes_example = forget-Removes integrity own_claims own_claims known
