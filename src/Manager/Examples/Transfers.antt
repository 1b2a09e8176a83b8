-- ===== src/Manager/Examples/Transfers.antt =====
-- A channel of two videos; the stream of one of them is in the wallet.
use ytsync.Base.{In, ◌↔◌, String, ◌≡◌, refl, none, inl, [], ◌∷◌, ok, err}
use ytsync.Manager.State.{Sync, SyncedVideo, on_world}
use ytsync.Manager.Accounts.{get_default_account}
use ytsync.Manager.Transfer.{TransferEnv, queue_updates, has_stream, stream_update, transfer_videos}
use ytsync.Manager.Transfer.Queue.{transfer_videos_unclean}
use ytsync.Manager.Workers.Exclusive.{Different}
use ytsync.Manager.Transfer.Abandon.{distinct}
use ytsync.Manager.Transfer.Abandon.Distinct.{distinct-Different}
use ytsync.Manager.Examples.{Log, said, start, accounts}
use ytsync.Manager.Examples.Claims.{entry, newer}

abbrev lost : SyncedVideo
lost = record entry { video_id = "v2"; claim_id = "gone" }

abbrev transfers : TransferEnv Log
transfers = record {
  accounts = accounts;
  prefix_error = λ before e. e;
  failed_before = λ amount. "abandoned before failing";
  failed_tip = λ amount. "something went wrong while tipping";
  utxo_list = λ account log. (ok [], "utxo_list" ∷ log);
  stream_list = λ account log. (ok (newer ∷ []), "stream_list" ∷ log);
  stream_update = λ id address account log. (err "no funds", "stream_update" ∷ log);
  channel_list = λ account log. (ok [], "channel_list" ∷ log);
  channel_update = λ id address log. (ok 1, "channel_update" ∷ log);
  support_create = λ id amount account log. (ok 1, "support_create" ∷ log);
  txo_spend = λ account. said "txo_spend";
  wait_for_new_block = said "wait_for_new_block";
  mark_video_status = λ status. said "mark_video_status";
  abandon_supports = λ log. ((0, none), log);
}

abbrev owned : Sync Log
owned = record start { synced_videos = ("v1", entry) ∷ [] }

transfer_videos_unclean_example :
    (transfer_videos transfers owned).0
    ≡ err "A video has failed to transfer for the channel...skipping channel transfer"
unfolding get_default_account queue_updates has_stream stream_update
transfer_videos_unclean_example =
    transfer_videos_unclean transfers owned (get_default_account accounts owned).1
      (on_world (transfers.stream_list "acc1") (get_default_account accounts owned).1).1 "acc1"
      (newer ∷ []) entry refl refl (inl refl) (λ x. refl)

distinct-Different_example :
    Different (distinct ("c1" ∷ "c2" ∷ "c1" ∷ []))
    × ((a : String) → In a (distinct ("c1" ∷ "c2" ∷ "c1" ∷ [])) ↔ In a ("c1" ∷ "c2" ∷ "c1" ∷ []))
distinct-Different_example = distinct-Different ("c1" ∷ "c2" ∷ "c1" ∷ [])
