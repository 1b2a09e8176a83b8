-- ===== src/Sources.antt =====
-- publishAndRetryExistingNames of sources/shared.go: the names of the namer are tried until the
-- daemon takes one. The daemon's StreamCreate is an argument, which answers with the claim's id.
pub mod Publish
pub mod Ytdlp
pub mod Download
pub mod Loops
pub mod Video
pub mod Path
pub mod Sync
pub mod Reprocess
mod Examples
use ytsync.Base.{
  ℕ, zero, suc, String, Option, none, some, Char, contains, if◌then◌else◌, Result, ok, err,
}
use ytsync.Namer.{Names, get_next_name}
use ytsync.Manager.Process.{SyncSummary}

module _ {W : Type 0} (create : String → W → Result String String × W) where
  unfoldable pub after_create :
      (Names → W → Option (Result String SyncSummary × Names × W))
      → String
      → Names
      → Result String String × W
      → Option (Result String SyncSummary × Names × W)
  unfolding contains
  after_create again name names (ok id, w) =
      some (ok (record { claim_id = id; claim_name = name }), names, w)
  after_create again name names (err e, w) =
      if contains e "failed: Multiple claims (" then again names w else some (err e, names, w)

  -- One round of the loop.
  unfoldable pub with_name :
      (Names → W → Option (Result String SyncSummary × Names × W))
      → W
      → Option (String × Names)
      → Option (Result String SyncSummary × Names × W)
  unfolding after_create
  with_name again w none = none
  with_name again w (some (name, names)) = after_create again name names (create name w)

  -- The loop, on fuel; `none`: still trying.
  unfoldable pub publish_and_retry_existing_names :
      (Char → Char)
      → (String → String)
      → ℕ
      → String
      → Names
      → W
      → Option (Result String SyncSummary × Names × W)
  unfolding with_name
  publish_and_retry_existing_names lower md5_hex zero title names w = none
  publish_and_retry_existing_names lower md5_hex (suc fuel) title names w =
      with_name (publish_and_retry_existing_names lower md5_hex fuel title) w
        (get_next_name lower md5_hex title names)
