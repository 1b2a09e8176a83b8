-- ===== src/Shared/Status.antt =====
-- shared/shared.go: the statuses of channels and videos, and the states of a transfer.
use ytsync.Base.{ℕ, String}

abbrev pub pending : String
pending = "pending"

abbrev pub pending_email : String
pending_email = "pendingemail"

abbrev pub queued : String
queued = "queued"

abbrev pub pending_upgrade : String
pending_upgrade = "pendingupgrade"

abbrev pub syncing : String
syncing = "syncing"

abbrev pub synced : String
synced = "synced"

abbrev pub wipe_db : String
wipe_db = "pendingdbwipe"

abbrev pub failed : String
failed = "failed"

abbrev pub finalized : String
finalized = "finalized"

abbrev pub abandoned : String
abandoned = "abandoned"

abbrev pub age_restricted : String
age_restricted = "agerestricted"

abbrev pub video_published : String
video_published = "published"

abbrev pub video_failed : String
video_failed = "failed"

abbrev pub video_upgrade_failed : String
video_upgrade_failed = "upgradefailed"

abbrev pub video_unpublished : String
video_unpublished = "unpublished"

abbrev pub video_transfer_failed : String
video_transfer_failed = "transferfailed"

abbrev pub transfer_not_touched : ℕ
transfer_not_touched = 0

abbrev pub transfer_pending : ℕ
transfer_pending = 1

abbrev pub transfer_complete : ℕ
transfer_complete = 2

abbrev pub transfer_manual : ℕ
transfer_manual = 3

abbrev pub latest_metadata_version : ℕ
latest_metadata_version = 2
