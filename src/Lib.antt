-- ===== src/Lib.antt =====
-- ytsync mirrors YouTube channels on the LBRY blockchain: it fetches the jobs of a server, downloads
-- the videos of a channel with yt-dlp through a pool of source addresses, publishes them through the
-- lbrynet daemon under unique claim names, and reports each result to the internal APIs.
--
-- How the parts correspond to the code:
-- - IpPool: ip_manager/throttle.go. IpPool is the state, next_ip, get_ip, release_ip, release_all,
--   set_throttled, unban and update_ips are its methods and its timers' ends. The children say what
--   is proved: Selection, Holding, Distinct, Exclusive, Timers, Update; Sorting is the contract of
--   sort.Slice. UpdateIps takes no lock: the list that it has read is an argument of update_ips.
--   Abstract is the pool as a map from addresses to flags, with a move for each call, and
--   Abstract.Refines follows the calls in it.
-- - Namer: namer/names.go. get_next_name is GetNextName; its two loops run on as much fuel as there
--   are names and two more, which Namer.Fresh shows to be enough. Title and Decimal hold the text
--   functions, Length the bound.
-- - Shared: shared/shared.go. Types, lists of messages, statuses; videos_to_sync is
--   SyncFlags.VideosToSync, whose meaning Shared.Quota states.
-- - Manager.State, Manager.Accounts: the Sync struct of manager/ytsync.go, and the accounts of the
--   wallet (manager/setup.go, importPublicKey). The world of services is a type parameter.
-- - Manager.Setup: manager/setup.go. Wallet is walletSetup, Ownership ensureChannelOwnership, Utxos
--   ensureEnoughUTXOs, Blocks waitForNewBlock, whose loops run on fuel that Blocks.Ends shows to
--   suffice.
--   Refill, Recovery and Chosen hold what is proved; Manager.Unchanged, which methods leave the record
--   of the channel alone.
-- - Manager.Worker: startWorker. attempt is the loop over the attempts of one video; it runs on
--   MaxTries units of fuel, which Manager.Worker.Retry shows to be enough. handle_error is its error
--   branch. start_worker takes the list of the videos that the worker receives.
-- - Manager.Process: processVideo, with skips for its early returns; Manager.Process.Once says what a
--   call leaves behind.
-- - Manager.Run: doSync and enqueueYoutubeVideos, with one worker.
-- - Manager.Workers: the workers of doSync and their producer as a step relation on the state that they
--   share and the queue; a step is one turn of a worker, and any goroutine may stop the group.
--   Exclusive, Bound and Alone are what is proved.
-- - Manager.Storage: manager/s3_storage.go, the wallet here and the blockchain database in Database,
--   over Util.Archive, which is util/archive.go and util/compression.go. Storage.Laws is what the
--   code relies on of files, objects and the clock; the upload of a wallet runs on 61 units of fuel,
--   which Tries shows to be enough, as each pause takes 30 seconds of its 30 minutes.
--   Storage.Handover puts these transfers into FullCycle.
-- - Manager.Termination: FullCycle with its deferred calls, performShutdownTasks,
--   setChannelTerminationStatus. Errors follows an error through them, Effects says which services
--   are called.
-- - Manager.Start: Start and checkUsedSpace of manager/manager.go, for a number of rounds; a manager
--   that goes on has no result yet. Start.Repeats follows the channels that it syncs.
-- - Manager.Integrity: fixDupes, and in Manager.Integrity.Remote updateRemoteDB and checkIntegrity;
--   Dupes and Consistent hold what is proved.
-- - Manager.Transfer: transferVideos and its fellows of manager/transfer.go, with their workers as one;
--   Supports is the rest of processTransfers, Abandon is abandonSupports, whose pages are listed on
--   fuel that Abandon.Pages shows to suffice. Queue and Abandon.Distinct are what is proved.
-- - Sources: publishAndRetryExistingNames of sources/shared.go, on fuel; Sources.Publish shows how much
--   is enough. Sources.Ytdlp and Sources.Download are sources/newYtDownload.go, Download.Qualities
--   which qualities it asks for. Sources.Video, Sources.Sync and Sources.Reprocess are Sync of
--   sources/youtubeVideo.go and its two ways; a download that never stops being throttled has no
--   end, so their loops run on fuel and `none` is a run that goes on. Sync.Guards says what is
--   published. Sources.Path is where a video stands on the disk.
-- - Ytapi: GetVideosToSync of ytapi/ytapi.go, and in Information getVideos; Ytapi.Wanted and
--   Information.Listed follow the videos through them.
-- - Sdk: sanitizeFailureReason of sdk/api.go; Sdk.Sanitized says what it leaves. Sdk.Api holds the
--   calls of the internal APIs, which repeat themselves while there is trouble, on fuel; Api.Ends
--   shows how much is enough, Api.Synced what SetChannelStatus returns.
-- - Downloader: downloader/downloader.go; run repeats a process of yt-dlp over the pool, on fuel for the
--   waits and the throttled attempts. Downloader.Bound says how many ids are listed.
-- - Tags: SanitizeTags of tags_manager/tags_mapping.go, with the tables in Tags.Tables; Tags.Final
--   checks them, Tags.Replaced says what is never returned.
-- - Manager.Daemon: the waits for the daemon's start and end, which are on fuel; Daemon.Started shows
--   that 1442 rounds of five seconds fill the two hours of the start. Util.Daemon and Util.Startup are
--   util/util.go: the daemon's processes and places, and the clean start of a test.
-- - Timing: timing/timing.go; Add is a machine of atomic operations, which a schedule interleaves.
-- - Not modelled are the files' and processes' I/O, the progress bars, the configuration, the metrics,
--   the command line, ChannelInfo of ytapi/ytapi.go, CheckVpn of manager/ytsync.go and the reflection
--   of blobs.
--
-- Conventions. A Go string is a text of code points, with byte lengths counted in UTF-8; an error is
-- its message; a Go map is an association list, and what ranges over a map is stated for every order
-- of its entries; times are numbers of nanoseconds, or of the unit that is named. Code that is not in the repository (the daemon's
-- RPC, the internal APIs' server, the file system, yt-dlp, lbry.go, MD5, Unicode's case table) is an
-- argument of the definitions that use it, with what is needed of it as a hypothesis;
-- so are the operations that are listed as not modelled, where others call them. Numbers of
-- attempts and counters are unbounded. Calls of the log, of Slack and of the progress bar have no
-- effect on what is modelled and are left out.
pub mod Base
pub mod Util
pub mod Timing
pub mod IpPool
pub mod Namer
pub mod Shared
pub mod Manager
pub mod Sdk
pub mod Ytapi
pub mod Tags
pub mod Downloader
pub mod Sources
