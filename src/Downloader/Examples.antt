-- ===== src/Downloader/Examples.antt =====
-- A channel with videos, whose other tabs are empty.
use ytsync.Base.{ℕ, suc, false, [], ◌∷◌, ok, ltb, if◌then◌else◌}
use ytsync.Downloader.{DownloaderEnv}

-- The world counts the processes; only the first one finds videos.
abbrev listing : DownloaderEnv ℕ
listing = record {
  get_ip = λ name n. (ok "10.0.0.1", n);
  pool_message = λ e. "";
  is_stopped = λ n. false;
  sleep = λ n. n;
  release_ip = λ ip n. n;
  set_throttled = λ ip n. n;
  substring_in_slice = λ e parts. false;
  run_cmd = λ args n. (ok (if ltb n 1 then "v1" ∷ "v2" ∷ "v3" ∷ "" ∷ [] else "" ∷ []), suc n);
  metadata_dir = "/tmp";
}
