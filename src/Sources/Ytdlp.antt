-- ===== src/Sources/Ytdlp.antt =====
-- What rawDownload of sources/newYtDownload.go reads out of the end of a process of yt-dlp:
-- parseFailureReason, parseOutLog and the two switches.
use ytsync.Base.{
  String, Bool, true, false, not, Option, none, some, contains, str_eq, if◌then◌else◌, Result, ok,
  err,
}

pub data KnownError : Type 0 where
  throttled fragments_retries video_extraction video_too_long video_too_big format_not_available :
      KnownError
  other_failure : String → KnownError

abbrev pub known_message : KnownError → String
known_message throttled = "throttled"
known_message fragments_retries = "missing fragments"
known_message video_extraction = "unable to extract"
known_message video_too_long = "video is too long to process"
known_message video_too_big = "the video is too big to sync, skipping for now"
known_message format_not_available = "Requested format is not available"
known_message (other_failure text) = text

abbrev pub throttled_msg : String
throttled_msg = "HTTP Error 429"

unfoldable pub parse_failure_reason : String → Option KnownError
unfolding contains
parse_failure_reason log =
    if str_eq log ""
    then none
    else if contains log throttled_msg
    then some throttled
    else if contains log "returned non-zero exit status 8"
    then some throttled
    else if contains log "giving up after 0 fragment retries"
    then some fragments_retries
    else if contains log "YouTube said: Unable to extract video data"
    then some video_extraction
    else if contains log "Requested format is not available"
    then some format_not_available
    else some (other_failure log)

unfoldable pub parse_out_log : String → Option KnownError
unfolding contains
parse_out_log log =
    if str_eq log ""
    then none
    else if contains log "does not pass filter (duration"
    then some video_too_long
    else if contains log "File is larger than max-filesize"
    then some video_too_big
    else if contains log throttled_msg
    then some throttled
    else none

pub record DownloadResults : Type 0 where
  pub successful : Bool
  pub was_throttled : Bool
  pub could_retry : Bool
  pub reduce_resolution : Bool
  pub change_user_agent : Bool
  pub known_error : Option KnownError

abbrev pub failed_with : KnownError → DownloadResults
failed_with e = record {
  successful = false;
  was_throttled = false;
  could_retry = false;
  reduce_resolution = false;
  change_user_agent = false;
  known_error = some e;
}

abbrev pub after_throttle : DownloadResults → DownloadResults
after_throttle r = record r { was_throttled = true; could_retry = true }

abbrev pub after_reduce : DownloadResults → DownloadResults
after_reduce r = record r { could_retry = true; reduce_resolution = true }

-- The first switch of rawDownload, on what stands in the error log.
unfoldable pub failure_results : KnownError → DownloadResults
failure_results throttled = after_throttle (failed_with throttled)
failure_results fragments_retries = after_reduce (failed_with fragments_retries)
failure_results format_not_available = after_reduce (failed_with format_not_available)
failure_results e = failed_with e

-- The second switch, on what stands in the output.
unfoldable pub output_results : KnownError → DownloadResults
output_results throttled = after_throttle (failed_with throttled)
output_results video_too_big = after_reduce (failed_with video_too_big)
output_results e = failed_with e

-- How a process of yt-dlp ended.
pub record CommandEnd : Type 0 where
  pub exit_error : Option String
  pub error_log : String
  pub out_log : String

abbrev pub is_other_exit : Option String → Bool
is_other_exit none = false
is_other_exit (some e) = not (contains e "exit status 1")

abbrev pub exit_text : Option String → String
exit_text none = ""
exit_text (some e) = e

abbrev pub success : DownloadResults
success = record {
  successful = true;
  was_throttled = false;
  could_retry = false;
  reduce_resolution = false;
  change_user_agent = false;
  known_error = none;
}

abbrev pub by_output : Option KnownError → DownloadResults
by_output none = success
by_output (some e) = output_results e

abbrev pub by_logs : Option KnownError → Option KnownError → DownloadResults
by_logs (some e) out = failure_results e
by_logs none out = by_output out

unfoldable pub command_results : CommandEnd → Result String DownloadResults
unfolding parse_failure_reason parse_out_log failure_results output_results
command_results c =
    if is_other_exit c.exit_error
    then err (exit_text c.exit_error)
    else ok (by_logs (parse_failure_reason c.error_log) (parse_out_log c.out_log))
