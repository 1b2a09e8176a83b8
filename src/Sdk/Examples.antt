-- ===== src/Sdk/Examples.antt =====
-- A reason of two lines with a character that is not ASCII.
mod Calls
use ytsync.Base.{◌≡◌, ◌≤◌, refl, String, byte_len}
use ytsync.Sdk.{max_reason_length, sanitize_failure_reason}
use ytsync.Sdk.Sanitized.{Plain, sanitize_failure_reason-Plain}

abbrev reason : String
reason = "error – no\nfunds"

one_line : sanitize_failure_reason reason ≡ "error  no funds"
unfolding sanitize_failure_reason byte_len
one_line = refl
