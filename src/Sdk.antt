-- ===== src/Sdk.antt =====
-- sdk/api.go: the texts that are sent to the internal APIs as the reasons of failures.
pub mod Api
pub mod Sanitized
mod Examples
use ytsync.Base.{◌⧺◌, ℕ, zero, suc, String, Bool, code, byte_len, ltb, ◌==◌, if◌then◌else◌}

abbrev pub max_reason_length : ℕ
max_reason_length = 490

-- re.ReplaceAllLiteralString, for the characters that are not ASCII.
unfoldable pub keep_ascii : String → String
keep_ascii String.[] = ""
keep_ascii (String.◌∷◌ c s) = if ltb (code c) 128 then String.◌∷◌ c (keep_ascii s) else keep_ascii s

-- strings.Replace of line breaks by spaces.
unfoldable pub break_to_space : String → String
break_to_space String.[] = ""
break_to_space (String.◌∷◌ c s) =
    if code c == 10 then " " ⧺ break_to_space s else String.◌∷◌ c (break_to_space s)

-- s[:n] on an ASCII text, whose characters are one byte each.
unfoldable pub first_bytes : ℕ → String → String
first_bytes zero s = ""
first_bytes (suc n) String.[] = ""
first_bytes (suc n) (String.◌∷◌ c s) = String.◌∷◌ c (first_bytes n s)

abbrev pub cut_reason : String → String
cut_reason s = if ltb max_reason_length (byte_len s) then first_bytes max_reason_length s else s

unfoldable pub sanitize_failure_reason : String → String
unfolding keep_ascii break_to_space byte_len first_bytes
sanitize_failure_reason s = cut_reason (break_to_space (keep_ascii s))
