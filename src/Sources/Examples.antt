-- ===== src/Sources/Examples.antt =====
-- A daemon that refuses a name for every mark of its world.
mod Videos
use ytsync.Base.{
  ◌⊎◌, ◌≤◌, byte_len, ℕ, zero, suc, ◌<◌, ◌≡◌, String, true, [], Char, contains, Result, ok, err,
  arith,
}
use ytsync.Sources.{publish_and_retry_existing_names}
use ytsync.Namer.{trim_dashes, split_dash}
use ytsync.Sources.Path.{dash_others, name_of_chunks, file_name}
use ytsync.Sources.Path.Length.{file_name-le}
use ytsync.Sources.Publish.{Ended, publish_and_retry_existing_names_total}

abbrev create : String → ℕ → Result String String × ℕ
create name zero = (ok "c1", zero)
create name (suc n) = (err "failed: Multiple claims (2) found", n)

create_less :
    (name e : String) (u : ℕ)
    → (create name u).0 ≡ err e
    → contains e "failed: Multiple claims (" ≡ true
    → (create name u).1 < u
create_less name e zero h k = absurd (ground arith)
create_less name e (suc n) h k = omega arith

abbrev same : Char → Char
same c = c

abbrev no_hash : String → String
no_hash s = "0123456789abcdef"

publish_and_retry_existing_names_total_example :
    Ended create same no_hash []
      (publish_and_retry_existing_names create same no_hash 3 "test" [] 2)
publish_and_retry_existing_names_total_example =
    publish_and_retry_existing_names_total create same no_hash (λ n. n) 3 "test" [] 2 create_less
      (omega arith)

file_name-le_example :
    ((file_name (λ s. s) "v1" "A title" ≡ "v1")
      × (byte_len (name_of_chunks (split_dash (trim_dashes (dash_others "A title")))) ≡ 0))
    ⊎ (byte_len (file_name (λ s. s) "v1" "A title") ≤ 30)
file_name-le_example = file_name-le (λ s. s) "v1" "A title"
