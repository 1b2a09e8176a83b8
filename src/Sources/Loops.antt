-- ===== src/Sources/Loops.antt =====
-- Methods that may go on for ever: `none` is a method that is still running when its fuel is spent.
use ytsync.Base.{String, Option, none, some, Result, ok, err, Method}

abbrev pub Loop : Type 0 → Type 0 → Type 0
Loop S A = S → Option (Result String A × S)

abbrev pub once : {S A : Type 0} → Method S A → Loop S A
once m s = some (m s)

abbrev pub done : {S A : Type 0} → A → Loop S A
done a s = some (ok a, s)

abbrev pub failed : {S A : Type 0} → String → Loop S A
failed e s = some (err e, s)

abbrev pub go_on :
    {S A B : Type 0} → (A → Loop S B) → Option (Result String A × S) → Option (Result String B × S)
go_on k none = none
go_on k (some (ok a, s)) = k a s
go_on k (some (err e, s)) = some (err e, s)

infixl 5 ◌>>=◌ ◌>>◌
abbrev pub ◌>>=◌ : {S A B : Type 0} → Loop S A → (A → Loop S B) → Loop S B
◌>>=◌ m k s = go_on k (m s)

abbrev pub ◌>>◌ : {S B : Type 0} → Loop S (Unit {0}) → Loop S B → Loop S B
m >> n = m >>= λ _. n

-- errors.Prefix of what a call returned.
abbrev pub prefixed :
    {S A : Type 0} → (String → String) → Option (Result String A × S) → Option (Result String A × S)
prefixed f none = none
prefixed f (some (ok a, s)) = some (ok a, s)
prefixed f (some (err e, s)) = some (err (f e), s)

abbrev pub with_prefix : {S A : Type 0} → (String → String) → Loop S A → Loop S A
with_prefix f m s = prefixed f (m s)
