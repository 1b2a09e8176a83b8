-- ===== src/Base/Results.antt =====
-- What a Go function that may fail returns, a value or an error, and methods that change a state
-- and may fail. What was written before a failure stays written.
use Prim.Native.String.{String}
use mathlib.Core.Path.{◌≡◌, refl}
use native.Mathlib.Omega.{arith}

pub data Result (E A : Type 0) : Type 0 where
  ok : A → Result E A
  err : E → Result E A

-- A method on a state of type `S`; its error is the message.
abbrev pub Method : Type 0 → Type 0 → Type 0
Method S A = S → Result String A × S

abbrev pub return : {S A : Type 0} → A → Method S A
return a s = (ok a, s)

abbrev pub fail : {S A : Type 0} → String → Method S A
fail e s = (err e, s)

-- The rest of a method, after a call that returned.
abbrev pub resume : {S A B : Type 0} → (A → Method S B) → Result String A × S → Result String B × S
resume next (ok a, s) = next a s
resume next (err e, s) = (err e, s)

infixl 5 ◌>>=◌ ◌>>◌
abbrev pub ◌>>=◌ : {S A B : Type 0} → Method S A → (A → Method S B) → Method S B
◌>>=◌ m next s = resume next (m s)

abbrev pub ◌>>◌ : {S B : Type 0} → Method S (Unit {0}) → Method S B → Method S B
m >> n = m >>= λ _. n

-- `err = m(); if err != nil { … }`: the error becomes a value.
abbrev pub catch : {S A : Type 0} → Method S A → Method S (Result String A)
catch m s = let (r, t) = m s in (ok r, t)

abbrev pub read : {S A : Type 0} → (S → A) → Method S A
read f s = (ok (f s), s)

-- A method that returned a value has gone through its first call.
pub resume-ok :
    {S A B : Type 0} (next : A → Method S B) (r : Result String A × S) (b : B) (t : S)
    → resume next r ≡ (ok b, t)
    → (a : A) × (s : S) × (r ≡ (ok a, s)) × (next a s ≡ (ok b, t))
resume-ok next (ok a, s) b t h = (a, s, refl, h)
resume-ok next (err e, s) b t h = absurd (ground arith)

pub bind-ok :
    {S A B : Type 0} (m : Method S A) (k : A → Method S B) (b : B) (s t : S)
    → (m >>= k) s ≡ (ok b, t)
    → (a : A) × (u : S) × (m s ≡ (ok a, u)) × (k a u ≡ (ok b, t))
bind-ok m k b s t h = resume-ok k (m s) b t h
