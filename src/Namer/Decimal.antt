-- ===== src/Namer/Decimal.antt =====
-- strconv.Itoa on numbers, and the number after the last dash of a name.
use ytsync.Base.{
  ℕ, zero, suc, ◌+◌, ◌-◌, ◌*◌, ◌/◌, ◌%◌, ◌<◌, Char, code, String, ◌⧺◌, ◌≡◌, refl, ◌∙◌, ap, inl, inr,
  arith, ◌==◌, if◌then◌else◌, Bool-cases,
}

unfoldable pub digit_char : ℕ → Char
digit_char zero = "0"
digit_char (suc zero) = "1"
digit_char (suc (suc zero)) = "2"
digit_char (suc (suc (suc zero))) = "3"
digit_char (suc (suc (suc (suc zero)))) = "4"
digit_char (suc (suc (suc (suc (suc zero))))) = "5"
digit_char (suc (suc (suc (suc (suc (suc zero)))))) = "6"
digit_char (suc (suc (suc (suc (suc (suc (suc zero))))))) = "7"
digit_char (suc (suc (suc (suc (suc (suc (suc (suc zero)))))))) = "8"
digit_char (suc (suc (suc (suc (suc (suc (suc (suc (suc n))))))))) = "9"

digits : ℕ → ℕ → String → String
digits zero n acc = acc
digits (suc fuel) n acc =
    let acc' = String.◌∷◌ (digit_char (n % 10)) acc in
    let rest = digits fuel (n / 10) acc' in if n / 10 == 0 then acc' else rest

-- strconv.Itoa
unfoldable pub itoa : ℕ → String
unfolding digits digit_char
itoa n = digits (suc n) n ""

code-digit_char : (d : ℕ) → d < 10 → code (digit_char d) ≡ 48 + d
unfolding digit_char
code-digit_char zero h = refl
code-digit_char (suc zero) h = refl
code-digit_char (suc (suc zero)) h = refl
code-digit_char (suc (suc (suc zero))) h = refl
code-digit_char (suc (suc (suc (suc zero)))) h = refl
code-digit_char (suc (suc (suc (suc (suc zero))))) h = refl
code-digit_char (suc (suc (suc (suc (suc (suc zero)))))) h = refl
code-digit_char (suc (suc (suc (suc (suc (suc (suc zero))))))) h = refl
code-digit_char (suc (suc (suc (suc (suc (suc (suc (suc zero)))))))) h = refl
code-digit_char (suc (suc (suc (suc (suc (suc (suc (suc (suc zero))))))))) h = refl
code-digit_char (suc (suc (suc (suc (suc (suc (suc (suc (suc (suc n)))))))))) h =
    absurd (omega arith)

abbrev next_value : ℕ → Char → ℕ
next_value v c = if code c == b'-' then 0 else v * 10 + (code c - 48)

-- The number that the digits after the last dash spell.
abbrev pub tail_value_from : ℕ → String → ℕ
tail_value_from v String.[] = v
tail_value_from v (String.◌∷◌ c s) = tail_value_from (next_value v c) s

abbrev pub tail_value : String → ℕ
tail_value = tail_value_from 0

tail_value_from-append :
    (v : ℕ) (s t : String) → tail_value_from v (s ⧺ t) ≡ tail_value_from (tail_value_from v s) t
tail_value_from-append v String.[] t = refl
tail_value_from-append v (String.◌∷◌ c s) t = tail_value_from-append (next_value v c) s t

digit_step :
    (n : ℕ) (v : ℕ)
    → (if code (digit_char (n % 10)) == b'-' then 0 else v * 10 + (code (digit_char (n % 10)) - 48))
      ≡ v * 10 + n % 10
digit_step n v = let e = code-digit_char (n % 10) (omega arith) in rw e (ground arith)

tail_value-digits :
    (fuel n : ℕ) (acc : String)
    → n < fuel
    → tail_value_from 0 (digits fuel n acc) ≡ tail_value_from n acc
unfolding digits
tail_value-digits zero n acc h = absurd (omega arith)
tail_value-digits (suc fuel) n acc h = elim (Bool-cases (n / 10 == 0)) [
  | inl e ↦ rw e (ap (λ v. tail_value_from v acc) (digit_step n 0 ∙ ground arith))
  | inr e ↦ rw e (
      tail_value-digits fuel (n / 10) _ (ground arith)
      ∙ ap (λ v. tail_value_from v acc) (digit_step n (n / 10) ∙ omega arith))
]

-- The number can be read back, whatever stands before the dash.
pub tail_value-itoa : (s : String) (n : ℕ) → tail_value (s ⧺ "-" ⧺ itoa n) ≡ n
unfolding itoa
tail_value-itoa s n =
    tail_value_from-append 0 s ("-" ⧺ itoa n) ∙ tail_value-digits (suc n) n "" (omega arith)
