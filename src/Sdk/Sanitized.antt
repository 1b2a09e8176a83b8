-- ===== src/Sdk/Sanitized.antt =====
-- What the reasons look like that reach the server.
use ytsync.Base.{
  ℕ, zero, suc, ◌≤◌, ◌<◌, ◌≡◌, refl, ap, ◌∙◌, String, true, false, code, byte_len, ltb, ◌==◌, inl,
  inr, Bool-cases, arith,
}
use ytsync.Sdk.{
  max_reason_length, keep_ascii, break_to_space, first_bytes, cut_reason, sanitize_failure_reason,
}

-- ASCII characters only, and no line break.
abbrev pub Plain : String → Type 0
Plain String.[] = Unit {0}
Plain (String.◌∷◌ c s) = (code c < 128) × (code c == 10 ≡ false) × Plain s

abbrev pub Ascii : String → Type 0
Ascii String.[] = Unit {0}
Ascii (String.◌∷◌ c s) = (code c < 128) × Ascii s

keep_ascii-Ascii : (s : String) → Ascii (keep_ascii s)
unfolding keep_ascii
keep_ascii-Ascii String.[] = tt
keep_ascii-Ascii (String.◌∷◌ c s) = elim (Bool-cases (ltb (code c) 128)) [
  | inl e1 ↦ rw e1 (ground arith, keep_ascii-Ascii s)
  | inr e2 ↦ rw e2 (keep_ascii-Ascii s)
]

break_to_space-Plain : (s : String) → Ascii s → Plain (break_to_space s)
unfolding break_to_space
break_to_space-Plain String.[] h = tt
break_to_space-Plain (String.◌∷◌ c s) h = elim (Bool-cases (code c == 10)) [
  | inl e1 ↦ rw e1 (omega arith, refl, break_to_space-Plain s h.1)
  | inr e2 ↦ rw e2 (h.0, e2, break_to_space-Plain s h.1)
]

first_bytes-Plain : (n : ℕ) (s : String) → Plain s → Plain (first_bytes n s)
unfolding first_bytes
first_bytes-Plain zero s h = tt
first_bytes-Plain (suc n) String.[] h = tt
first_bytes-Plain (suc n) (String.◌∷◌ c s) h = (h.0, h.1, first_bytes-Plain n s h.2)

byte_len-first_bytes : (n : ℕ) (s : String) → Plain s → byte_len (first_bytes n s) ≤ n
unfolding byte_len first_bytes
byte_len-first_bytes zero s h = omega arith
byte_len-first_bytes (suc n) String.[] h = omega arith
byte_len-first_bytes (suc n) (String.◌∷◌ c s) h =
    let ih = byte_len-first_bytes n s h.2 in let small = h.0 in ground (arith, ih, small)

keep_ascii-Plain : (s : String) → Plain s → keep_ascii s ≡ s
unfolding keep_ascii
keep_ascii-Plain String.[] h = refl
keep_ascii-Plain (String.◌∷◌ c s) h =
    let e : ltb (code c) 128 ≡ true = ground (arith, h.0) in
    rw e (ap (String.◌∷◌ c) (keep_ascii-Plain s h.2))

break_to_space_same : (s : String) → Plain s → break_to_space s ≡ s
unfolding break_to_space
break_to_space_same String.[] h = refl
break_to_space_same (String.◌∷◌ c s) h = rw h.1 (ap (String.◌∷◌ c) (break_to_space_same s h.2))

-- A reason that is sent has ASCII characters only, no line break, and at most 490 bytes.
pub sanitize_failure_reason-Plain :
    (s : String)
    → Plain (sanitize_failure_reason s) × (byte_len (sanitize_failure_reason s) ≤ max_reason_length)
unfolding sanitize_failure_reason
sanitize_failure_reason-Plain s =
    let plain = break_to_space-Plain (keep_ascii s) (keep_ascii-Ascii s) in
    let text = break_to_space (keep_ascii s) in
    elim (Bool-cases (ltb max_reason_length (byte_len text))) [
      | inl e1 ↦ rw e1 (
        first_bytes-Plain max_reason_length text plain,
        byte_len-first_bytes max_reason_length text plain,
      )
      | inr e2 ↦ rw e2 (plain, ground arith)
    ]

cut_reason_same : (s : String) → byte_len s ≤ max_reason_length → cut_reason s ≡ s
cut_reason_same s h =
    let e : ltb max_reason_length (byte_len s) ≡ false = ground (arith, h) in rw e refl

Plain-same : (s : String) → Plain s → byte_len s ≤ max_reason_length → sanitize_failure_reason s ≡ s
unfolding sanitize_failure_reason
Plain-same s h k =
    ap (λ t. cut_reason (break_to_space t)) (keep_ascii-Plain s h)
    ∙ (ap cut_reason (break_to_space_same s h) ∙ cut_reason_same s k)

-- A reason that is sanitized already is not changed by a second pass.
sanitize_failure_reason_twice :
    (s : String) → sanitize_failure_reason (sanitize_failure_reason s) ≡ sanitize_failure_reason s
sanitize_failure_reason_twice s =
    let p = sanitize_failure_reason-Plain s in Plain-same (sanitize_failure_reason s) p.0 p.1
