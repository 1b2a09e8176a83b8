-- ===== src/Sources/Path/Length.antt =====
-- How long the name of a file is.
use ytsync.Base.{
  ℕ, ◌-◌, ◌≤◌, ◌≡◌, refl, ◌⊎◌, inl, inr, String, byte_len, ◌⧺◌, List, [], ◌∷◌, ltb, Bool-cases,
  arith,
}
use ytsync.Namer.{trim_dashes, split_dash}
use ytsync.Sources.Path.{
  dash_others, width, cut, max_len, first_name, add_parts, name_of_chunks, file_name,
}

byte_len-cut : (n : ℕ) (s : String) → byte_len (cut n s) ≤ n
unfolding cut byte_len
byte_len-cut n String.[] = omega arith
byte_len-cut n (String.◌∷◌ c s) = elim (Bool-cases (ltb n (width c))) [
  | inl e ↦ rw e (omega arith)
  | inr e ↦ rw e (ground (arith, e, byte_len-cut (n - width c) s))
]

first_name-le : (chunk : String) → byte_len (first_name chunk) ≤ 30
first_name-le chunk = elim (Bool-cases (ltb max_len (byte_len chunk))) [
  | inl e ↦ rw e (byte_len-cut 30 chunk)
  | inr e ↦ rw e (ground (arith, e))
]

add_parts-le :
    (name : String) (chunks : List String)
    → byte_len name ≤ 30
    → byte_len (add_parts name chunks) ≤ 30
unfolding add_parts
add_parts-le name [] h = h
add_parts-le name (chunk ∷ chunks) h =
    elim (Bool-cases (ltb max_len (byte_len (name ⧺ ("-" ⧺ chunk))))) [
      | inr fits ↦ rw fits (add_parts-le (name ⧺ ("-" ⧺ chunk)) chunks (ground (arith, fits)))
      | inl long ↦ elim (Bool-cases (ltb (byte_len name) 20)) [
        | inl e ↦ rw (long, e) (byte_len-cut 30 (name ⧺ ("-" ⧺ chunk)))
        | inr e ↦ rw (long, e) h
      ]
    ]

name_of_chunks-le : (chunks : List String) → byte_len (name_of_chunks chunks) ≤ 30
unfolding name_of_chunks byte_len
name_of_chunks-le [] = omega arith
name_of_chunks-le (chunk ∷ chunks) = add_parts-le (first_name chunk) chunks (first_name-le chunk)

-- The name of a file that getFullPath makes of a title has at most 30 bytes, or it is the id of the
-- video, which stands in for an empty name only.
pub file_name-le :
    (to_lower : String → String) (id title : String)
    → ((file_name to_lower id title ≡ id)
        × (byte_len (name_of_chunks (split_dash (to_lower (trim_dashes (dash_others title))))) ≡ 0))
      ⊎ (byte_len (file_name to_lower id title) ≤ 30)
unfolding file_name
file_name-le to_lower id title =
    let name = name_of_chunks (split_dash (to_lower (trim_dashes (dash_others title)))) in
    elim (Bool-cases (ltb (byte_len name) 1)) [
      | inl e ↦ inl (rw e refl, ground (arith, e))
      | inr e ↦
          inr (rw e (name_of_chunks-le (split_dash (to_lower (trim_dashes (dash_others title))))))
    ]
