-- ===== src/Namer/Fresh.antt =====
-- GetNextName ends, and its names are new.
use ytsync.Base.{
  none, has_key-insert, All-mono, ◌≢◌, insert, Option, All, ℕ, zero, suc, ◌+◌, ◌≤◌, ◌<◌, Char,
  String, ◌⧺◌, ◌≡◌, refl, ◌∙◌, ap, subst, inl, inr, true, false, some, List, [], ◌∷◌, length, arith,
  leb, ltb, if◌then◌else◌, Bool-cases, has_key, str_eq, eq_iff, byte_len,
}
use ytsync.Namer.Decimal.{tail_value, tail_value-itoa}
use ytsync.Namer.{
  take_runes, hash_name, get_next_name, or_hash, Names, suffix_of, join_chunks,
  get_claim_name_from_title, first_unused, itoa,
}

-- How many names end in a number of at least `a`.
abbrev count_from : ℕ → Names → ℕ
count_from a [] = 0
count_from a ((n, b) ∷ names) = (if leb a (tail_value n) then 1 else 0) + count_from a names

count_from-le : (a : ℕ) (names : Names) → count_from a names ≤ length names
count_from-le a [] = omega arith
count_from-le a ((n, b) ∷ names) = ground (arith, count_from-le a names)

count_from-suc : (a : ℕ) (names : Names) → count_from (suc a) names ≤ count_from a names
count_from-suc a [] = omega arith
count_from-suc a ((n, b) ∷ names) = ground (arith, count_from-suc a names)

-- A name that is taken is one name less for the later attempts.
count_from-taken :
    (s : String) (names : Names)
    → has_key s names ≡ true
    → count_from (suc (tail_value s)) names < count_from (tail_value s) names
unfolding has_key
count_from-taken s [] h = cc
count_from-taken s ((n, b) ∷ names) h = elim (Bool-cases (str_eq n s)) [
  | inl e ↦ rw ((eq_iff n s).0 e) (ground (arith, count_from-suc (tail_value s) names))
  | inr e ↦ ground (arith, count_from-taken s names)
]

module _ (f : ℕ → String) (names : Names) where
  -- With more fuel than names that the later attempts can meet, an unused name is found.
  first_unused_total :
      ((k : ℕ) → 1 < k → tail_value (f k) ≡ k)
      → (fuel attempt : ℕ) → 1 < attempt
      → count_from attempt names < fuel
      → (name : String) × (first_unused fuel f names attempt ≡ some name)
        × (has_key name names ≡ false)
  unfolding first_unused
  first_unused_total tail zero attempt big h = absurd (omega arith)
  first_unused_total tail (suc fuel) attempt big h = elim (Bool-cases (has_key (f attempt) names)) [
    | inl taken ↦
        let drop : count_from (suc attempt) names < count_from attempt names =
          subst (λ k. count_from (suc k) names < count_from k names) (tail attempt big)
            (count_from-taken (f attempt) names taken) in
        rw taken (first_unused_total tail fuel (suc attempt) (omega arith) (omega arith))
    | inr free ↦ rw free (f attempt, refl, free)
  ]

  first_unused_from_one :
      ((k : ℕ) → 1 < k → tail_value (f k) ≡ k)
      → (name : String) × (first_unused (suc (suc (length names))) f names 1 ≡ some name)
        × (has_key name names ≡ false)
  unfolding first_unused
  first_unused_from_one tail = elim (Bool-cases (has_key (f 1) names)) [
    | inl taken ↦ rw taken (
        first_unused_total tail (suc (length names)) 2 (omega arith)
          (omega (arith, count_from-le 2 names)))
    | inr free ↦ rw free (f 1, refl, free)
  ]

join_chunks-suffix :
    (suffix : String) (chunks : List String)
    → (base : String) × (join_chunks suffix chunks ≡ base ⧺ suffix)
unfolding join_chunks
join_chunks-suffix suffix [] = ("", refl)
join_chunks-suffix suffix (name ∷ chunks) =
    elim (Bool-cases (ltb 40 (byte_len name + byte_len suffix))) [
      | inl e ↦ rw e (_, refl)
      | inr e ↦ rw e (_, refl)
    ]

module _ (lower : Char → Char) where
  -- The attempt can be read off the name.
  title-tail_value :
      (title : String) (k : ℕ) → 1 < k → tail_value (get_claim_name_from_title lower title k) ≡ k
  unfolding get_claim_name_from_title suffix_of
  title-tail_value title k big =
      let s : suffix_of k ≡ "-" ⧺ itoa k = ground arith in
      let (base, e) = join_chunks-suffix (suffix_of k) _ in
      ap tail_value (e ∙ ap (λ t. base ⧺ t) s) ∙ tail_value-itoa base k

abbrev pub AllNew : Names → List String → Type 0
AllNew names = All (λ n. has_key n names ≡ false)

abbrev pub AllDifferent : List String → Type 0
AllDifferent [] = Unit
AllDifferent (n ∷ ns) = All (λ m. n ≢ m) ns × AllDifferent ns

module _ (lower : Char → Char) (md5_hex : String → String) where
  or_hash_total :
      (prefix : String) (names : Names) (name : String)
      → has_key name names ≡ false
      → (final : String) × (or_hash lower md5_hex prefix names (some name) ≡ some final)
        × (has_key final names ≡ false)
  unfolding or_hash hash_name
  or_hash_total prefix names name free = elim (Bool-cases (ltb (byte_len name) 2)) [
    | inl short ↦ rw short (
        first_unused_from_one (hash_name lower md5_hex prefix) names
          (λ k big. tail_value-itoa (take_runes 15 (md5_hex prefix)) k))
    | inr long ↦ rw long (name, refl, free)
  ]

  -- GetNextName ends for every title and every set of names. The name that it returns was not
  -- among the names, and it is all that is added to them.
  pub get_next_name_total :
      (prefix : String) (names : Names)
      → (name : String) × (get_next_name lower md5_hex prefix names
          ≡ some (name, insert name true names))
        × (has_key name names ≡ false)
  unfolding get_next_name
  get_next_name_total prefix names =
      let (first, e, free) =
        first_unused_from_one (get_claim_name_from_title lower prefix) names
          (title-tail_value lower prefix) in
      let (final, e', free') = or_hash_total prefix names first free in
      (final, rw e (rw e' refl), free')

  -- The names of a series of calls, in order.
  unfoldable pub next_names : List String → Names → Option (List String × Names)
  next_names [] names = some ([], names)
  next_names (t ∷ ts) names = elim (get_next_name lower md5_hex t names) [
    | none ↦ none
    | some (name, names') ↦ elim (next_names ts names') [
      | none ↦ none
      | some (rest, final) ↦ some (name ∷ rest, final)
    ]
  ]

  insert-new :
      (n : String) (names : Names) (m : String)
      → has_key m (insert n true names) ≡ false
      → (has_key m names ≡ false) × (n ≢ m)
  insert-new n names m h =
      let e = has_key-insert n m true names in (ground arith, ground (arith, eq_iff n m))

  -- A series of calls of GetNextName, for whatever titles, ends with a name for each title; the
  -- names are pairwise different, and none of them was in use before.
  pub next_names_total :
      (titles : List String) (names : Names)
      → (found : List String) × (final : Names) × (next_names titles names ≡ some (found, final))
        × (length found ≡ length titles)
        × AllNew names found
        × AllDifferent found
  unfolding next_names
  next_names_total [] names = ([], names, refl, refl, tt, tt)
  next_names_total (t ∷ ts) names =
      let (n, e, free) = get_next_name_total t names in
      let (ns, final, e', len, new, different) = next_names_total ts (insert n true names) in
      (
        n ∷ ns,
        final,
        rw (e, next_names) (rw (e', next_names) refl),
        omega arith,
        (
          free,
          All-mono (λ m. has_key m (insert n true names) ≡ false) (λ m. has_key m names ≡ false) ns
              (λ m h. (insert-new n names m h).0) new,
        ),
        (
          All-mono (λ m. has_key m (insert n true names) ≡ false) (λ m. n ≢ m) ns
              (λ m h. (insert-new n names m h).1) new,
          different,
        ),
      )
