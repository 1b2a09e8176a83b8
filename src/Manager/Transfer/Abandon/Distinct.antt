-- ===== src/Manager/Transfer/Abandon/Distinct.antt =====
-- The claims whose supports are abandoned.
use ytsync.Base.{
  ◌≡◌, ◌≢◌, refl, sym, subst, inl, inr, ◌↔◌, String, false, List, [], ◌∷◌, any, All, All-mono, In,
  str_eq, eq_iff, Bool-cases, arith,
}
use ytsync.Manager.Workers.Exclusive.{Different}
use ytsync.Manager.Transfer.Abandon.{distinct_after, distinct}

abbrev New : List String → String → Type 0
New seen a = any (str_eq a) seen ≡ false

not_first : (a b : String) (seen : List String) → New (b ∷ seen) a → b ≢ a
not_first a b seen h e = absurd (ground (arith, h, eq_iff a b, sym e))

not_later : (a b : String) (seen : List String) → New (b ∷ seen) a → New seen a
not_later a b seen h = ground (arith, h)

distinct_after-New : (seen ids : List String) → All (New seen) (distinct_after seen ids)
unfolding distinct_after
distinct_after-New seen [] = tt
distinct_after-New seen (id ∷ ids) = elim (Bool-cases (any (str_eq id) seen)) [
  | inl e ↦ rw e (distinct_after-New seen ids)
  | inr e ↦ rw e (
    e,
    All-mono (New (id ∷ seen)) (New seen) (distinct_after (id ∷ seen) ids)
        (λ a. not_later a id seen) (distinct_after-New (id ∷ seen) ids),
  )
]

distinct_after-Different : (seen ids : List String) → Different (distinct_after seen ids)
unfolding distinct_after Different
distinct_after-Different seen [] = tt
distinct_after-Different seen (id ∷ ids) = elim (Bool-cases (any (str_eq id) seen)) [
  | inl e ↦ rw e (distinct_after-Different seen ids)
  | inr e ↦ rw e (
    All-mono (New (id ∷ seen)) (λ b. id ≢ b) (distinct_after (id ∷ seen) ids)
        (λ a. not_first a id seen) (distinct_after-New (id ∷ seen) ids),
    distinct_after-Different (id ∷ seen) ids,
  )
]

distinct_after_sound :
    (seen ids : List String) (a : String) → In a (distinct_after seen ids) → In a ids
unfolding distinct_after
distinct_after_sound seen [] a = λ h. h
distinct_after_sound seen (id ∷ ids) a = elim (Bool-cases (any (str_eq id) seen)) [
  | inl e ↦ rw e (λ h. inr (distinct_after_sound seen ids a h))
  | inr e ↦
      rw e (λ h. elim h [
        | inl same ↦ inl same
        | inr m ↦ inr (distinct_after_sound (id ∷ seen) ids a m)
      ])
]

distinct_after_complete :
    (seen ids : List String) (a : String) → In a ids → New seen a → In a (distinct_after seen ids)
unfolding distinct_after
distinct_after_complete seen [] a m h = m
distinct_after_complete seen (id ∷ ids) a m h = elim (Bool-cases (any (str_eq id) seen)) [
  | inl e ↦ rw e (elim m [
    | inl same ↦ absurd (ground (arith, e, subst (New seen) same h))
    | inr later ↦ distinct_after_complete seen ids a later h
  ])
  | inr e ↦ rw e (elim m [
    | inl same ↦ inl same
    | inr later ↦ elim (Bool-cases (str_eq a id)) [
      | inl same ↦ inl ((eq_iff a id).0 same)
      | inr other ↦ inr (distinct_after_complete (id ∷ seen) ids a later (ground (arith, other, h)))
    ]
  ])
]

-- The claims that the producer of abandonSupports sends are different from each other, and are those
-- of the supports that were listed.
pub distinct-Different :
    (ids : List String) → Different (distinct ids) × ((a : String) → In a (distinct ids) ↔ In a ids)
distinct-Different ids = (
  distinct_after-Different [] ids,
  λ a. (distinct_after_sound [] ids a, λ m. distinct_after_complete [] ids a m refl),
)
