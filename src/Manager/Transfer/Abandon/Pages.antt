-- ===== src/Manager/Transfer/Abandon/Pages.antt =====
-- The listing of the supports ends.
use ytsync.Base.{
  ℕ, zero, suc, ◌+◌, ◌<◌, ◌≤◌, ◌≡◌, refl, inl, inr, String, List, ◌++◌, Option, some, Result, ok,
  err, leb, Bool-cases, arith,
}
use ytsync.Manager.Transfer.Abandon.{
  AbandonEnv, SupportPage, list_page, list_again, or_cannot_list, with_page, list_pages,
}

module _ {W : Type 0} (env : AbandonEnv W) (n : ℕ)
    (bounded : (account : String) (page : ℕ) (w : W) (p : SupportPage)
      → (env.support_list account page w).0 ≡ ok p
      → p.total_pages ≤ n) where
  or_cannot_list-le :
      (account : String) (page : ℕ) (w : W) (r : Result String SupportPage × W) (p : SupportPage)
      → env.support_list account page w ≡ r
      → (or_cannot_list env r).0 ≡ ok p
      → p.total_pages ≤ n
  or_cannot_list-le account page w (ok q, u) p e h = bounded account page w p (ground (arith, e, h))
  or_cannot_list-le account page w (err x, u) p e h = absurd (ground (arith, h))

  list_again-le :
      (account : String) (page : ℕ) (w : W) (r : Result String SupportPage × W) (p : SupportPage)
      → env.support_list account page w ≡ r
      → (list_again env account page r).0 ≡ ok p
      → p.total_pages ≤ n
  list_again-le account page w (ok q, u) p e h = bounded account page w p (ground (arith, e, h))
  list_again-le account page w (err x, u) p e h =
      or_cannot_list-le account page u (env.support_list account page u) p refl h

  with_page-ends :
      (more : List String → ℕ → W → Option (Result String (List String) × W)) (claims : List String)
      (r : Result String SupportPage × W)
      → ((p : SupportPage) → r.0 ≡ ok p → p.total_pages ≤ n)
      → ((cs : List String) (total : ℕ) (w : W)
          → total ≤ n
          → (o : Result String (List String) × W) × (more cs total w ≡ some o))
      → (o : Result String (List String) × W) × (with_page env more claims r ≡ some o)
  with_page-ends more claims (ok p, w) few rest =
      rest (claims ++ p.claim_ids) p.total_pages w (few p refl)
  with_page-ends more claims (err e, w) few rest = ((err e, w), refl)

  -- If no answer names more than `n` pages, the listing of the supports ends with so much fuel as
  -- reaches beyond them.
  pub list_pages-ends :
      (fuel : ℕ) (account : String) (page : ℕ) (claims : List String) (total : ℕ) (w : W)
      → total ≤ n
      → page ≤ suc n
      → suc n < page + fuel
      → (o : Result String (List String) × W) × (list_pages env fuel account page claims total w
          ≡ some o)
  unfolding list_pages
  list_pages-ends zero account page claims total w few near enough =
      absurd (omega (arith, near, enough))
  list_pages-ends (suc fuel) account page claims total w few near enough =
      elim (Bool-cases (leb page total)) [
        | inr e ↦ rw e ((ok claims, w), refl)
        | inl e ↦ rw e (
            with_page-ends (list_pages env fuel account (suc page)) claims
              (list_page env account page w)
              (λ p h. list_again-le account page w (env.support_list account page w) p refl h)
              (λ cs t u h.
                list_pages-ends fuel account (suc page) cs t u h (ground (arith, e, few))
                  (omega (arith, enough))))
      ]
