-- ===== src/IpPool/Sorting.antt =====
-- What `sort.Slice` by LastUse promises, and what it keeps.
use mathlib.Core.List.{Permᴰ}
use ytsync.Base.{◌≤◌, subst, List, [], ◌∷◌, All}
use ytsync.IpPool.{ThrottledIp}

abbrev pub Sorted : List ThrottledIp → Type 0
Sorted [] = Unit
Sorted (x ∷ xs) = All (λ y. x.last_use ≤ y.last_use) xs × Sorted xs

-- The documented contract: a rearrangement in the order of `Before`. It need not be stable.
pub record IsSort (sort : List ThrottledIp → List ThrottledIp) : Type 0 where
  pub rearranges : (xs : List ThrottledIp) → Permᴰ xs (sort xs)
  pub sorts : (xs : List ThrottledIp) → Sorted (sort xs)

pub All-perm :
    {xs ys : List ThrottledIp} (P : ThrottledIp → Type 0) → Permᴰ xs ys → All P xs → All P ys
All-perm P Permᴰ.nil h = h
All-perm P (Permᴰ.cons e d) h = (subst P e h.0, All-perm P d h.1)
All-perm P (Permᴰ.swap e₁ e₂) h = (subst P e₂ h.1.0, (subst P e₁ h.0, h.1.1))
All-perm P (Permᴰ.trans d₁ d₂) h = All-perm P d₂ (All-perm P d₁ h)
