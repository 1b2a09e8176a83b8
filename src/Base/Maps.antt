-- ===== src/Base/Maps.antt =====
-- Go maps with text keys, as association lists. `range` over a Go map has no fixed order: what
-- iterates takes the entries in the order of the list, and is stated for every list.
use Prim.Native.String.{String}
use mathlib.Core.Path.{◌≡◌, refl}
use mathlib.Core.Bool.{Bool, false, ◌||◌}
use mathlib.Core.Option.{Option, none, some}
use mathlib.Core.List.{List, [], ◌∷◌}
use native.Mathlib.Omega.{arith}
use ytsync.Base.Tests.{if◌then◌else◌}
use ytsync.Base.Text.{str_eq, eq_iff}

abbrev pub Dict {ℓ} : Type ℓ → Type ℓ
Dict V = List (String × V)

module _ {ℓ} {V : Type ℓ} where
  -- _, ok := m[key]
  unfoldable pub has_key : String → Dict V → Bool
  has_key key [] = false
  has_key key ((a, _) ∷ rest) = str_eq a key || has_key key rest

  -- delete(m, key)
  unfoldable pub delete : String → Dict V → Dict V
  delete key [] = []
  delete key ((a, x) ∷ rest) =
      let others = delete key rest in if str_eq a key then others else (a, x) ∷ others

  -- m[key]
  unfoldable pub lookup : String → Dict V → Option V
  lookup key [] = none
  lookup key ((a, x) ∷ rest) = if str_eq a key then some x else lookup key rest

  -- m[key] = x
  unfoldable pub insert : String → V → Dict V → Dict V
  insert key x [] = (key, x) ∷ []
  insert key x ((a, y) ∷ rest) =
      if str_eq a key then (key, x) ∷ rest else (a, y) ∷ insert key x rest

  pub has_key-insert :
      (key other : String) (x : V) (d : Dict V)
      → has_key other (insert key x d) ≡ (str_eq key other || has_key other d)
  unfolding has_key insert
  has_key-insert key other x [] = refl
  has_key-insert key other x ((a, y) ∷ rest) =
      let ih = has_key-insert key other x rest in
      ground (arith, ih, eq_iff a other, eq_iff a key, eq_iff key other)

  pub lookup-delete :
      (key other : String) (d : Dict V)
      → lookup other (delete key d) ≡ (if str_eq key other then none else lookup other d)
  unfolding lookup delete
  lookup-delete key other [] = ground arith
  lookup-delete key other ((a, y) ∷ rest) =
      let ih = lookup-delete key other rest in
      ground (arith, ih, eq_iff a other, eq_iff a key, eq_iff key other)

  pub lookup-insert :
      (key other : String) (x : V) (d : Dict V)
      → lookup other (insert key x d) ≡ (if str_eq key other then some x else lookup other d)
  unfolding lookup insert
  lookup-insert key other x [] = refl
  lookup-insert key other x ((a, y) ∷ rest) =
      let ih = lookup-insert key other x rest in
      ground (arith, ih, eq_iff a other, eq_iff a key, eq_iff key other)

  pub has_key-lookup : (key : String) (d : Dict V) → has_key key d ≡ false → lookup key d ≡ none
  unfolding has_key lookup
  has_key-lookup key [] h = refl
  has_key-lookup key ((a, y) ∷ rest) h = ground (arith, has_key-lookup key rest)
