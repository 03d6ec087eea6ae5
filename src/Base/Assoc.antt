-- ===== src/Base/Assoc.antt =====
-- A HashMap as an association list with native numbers for keys; `insert` replaces, `remove` takes
-- every entry of the key away.
use mathlib.Core.Path.{◌≡◌, refl}
use mathlib.Core.List.{List, [], ◌∷◌}
use mathlib.Core.Option.{Option, none, some}
use mathlib.Core.Bool.{Bool, true, false}
use native.Mathlib.Omega.{arith}
use Prim.Native.Nat.{ℕ}
use gday_old.Base.Tests.{◌==◌, if◌then◌else◌}

abbrev pub Assoc {ℓ} : Type ℓ → Type ℓ
Assoc V = List (ℕ × V)

module _ {ℓ} {V : Type ℓ} where
  unfoldable pub lookup : ℕ → Assoc V → Option V
  lookup key [] = none
  lookup key ((first, value) ∷ rest) = if first == key then some value else lookup key rest

  unfoldable pub insert : ℕ → V → Assoc V → Assoc V
  insert key value [] = (key, value) ∷ []
  insert key value ((first, old) ∷ rest) =
      if first == key then (key, value) ∷ rest else (first, old) ∷ insert key value rest

  unfoldable pub remove : ℕ → Assoc V → Assoc V
  remove key [] = []
  remove key ((first, old) ∷ rest) =
      if first == key then remove key rest else (first, old) ∷ remove key rest

  abbrev pub is_some : Option V → Bool
  is_some none = false
  is_some (some value) = true

  abbrev pub contains_key : ℕ → Assoc V → Bool
  contains_key key entries = is_some (lookup key entries)

  pub lookup-insert :
      (key asked : ℕ) (value : V) (entries : Assoc V)
      → lookup asked (insert key value entries)
        ≡ (if key == asked then some value else lookup asked entries)
  unfolding lookup insert
  lookup-insert key asked value [] = refl
  lookup-insert key asked value ((first, old) ∷ rest) =
      ground (arith, lookup-insert key asked value rest)

  pub lookup-remove :
      (key asked : ℕ) (entries : Assoc V)
      → lookup asked (remove key entries) ≡ (if key == asked then none else lookup asked entries)
  unfolding lookup remove
  lookup-remove key asked [] = ground arith
  lookup-remove key asked ((first, old) ∷ rest) = ground (arith, lookup-remove key asked rest)
