-- ===== src/Prelude/Map.antt =====
-- `HashMap<u64, A>` as an association list with at most one live entry for a key.
use Prim.Native.Nat.{ℕ}
use mathlib.Core.Path.{◌≡◌}
use mathlib.Core.Bool.{Bool, true, false}
use mathlib.Core.List.{List, [], ◌∷◌}
use mathlib.Core.Option.{Option, none, some}
use native.Mathlib.Omega.{arith}
use asyncr.Prelude.Tests.{◌==◌, if◌then◌else◌}

abbrev pub Map {ℓ} : Type ℓ → Type ℓ
Map A = List (ℕ × A)

module _ {ℓ} {A : Type ℓ} where
  unfoldable pub get : ℕ → Map A → Option A
  get k [] = none
  get k ((j, a) ∷ m) = if j == k then some a else get k m

  unfoldable pub remove : ℕ → Map A → Map A
  remove k [] = []
  remove k ((j, a) ∷ m) = let rest = remove k m in if j == k then rest else (j, a) ∷ rest

  unfoldable pub insert : ℕ → A → Map A → Map A
  unfolding remove
  insert k a m = (k, a) ∷ remove k m

  unfoldable pub contains_key : ℕ → Map A → Bool
  unfolding get
  contains_key k m = elim (get k m) [ none ↦ false | some a ↦ true ]

  pub get-remove : (k j : ℕ) (m : Map A) → get j (remove k m) ≡ (if k == j then none else get j m)
  unfolding get remove
  get-remove k j [] = ground arith
  get-remove k j ((i, a) ∷ m) = ground (arith, get-remove k j m)

  pub get-insert :
      (k j : ℕ) (a : A) (m : Map A) → get j (insert k a m) ≡ (if k == j then some a else get j m)
  unfolding get insert
  get-insert k j a m = ground (arith, get-remove k j m)
