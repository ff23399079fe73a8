-- ===== src/Prelude/Lists.antt =====
-- Lists over the native numbers, under the library's names: lengths, indices, counts, predicates.
use Prim.Native.Nat.{ℕ, zero, suc, ◌+◌}
use mathlib.Core.Path.{◌≡◌, refl, ap}
use mathlib.Core.Logic.{◌≢◌, ◌⊎◌, inl, inr}
use mathlib.Core.List.{List, [], ◌∷◌, ◌++◌}
use mathlib.Core.Option.{Option, none, some}
use native.Mathlib.Omega.{arith}
use asyncr.Prelude.Tests.{◌==◌, if◌then◌else◌}

module _ {ℓ} {A : Type ℓ} where
  abbrev pub length : List A → ℕ
  length [] = 0
  length (x ∷ xs) = suc (length xs)

  abbrev pub get_elem? : List A → ℕ → Option A
  get_elem? [] i = none
  get_elem? (x ∷ xs) zero = some x
  get_elem? (x ∷ xs) (suc i) = get_elem? xs i

  -- A write out of bounds changes nothing.
  abbrev pub set : List A → ℕ → A → List A
  set [] i v = []
  set (x ∷ xs) zero v = v ∷ xs
  set (x ∷ xs) (suc i) v = x ∷ set xs i v

  pub length-append : (xs ys : List A) → length (xs ++ ys) ≡ length xs + length ys
  length-append [] ys = omega arith
  length-append (x ∷ xs) ys = omega (arith, length-append xs ys)

  pub length-set : (xs : List A) (i : ℕ) (v : A) → length (set xs i v) ≡ length xs
  length-set [] i v = refl
  length-set (x ∷ xs) zero v = refl
  length-set (x ∷ xs) (suc i) v = ap suc (length-set xs i v)

  pub get_elem?-set_self :
      (xs : List A) (i : ℕ) (v : A) {w : A}
      → get_elem? xs i ≡ some w
      → get_elem? (set xs i v) i ≡ some v
  get_elem?-set_self [] i v h = cc
  get_elem?-set_self (x ∷ xs) zero v h = refl
  get_elem?-set_self (x ∷ xs) (suc i) v h = get_elem?-set_self xs i v h

  pub get_elem?-set_ne :
      (xs : List A) (i j : ℕ) (v : A) → i ≢ j → get_elem? (set xs i v) j ≡ get_elem? xs j
  get_elem?-set_ne [] i j v h = refl
  get_elem?-set_ne (x ∷ xs) zero zero v h = absurd (h refl)
  get_elem?-set_ne (x ∷ xs) zero (suc j) v h = refl
  get_elem?-set_ne (x ∷ xs) (suc i) zero v h = refl
  get_elem?-set_ne (x ∷ xs) (suc i) (suc j) v h = get_elem?-set_ne xs i j v (λ e. h (ap suc e))

  pub get_elem?-set_cases :
      (ts : List A) (r j : ℕ) (t u v : A)
      → get_elem? ts r ≡ some t
      → get_elem? (set ts r u) j ≡ some v
      → ((j ≡ r) × (v ≡ u)) ⊎ (get_elem? ts j ≡ some v)
  get_elem?-set_cases [] r j t u v h k = cc
  get_elem?-set_cases (w ∷ ts) zero zero t u v h k = inl (refl, cc)
  get_elem?-set_cases (w ∷ ts) zero (suc j) t u v h k = inr k
  get_elem?-set_cases (w ∷ ts) (suc r) zero t u v h k = inr k
  get_elem?-set_cases (w ∷ ts) (suc r) (suc j) t u v h k =
      elim (get_elem?-set_cases ts r j t u v h k) [ inl p ↦ inl (ap suc p.0, p.1) | inr e ↦ inr e ]

  pub get_elem?-append_cases :
      (ts : List A) (j : ℕ) (u v : A)
      → get_elem? (ts ++ u ∷ []) j ≡ some v
      → ((j ≡ length ts) × (v ≡ u)) ⊎ (get_elem? ts j ≡ some v)
  get_elem?-append_cases [] zero u v h = inl (refl, cc)
  get_elem?-append_cases [] (suc j) u v h = cc
  get_elem?-append_cases (t ∷ ts) zero u v h = inr h
  get_elem?-append_cases (t ∷ ts) (suc j) u v h = elim (get_elem?-append_cases ts j u v h) [
    | inl p ↦ inl (ap suc p.0, p.1)
    | inr e ↦ inr e
  ]

  pub get_elem?-append :
      (ts : List A) (j : ℕ) (u v : A)
      → get_elem? ts j ≡ some v
      → get_elem? (ts ++ u ∷ []) j ≡ some v
  get_elem?-append [] j u v h = cc
  get_elem?-append (t ∷ ts) zero u v h = h
  get_elem?-append (t ∷ ts) (suc j) u v h = get_elem?-append ts j u v h

  pub get_elem?-append_last : (ts : List A) (u : A) → get_elem? (ts ++ u ∷ []) (length ts) ≡ some u
  get_elem?-append_last [] u = refl
  get_elem?-append_last (t ∷ ts) u = get_elem?-append_last ts u

-- A predicate that holds of every element.
abbrev pub All {ℓ κ} : {A : Type ℓ} → (A → Type κ) → List A → Type κ
All holds [] = Unit
All holds (first ∷ rest) = holds first × All holds rest

abbrev pub Any {ℓ} : {A : Type ℓ} → (A → Type 0) → List A → Type 0
Any holds [] = ⊥
Any holds (first ∷ rest) = holds first ⊎ Any holds rest

pub Any-append_left {ℓ} :
    {A : Type ℓ} (holds : A → Type 0) (front back : List A)
    → Any holds front
    → Any holds (front ++ back)
Any-append_left holds [] back absent = absurd absent
Any-append_left holds (first ∷ front) back (inl here) = inl here
Any-append_left holds (first ∷ front) back (inr there) =
    inr (Any-append_left holds front back there)

pub Any-append_right {ℓ} :
    {A : Type ℓ} (holds : A → Type 0) (front back : List A)
    → Any holds back
    → Any holds (front ++ back)
Any-append_right holds [] back there = there
Any-append_right holds (first ∷ front) back there = inr (Any-append_right holds front back there)

-- How often a number stands in a list.
abbrev pub occurrences : List ℕ → ℕ → ℕ
occurrences [] key = 0
occurrences (first ∷ rest) key =
    if first == key then suc (occurrences rest key) else occurrences rest key

pub occurrences-append :
    (front back : List ℕ) (key : ℕ)
    → occurrences (front ++ back) key ≡ occurrences front key + occurrences back key
occurrences-append [] back key = omega arith
occurrences-append (first ∷ rest) back key = ground (arith, occurrences-append rest back key)
