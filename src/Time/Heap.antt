-- ===== src/Time/Heap.antt =====
-- `BinaryHeap<Reverse<(Instant, TimerId)>>` as the list of its entries, the one that `peek` shows
-- first. `pop` takes the head off.
use asyncr.Prelude.{
  ℕ, ◌≤◌, ◌≡◌, refl, ◌⊎◌, inl, inr, Bool, ◌||◌, ◌&&◌, List, [], ◌∷◌, arith, ltb, leb, ◌==◌,
  if◌then◌else◌,
}

abbrev pub Heap : Type 0
Heap = List (ℕ × ℕ)

-- The order of the pairs.
abbrev pub entry_leb : ℕ → ℕ → ℕ → ℕ → Bool
entry_leb d i e j = ltb d e || (d == e && leb i j)

unfoldable pub push : ℕ → ℕ → Heap → Heap
push d i [] = (d, i) ∷ []
push d i ((e, j) ∷ h) =
    let rest = push d i h in if entry_leb d i e j then (d, i) ∷ (e, j) ∷ h else (e, j) ∷ rest

-- The entry (d, i) is in the heap.
abbrev pub Holds : ℕ → ℕ → Heap → Type 0
Holds d i [] = ⊥
Holds d i ((e, j) ∷ h) = ((d ≡ e) × (i ≡ j)) ⊎ Holds d i h

-- No entry is due before `d`.
abbrev pub From : ℕ → Heap → Type 0
From d [] = Unit {0}
From d ((e, j) ∷ h) = (d ≤ e) × From d h

abbrev pub IsSorted : Heap → Type 0
IsSorted [] = Unit {0}
IsSorted ((e, j) ∷ h) = From e h × IsSorted h

pub From-mono : {c d : ℕ} (h : Heap) → c ≤ d → From d h → From c h
From-mono [] le f = tt
From-mono ((e, j) ∷ h) le f = (omega arith, From-mono h le f.1)

pub From-Holds : {c : ℕ} (d i : ℕ) (h : Heap) → From c h → Holds d i h → c ≤ d
From-Holds d i [] f m = absurd m
From-Holds d i ((e, j) ∷ h) f (inl p) = omega arith
From-Holds d i ((e, j) ∷ h) f (inr m) = From-Holds d i h f.1 m

pub Holds-push_self : (d i : ℕ) (h : Heap) → Holds d i (push d i h)
unfolding push
Holds-push_self d i [] = inl (refl, refl)
Holds-push_self d i ((e, j) ∷ h) = ground (arith, Holds-push_self d i h)

pub Holds-push : (c k d i : ℕ) (h : Heap) → Holds c k h → Holds c k (push d i h)
unfolding push
Holds-push c k d i [] m = absurd m
Holds-push c k d i ((e, j) ∷ h) m = ground (arith, Holds-push c k d i h)

From-push : (c d i : ℕ) (h : Heap) → c ≤ d → From c h → From c (push d i h)
unfolding push
From-push c d i [] le f = (le, tt)
From-push c d i ((e, j) ∷ h) le f = ground (arith, From-push c d i h le f.1)

pub push-IsSorted : (d i : ℕ) (h : Heap) → IsSorted h → IsSorted (push d i h)
unfolding push
push-IsSorted d i [] s = (tt, tt)
push-IsSorted d i ((e, j) ∷ h) s =
    ground (arith, push-IsSorted d i h s.1, From-push e d i h, From-mono {c = d} {d = e} h)
