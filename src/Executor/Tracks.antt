-- ===== src/Executor/Tracks.antt =====
-- The task table of src/executor.rs across a poll: which schedules the ids have.
use asyncr.Prelude.{
  ◌≢◌, ℕ, ◌≡◌, refl, sym, ◌∙◌, ◌⊎◌, inl, inr, List, [], ◌∷◌, Option, none, some, arith, ==_cases,
  Option-cases,
}
use asyncr.Prelude.Map.{Map, get, insert, remove, get-insert, get-remove}
use asyncr.Shared.{LocalTask, root_task_id}
use asyncr.Executor.{admit}
use asyncr.Executor.Usage.{schedule_of, owner_of}

module _ {F : Type 0} where
  -- `m'` has the schedules of `m`, but for one id that it may have lost.
  abbrev pub Tracks : Type 0 → ℕ → Map (LocalTask F) → Map (LocalTask F) → Type 0
  Tracks lost id m m' =
      (j : ℕ)
      → (schedule_of (get j m') ≡ schedule_of (get j m))
        ⊎ (lost × (j ≡ id) × (schedule_of (get j m') ≡ none))

  insert-Tracks :
      {lost : Type 0} (id : ℕ) (t : LocalTask F) (m m' : Map (LocalTask F))
      → Tracks lost id m m'
      → Tracks lost id (insert t.id t m) (insert t.id t m')
  insert-Tracks id t m m' tracks j = elim (==_cases t.id j) [
    | inl e ↦ inl (ground (arith, get-insert t.id j t m, get-insert t.id j t m', e))
    | inr e ↦ elim (tracks j) [
      | inl f ↦ inl (ground (arith, get-insert t.id j t m, get-insert t.id j t m', e, f))
      | inr (l, g, f) ↦ inr (l, g, ground (arith, get-insert t.id j t m', e, f))
    ]
  ]

  pub admit-Tracks :
      {lost : Type 0} (id : ℕ) (ts : List (LocalTask F)) (m m' : Map (LocalTask F))
      → Tracks lost id m m'
      → Tracks lost id (admit ts m) (admit ts m')
  unfolding admit
  admit-Tracks id [] m m' tracks = tracks
  admit-Tracks id (t ∷ ts) m m' tracks =
      admit-Tracks id ts (insert t.id t m) (insert t.id t m') (insert-Tracks id t m m' tracks)

  pub update-Tracks :
      {lost : Type 0} (id : ℕ) (t t' : LocalTask F) (m : Map (LocalTask F))
      → get id m ≡ some t
      → t'.schedule ≡ t.schedule
      → Tracks lost id m (insert id t' m)
  update-Tracks id t t' m at same j = inl (elim (==_cases id j) [
    | inl e ↦ ground (arith, get-insert id j t' m, e, at, same)
    | inr e ↦ ground (arith, get-insert id j t' m, e)
  ])

  pub remove-Tracks :
      {lost : Type 0} (id : ℕ) (m : Map (LocalTask F)) → lost → Tracks lost id m (remove id m)
  remove-Tracks id m l j = elim (==_cases id j) [
    | inl e ↦ inr (l, sym e, ground (arith, get-remove id j m, e))
    | inr e ↦ inl (ground (arith, get-remove id j m, e))
  ]

  pub keyed-remove :
      (k : ℕ) (table : Map (LocalTask F)) (j : ℕ) (u : LocalTask F)
      → ((v : LocalTask F) → get j table ≡ some v → v.id ≡ j)
      → get j (remove k table) ≡ some u
      → u.id ≡ j
  keyed-remove k table j u keyed e = keyed u (ground (arith, get-remove k j table, e))

  pub owner_of-Tracks :
      {lost : Type 0} (root : Option ℕ) (id : ℕ) (m m' : Map (LocalTask F))
      → id ≢ root_task_id
      → Tracks lost id m m'
      → (i : ℕ)
      → (owner_of root m' i ≡ owner_of root m i) ⊎ (lost × (i ≡ id) × (owner_of root m' i ≡ none))
  owner_of-Tracks root id m m' ne tracks i = elim (tracks i) [
    | inl f ↦ inl (rw f refl)
    | inr (l, g, f) ↦ inr (
      l,
      g,
      elim (==_cases i root_task_id) [ inl e ↦ absurd (ne (sym g ∙ e)) | inr e ↦ rw (e, f) refl ],
    )
  ]

  pub owned_task :
      (root : Option ℕ) (id r : ℕ) (tasks : Map (LocalTask F))
      → id ≢ root_task_id
      → owner_of root tasks id ≡ some r
      → (t : LocalTask F) × (get id tasks ≡ some t) × (t.schedule ≡ r)
  owned_task root id r tasks ne o = elim (Option-cases (get id tasks)) [
    | inl e ↦ absurd (ground (arith, e, o, ne))
    | inr (t, e) ↦ (t, e, ground (arith, e, o, ne))
  ]
