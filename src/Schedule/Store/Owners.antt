-- ===== src/Schedule/Store/Owners.antt =====
-- Who owns the schedules of src/scheduling/mod.rs, when a task is spawned or done.
use asyncr.Prelude.{
  get_elem?-append_cases, get_elem?-append, get_elem?-append_last, ℕ, ◌<◌, ◌≤◌, ==_cases, ==_refl,
  ◌≡◌, refl, ap, sym, subst, ◌⊎◌, inl, inr, true, false, List, [], ◌∷◌, ◌++◌, Option, none, some,
  arith, ◌==◌, if◌then◌else◌, length, get_elem?,
}
use asyncr.Schedule.State.{idle}
use asyncr.Schedule.{TaskSchedule, Scheduler, new}
use asyncr.Schedule.Store.{is_live, Consistent, waiting-append}

module _ {owner : ℕ → Option ℕ} {next : ℕ} where
  -- Only a complete schedule may lose its owner.
  pub Consistent-disown :
      {hand : List ℕ} (s : Scheduler) (r id : ℕ) (v : TaskSchedule) (owner' : ℕ → Option ℕ)
      → Consistent owner hand next s
      → get_elem? s.schedules r ≡ some v
      → owner id ≡ some r
      → ((i : ℕ)
          → (owner' i ≡ owner i) ⊎ ((is_live v.state ≡ false) × (i ≡ id) × (owner' i ≡ none)))
      → Consistent owner' hand next s
  Consistent-disown s r id v owner' c at has changed = record {
    opened = c.opened;
    owned = λ q t k l. disowned q t (changed t.id) (c.owned q t k l) k l;
    held = λ i q o. c.held i q (kept i q (changed i) o);
    counted = c.counted;
    fresh = c.fresh;
  }
    where
      disowned :
          (q : ℕ) (t : TaskSchedule)
          → (owner' t.id ≡ owner t.id)
            ⊎ ((is_live v.state ≡ false) × (t.id ≡ id) × (owner' t.id ≡ none))
          → owner t.id ≡ some q
          → get_elem? s.schedules q ≡ some t
          → is_live t.state ≡ true
          → owner' t.id ≡ some q
      disowned q t (inl e) o k l = cc
      disowned q t (inr (dead, e, f)) o k l = cc

      kept :
          (i q : ℕ)
          → (owner' i ≡ owner i) ⊎ ((is_live v.state ≡ false) × (i ≡ id) × (owner' i ≡ none))
          → owner' i ≡ some q
          → owner i ≡ some q
      kept i q (inl e) o = cc
      kept i q (inr (dead, e, f)) o = cc

  -- `owner'` has the new schedule at the new id.
  pub new-Consistent :
      {hand : List ℕ} (s : Scheduler) (id next' : ℕ) (owner' : ℕ → Option ℕ)
      → Consistent owner hand next s
      → ((i : ℕ) → owner' i ≡ (if id == i then some (length s.schedules) else owner i))
      → owner id ≡ none
      → id < next'
      → next ≤ next'
      → Consistent owner' hand next' (new id s).1
  unfolding new
  new-Consistent s id next' owner' c changed unowned lt le = record {
    opened = c.opened;
    owned = λ q t k l.
        elim (get_elem?-append_cases s.schedules q (record { id = id; state = idle }) t k) [
          | inl (e, f) ↦
              subst (λ p. owner' p ≡ some q) (ap (λ x. x.id) (sym f))
                (rw (changed id, ==_refl id, e) refl)
          | inr e ↦ owned_still q t (changed t.id) (c.owned q t e l)
        ];
    held = λ i q o. elim (==_cases id i) [
      | inl f ↦ newest q i f (changed i) o
      | inr f ↦
          let (t, k, e) = c.held i q (old q i f (changed i) o) in
          (t, get_elem?-append s.schedules q (record { id = id; state = idle }) t k, e)
    ];
    counted = λ i.
        ground (
          arith,
          c.counted i,
          waiting-append s.schedules (record { id = id; state = idle } ∷ []) i,
        );
    fresh = λ q t k.
        elim (get_elem?-append_cases s.schedules q (record { id = id; state = idle }) t k) [
          | inl (e, f) ↦ subst (λ x. x.id < next') (sym f) lt
          | inr e ↦ omega (arith, c.fresh q t e)
        ];
  }
    where
      owned_still :
          (q : ℕ) (t : TaskSchedule)
          → owner' t.id ≡ (if id == t.id then some (length s.schedules) else owner t.id)
          → owner t.id ≡ some q
          → owner' t.id ≡ some q
      owned_still q t e o = elim (==_cases id t.id) [ inl f ↦ cc | inr f ↦ rw (e, f) o ]

      old :
          (q i : ℕ)
          → (id == i) ≡ false
          → owner' i ≡ (if id == i then some (length s.schedules) else owner i)
          → owner' i ≡ some q
          → owner i ≡ some q
      old q i f e o = ground (arith, e, f, o)

      newest :
          (q i : ℕ)
          → id ≡ i
          → owner' i ≡ (if id == i then some (length s.schedules) else owner i)
          → owner' i ≡ some q
          → (t : TaskSchedule) × (get_elem? (s.schedules ++ record { id = id; state = idle } ∷ []) q
              ≡ some t)
            × (t.id ≡ i)
      newest q i f e o = (
        record { id = id; state = idle },
        subst
            (λ p.
              get_elem? (s.schedules ++ record { id = id; state = idle } ∷ []) p
              ≡ some (record { id = id; state = idle }))
            (ground (arith, f, e, o))
            (get_elem?-append_last s.schedules (record { id = id; state = idle })),
        f,
      )
