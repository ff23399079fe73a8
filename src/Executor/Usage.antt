-- ===== src/Executor/Usage.antt =====
-- What user code may do to the state that it shares with the executor of src/executor.rs: wake
-- tasks, spawn them, and change what is neither the schedules nor the spawn state.
use asyncr.Prelude.{
  ℕ, suc, ◌<◌, ◌^◌, ◌≡◌, refl, inl, inr, false, List, [], ◌∷◌, ◌++◌, Option, none, some, arith,
  ◌==◌, if◌then◌else◌, length, Option-cases, ==_cases,
}
use asyncr.Prelude.Map.{Map, get, insert, get-insert}
use asyncr.Schedule
use asyncr.Schedule.{Scheduler}
use asyncr.Schedule.Store.{Consistent}
use asyncr.Schedule.Store.Steps.{request_schedule-Consistent}
use asyncr.Schedule.Store.Owners.{new-Consistent}
use asyncr.Join.Store.{Joined}
use asyncr.Catch
use asyncr.Shared.{
  LocalTask, SpawnState, Shared, root_task_id, next_id, request_schedule, submit, spawn,
}
use asyncr.Executor.{admit}

module _ {F : Type 0} where
  abbrev pub schedule_of : Option (LocalTask F) → Option ℕ
  schedule_of none = none
  schedule_of (some t) = some t.schedule

  -- The schedule that `block_on` polls an id under: the root's, or that of the task it has.
  abbrev pub owner_of : Option ℕ → Map (LocalTask F) → ℕ → Option ℕ
  owner_of root table id = if id == root_task_id then root else schedule_of (get id table)

  -- The tasks of the executor are those of its table and those that wait to be admitted.
  pub record Sound (root : Option ℕ) (hand : List ℕ) (tasks : Map (LocalTask F))
      (spawns : SpawnState F) (scheduler : Scheduler) : Type 0 where
    pub consistent :
        Consistent (owner_of root (admit spawns.pending_spawns tasks)) hand spawns.next_id scheduler
    pub keyed : (id : ℕ) (t : LocalTask F) → get id tasks ≡ some t → t.id ≡ id
    pub counting : 0 < spawns.next_id
    pub accepting : spawns.closed ≡ false

  pub admit-append :
      (ts : List (LocalTask F)) (t : LocalTask F) (tasks : Map (LocalTask F))
      → admit (ts ++ t ∷ []) tasks ≡ insert t.id t (admit ts tasks)
  unfolding admit
  admit-append [] t tasks = refl
  admit-append (u ∷ ts) t tasks = admit-append ts t (insert u.id u tasks)

module _ {F V : Type 0} (wake_custom : ℕ → Shared F V → Shared F V)
    (drop_future : F → Shared F V → Shared F V) where
  -- Wakes, and changes elsewhere; the join pairs change as handles and senders change them.
  pub data Quiet (s : Shared F V) : Shared F V → Type 0 where
    silent : Quiet s s
    rouses :
        {t : Shared F V} (r : ℕ)
        → Quiet s t
        → Quiet s (request_schedule wake_custom drop_future r t)
    alters :
        {t u : Shared F V}
        → Quiet s t
        → u.scheduler ≡ t.scheduler
        → u.spawns ≡ t.spawns
        → Joined t.joins u.joins
        → Quiet s u

  -- Spawns too, of which there are fewer than there are ids. A spawn after the close is a new pair
  -- that its sender gives up, and the drop of the future between the two.
  pub data Uses (s : Shared F V) : Shared F V → Type 0 where
    stays : Uses s s
    wakes :
        {t : Shared F V} (r : ℕ) → Uses s t → Uses s (request_schedule wake_custom drop_future r t)
    spawns :
        {t : Shared F V} (future : F)
        → Uses s t
        → t.spawns.closed ≡ false
        → suc t.spawns.next_id < 2 ^ 64
        → Uses s (spawn wake_custom drop_future future t).1
    changes :
        {t u : Shared F V}
        → Uses s t
        → u.scheduler ≡ t.scheduler
        → u.spawns ≡ t.spawns
        → Joined t.joins u.joins
        → Uses s u

  pub Uses-trans : {s t u : Shared F V} → Uses s t → Uses t u → Uses s u
  Uses-trans a stays = a
  Uses-trans a (wakes r b) = wakes r (Uses-trans a b)
  Uses-trans a (spawns future b accepting lt) = spawns future (Uses-trans a b) accepting lt
  Uses-trans a (changes b e f js) = changes (Uses-trans a b) e f js

  pub Quiet-Uses : {s t : Shared F V} → Quiet s t → Uses s t
  Quiet-Uses silent = stays
  Quiet-Uses (rouses r q) = wakes r (Quiet-Uses q)
  Quiet-Uses (alters q e f js) = changes (Quiet-Uses q) e f js

  pub Quiet-spawns : {s t : Shared F V} → Quiet s t → t.spawns ≡ s.spawns
  unfolding request_schedule
  Quiet-spawns silent = refl
  Quiet-spawns (rouses r q) = Quiet-spawns q
  Quiet-spawns (alters q e f js) = cc (Quiet-spawns q)

  -- What a spawn comes to while ids last.
  abbrev pub spawned : F → Shared F V → LocalTask F
  spawned future s = record {
    id = s.spawns.next_id;
    future = record { inner = Catch.new future; join = length s.joins };
    schedule = length s.scheduler.schedules;
  }

  next_id-fits : (n : ℕ) → 0 < n → suc n < 2 ^ 64 → next_id n ≡ (n, suc n)
  unfolding next_id
  next_id-fits n pos lt = ground arith

  pub spawn-parts :
      (future : F) (s : Shared F V)
      → s.spawns.closed ≡ false
      → 0 < s.spawns.next_id
      → suc s.spawns.next_id < 2 ^ 64
      → ((spawn wake_custom drop_future future s).1.scheduler
          ≡ Schedule.request_schedule
              (length s.scheduler.schedules)
              (Schedule.new s.spawns.next_id s.scheduler).1)
        × ((spawn wake_custom drop_future future s).1.spawns ≡ (
            let sp = s.spawns in
            record sp {
              next_id = suc s.spawns.next_id;
              pending_spawns = s.spawns.pending_spawns ++ spawned future s ∷ [];
            }))
  unfolding spawn submit request_schedule Schedule.new
  spawn-parts future s accepting pos lt =
      rw (submit, accepting, next_id-fits s.spawns.next_id pos lt) (refl, refl)

module _ {F : Type 0} where
  pub owner_of-insert :
      (root : Option ℕ) (t : LocalTask F) (table : Map (LocalTask F)) (j : ℕ)
      → 0 < t.id
      → owner_of root (insert t.id t table) j
        ≡ (if t.id == j then some t.schedule else owner_of root table j)
  owner_of-insert root t table j pos = ground (arith, get-insert t.id j t table)

  pub keyed-insert :
      (t : LocalTask F) (table : Map (LocalTask F)) (id : ℕ) (u : LocalTask F)
      → ((v : LocalTask F) → get id table ≡ some v → v.id ≡ id)
      → get id (insert t.id t table) ≡ some u
      → u.id ≡ id
  keyed-insert t table id u keyed e = elim (==_cases t.id id) [
    | inl f ↦ ground (arith, get-insert t.id id t table, e, f)
    | inr f ↦ keyed u (ground (arith, get-insert t.id id t table, e, f))
  ]

module _ {F : Type 0} {root : Option ℕ} {hand : List ℕ} {tasks : Map (LocalTask F)} where
  pub Sound-request :
      {spawns : SpawnState F} {scheduler : Scheduler} (r : ℕ)
      → Sound root hand tasks spawns scheduler
      → Sound root hand tasks spawns (Schedule.request_schedule r scheduler)
  Sound-request {spawns} {scheduler} r i = record {
    consistent = request_schedule-Consistent scheduler r i.consistent;
    keyed = i.keyed;
    counting = i.counting;
    accepting = i.accepting;
  }

  pub owned_before :
      {spawns : SpawnState F} {scheduler : Scheduler} (id : ℕ) {r : ℕ}
      → Sound root hand tasks spawns scheduler
      → owner_of root (admit spawns.pending_spawns tasks) id ≡ some r
      → id < spawns.next_id
  owned_before id {r} i e =
      let (t, at, named) = i.consistent.held id r e in
      omega (arith, i.consistent.fresh r t at, named)

  -- The id that a spawn takes is new.
  unowned :
      {spawns : SpawnState F} {scheduler : Scheduler}
      → Sound root hand tasks spawns scheduler
      → owner_of root (admit spawns.pending_spawns tasks) spawns.next_id ≡ none
  unowned {spawns} {scheduler} i =
      elim (Option-cases (owner_of root (admit spawns.pending_spawns tasks) spawns.next_id)) [
        | inl e ↦ e
        | inr (r, e) ↦ absurd (omega (arith, owned_before spawns.next_id i e))
      ]

  pub Sound-spawn :
      (s : SpawnState F) (scheduler : Scheduler) (t : LocalTask F)
      → t.id ≡ s.next_id
      → t.schedule ≡ length scheduler.schedules
      → Sound root hand tasks s scheduler
      → Sound root hand tasks
          (record s { next_id = suc s.next_id; pending_spawns = s.pending_spawns ++ t ∷ [] })
          (Schedule.new s.next_id scheduler).1
  Sound-spawn s scheduler t named at i = record {
    consistent =
        new-Consistent scheduler s.next_id (suc s.next_id)
          (owner_of root (admit (s.pending_spawns ++ t ∷ []) tasks)) i.consistent
          (λ j.
            rw
              (
                admit-append s.pending_spawns t tasks,
                owner_of-insert root t (admit s.pending_spawns tasks) j
                    (omega (arith, named, i.counting)),
                named,
                at,
              )
              refl)
          (unowned i) (omega arith) (omega arith);
    keyed = i.keyed;
    counting = omega arith;
    accepting = i.accepting;
  }
