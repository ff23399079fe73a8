-- ===== src/Schedule/Store.antt =====
-- The store of src/scheduling/mod.rs as the executor relies on it: who owns each schedule that can
-- still be polled, and which entries of the ready channel stand for which schedule.
pub mod Standing
pub mod Steps
pub mod Owners
use asyncr.Prelude.{
  ℕ, zero, suc, ◌+◌, ◌<◌, ◌≡◌, refl, ap, sym, subst, ◌≢◌, ◌⊎◌, inl, inr, Bool, true, false, List,
  [], ◌∷◌, ◌++◌, Option, none, some, Outcome, ok, panic, Poll, ready, pending, arith, ◌==◌,
  if◌then◌else◌, length, get_elem?, set, occurrences, occurrences-append,
}
use asyncr.Schedule.State.{ScheduleState, idle, queued, running, complete}
use asyncr.Schedule.Race.{entries, is_running}
use asyncr.Schedule.{
  TaskSchedule, Scheduler, send, apply_action, new, request_schedule, begin, finish,
}

-- A wake or a poll of the schedule may still begin: it is neither complete nor being polled.
abbrev pub is_live : ScheduleState → Bool
is_live idle = true
is_live queued = true
is_live _ = false

abbrev pub share : TaskSchedule → ℕ → ℕ
share t id = if t.id == id then entries t.state else 0

-- The number of queued schedules of an id.
abbrev pub waiting : List TaskSchedule → ℕ → ℕ
waiting [] id = 0
waiting (t ∷ ts) id = share t id + waiting ts id

-- `owner` gives the schedule that an id is polled under. A schedule whose poll panicked stays running
-- for ever, and has no owner. `hand` are ids received and not yet polled.
pub record Consistent (owner : ℕ → Option ℕ) (hand : List ℕ) (next : ℕ) (s : Scheduler)
    : Type 0 where
  pub opened : s.open_rx ≡ true
  pub owned :
      (r : ℕ) (t : TaskSchedule)
      → get_elem? s.schedules r ≡ some t
      → is_live t.state ≡ true
      → owner t.id ≡ some r
  pub held :
      (id r : ℕ)
      → owner id ≡ some r
      → (t : TaskSchedule) × (get_elem? s.schedules r ≡ some t) × (t.id ≡ id)
  pub counted : (id : ℕ) → occurrences hand id + occurrences s.ready id ≡ waiting s.schedules id
  pub fresh : (r : ℕ) (t : TaskSchedule) → get_elem? s.schedules r ≡ some t → t.id < next

pub waiting-set :
    (ts : List TaskSchedule) (r : ℕ) (t u : TaskSchedule) (id : ℕ)
    → get_elem? ts r ≡ some t
    → waiting (set ts r u) id + share t id ≡ waiting ts id + share u id
waiting-set [] r t u id h = cc
waiting-set (v ∷ ts) zero t u id h = ground arith
waiting-set (v ∷ ts) (suc r) t u id h = omega (arith, waiting-set ts r t u id h)

pub waiting-append :
    (ts us : List TaskSchedule) (id : ℕ) → waiting (ts ++ us) id ≡ waiting ts id + waiting us id
waiting-append [] us id = omega arith
waiting-append (t ∷ ts) us id = omega (arith, waiting-append ts us id)

-- Some queued schedule has the id.
abbrev pub Queued : ℕ → List TaskSchedule → Type 0
Queued id ts =
    (r : ℕ) × (t : TaskSchedule) × (get_elem? ts r ≡ some t) × (t.id ≡ id) × (t.state ≡ queued)

share-queued : (t : TaskSchedule) (id : ℕ) → 0 < share t id → (t.id ≡ id) × (t.state ≡ queued)
share-queued t id h = ground arith

zero_or_pos : (n : ℕ) → (n ≡ 0) ⊎ (0 < n)
zero_or_pos zero = inl refl
zero_or_pos (suc n) = inr (omega arith)

pub waiting-Queued : (ts : List TaskSchedule) (id : ℕ) → 0 < waiting ts id → Queued id ts
waiting-Queued [] id h = absurd (omega (arith, h))
waiting-Queued (t ∷ ts) id h = elim (zero_or_pos (share t id)) [
  | inr p ↦ (zero, t, refl, (share-queued t id p).0, (share-queued t id p).1)
  | inl e ↦
      let (r, u, at, named, is) = waiting-Queued ts id (omega (arith, e, h)) in
      (suc r, u, at, named, is)
]

-- An entry written under the same id.
pub get_elem?-set_id :
    (ts : List TaskSchedule) (r j : ℕ) (t u v : TaskSchedule)
    → get_elem? ts r ≡ some t
    → u.id ≡ t.id
    → get_elem? ts j ≡ some v
    → (w : TaskSchedule) × (get_elem? (set ts r u) j ≡ some w) × (w.id ≡ v.id)
get_elem?-set_id [] r j t u v h e k = cc
get_elem?-set_id (x ∷ ts) zero zero t u v h e k = (u, refl, cc)
get_elem?-set_id (x ∷ ts) zero (suc j) t u v h e k = (v, k, refl)
get_elem?-set_id (x ∷ ts) (suc r) zero t u v h e k = (v, k, refl)
get_elem?-set_id (x ∷ ts) (suc r) (suc j) t u v h e k = get_elem?-set_id ts r j t u v h e k
