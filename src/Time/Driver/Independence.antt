-- ===== src/Time/Driver/Independence.antt =====
-- What shows of the deadline heap of src/time/driver.rs, whose stale entries stay in it: only the
-- registrations.
use asyncr.Prelude.{ℕ, ◌≡◌, refl, sym, ◌∙◌, false, Option, none, some, arith}
use asyncr.Prelude.Map.{Map, get, contains_key}
use asyncr.Time.Driver.{
  TimerRegistration, TimerState, register, cancel, next_deadline, process_expired,
}
use asyncr.Time.Driver.Invariant.{Inv, register-Inv, cancel-Inv}
use asyncr.Time.Driver.Access.{register_lem, get-cancel}
use asyncr.Time.Driver.Fired.{process_expired-removes}
use asyncr.Time.Driver.Next.{IsEarliest, next_deadline-IsEarliest}

module _ {W : Type 0} where
  -- The same timers are registered.
  abbrev pub SameTimers : TimerState W → TimerState W → Type 0
  SameTimers s t = (j : ℕ) → get j s.registrations ≡ get j t.registrations

  IsEarliest-unique :
      (m n : Map (TimerRegistration W)) (a b : Option ℕ)
      → ((j : ℕ) → get j m ≡ get j n)
      → IsEarliest m a
      → IsEarliest n b
      → a ≡ b
  IsEarliest-unique m n none none same p q = refl
  IsEarliest-unique m n none (some e) same p ((j, r, f, g), least) =
      absurd (ground (arith, same j, p j, f))
  IsEarliest-unique m n (some d) none same ((j, r, f, g), least) q =
      absurd (ground (arith, same j, q j, f))
  IsEarliest-unique m n (some d) (some e) same ((j, r, f, g), least) ((i, u, h, k), first) =
      ground
        (arith, same j, same i, f, h, least i u (same i ∙ h), first j r (sym (same j) ∙ f), g, k)

  next_deadline-same :
      (s t : TimerState W)
      → Inv s
      → Inv t
      → SameTimers s t
      → (next_deadline s).0 ≡ (next_deadline t).0
  next_deadline-same s t v u same =
      IsEarliest-unique s.registrations t.registrations _ _ same (next_deadline-IsEarliest s v).0
        (next_deadline-IsEarliest t u).0

  process_expired-same :
      (now : ℕ) (s t : TimerState W)
      → Inv s
      → Inv t
      → SameTimers s t
      → SameTimers (process_expired now s).1 (process_expired now t).1
  process_expired-same now s t v u same j =
      let (_, left, _) = process_expired-removes now s v in
      let (_, right, _) = process_expired-removes now t u in ground (arith, left j, right j, same j)

  -- Cancelling a timer undoes its registration as far as anything can tell, though its entry stays in
  -- the heap: the same timers are registered as before, now and once the driver has fired at any
  -- time, and the next deadline is the same at both moments. The timers were well formed and the id
  -- was free.
  pub cancel-register :
      (d : ℕ) (w : W) (s : TimerState W)
      → Inv s
      → contains_key s.next_id s.registrations ≡ false
      → let t = cancel s.next_id (register d w s).1 in
        SameTimers t s
        × ((next_deadline t).0 ≡ (next_deadline s).0)
        × ((now : ℕ)
            → SameTimers (process_expired now t).1 (process_expired now s).1
              × ((next_deadline (process_expired now t).1).0
                  ≡ (next_deadline (process_expired now s).1).0))
  unfolding contains_key
  cancel-register d w s v free =
      let (_, _, at) = register_lem d w s free in
      let t = cancel s.next_id (register d w s).1 in
      let u : Inv t = cancel-Inv s.next_id (register d w s).1 (register-Inv d w s v) in
      let same : SameTimers t s =
        λ j. ground (arith, get-cancel s.next_id j (register d w s).1, at j, free) in
      (
        same,
        next_deadline-same t s u v same,
        λ now. (
          process_expired-same now t s u v same,
          next_deadline-same (process_expired now t).1 (process_expired now s).1
              (process_expired-removes now t u).0 (process_expired-removes now s v).0
              (process_expired-same now t s u v same),
        ),
      )
