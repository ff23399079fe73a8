-- ===== src/Time/Sleep/Many/One.antt =====
-- What an operation of one sleep (src/time/sleep.rs) does to the others.
use asyncr.Prelude.{
  ℕ, suc, ◌^◌, ◌<◌, ◌≡◌, refl, sym, ◌∙◌, subst, ◌≢◌, ◌⊎◌, inl, inr, Bool, false, Option, none, some,
  arith, Option-cases, ◌==◌, ==_cases,
}
use asyncr.Prelude.Map.{Map, get, get-insert, get-remove, insert, remove, contains_key}
use asyncr.Time.Driver.{TimerRegistration, TimerState}
use asyncr.Time.Driver.Invariant.{Inv}
use asyncr.Time.Sleep
use asyncr.Time.Sleep.{Sleep}
use asyncr.Time.Sleep.Confined.{
  Confined, IsFresh, release-Confined, IsLive, poll-Confined, reset-Confined, drop-Confined,
}
use asyncr.Time.Sleep.Link.{
  LinkedAt, LinkedBy, IsLinked, poll-Answers, Answers-IsLinked, reset-IsLinked,
}
use asyncr.Time.Sleep.Many.{held_by, held, World, Sound, Replaced}

holds-cases : (o : Option ℕ) (id : ℕ) → (o ≡ some id) ⊎ (o ≢ some id)
holds-cases none id = inr (λ e. cc)
holds-cases (some j) id = elim (==_cases j id) [
  | inl e ↦ inl (rw e refl)
  | inr h ↦ inr (λ e. ground (arith, e, h))
]

module _ {W : Type 0} where
  module _ (x : World W) (v : Sound x) (k : ℕ) (sleeps : Map Sleep) (t : TimerState W)
      (change : Replaced x k sleeps t) where
    other : (j : ℕ) → (k == j) ≡ false → get j sleeps ≡ get j x.sleeps
    other j h = ground (arith, change.at j, h)

    this : get k sleeps ≡ change.next
    this = ground (arith, change.at k)

    -- An id that another sleep holds.
    foreign :
        (j id : ℕ)
        → (k == j) ≡ false
        → held j x.sleeps ≡ some id
        → (held k x.sleeps ≢ some id) × (held_by change.next ≢ some id)
    foreign j id h e = (
      (λ f. ground (arith, h, v.apart k j id f e)),
      (λ f. elim (change.confined.takes id f) [
        | inl g ↦ ground (arith, h, v.apart k j id g e)
        | inr (g, _) ↦ omega (arith, g, v.below j id e)
      ]),
    )

    replaced-below : (j id : ℕ) → held j sleeps ≡ some id → id < t.next_id
    replaced-below j id e = elim (==_cases k j) [
      | inl f ↦ elim (change.confined.takes id (ground (arith, e, f, this))) [
        | inl g ↦ omega (arith, v.below k id g, change.confined.grows)
        | inr (g, next) ↦ omega (arith, g, next)
      ]
      | inr h ↦ omega (arith, v.below j id (ground (arith, e, other j h)), change.confined.grows)
    ]

    apart_from :
        (j id : ℕ) → held k x.sleeps ≢ some id → held j x.sleeps ≡ some id → (k == j) ≡ false
    apart_from j id h e = elim (==_cases k j) [ inl same ↦ absurd (h (rw same e)) | inr f ↦ f ]

    replaced-owned :
        (id : ℕ) (r : TimerRegistration W)
        → get id t.registrations ≡ some r
        → (j : ℕ) × (held j sleeps ≡ some id)
    replaced-owned id r e = elim (holds-cases (held_by change.next) id) [
      | inl f ↦ (k, ground (arith, f, this))
      | inr f ↦ elim (holds-cases (held k x.sleeps) id) [
        | inl g ↦ absurd (ground (arith, e, change.confined.frees id g f))
        | inr g ↦
            let (j, h) = v.owned id r (sym (change.confined.spares id g f) ∙ e) in
            (j, rw (other j (apart_from j id g h)) h)
      ]
    ]

    replaced-apart : (i j id : ℕ) → held i sleeps ≡ some id → held j sleeps ≡ some id → i ≡ j
    replaced-apart i j id e f = elim (==_cases k i) [
      | inl a ↦ elim (==_cases k j) [
        | inl b ↦ cc
        | inr b ↦
            absurd ((foreign j id b (ground (arith, f, other j b))).1 (ground (arith, e, a, this)))
      ]
      | inr a ↦ elim (==_cases k j) [
        | inl b ↦
            absurd ((foreign i id a (ground (arith, e, other i a))).1 (ground (arith, f, b, this)))
        | inr b ↦ v.apart i j id (ground (arith, e, other i a)) (ground (arith, f, other j b))
      ]
    ]

    IsLinked-same :
        (sleep : Sleep) (o : Option ℕ)
        → sleep.registration ≡ o
        → ((id : ℕ) → o ≡ some id → get id t.registrations ≡ get id x.timers.registrations)
        → IsLinked x.now sleep x.timers
        → IsLinked x.now sleep t
    IsLinked-same sleep none e h l = rw e tt
    IsLinked-same sleep (some id) e h l =
        rw (e, h id refl) (subst (λ o. LinkedBy x.now sleep.deadline o x.timers) e l)

    -- What another sleep holds stays as it is.
    pub replaced_spares :
        (j id : ℕ)
        → (k == j) ≡ false
        → held j x.sleeps ≡ some id
        → (get j sleeps ≡ get j x.sleeps) × (get id t.registrations ≡ get id x.timers.registrations)
    replaced_spares j id h e =
        let (a, b) = foreign j id h e in (other j h, change.confined.spares id a b)

    pub replaced-Sound : Sound (record x { sleeps = sleeps; timers = t })
    replaced-Sound = record {
      inv = change.confined.inv;
      linked = λ j sleep e. elim (==_cases k j) [
        | inl f ↦ change.mine sleep (ground (arith, e, f, this))
        | inr f ↦
            let before : get j x.sleeps ≡ some sleep = sym (other j f) ∙ e in
            IsLinked-same sleep sleep.registration refl
              (λ id g.
                let holds : held j x.sleeps ≡ some id = rw before g in
                (replaced_spares j id f holds).1)
              (v.linked j sleep before)
      ];
      apart = replaced-apart;
      below = replaced-below;
      owned = replaced-owned;
    }

  pub fresh : (x : World W) → Sound x → suc x.timers.next_id < 2 ^ 64 → IsFresh x.timers
  unfolding contains_key
  fresh x v fits = elim (Option-cases (get x.timers.next_id x.timers.registrations)) [
    | inl e ↦ (ground (arith, e), fits)
    | inr (r, e) ↦
        let (k, h) = v.owned x.timers.next_id r e in absurd (omega (arith, v.below k _ h))
  ]

  live : (now : ℕ) (sleep : Sleep) (t : TimerState W) → IsLinked now sleep t → IsLive now sleep t
  live now sleep t l late id e gone = missed (subst (λ o. LinkedBy now sleep.deadline o t) e l)
    where
      missed : LinkedAt now sleep.deadline (get id t.registrations) → ⊥
      missed l = ground (arith, gone, late, l)

  idle : (t : TimerState W) → Inv t → Confined none none t t
  unfolding Sleep.release
  idle t v = release-Confined none t v

  pub polled-Replaced :
      (will_wake : W → W → Bool) (k : ℕ) (w : W) (sleep : Sleep) (x : World W)
      → Sound x
      → get k x.sleeps ≡ some sleep
      → suc x.timers.next_id < 2 ^ 64
      → let (_, sleep', t') = Sleep.poll will_wake x.now w sleep x.timers in
        Replaced x k (insert k sleep' x.sleeps) t'
  polled-Replaced will_wake k w sleep x v e fits =
      let (_, sleep', t') = Sleep.poll will_wake x.now w sleep x.timers in
      let free = fresh x v fits in
      let l = v.linked k sleep e in
      let answers = poll-Answers will_wake x.now w sleep x.timers l free.0 in
      record {
        next = some sleep';
        at = λ j. get-insert k j sleep' x.sleeps;
        confined = rw e (
            poll-Confined will_wake x.now w sleep x.timers v.inv free
              (live x.now sleep x.timers l));
        mine = λ s f. ground (arith, f, Answers-IsLinked will_wake x.now w sleep _ answers);
      }

  pub reset-Replaced :
      (k d : ℕ) (sleep : Sleep) (x : World W)
      → Sound x
      → get k x.sleeps ≡ some sleep
      → let (sleep', t') = Sleep.reset d sleep x.timers in
        Replaced x k (insert k sleep' x.sleeps) t'
  reset-Replaced k d sleep x v e =
      let (sleep', t') = Sleep.reset d sleep x.timers in
      record {
        next = some sleep';
        at = λ j. get-insert k j sleep' x.sleeps;
        confined = rw e (reset-Confined d sleep x.timers v.inv);
        mine = λ s f. ground (arith, f, (reset-IsLinked x.now d sleep x.timers).1);
      }

  pub drop-Replaced :
      (k : ℕ) (sleep : Sleep) (x : World W)
      → Sound x
      → get k x.sleeps ≡ some sleep
      → Replaced x k (remove k x.sleeps) (Sleep.drop sleep x.timers)
  drop-Replaced k sleep x v e = record {
    next = none;
    at = λ j. get-remove k j x.sleeps;
    confined = rw e (drop-Confined sleep x.timers v.inv);
    mine = λ s f. cc;
  }

  pub new-Replaced :
      (k d : ℕ) (x : World W)
      → Sound x
      → get k x.sleeps ≡ none
      → Replaced x k (insert k (Sleep.new d) x.sleeps) x.timers
  unfolding Sleep.new
  new-Replaced k d x v e = record {
    next = some (Sleep.new d);
    at = λ j. get-insert k j (Sleep.new d) x.sleeps;
    confined = rw e (idle x.timers v.inv);
    mine = λ s f. ground (arith, f);
  }
