-- ===== src/Join/Delivery.antt =====
-- How a task's result reaches its join handle (src/join.rs).
use asyncr.Prelude.{
  ◌≡◌, ◌≢◌, Bool, true, false, Option, none, some, Outcome, ok, panic, Panic, Poll, ready, pending,
  Result, error, arith,
}
use asyncr.Join.{
  JoinError, cancelled, JoinState, waiting, finished, consumed, Pair, join_pair, poll, drop_handle,
  publish, drop_sender,
}

module _ (T W : Type 0) where
  -- A pair in use. The rest is not the code's: whether the handle is alive, the waker of its last
  -- poll, the result that was sent (`Cancelled` for a sender dropped), the result that was received,
  -- and a panic of the code.
  pub record Use : Type 0 where
    pub pair : Pair T W
    pub handle : Bool
    pub last : Option W
    pub sent : Option (Result T JoinError)
    pub got : Option (Result T JoinError)
    pub faults : Option Panic

  abbrev pub fresh : Use
  fresh = record {
    pair = join_pair;
    handle = true;
    last = none;
    sent = none;
    got = none;
    faults = none;
  }

  abbrev received : Outcome (Poll (Result T JoinError)) → Use → Use
  received (ok pending) u = u
  received (ok (ready r)) u = record u { got = some r }
  received (panic p) u = record u { faults = some p }

  abbrev pub polled : W → Use → Use
  polled w u =
      let (answer, state) = poll w u.pair.state in
      let pair = u.pair in
      received answer (record u { pair = record pair { state = state }; last = some w })

  abbrev pub signalled : Result T JoinError → Outcome (Option W) × Pair T W → Use → Use
  signalled r (ok _, pair) u = record u { pair = pair; sent = some r }
  signalled r (panic p, pair) u = record u { pair = pair; faults = some p }

  abbrev handle_dropped : Use → Use
  handle_dropped u =
      let pair = u.pair in
      record u {
        pair = record pair { state = drop_handle pair.state };
        handle = false;
        last = none;
      }

  -- The uses that ownership allows: a sender is used up by `publish` or by its drop, a handle by its
  -- drop, and a handle that has given its result is not polled again.
  pub data Step (u : Use) : Use → Type 0 where
    polls : (w : W) → u.handle ≡ true → u.got ≡ none → Step u (polled w u)
    drops_handle : u.handle ≡ true → Step u (handle_dropped u)
    publishes : (r : Result T JoinError) → u.sent ≡ none → Step u (signalled r (publish r u.pair) u)
    drops_sender : u.sent ≡ none → Step u (signalled (error cancelled) (drop_sender u.pair) u)

  pub data Reach : Use → Type 0 where
    start : Reach fresh
    next : {u v : Use} → Reach u → Step u v → Reach v

  -- What the state says of the use.
  abbrev pub Fits : Use → JoinState T W → Type 0
  Fits u (waiting w) = (u.sent ≡ none) × (u.got ≡ none) × (w ≡ u.last)
  Fits u (finished r) = (u.sent ≡ some r) × (u.got ≡ none)
  Fits u consumed = (u.sent ≡ u.got) × (u.got ≢ none)

  pub record Inv (u : Use) : Type 0 where
    pub sound : u.faults ≡ none
    pub fits : Fits u u.pair.state
    pub armed : u.pair.armed ≡ true → u.sent ≡ none
    pub disarmed : u.pair.armed ≡ false → u.sent ≢ none
    pub unheard : u.handle ≡ false → u.last ≡ none

  Step-Inv : {u v : Use} → Step u v → Inv u → Inv v
  unfolding poll drop_handle publish drop_sender
  Step-Inv (polls w h g) i = ground arith
  Step-Inv (drops_handle h) i = ground arith
  Step-Inv (publishes r n) i = ground arith
  Step-Inv (drops_sender n) i = ground arith

  pub Reach-Inv : {u : Use} → Reach u → Inv u
  unfolding join_pair
  Reach-Inv start = ground arith
  Reach-Inv (next r st) = Step-Inv st (Reach-Inv r)

  -- Publishing wakes the waker of the handle's last poll, or nobody if the handle was never polled
  -- or is dropped, and the next poll receives the result; the drop of the sender that follows does
  -- not replace it by `Cancelled`.
  pub publish_delivers :
      {u : Use} (r : Result T JoinError) (w : W)
      → Reach u
      → u.sent ≡ none
      → let (woken, pair) = publish r u.pair in
        (woken ≡ ok u.last)
        × (poll w pair.state ≡ (ok (ready r), consumed))
        × (drop_sender pair ≡ (ok none, pair))
  unfolding publish poll
  publish_delivers {u} r w reach n =
      let i = Reach-Inv reach in ground (arith, i.fits, i.armed, i.disarmed)

  -- A sender that is dropped without publishing delivers `Cancelled` in the same way.
  pub drop_sender_delivers :
      {u : Use} (w : W)
      → Reach u
      → u.sent ≡ none
      → let (woken, pair) = drop_sender u.pair in
        (woken ≡ ok u.last) × (poll w pair.state ≡ (ok (ready (error cancelled)), consumed))
  unfolding drop_sender poll
  drop_sender_delivers {u} w reach n =
      let i = Reach-Inv reach in ground (arith, i.fits, i.armed, i.disarmed)
