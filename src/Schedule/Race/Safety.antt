-- ===== src/Schedule/Race/Safety.antt =====
-- What holds of one task's schedule (src/scheduling) in every interleaving.
use native.Mathlib.Decide.{dec_lt}
use asyncr.Prelude.{◌+◌, ◌≤◌, ◌<◌, ◌≡◌, refl, ◌≢◌, true, arith, Panic}
use asyncr.Schedule.State.{queued, complete}
use asyncr.Schedule.Race.{
  waiting, received, polling, crashed, Race, woken, sent, taken, begun, finished, Step, wakes,
  sends_id, takes, begins, finishes, Reach, next, claims, Inv, Reach-Inv,
}

-- In no interleaving of wakes, sends and polls does the executor reach an `unreachable!` of the
-- schedule: it never polls a task that is not queued, and never finishes one that is not running.
pub Reach-not-crashed : {s : Race} (p : Panic) → Reach s → s.control ≢ crashed p
Reach-not-crashed p r e = ground (arith, (Reach-Inv r).alive)

-- At any moment a task has at most one entry, counting its id in the channel, a send that is under
-- way and an id that the executor has received; and it has one exactly when its state is queued.
pub Reach-one_entry :
    {s : Race}
    → Reach s
    → (s.in_flight + s.in_channel + claims s.control ≤ 1)
      × (s.state ≡ queued → s.in_flight + s.in_channel + claims s.control ≡ 1)
      × (s.in_flight + s.in_channel + claims s.control ≡ 1 → s.state ≡ queued)
Reach-one_entry {s} r =
    let i = Reach-Inv r in
    (ground (arith, i.one_entry), ground (arith, i.one_entry), ground (arith, i.one_entry))

pub data Steps (s : Race) : Race → Type 0 where
  stay : Steps s s
  onward : {t u : Race} → Steps s t → Step t u → Steps s u

pub Steps-Reach : {s t : Race} → Reach s → Steps s t → Reach t
Steps-Reach r stay = r
Steps-Reach r (onward ss st) = next (Steps-Reach r ss) st

-- What is under way is done, with no further wake: a send that a lock has decided on, a receive,
-- and the first lock of `poll`.
pub data Serving (s : Race) : Race → Type 0 where
  rests : Serving s s
  delivers : {t : Race} → Serving s t → 0 < t.in_flight → Serving s (sent t)
  receives : {t : Race} → Serving s t → t.control ≡ waiting → 0 < t.in_channel → Serving s (taken t)
  polls : {t : Race} → Serving s t → t.control ≡ received → Serving s (begun t)

-- A receive and the first lock of `poll` lead from a state with an entry in the channel to a poll.
polls_from :
    {s : Race} (u : Race)
    → Serving s u
    → u.control ≡ waiting
    → u.state ≡ queued
    → 0 < u.in_channel
    → (t : Race) × Serving s t × (t.control ≡ polling)
unfolding taken begun
polls_from u path c q h = (begun (taken u), polls (receives path c h) refl, ground arith)

-- A wake that comes after a poll began is not lost: whenever the executor is back in its loop and
-- the task is not complete, what is under way is enough for another poll, with no further wake: the
-- pending send, if there is one, the executor's receive, and the first lock of `poll`.
pub signalled-repolled :
    {s : Race}
    → Reach s
    → s.signalled ≡ true
    → s.control ≡ waiting
    → s.state ≢ complete
    → (t : Race) × Serving s t × (t.control ≡ polling)
unfolding sent
signalled-repolled {s} r g c nc = elim (dec_lt 0 s.in_flight) [
  | yes h ↦ polls_from (sent s) (delivers rests h) c q (omega arith)
  | no h ↦ polls_from s rests c q (ground (arith, q, (Reach-Inv r).one_entry))
]
  where
    q : s.state ≡ queued
    q = ground (arith, (Reach-Inv r).kept g, (Reach-Inv r).poll_runs)

Step-complete : {s t : Race} → Step s t → Inv s → s.state ≡ complete → t.state ≡ complete
unfolding woken sent taken begun finished
Step-complete wakes i e = ground arith
Step-complete (sends_id h) i e = ground arith
Step-complete (takes c h) i e = ground arith
Step-complete (begins c) i e = ground arith
Step-complete (finishes result c) i e = ground arith

Steps-complete : {s t : Race} → Reach s → Steps s t → s.state ≡ complete → t.state ≡ complete
Steps-complete r stay e = e
Steps-complete r (onward ss st) e =
    Step-complete st (Reach-Inv (Steps-Reach r ss)) (Steps-complete r ss e)

-- A completed task stays complete, is in no queue, and is never polled again, whatever stale wakers
-- do.
pub complete-Steps :
    {s t : Race}
    → Reach s
    → s.state ≡ complete
    → Steps s t
    → (t.state ≡ complete) × (t.control ≡ waiting) × (t.in_flight + t.in_channel ≡ 0)
complete-Steps r e ss =
    let i = Reach-Inv (Steps-Reach r ss) in
    let c = Steps-complete r ss e in
    (c, ground (arith, i.one_entry, i.alive, i.poll_runs), ground (arith, i.one_entry))
