-- ===== src/Tests/Scheduling.antt =====
-- The results on src/scheduling at concrete runs.
use asyncr.Prelude.{◌+◌, ◌≤◌, ◌≡◌, refl, ◌≢◌, arith, only_queued_polled, ready, pending}
use asyncr.Schedule.State.{queued, complete}
use asyncr.Schedule.Race.{
  Race, waiting, polling, crashed, claims, woken, sent, taken, begun, finished, fresh, wakes,
  sends_id, takes, begins, finishes, Reach, start, next,
}
use asyncr.Schedule.Race.Safety.{
  Reach-not-crashed, Reach-one_entry, stay, onward, Serving, signalled-repolled, complete-Steps,
}

-- A wake, its send, the receive, the first lock of the poll, and a wake while the poll runs.
abbrev woken_in_poll : Race
woken_in_poll = woken (begun (taken (sent (woken fresh))))

woken_in_poll-Reach : Reach woken_in_poll
unfolding woken sent taken begun
woken_in_poll-Reach =
    next
      (next (next (next (next start wakes) (sends_id (omega arith))) (takes refl (omega arith)))
        (begins refl))
      wakes

-- The poll that ends pending puts the task back.
abbrev requeued : Race
requeued = finished pending woken_in_poll

requeued-Reach : Reach requeued
unfolding woken sent taken begun
requeued-Reach = next woken_in_poll-Reach (finishes pending refl)

abbrev done : Race
done = finished (ready tt) woken_in_poll

done-Reach : Reach done
unfolding woken sent taken begun
done-Reach = next woken_in_poll-Reach (finishes (ready tt) refl)

Reach-not-crashed_example : woken_in_poll.control ≢ crashed only_queued_polled
Reach-not-crashed_example = Reach-not-crashed only_queued_polled woken_in_poll-Reach

Reach-one_entry_example :
    (requeued.in_flight + requeued.in_channel + claims requeued.control ≤ 1)
    × (requeued.state ≡ queued
        → requeued.in_flight + requeued.in_channel + claims requeued.control ≡ 1)
    × (requeued.in_flight + requeued.in_channel + claims requeued.control ≡ 1
        → requeued.state ≡ queued)
Reach-one_entry_example = Reach-one_entry requeued-Reach

queued-ne-complete : queued ≢ complete
queued-ne-complete e = cc

signalled-repolled_example : (t : Race) × Serving requeued t × (t.control ≡ polling)
unfolding woken sent taken begun finished
signalled-repolled_example = signalled-repolled requeued-Reach refl refl queued-ne-complete

complete-Steps_example :
    let t = woken done in
    (t.state ≡ complete) × (t.control ≡ waiting) × (t.in_flight + t.in_channel ≡ 0)
unfolding woken sent taken begun finished
complete-Steps_example = complete-Steps done-Reach refl (onward stay wakes)
