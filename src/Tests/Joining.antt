-- ===== src/Tests/Joining.antt =====
-- The results on src/join.rs at concrete runs. Outputs and wakers are numbers.
use asyncr.Prelude.{ℕ, ◌≡◌, refl, none, ok, ready, value, error}
use asyncr.Join.{cancelled, consumed, join_pair, poll, publish, drop_sender}
use asyncr.Join.Delivery.{
  Use, fresh, polled, signalled, polls, Reach, start, next, publish_delivers, drop_sender_delivers,
}

-- The handle is polled twice, with two wakers.
abbrev waited : Use ℕ ℕ
waited = polled ℕ ℕ 8 (polled ℕ ℕ 7 (fresh ℕ ℕ))

waited-Reach : Reach ℕ ℕ waited
unfolding poll join_pair
waited-Reach = next (next start (polls 7 refl refl)) (polls 8 refl refl)

-- Then 42 is published, and received.
abbrev heard : Use ℕ ℕ
heard = polled ℕ ℕ 8 (signalled ℕ ℕ (value 42) (publish (value 42) waited.pair) waited)

publish_delivers_example :
    let (woken, pair) = publish (value 42) waited.pair in
    (woken ≡ ok waited.last)
    × (poll 9 pair.state ≡ (ok (ready (value 42)), consumed))
    × (drop_sender pair ≡ (ok none, pair))
unfolding poll join_pair
publish_delivers_example = publish_delivers ℕ ℕ (value 42) 9 waited-Reach refl

drop_sender_delivers_example :
    let (woken, pair) = drop_sender waited.pair in
    (woken ≡ ok waited.last) × (poll 9 pair.state ≡ (ok (ready (error cancelled)), consumed))
unfolding poll join_pair
drop_sender_delivers_example = drop_sender_delivers ℕ ℕ 9 waited-Reach refl
