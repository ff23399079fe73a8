-- ===== src/Join/Store.antt =====
-- The join pairs of src/join.rs in a list, as handles and senders change them.
use asyncr.Prelude.{
  ℕ, ◌≡◌, refl, inl, inr, Bool, true, false, List, [], ◌∷◌, ◌++◌, some, Result, arith, get_elem?,
  set, get_elem?-append_cases, get_elem?-set_cases,
}
use asyncr.Join.{
  JoinError, JoinState, waiting, Pair, join_pair, poll, drop_handle, complete, publish_inner,
  publish, drop_sender,
}

abbrev pub is_waiting : {T W : Type 0} → JoinState T W → Bool
is_waiting (waiting _) = true
is_waiting _ = false

module _ {T W : Type 0} where
  -- What a handle or a sender does to its pair.
  pub data PairStep (pair : Pair T W) : Pair T W → Type 0 where
    polls : (w : W) → PairStep pair (record pair { state = (poll w pair.state).1 })
    detaches : PairStep pair (record pair { state = drop_handle pair.state })
    publishes : (result : Result T JoinError) → PairStep pair (publish result pair).1
    gives_up : PairStep pair (drop_sender pair).1

  -- Steps of pairs, and new pairs.
  pub data Joined (js : List (Pair T W)) : List (Pair T W) → Type 0 where
    as_before : Joined js js
    opened : {ks : List (Pair T W)} → Joined js ks → Joined js (ks ++ join_pair ∷ [])
    stepped :
        {ks : List (Pair T W)} (j : ℕ) {pair after : Pair T W}
        → Joined js ks
        → get_elem? ks j ≡ some pair
        → PairStep pair after
        → Joined js (set ks j after)

  -- The sender is there exactly as long as no result is.
  abbrev pub IsIntact : List (Pair T W) → Type 0
  IsIntact js =
      (j : ℕ) (pair : Pair T W) → get_elem? js j ≡ some pair → pair.armed ≡ is_waiting pair.state

  pub PairStep-intact :
      {pair after : Pair T W}
      → PairStep pair after
      → pair.armed ≡ is_waiting pair.state
      → after.armed ≡ is_waiting after.state
  unfolding poll drop_handle publish drop_sender publish_inner complete
  PairStep-intact {pair} (polls w) h = ground arith
  PairStep-intact {pair} detaches h = ground arith
  PairStep-intact {pair} (publishes result) h = ground arith
  PairStep-intact {pair} gives_up h = ground arith

  pub Joined-IsIntact : {js ks : List (Pair T W)} → Joined js ks → IsIntact js → IsIntact ks
  unfolding join_pair
  Joined-IsIntact as_before h = h
  Joined-IsIntact (opened {ks} steps) h = λ j pair e.
      elim (get_elem?-append_cases ks j join_pair pair e) [
        | inl (_, f) ↦ rw f refl
        | inr f ↦ Joined-IsIntact steps h j pair f
      ]
  Joined-IsIntact (stepped {ks} i {pair} {after} steps at step) h = λ j q e.
      elim (get_elem?-set_cases ks i j pair after q at e) [
        | inl (_, f) ↦ rw f (PairStep-intact step (Joined-IsIntact steps h i pair at))
        | inr f ↦ Joined-IsIntact steps h j q f
      ]
