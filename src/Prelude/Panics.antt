-- ===== src/Prelude/Panics.antt =====
-- A call that may panic. Each panic that the code raises on purpose has a constructor here.

use mathlib.Core.Path.{◌≡◌, refl}
use mathlib.Core.Logic.{◌⊎◌, inl, inr}

pub data Panic : Type 0 where
  only_queued_polled not_running_at_finish not_admitted : Panic
  join_completed_twice join_polled_after_completion : Panic
  missing_registration timer_id_exhausted timer_out_of_range : Panic
  clock_out_of_range clock_already_paused clock_already_running : Panic
  clock_not_paused clock_backwards : Panic
  timeout_polled_after_completion zero_period : Panic
  no_current_runtime already_entered : Panic
  remainder_by_zero : Panic
  user_panic : Panic

pub data Outcome {ℓ} (A : Type ℓ) : Type ℓ where
  ok : A → Outcome A
  panic : Panic → Outcome A

infixl 5 ◌>>=◌
abbrev pub ◌>>=◌ {ℓ κ} : {A : Type ℓ} {B : Type κ} → Outcome A → (A → Outcome B) → Outcome B
ok a >>= f = f a
panic p >>= f = panic p

-- The result of `poll`.
pub data Poll {ℓ} (A : Type ℓ) : Type ℓ where
  ready : A → Poll A
  pending : Poll A

-- Rust's `Result`.
pub data Result {ℓ} (A E : Type ℓ) : Type ℓ where
  value : A → Result A E
  error : E → Result A E

pub Outcome-cases {ℓ} :
    {A : Type ℓ} (o : Outcome A) → ((p : Panic) × (o ≡ panic p)) ⊎ ((a : A) × (o ≡ ok a))
Outcome-cases (panic p) = inl (p, refl)
Outcome-cases (ok a) = inr (a, refl)
