-- ===== src/Prelude/Places.antt =====
-- A part of a larger state: a component's operations act on the part, in place.
use mathlib.Core.Path.{◌≡◌}

pub record Place (W A : Type 0) : Type 0 where
  pub view : W → A
  pub put : A → W → W
  pub view-put : (a : A) (w : W) → view (put a w) ≡ a
  pub put-put : (a b : A) (w : W) → put b (put a w) ≡ put b w
  pub put-view : (w : W) → put (view w) w ≡ w
