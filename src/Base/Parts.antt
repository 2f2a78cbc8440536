-- ===== src/Base/Parts.antt =====
-- One part of a larger state, which others share: how it is read and replaced.
use mathlib.Core.Path.{◌≡◌}

pub record Cell (S A : Type 0) : Type 0 where
  pub get : S → A
  pub put : A → S → S
  pub get_put : (a : A) (s : S) → get (put a s) ≡ a
  pub put_put : (a b : A) (s : S) → put b (put a s) ≡ put b s
