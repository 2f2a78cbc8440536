-- ===== src/Strategy/Choice.antt =====
-- strategy/: a call of NextBackend while other requests run.
-- The consistent hash holds its mutex through the call; round robin takes the numbers of its counter
-- one by one, so that others may take some in between; and all four read the backends one after the
-- other, each in the state that it has at that moment.
use poly_balance.Base.{ℕ, ◌<◌, ◌≡◌, refl, subst, ap, Option, some, List, length}
use poly_balance.Backend.{Backend}
use poly_balance.Strategy.{
  Strategy, by_round_robin, by_least_connections, by_latency, by_consistent_hash, next_backend,
}
use poly_balance.Strategy.Hash.{Library}
use poly_balance.Strategy.Range.{InRange, next_backend-InRange}

-- What the object may have become meanwhile: round robin's counter is any.
abbrev pub Meets : Strategy → Strategy → Type 0
Meets (by_round_robin rr) (by_round_robin rr') = Unit
Meets s s' = s ≡ s'

-- A call on the object `old` over the backends `bs`, which picks `picked` and leaves the object as
-- `kept`: it goes as `NextBackend` goes from some counter, over some state of each backend.
pub record Choice (lib : Library) (old : Strategy) (bs : List Backend) (picked : Option ℕ)
    (kept : Strategy) : Type 0 where
  pub from : Strategy
  pub seen : List Backend
  pub now : ℕ
  pub after : Strategy
  pub begun : Meets old from
  pub one_each : length seen ≡ length bs
  pub scanned : next_backend lib from seen now ≡ (after, picked)
  pub ended : Meets after kept

Meets-refl : (s : Strategy) → Meets s s
Meets-refl (by_round_robin rr) = tt
Meets-refl by_least_connections = refl
Meets-refl by_latency = refl
Meets-refl (by_consistent_hash c) = refl

module _ (lib : Library) (old : Strategy) (bs : List Backend) where
  -- With nobody beside it.
  pub undisturbed :
      (now : ℕ) {picked : Option ℕ}
      → (next_backend lib old bs now).1 ≡ picked
      → Choice lib old bs picked (next_backend lib old bs now).0
  undisturbed now e = record {
    from = old;
    seen = bs;
    now = now;
    after = (next_backend lib old bs now).0;
    begun = Meets-refl old;
    one_each = refl;
    scanned = ap (λ o. ((next_backend lib old bs now).0, o)) e;
    ended = Meets-refl (next_backend lib old bs now).0;
  }

  pub Choice-inside : {i : ℕ} {kept : Strategy} → Choice lib old bs (some i) kept → i < length bs
  Choice-inside {i} c =
      subst (λ n. i < n) c.one_each
        (subst (λ r. InRange (length c.seen) r.1) c.scanned
          (next_backend-InRange lib c.from c.seen c.now))
