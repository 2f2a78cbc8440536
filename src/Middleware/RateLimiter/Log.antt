-- ===== src/Middleware/RateLimiter/Log.antt =====
-- The limiter of middleware/ratelimit.go against a limiter that forgets nothing.
use poly_balance.Base.{
  ℕ, ◌≤◌, String, Bool, true, false, Bool-cases, inl, inr, ℤ, pos, ltb_ℤ, List, [], ◌∷◌, ◌++◌, ◌≡◌,
  refl, sym, ◌∙◌, ap, length, keep_if-append, keep_if-keep_if, arith, str_eq, str_eq_iff,
  if◌then◌else◌,
}
use poly_balance.Middleware.RateLimiter.{
  RateLimiter, times_of, put, valid_times, is_fresh, allow, cleanup,
}
use poly_balance.Middleware.RateLimiter.Table.{Distinct, times_of-put, put-Distinct}

-- A request of a client, or a tick of the cleanup goroutine, at a moment.
pub data Event : Type 0 where
  request : String → ℕ → Event
  sweep : ℕ → Event

abbrev pub moment : Event → ℕ
moment (request ip now) = now
moment (sweep now) = now

-- The moments do not go back, from `t` on.
abbrev pub Monotone : ℕ → List Event → Type 0
Monotone t [] = Unit
Monotone t (e ∷ es) = (t ≤ moment e) × Monotone (moment e) es

-- The admitted requests, oldest first.
abbrev pub Log : Type 0
Log = List (String × ℕ)

abbrev pub admit : Bool → String → ℕ → Log → Log
admit true ip now log = log ++ ((ip, now) ∷ [])
admit false ip now log = log

-- The limiter at work, with the log of what it admits.
unfoldable pub run_events : List Event → RateLimiter → Log → RateLimiter × Log
run_events [] rl log = (rl, log)
run_events (request ip now ∷ es) rl log =
    let (rl', ok) = allow ip now rl in run_events es rl' (admit ok ip now log)
run_events (sweep now ∷ es) rl log = run_events es (cleanup now rl) log

-- The times in the log of one client.
abbrev pub logged : String → Log → List ℕ
logged ip [] = []
logged ip ((k, t) ∷ log) = if str_eq k ip then t ∷ logged ip log else logged ip log

-- How many requests of the client the log has within the window that ends at a moment.
abbrev pub in_window : ℤ → String → ℕ → Log → ℕ
in_window window ip now log = length (valid_times window now (logged ip log))

-- The specification: a request is admitted exactly when the client has fewer admitted requests
-- within the window than the maximum.
unfoldable pub spec_events : ℤ → ℤ → List Event → Log → Log
spec_events max window [] log = log
spec_events max window (request ip now ∷ es) log =
    spec_events max window es (admit (ltb_ℤ (pos (in_window window ip now log)) max) ip now log)
spec_events max window (sweep now ∷ es) log = spec_events max window es log

pub fresh_before :
    (window : ℤ) (t now x : ℕ) → t ≤ now → is_fresh window now x ≡ true → is_fresh window t x ≡ true
unfolding is_fresh
fresh_before window t now x h f = ground arith

-- What was valid at an earlier moment keeps all that is valid now.
pub valid_times-twice :
    (window : ℤ) (t now : ℕ) (times : List ℕ)
    → t ≤ now
    → valid_times window now (valid_times window t times) ≡ valid_times window now times
valid_times-twice window t now times h =
    keep_if-keep_if (is_fresh window now) (is_fresh window t) times
      (λ x f. fresh_before window t now x h f)

pub logged-append :
    (ip : String) (log more : Log) → logged ip (log ++ more) ≡ logged ip log ++ logged ip more
logged-append ip [] more = refl
logged-append ip ((k, t) ∷ log) more = ground (arith, logged-append ip log more)

-- The limiter's table, at or after the moment `t`, tells of each client what the log tells: the
-- same times, but for those that are no longer valid.
pub record Agrees (t : ℕ) (rl : RateLimiter) (log : Log) : Type 0 where
  pub distinct : Distinct rl.requests
  pub same_times :
      (ip : String) (now : ℕ)
      → t ≤ now
      → valid_times rl.window now (times_of ip rl.requests)
        ≡ valid_times rl.window now (logged ip log)

Agrees-later :
    (t now : ℕ) (rl : RateLimiter) (log : Log) → t ≤ now → Agrees t rl log → Agrees now rl log
Agrees-later t now rl log h a = record {
  distinct = a.distinct;
  same_times = λ ip later k. a.same_times ip later (omega arith);
}

-- Storing the valid times of a client, and perhaps the new one, keeps the agreement.
pub put-Agrees :
    (t now : ℕ) (rl : RateLimiter) (log : Log) (ip : String) (ok : Bool) (more : List ℕ)
    → t ≤ now
    → Agrees t rl log
    → ((j : String)
        → logged j (admit ok ip now log)
          ≡ (if str_eq ip j then logged j log ++ more else logged j log))
    → Agrees now
        (record rl {
          requests =
              put ip (valid_times rl.window now (times_of ip rl.requests) ++ more) rl.requests;
        })
        (admit ok ip now log)
put-Agrees t now rl log ip ok more h a grows = record {
  distinct = put-Distinct ip _ rl.requests a.distinct;
  same_times = λ j later k.
      rw
        (
          times_of-put ip j (valid_times rl.window now (times_of ip rl.requests) ++ more)
              rl.requests,
          grows j,
        )
        (elim (Bool-cases (str_eq ip j)) [
          | inl same ↦
              let e : ip ≡ j = (str_eq_iff ip j).0 same in
              rw same (
                keep_if-append (is_fresh rl.window later)
                  (valid_times rl.window now (times_of ip rl.requests)) more
                ∙ ap (λ l. l ++ valid_times rl.window later more)
                    (valid_times-twice rl.window now later (times_of ip rl.requests) k
                      ∙ a.same_times ip later (omega arith)
                      ∙ ap (λ i. valid_times rl.window later (logged i log)) e)
                ∙ sym (keep_if-append (is_fresh rl.window later) (logged j log) more))
          | inr other ↦ rw other (a.same_times j later (omega arith))
        ]);
}
