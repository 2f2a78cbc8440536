-- ===== src/Middleware/RateLimiter/Window.antt =====
-- The limit of middleware/ratelimit.go: the requests within a window.
use poly_balance.Base.{
  ℕ, ◌+◌, ◌≤◌, ◌<◌, String, true, Bool-cases, inl, inr, ℤ, pos, ltb_ℤ, List, [], ◌∷◌, ◌++◌, ◌≡◌,
  sym, ◌∙◌, ap, subst, length, length-append, length-keep_if-le, keep_if-append,
  length-keep_if_mono, arith, str_eq, str_eq_iff, if◌then◌else◌,
}
use poly_balance.Middleware.RateLimiter.{new_rate_limiter, valid_times, is_fresh}
use poly_balance.Middleware.RateLimiter.Log.{
  Event, request, sweep, moment, Monotone, Log, admit, run_events, logged, logged-append, in_window,
  spec_events, fresh_before,
}
use poly_balance.Middleware.RateLimiter.Refine.{run_events-spec_events}

-- From the moment `t` on, the windows hold at most `max` requests of each client.
abbrev Bounded : ℕ → ℤ → ℕ → Log → Type 0
Bounded max window t log = (ip : String) (now : ℕ) → t ≤ now → in_window window ip now log ≤ max

in_window-later :
    (window : ℤ) (ip : String) (t now : ℕ) (log : Log)
    → t ≤ now
    → in_window window ip now log ≤ in_window window ip t log
in_window-later window ip t now log h =
    length-keep_if_mono (is_fresh window now) (is_fresh window t) (logged ip log)
      (λ x f. fresh_before window t now x h f)

in_window-append :
    (window : ℤ) (j ip : String) (now t : ℕ) (log : Log)
    → in_window window j now (log ++ ((ip, t) ∷ []))
      ≤ in_window window j now log + (if str_eq ip j then 1 else 0)
in_window-append window j ip now t log =
    let more = logged j ((ip, t) ∷ []) in
    let e : in_window window j now (log ++ ((ip, t) ∷ []))
        ≡ in_window window j now log + length (valid_times window now more) =
      ap (λ l. length (valid_times window now l)) (logged-append j log ((ip, t) ∷ []))
      ∙ ap length (keep_if-append (is_fresh window now) (logged j log) more)
      ∙ length-append (valid_times window now (logged j log)) (valid_times window now more) in
    let one : length (valid_times window now more) ≤ (if str_eq ip j then 1 else 0) =
      elim (Bool-cases (str_eq ip j)) [
        | inl same ↦ rw same (length-keep_if-le (is_fresh window now) (t ∷ []))
        | inr other ↦ rw other (omega arith)
      ] in
    omega arith

room_left : (max n : ℕ) → ltb_ℤ (pos n) (pos max) ≡ true → n < max
room_left max n h = ground arith

admit-Bounded :
    (max : ℕ) (window : ℤ) (ip : String) (t now : ℕ) (log : Log)
    → t ≤ now
    → ltb_ℤ (pos (in_window window ip now log)) (pos max) ≡ true
    → Bounded max window t log
    → Bounded max window now (log ++ ((ip, now) ∷ []))
admit-Bounded max window ip t now log h room bounded j later k =
    let more = in_window-append window j ip later now log in
    elim (Bool-cases (str_eq ip j)) [
      | inl same ↦
          let e : ip ≡ j = (str_eq_iff ip j).0 same in
          let below : ltb_ℤ (pos (in_window window j now log)) (pos max) ≡ true =
            subst (λ i. ltb_ℤ (pos (in_window window i now log)) (pos max) ≡ true) e room in
          let more' : in_window window j later (log ++ ((ip, now) ∷ []))
              ≤ in_window window j later log + 1 =
            rw same at more in
          let less : in_window window j now log < max =
            room_left max (in_window window j now log) below in
          omega (arith, in_window-later window j now later log k)
      | inr other ↦
          let more' : in_window window j later (log ++ ((ip, now) ∷ []))
              ≤ in_window window j later log + 0 =
            rw other at more in
          omega (arith, bounded j later (omega arith))
    ]

-- The moment of the last event.
abbrev pub last_moment : ℕ → List Event → ℕ
last_moment t [] = t
last_moment t (e ∷ es) = last_moment (moment e) es

spec-Bounded :
    (max : ℕ) (window : ℤ) (es : List Event) (t : ℕ) (log : Log)
    → Monotone t es
    → Bounded max window t log
    → Bounded max window (last_moment t es) (spec_events (pos max) window es log)
unfolding spec_events
spec-Bounded max window [] t log m b = b
spec-Bounded max window (request ip now ∷ es) t log m b =
    elim (Bool-cases (ltb_ℤ (pos (in_window window ip now log)) (pos max))) [
      | inl room ↦
          subst
            (λ ok.
              Bounded max window (last_moment now es)
                (spec_events (pos max) window es (admit ok ip now log)))
            (sym room)
            (spec-Bounded max window es now (log ++ ((ip, now) ∷ [])) m.1
              (admit-Bounded max window ip t now log m.0 room b))
      | inr full ↦
          subst
            (λ ok.
              Bounded max window (last_moment now es)
                (spec_events (pos max) window es (admit ok ip now log)))
            (sym full)
            (spec-Bounded max window es now log m.1 (λ j later k. b j later (omega arith)))
    ]
spec-Bounded max window (sweep now ∷ es) t log m b =
    spec-Bounded max window es now log m.1 (λ j later k. b j later (omega arith))

-- However the requests of however many clients arrive, and whenever the cleanup runs: from the last
-- event on, the window that ends at any moment holds at most `max` admitted requests of each client.
pub never_over_limit :
    (max : ℕ) (window : ℤ) (es : List Event) (ip : String) (now : ℕ)
    → Monotone 0 es
    → last_moment 0 es ≤ now
    → in_window window ip now (run_events es (new_rate_limiter (pos max) window true) []).1 ≤ max
never_over_limit max window es ip now m h =
    subst (λ log. in_window window ip now log ≤ max)
      (sym (run_events-spec_events (pos max) window es m))
      (spec-Bounded max window es 0 [] m (λ j later k. omega arith) ip now h)
