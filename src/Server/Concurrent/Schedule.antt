-- ===== src/Server/Concurrent/Schedule.antt =====
-- One pass through the proxy as a schedule of its atomic steps.
use poly_balance.Base.{
  ℕ, zero, suc, ◌≡◌, refl, sym, ap, subst, List, [], ◌∷◌, some, get_elem?, modify, Bool-cases, inl,
  inr, sub_ℕ, if◌then◌else◌, get_elem?-modify_same,
}
use poly_balance.Backend.Float.{Float64}
use poly_balance.Backend.{
  Backend, check_circuit_state, get_circuit_state, is_open, can_attempt_half_open, inc_connections,
  dec_connections, record_latency, record_success, record_failure, set_circuit_half_open,
}
use poly_balance.Strategy.Hash.{Library}
use poly_balance.Proxy.{
  Sink, Outcome, answered, unreachable, Exchange, serve, forward, finish, probe,
}
use poly_balance.Server.Concurrent.{
  Phase, picked, gated, entering, flying, flown, attempted, Shared, write_back, Move, refuse, admit,
  see_open, see_other, cooled, too_early, promote, enter, answer, fail, copy, clock, close, World,
  turn, Reach, later,
}

-- One request alone, with the first strategy object.
abbrev pub alone : Shared → Phase → World
alone m p = record { shared = m; requests = record { held = 0; phase = p } ∷ [] }

write_twice :
    {A : Type 0} (xs : List A) (i : ℕ) (a b : A)
    → modify (modify xs i (λ _. a)) i (λ _. b) ≡ modify xs i (λ _. b)
write_twice [] i a b = refl
write_twice (x ∷ xs) zero a b = refl
write_twice (x ∷ xs) (suc i) a b = ap (◌∷◌ x) (write_twice xs i a b)

write_same :
    {A : Type 0} (xs : List A) (i : ℕ) (a : A) → get_elem? xs i ≡ some a → modify xs i (λ _. a) ≡ xs
write_same [] i a at = refl
write_same (x ∷ xs) zero a at = let same : a ≡ x = cc in ap (λ y. y ∷ xs) same
write_same (x ∷ xs) (suc i) a at = ap (◌∷◌ x) (write_same xs i a at)

-- The status that the recorder has after a pass, if `status` is what an answer leaves there.
abbrev pub code_of : Exchange → Backend → ℕ → ℕ
code_of x b status =
    if check_circuit_state b x.gate_at
    then (elim x.outcome [ answered s chunks ↦ status | unreachable ↦ 502 ])
    else 503

module _ (fl : Float64) (lib : Library) (s : World) where
  -- A step that leaves the backends alone.
  pub stay :
      {m : Shared} {p p' : Phase}
      → Reach fl lib s (alone m p)
      → Move fl lib m 0 p m p'
      → Reach fl lib s (alone m p')
  stay r move = later r (turn 0 refl move)

module _ (fl : Float64) (lib : Library) (s : World) (m : Shared) (i : ℕ) (b : Backend)
    (at : get_elem? m.backends i ≡ some b) where
  abbrev At : Backend → Phase → Type 0
  At c p = Reach fl lib s (alone (write_back m i c) p)

  found : (c : Backend) → get_elem? (write_back m i c).backends i ≡ some c
  found c = get_elem?-modify_same m.backends i c at

  -- A step that writes the backend again.
  rewrite-At :
      (c d : Backend) {p p' : Phase}
      → At c p
      → Move fl lib (write_back m i c) 0 p (write_back (write_back m i c) i d) p'
      → At d p'
  rewrite-At c d {p' = p'} r move =
      subst (λ bs. Reach fl lib s (alone (record m { backends = bs }) p'))
        (write_twice m.backends i c d) (later r (turn 0 refl move))

  probe-At : (left now : ℕ) → At b (gated left i) → At (probe now b) (entering left i)
  unfolding probe
  probe-At left now r = elim (Bool-cases (is_open (get_circuit_state b))) [
    | inr other ↦ rw (other, probe) (stay fl lib s r (see_other b (found b) other))
    | inl open_now ↦
        let r' = stay fl lib s r (see_open b (found b) open_now) in
        elim (Bool-cases (can_attempt_half_open b now)) [
          | inr early ↦
              rw (open_now, early, probe) (stay fl lib s r' (too_early b now (found b) early))
          | inl late ↦
              rw (open_now, late, probe)
                (rewrite-At b (set_circuit_half_open b)
                  (stay fl lib s r' (cooled b now (found b) late)) (promote b (found b)))
        ]
  ]

  module _ {W : Type 0} (sink : Sink W) (x : Exchange) where
    -- The outcome of the round trip, from the opened connection on.
    forward-At :
        (o : Outcome) (left status : ℕ) (c : Backend) (w : W)
        → At c (flying left i x.start_at)
        → At
            (forward sink x o (c, w)).0
            (flown left i x.start_at (elim o [ answered st chunks ↦ status | unreachable ↦ 502 ]))
    unfolding forward
    forward-At (answered st chunks) left status c w r =
        stay fl lib s (rewrite-At c (record_success c) r (answer c status (found c))) copy
    forward-At unreachable left status c w r =
        rewrite-At c (record_failure x.fail_at c) r (fail c x.fail_at (found c))

    finish-At :
        (left code : ℕ) (p : Backend × W)
        → At p.0 (flown left i x.start_at code)
        → At (finish fl x p).0 (attempted left code)
    unfolding finish
    finish-At left code (c, w) r =
        let timed = record_latency fl (sub_ℕ x.end_at x.start_at) c in
        rewrite-At timed (dec_connections timed) (rewrite-At c timed r (clock c x.end_at (found c)))
          (close timed (found timed))

    passed-At :
        (left status : ℕ) (w : W)
        → At b (gated left i)
        → At
            (finish fl x (forward sink x x.outcome (inc_connections (probe x.gate_at b), w))).0
            (attempted left (elim x.outcome [ answered st chunks ↦ status | unreachable ↦ 502 ]))
    passed-At left status w r =
        let c = probe x.gate_at b in
        let opened =
          rewrite-At c (inc_connections c) (probe-At left x.gate_at r)
            (enter c x.start_at (found c)) in
        finish-At left _ (forward sink x x.outcome (inc_connections c, w))
          (forward-At x.outcome left status (inc_connections c) w opened)

    -- One pass through the proxy is a run of the steps of one request.
    pub serve-Reach :
        (left status : ℕ) (w : W)
        → Reach fl lib s (alone m (picked left i))
        → At (serve sink fl x b w).0 (attempted left (code_of x b status))
    unfolding serve
    serve-Reach left status w r =
        let r' : At b (picked left i) =
          subst (λ bs. Reach fl lib s (alone (record m { backends = bs }) (picked left i)))
            (sym (write_same m.backends i b at)) r in
        elim (Bool-cases (check_circuit_state b x.gate_at)) [
          | inl up ↦
              rw (up, serve)
                (passed-At left status w (stay fl lib s r' (admit b x.gate_at (found b) up)))
          | inr down ↦ rw (down, serve) (stay fl lib s r' (refuse b x.gate_at (found b) down))
        ]
