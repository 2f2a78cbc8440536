-- ===== src/Server/Concurrent/Connections.antt =====
-- backend/backend.go's connection counts, and the requests that hold connections.
use poly_balance.Base.{
  ℕ, ◌+◌, ◌≤◌, ◌<◌, ◌≡◌, refl, sym, ap, String, ◌∙◌, List, [], ◌∷◌, ◌++◌, some, get_elem?, modify,
  length, length-append, length-modify, total, total-append, total-modify, total-le, written-cases,
  arith, pos, max_int64, inl, inr, true,
}
use poly_balance.Backend.Float.{Float64}
use poly_balance.Backend.{
  Backend, Op, set_alive_op, success_op, failure_op, apply, inc_connections, dec_connections,
  set_alive,
}
use poly_balance.Strategy.Hash.{Library}
use poly_balance.Server.Concurrent.{
  Phase, Flight, arriving, Shared, World, Step, turn, arrive, check, switch, Reach, here, later,
  is_verdict, first_phase,
}
use poly_balance.Server.Concurrent.Effects.{
  holds, Effect, quiet, touched, opened, closed, Move-Effect, success-connections,
  failure-connections,
}

abbrev pub connected : ℕ → List Flight → ℕ
connected i requests = total (λ r. holds i r.phase) requests

-- Every backend counts the requests that hold a connection to it, and no other.
abbrev pub Counted : List Backend → List Flight → Type 0
Counted bs requests =
    (i : ℕ) (b : Backend)
    → get_elem? bs i ≡ some b
    → b.active_connections ≡ pos (connected i requests)

holds-le : (i : ℕ) (p : Phase) → holds i p ≤ 1
holds-le i p = ground arith

connected-le : (i : ℕ) (rs : List Flight) → connected i rs ≤ length rs
connected-le i rs = total-le (λ r. holds i r.phase) (λ r. holds-le i r.phase) rs

opened_count :
    (n : ℕ) (b : Backend)
    → n < max_int64
    → b.active_connections ≡ pos n
    → (inc_connections b).active_connections ≡ pos (n + 1)
unfolding inc_connections
opened_count n b h e = ground arith

closed_count :
    (n : ℕ) (b : Backend)
    → b.active_connections ≡ pos (n + 1)
    → (dec_connections b).active_connections ≡ pos n
unfolding dec_connections
closed_count n b e = ground arith

module _ (bs : List Backend) (rs : List Flight) (k : ℕ) (q q' : Flight)
    (at : get_elem? rs k ≡ some q) where
  -- The count at the backend that was written, and at the others.
  same_place :
      (i j : ℕ) (b : Backend)
      → Counted bs rs
      → get_elem? bs j ≡ some b
      → i ≡ j
      → b.active_connections ≡ pos (connected i rs)
  same_place i j b counted found e = counted i b (ap (get_elem? bs) e ∙ found)

  moved :
      (i : ℕ)
      → connected i (modify rs k (λ _. q')) + holds i q.phase ≡ connected i rs + holds i q'.phase
  moved i = total-modify (λ r. holds i r.phase) rs k q q' at

  steady :
      (i : ℕ)
      → holds i q'.phase ≡ holds i q.phase
      → pos (connected i rs) ≡ pos (connected i (modify rs k (λ _. q')))
  steady i e = ap pos (omega (arith, moved i))

  -- The step of one request keeps the counts right.
  pub Effect-Counted :
      {bs' : List Backend}
      → length rs ≤ max_int64
      → Effect bs q.phase bs' q'.phase
      → Counted bs rs
      → Counted bs' (modify rs k (λ _. q'))
  Effect-Counted small (quiet keeps) counted i c read = counted i c read ∙ steady i (keeps i)
  Effect-Counted small (touched j b b' found same keeps) counted i c read =
      elim (written-cases bs i j b' found read) [
        | inl (e, written) ↦
            ap (λ x. x.active_connections) (sym written)
            ∙ same
            ∙ same_place i j b counted found e
            ∙ steady i (keeps i)
        | inr (apart, old) ↦ counted i c old ∙ steady i (keeps i)
      ]
  Effect-Counted small (opened j b found more) counted i c read =
      elim (written-cases bs i j (inc_connections b) found read) [
        | inl (e, written) ↦
            let one : holds i q'.phase ≡ holds i q.phase + 1 = ground (arith, more i) in
            let room : connected i rs < max_int64 = omega (
              arith,
              moved i,
              connected-le i (modify rs k (λ _. q')),
              length-modify {A = Flight} rs k (λ _. q'),
            ) in
            ap (λ x. x.active_connections) (sym written)
            ∙ opened_count (connected i rs) b room (same_place i j b counted found e)
            ∙ ap pos (omega (arith, moved i))
        | inr (apart, old) ↦ counted i c old ∙ steady i (ground (arith, more i))
      ]
  Effect-Counted small (closed j b found less) counted i c read =
      elim (written-cases bs i j (dec_connections b) found read) [
        | inl (e, written) ↦
            let one : holds i q.phase ≡ holds i q'.phase + 1 = ground (arith, less i) in
            let count = connected i (modify rs k (λ _. q')) in
            let before : pos (connected i rs) ≡ pos (count + 1) = ap pos (omega (arith, moved i)) in
            ap (λ x. x.active_connections) (sym written)
            ∙ closed_count count b (same_place i j b counted found e ∙ before)
        | inr (apart, old) ↦ counted i c old ∙ steady i (ground (arith, less i))
      ]

verdict-connections :
    (fl : Float64) (o : Op) (b : Backend)
    → is_verdict o ≡ true
    → (apply fl o b).active_connections ≡ b.active_connections
unfolding apply is_verdict set_alive
verdict-connections fl (set_alive_op alive) b v = refl
verdict-connections fl success_op b v = success-connections b
verdict-connections fl (failure_op now) b v = failure-connections now b
verdict-connections fl _ b v = ground arith

verdict-Counted :
    (bs : List Backend) (rs : List Flight) (j : ℕ) (b b' : Backend)
    → get_elem? bs j ≡ some b
    → b'.active_connections ≡ b.active_connections
    → Counted bs rs
    → Counted (modify bs j (λ _. b')) rs
verdict-Counted bs rs j b b' found same counted i c read =
    elim (written-cases bs i j b' found read) [
      | inl (e, written) ↦
          ap (λ x. x.active_connections) (sym written)
          ∙ same
          ∙ counted i b (ap (get_elem? bs) e ∙ found)
      | inr (apart, old) ↦ counted i c old
    ]

arrived :
    (i : ℕ) (m : Shared) (rs : List Flight) (method : String)
    → connected i (rs ++ (arriving m method ∷ [])) ≡ connected i rs
unfolding first_phase
arrived i m rs method =
    omega (arith, total-append (λ r. holds i r.phase) rs (arriving m method ∷ []))

module _ {fl : Float64} {lib : Library} where
  pub Step-Counted :
      {s t : World}
      → Step fl lib s t
      → length s.requests ≤ max_int64
      → Counted s.shared.backends s.requests
      → Counted t.shared.backends t.requests
  Step-Counted {s} (turn k {r} {p} at move) small counted =
      Effect-Counted s.shared.backends s.requests k r (record r { phase = p }) at small
        (Move-Effect move) counted
  Step-Counted {s} (arrive method) small counted =
      λ i c read. counted i c read ∙ ap pos (sym (arrived i s.shared s.requests method))
  Step-Counted {s} (check j b o found v) small counted =
      verdict-Counted s.shared.backends s.requests j b _ found (verdict-connections fl o b v)
        counted
  Step-Counted (switch strategy) small counted = counted

  pub Step-length : {s t : World} → Step fl lib s t → length s.requests ≤ length t.requests
  Step-length {s} (turn k {r} {p} at move) =
      omega (arith, length-modify {A = Flight} s.requests k (λ _. record r { phase = p }))
  Step-length {s} (arrive method) =
      omega (arith, length-append s.requests (arriving s.shared method ∷ []))
  Step-length (check j b o found v) = omega arith
  Step-length (switch strategy) = omega arith

  -- In every interleaving, with health checks and changes of the strategy in between, a backend's
  -- count of active connections is the number of requests that have opened a connection to it and
  -- not closed it, if it was so at the start, and as long as at most 2^63 - 1 requests have arrived.
  pub connections-Counted :
      {s t : World}
      → Reach fl lib s t
      → length t.requests ≤ max_int64
      → Counted s.shared.backends s.requests
      → Counted t.shared.backends t.requests
  connections-Counted here small counted = counted
  connections-Counted (later r step) small counted =
      let fewer = Step-length step in
      Step-Counted step (omega arith) (connections-Counted r (omega arith) counted)
