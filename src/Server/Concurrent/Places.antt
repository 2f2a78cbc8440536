-- ===== src/Server/Concurrent/Places.antt =====
-- The positions that requests under way work at, and the strategy objects that they hold.
use poly_balance.Base.{
  ℕ, ◌<◌, ◌≡◌, refl, sym, subst, List, [], ◌∷◌, ◌++◌, modify, length, length-append, length-modify,
  All, All-modify_at, arith,
}
use poly_balance.Backend.Float.{Float64}
use poly_balance.Strategy.Choice.{Choice-inside}
use poly_balance.Strategy.Hash.{Library}
use poly_balance.Server.Concurrent.{
  Phase, picked, gated, checking, promoting, entering, flying, copying, flown, closing, Shared,
  Move, pick, give_up, refuse, admit, see_open, see_other, cooled, too_early, promote, enter,
  answer, fail, copy, break_off, clock, close, retry, exhaust, settled, World, Flight, arriving,
  Step, turn, arrive, check, switch, Reach, here, later, first_phase,
}

-- The position that a request works at is one of `n`.
abbrev pub Placed : ℕ → Phase → Type 0
Placed n (picked left i) = i < n
Placed n (gated left i) = i < n
Placed n (checking left i) = i < n
Placed n (promoting left i) = i < n
Placed n (entering left i) = i < n
Placed n (flying left i start) = i < n
Placed n (copying left i start code) = i < n
Placed n (flown left i start code) = i < n
Placed n (closing left i code) = i < n
Placed n _ = Unit

-- What a move does to the number of backends and strategy objects and to the position.
abbrev Stays : Shared → Phase → Shared → Phase → Type 0
Stays m p m' p' =
    (length m'.backends ≡ length m.backends)
    × (length m'.strategies ≡ length m.strategies)
    × (m'.current ≡ m.current)
    × (Placed (length m.backends) p → Placed (length m.backends) p')

-- A request holds one of `m` strategy objects and works at one of `n` backends.
abbrev pub Fits : ℕ → ℕ → Flight → Type 0
Fits n m r = (r.held < m) × Placed n r.phase

-- The requests of a world fit it, and so does what the next one is handed.
abbrev pub IsPlaced : World → Type 0
IsPlaced s =
    (s.shared.current < length s.shared.strategies)
    × All (Fits (length s.shared.backends) (length s.shared.strategies)) s.requests

All-append_one :
    (P : Flight → Type 0) (rs : List Flight) (p : Flight) → All P rs → P p → All P (rs ++ (p ∷ []))
All-append_one P [] p all q = (q, tt)
All-append_one P (r ∷ rs) p all q = (all.0, All-append_one P rs p all.1 q)

All-weaken :
    (P Q : Flight → Type 0) (rs : List Flight) → ((r : Flight) → P r → Q r) → All P rs → All Q rs
All-weaken P Q [] implies all = tt
All-weaken P Q (r ∷ rs) implies all = (implies r all.0, All-weaken P Q rs implies all.1)

module _ (fl : Float64) (lib : Library) where
  Move-Stays : {m m' : Shared} {o : ℕ} {p p' : Phase} → Move fl lib m o p m' p' → Stays m p m' p'
  Move-Stays {m} {o = o} (pick {i = i} old held choice) = (
    refl,
    length-modify m.strategies o _,
    refl,
    λ placed. Choice-inside lib old m.backends choice,
  )
  Move-Stays {m} {o = o} (give_up old held choice) =
      (refl, length-modify m.strategies o _, refl, λ placed. tt)
  Move-Stays (refuse b now at e) = (refl, refl, refl, λ placed. tt)
  Move-Stays (admit b now at e) = (refl, refl, refl, λ placed. placed)
  Move-Stays (see_open b at e) = (refl, refl, refl, λ placed. placed)
  Move-Stays (see_other b at e) = (refl, refl, refl, λ placed. placed)
  Move-Stays (cooled b now at e) = (refl, refl, refl, λ placed. placed)
  Move-Stays (too_early b now at e) = (refl, refl, refl, λ placed. placed)
  Move-Stays {m} (promote {i = i} b at) =
      (length-modify m.backends i _, refl, refl, λ placed. placed)
  Move-Stays {m} (enter {i = i} b start at) =
      (length-modify m.backends i _, refl, refl, λ placed. placed)
  Move-Stays {m} (answer {i = i} b code at) =
      (length-modify m.backends i _, refl, refl, λ placed. placed)
  Move-Stays {m} (fail {i = i} b now at) =
      (length-modify m.backends i _, refl, refl, λ placed. placed)
  Move-Stays copy = (refl, refl, refl, λ placed. placed)
  Move-Stays break_off = (refl, refl, refl, λ placed. tt)
  Move-Stays {m} (clock {i = i} b end at) =
      (length-modify m.backends i _, refl, refl, λ placed. placed)
  Move-Stays {m} (close {i = i} b at) = (length-modify m.backends i _, refl, refl, λ placed. tt)
  Move-Stays (retry e l) = (refl, refl, refl, λ placed. tt)
  Move-Stays (exhaust e l) = (refl, refl, refl, λ placed. tt)
  Move-Stays (settled e) = (refl, refl, refl, λ placed. tt)

  Step-IsPlaced : {s t : World} → Step fl lib s t → IsPlaced s → IsPlaced t
  unfolding first_phase
  Step-IsPlaced {s} (turn k {r} {p} {m} at move) (current, placed) =
      let (same, kept, handed, goes) = Move-Stays move in
      let n = length s.shared.backends in
      let o = length s.shared.strategies in
      (
        omega (arith, kept, handed),
        subst
            (λ n'.
              All (Fits n' (length m.strategies))
                (modify s.requests k (λ _. record r { phase = p })))
            (sym same)
            (subst (λ o'. All (Fits n o') (modify s.requests k (λ _. record r { phase = p })))
              (sym kept)
              (All-modify_at (Fits n o) s.requests k r (record r { phase = p }) at
                (λ fits. (fits.0, goes fits.1)) placed)),
      )
  Step-IsPlaced {s} (arrive method) (current, placed) = (
    current,
    All-append_one (Fits (length s.shared.backends) (length s.shared.strategies)) s.requests
        (arriving s.shared method) placed (current, tt),
  )
  Step-IsPlaced {s} (check i b o found v) (current, placed) = (
    current,
    subst (λ n. All (Fits n (length s.shared.strategies)) s.requests)
        (sym (length-modify s.shared.backends i _)) placed,
  )
  Step-IsPlaced {s} (switch strategy) (current, placed) =
      let n = length s.shared.backends in
      let m = length s.shared.strategies in
      let more = length-append s.shared.strategies (strategy ∷ []) in
      (
        omega (arith, more),
        All-weaken (Fits n m) (Fits n (length (s.shared.strategies ++ (strategy ∷ [])))) s.requests
            (λ r fits. (omega (arith, more, fits.0), fits.1)) placed,
      )

  pub Reach-IsPlaced : {s t : World} → Reach fl lib s t → IsPlaced s → IsPlaced t
  Reach-IsPlaced here placed = placed
  Reach-IsPlaced (later r step) placed = Step-IsPlaced step (Reach-IsPlaced r placed)
