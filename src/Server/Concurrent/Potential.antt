-- ===== src/Server/Concurrent/Potential.antt =====
-- server/http_server.go: the steps that a request has before it.
use poly_balance.Base.{ℕ, ◌+◌, ◌*◌, List, total}
use poly_balance.Backend.Float.{Float64}
use poly_balance.Strategy.Hash.{Library}
use poly_balance.Server.Concurrent.{
  Phase, choosing, picked, gated, checking, promoting, entering, flying, copying, flown, closing,
  attempted, finished, broken, World, Flight, turn, arrive, check, switch, Reach, here, later,
}

-- The steps that a request has at most before it.
abbrev pub potential : Phase → ℕ
potential (choosing left) = 11 * left + 11
potential (picked left i) = 11 * left + 10
potential (gated left i) = 11 * left + 9
potential (checking left i) = 11 * left + 8
potential (promoting left i) = 11 * left + 7
potential (entering left i) = 11 * left + 6
potential (flying left i start) = 11 * left + 5
potential (copying left i start code) = 11 * left + 4
potential (flown left i start code) = 11 * left + 3
potential (closing left i code) = 11 * left + 2
potential (attempted left code) = 11 * left + 1
potential finished = 0
potential (broken i) = 0

abbrev potential_of : Flight → ℕ
potential_of r = potential r.phase

abbrev pub remaining : List Flight → ℕ
remaining requests = total potential_of requests

module _ {fl : Float64} {lib : Library} where
  -- The steps of a run that requests made.
  abbrev pub turns : {s t : World} → Reach fl lib s t → ℕ
  turns here = 0
  turns (later r (turn k at move)) = turns r + 1
  turns (later r (arrive method)) = turns r
  turns (later r (check i b o found v)) = turns r
  turns (later r (switch strategy)) = turns r
