-- ===== src/Middleware/RequestLimiter/Tests.antt =====
-- A limiter of 10 body bytes and 20 header bytes.
use poly_balance.Base.{
  leb, if◌then◌else◌, take, pos_part, ℕ, ◌≤◌, true, ◌⊎◌, some, pos, negsuc, ◌≤ℤ◌, List, [], ◌∷◌,
  ◌≡◌, refl, length,
}
use poly_balance.Http.{Header, Request, Writer, unsent}
use poly_balance.Middleware.RequestLimiter.Race.{limited_by, reads_at, torn_admits}
use poly_balance.Middleware.RequestLimiter.{set_limits, RequestLimiter, header_size, limited}
use poly_balance.Middleware.RequestLimiter.Limits.{limited_cases}

abbrev limiter : RequestLimiter
limiter = record { max_body_size = pos 3; max_header_size = pos 20; enabled = true }

abbrev one_header : Header
one_header = ("Host", "a.b" ∷ []) ∷ ("Accept", "x" ∷ "y" ∷ []) ∷ []

abbrev other_order : Header
other_order = ("Accept", "x" ∷ "y" ∷ []) ∷ ("Host", "a.b" ∷ []) ∷ []

-- A chunked request declares no length.
abbrev chunked : Request
chunked = record {
  method = "GET";
  remote_addr = "10.0.0.9:4711";
  header = one_header;
  host = "localhost";
  uri = "/";
  path = "/";
  raw_query = "";
  query = λ name. "";
  content_length = negsuc 0;
  body = 1 ∷ 2 ∷ 3 ∷ 4 ∷ [];
}

-- The next handler notes what it reads.
abbrev reader : Request → List ℕ × Writer → List ℕ × Writer
reader r (s, w) = (r.body, w)

chunked_cut : (limited reader limiter chunked ([], unsent)).0 ≡ 1 ∷ 2 ∷ 3 ∷ []
unfolding limited header_size
chunked_cut = refl

limited_cases_example :
    ((pos (header_size 0 one_header) ≤ℤ pos 20)
      × (negsuc 0 ≤ℤ pos 3)
      × (q : Request) × (limited reader limiter chunked ([], unsent) ≡ reader q ([], unsent))
      × (q ≡ record chunked { body = 1 ∷ 2 ∷ 3 ∷ [] })
      × (length q.body ≤ 3))
    ⊎ (((limited reader limiter chunked ([], unsent)).0 ≡ [])
        × (((¬ (pos (header_size 0 one_header) ≤ℤ pos 20))
              × ((limited reader limiter chunked ([], unsent)).1.sent ≡ some 431))
            ⊎ ((pos (header_size 0 one_header) ≤ℤ pos 20)
                × (¬ (negsuc 0 ≤ℤ pos 3))
                × ((limited reader limiter chunked ([], unsent)).1.sent ≡ some 413))))
limited_cases_example = limited_cases reader limiter chunked [] unsent refl refl

-- Two bytes of headers and nine of the body from the moment 2 on, and the limits of `limiter` before.
abbrev changed_at_2 : ℕ → RequestLimiter
changed_at_2 n = if leb 2 n then set_limits (pos 9) (pos 2) limiter else limiter

-- It declares four bytes.
abbrev declared : Request
declared = record chunked { content_length = pos 4 }

torn_admits_example :
    ((limited reader limiter declared ([], unsent)).1.sent ≡ some 413)
    × ((limited reader (set_limits (pos 9) (pos 2) limiter) declared ([], unsent)).1.sent
        ≡ some 431)
    × (limited_by reader (reads_at changed_at_2 0 1 2 3) declared ([], unsent)
        ≡ reader
            (record declared { body = take (pos_part (pos 9)) (1 ∷ 2 ∷ 3 ∷ 4 ∷ []) })
            ([], unsent))
unfolding header_size
torn_admits_example =
    torn_admits reader changed_at_2 0 1 2 3 limiter (pos 9) (pos 2) declared [] unsent refl refl
      refl refl refl refl refl refl refl refl
