-- ===== src/Middleware/RequestLimiter/Race.antt =====
-- middleware/requestlimit.go: Middleware reads the limiter's fields one by one and without the mutex
-- under which SetEnabled and SetLimits write them.
use poly_balance.Base.{
  ℕ, ◌≡◌, refl, Bool, true, false, not, some, none, ℤ, pos, ltb_ℤ, pos_part, take, if◌then◌else◌,
}
use poly_balance.Http.{Request, Writer, write, write_header}
use poly_balance.Middleware.RequestLimiter.{
  RequestLimiter, header_size, max_bytes_reader, limited, set_limits,
}

-- What one request reads, in this order; a call of SetLimits may come between any two reads.
pub record Reads : Type 0 where
  pub enabled : Bool
  pub header_limit : ℤ
  pub length_limit : ℤ
  pub body_limit : ℤ

unfoldable pub limited_by :
    {S : Type 0} → (Request → S × Writer → S × Writer) → Reads → Request → S × Writer → S × Writer
unfolding max_bytes_reader
limited_by next reads r (s, w) =
    if not reads.enabled
    then next r (s, w)
    else if ltb_ℤ reads.header_limit (pos (header_size 0 r.header))
    then (s, write "{\"error\": \"request headers too large\"}" (write_header 431 w))
    else if ltb_ℤ reads.length_limit r.content_length
    then (s, write "{\"error\": \"request body too large\"}" (write_header 413 w))
    else next (record r { body = max_bytes_reader reads.body_limit r.body }) (s, w)

-- The reads of a request, each at a moment of its own.
abbrev pub reads_at : (ℕ → RequestLimiter) → ℕ → ℕ → ℕ → ℕ → Reads
reads_at at a b c d = record {
  enabled = (at a).enabled;
  header_limit = (at b).max_header_size;
  length_limit = (at c).max_body_size;
  body_limit = (at d).max_body_size;
}

module _ {S : Type 0} (next : Request → S × Writer → S × Writer) where
  -- Without a write between the reads, the request is treated as by one step on the limiter.
  pub limited_by-steady :
      (at : ℕ → RequestLimiter) (a b c d : ℕ) (rl : RequestLimiter) (r : Request) (p : S × Writer)
      → at a ≡ rl
      → at b ≡ rl
      → at c ≡ rl
      → at d ≡ rl
      → limited_by next (reads_at at a b c d) r p ≡ limited next rl r p
  unfolding limited_by limited
  limited_by-steady at a b c d rl r (s, w) ea eb ec ed = rw (ea, eb, ec, ed) refl

  -- When the limits are changed between the read of the header's limit and that of the body's, a
  -- request is handed on that both the old limits and the new ones refuse: its declared length is
  -- above the old limit, and its headers are above the new one.
  pub torn_admits :
      (at : ℕ → RequestLimiter) (a b c d : ℕ) (old : RequestLimiter) (max_body max_header : ℤ)
      (r : Request) (s : S) (w : Writer)
      → at a ≡ old
      → at b ≡ old
      → at c ≡ set_limits max_body max_header old
      → at d ≡ set_limits max_body max_header old
      → old.enabled ≡ true
      → ltb_ℤ old.max_header_size (pos (header_size 0 r.header)) ≡ false
      → ltb_ℤ max_header (pos (header_size 0 r.header)) ≡ true
      → ltb_ℤ old.max_body_size r.content_length ≡ true
      → ltb_ℤ max_body r.content_length ≡ false
      → w.sent ≡ none
      → ((limited next old r (s, w)).1.sent ≡ some 413)
        × ((limited next (set_limits max_body max_header old) r (s, w)).1.sent ≡ some 431)
        × (limited_by next (reads_at at a b c d) r (s, w)
            ≡ next (record r { body = take (pos_part max_body) r.body }) (s, w))
  unfolding limited_by limited write_header write max_bytes_reader set_limits
  torn_admits at a b c d old max_body max_header r s w ea eb ec ed on h1 h2 b1 b2 unsent =
      (rw (on, h1, b1, unsent) refl, rw (on, h2, unsent) refl, rw (ea, eb, ec, ed, on, h1, b2) refl)
