-- ===== src/Middleware/RequestLimiter.antt =====
-- middleware/requestlimit.go: limits on the size of headers and bodies.
pub mod Limits
pub mod Race
mod Tests
use Prim.Native.String.{len}
use poly_balance.Base.{
  ℕ, ◌+◌, String, Bool, true, false, not, Option, none, some, ℤ, pos, ltb_ℤ, leb_ℤ, pos_part, List,
  [], ◌∷◌, length, take, if◌then◌else◌,
}
use poly_balance.Http.{Header, Request, Writer, write_header, write}

pub record RequestLimiter : Type 0 where
  pub max_body_size : ℤ
  pub max_header_size : ℤ
  pub enabled : Bool

unfoldable pub new_request_limiter : ℤ → ℤ → Bool → RequestLimiter
new_request_limiter max_body_size max_header_size enabled = record {
  max_body_size = max_body_size;
  max_header_size = max_header_size;
  enabled = enabled;
}

unfoldable pub set_enabled : Bool → RequestLimiter → RequestLimiter
set_enabled enabled rl = record rl { enabled = enabled }

unfoldable pub set_limits : ℤ → ℤ → RequestLimiter → RequestLimiter
set_limits max_body_size max_header_size rl = record rl {
  max_body_size = max_body_size;
  max_header_size = max_header_size;
}

unfoldable pub get_stats : RequestLimiter → Bool × ℤ × ℤ
get_stats rl = (rl.enabled, rl.max_body_size, rl.max_header_size)

-- The two loops that add up the bytes of names and values.
unfoldable pub values_size : ℕ → List String → ℕ
values_size size [] = size
values_size size (v ∷ vs) = values_size (size + len v) vs

unfoldable pub header_size : ℕ → Header → ℕ
unfolding values_size
header_size size [] = size
header_size size ((name, values) ∷ h) = header_size (values_size (size + len name) values) h

-- `http.MaxBytesReader`: the reader gives the body's bytes up to the limit, and fails after it.
-- A negative limit counts as none allowed.
unfoldable pub max_bytes_reader : ℤ → List ℕ → List ℕ
max_bytes_reader limit body = take (pos_part limit) body

unfoldable pub limited :
    {S : Type 0}
    → (Request → S × Writer → S × Writer)
    → RequestLimiter
    → Request
    → S × Writer
    → S × Writer
unfolding max_bytes_reader
limited next rl r (s, w) =
    if not rl.enabled
    then next r (s, w)
    else if ltb_ℤ rl.max_header_size (pos (header_size 0 r.header))
    then (s, write "{\"error\": \"request headers too large\"}" (write_header 431 w))
    else if ltb_ℤ rl.max_body_size r.content_length
    then (s, write "{\"error\": \"request body too large\"}" (write_header 413 w))
    else next (record r { body = max_bytes_reader rl.max_body_size r.body }) (s, w)
