-- ===== src/Main/Site/Ends.antt =====
-- The two limiters in front of cmd/main.go's mux: the ways that a request takes at them.
use poly_balance.Base.{ℕ, not, String, pos, ltb_ℤ, if_elim}
use poly_balance.Http.{Request, Writer, unsent, write, write_header}
use poly_balance.Middleware.RateLimiter
use poly_balance.Middleware.RateLimiter.{RateLimiter, allow, client_key}
use poly_balance.Middleware.RequestLimiter
use poly_balance.Main.{System}
use poly_balance.Main.Site.{Outside, through}

-- The answer of a limiter that refuses.
unfoldable pub refusal : ℕ → String → Writer
unfolding write write_header
refusal code message = write message (write_header code unsent)

-- What holds of the three refusals, and of the handler behind the limiters for any state of the rate
-- limiter, holds of the whole.
pub through-ends :
    (out : Outside) (P : System × Writer → Type 0)
    (next : Request → System × Writer → System × Writer) (arrived : ℕ) (r : Request) (s : System)
    → ((rl : RateLimiter) (code : ℕ) (message : String)
        → P (record s { rate_limiter = rl }, refusal code message))
    → ((rl : RateLimiter) (q : Request) → P (next q (record s { rate_limiter = rl }, unsent)))
    → P (through out next arrived r (s, unsent))
unfolding through RateLimiter.limited RequestLimiter.limited write write_header refusal
through-ends out P next arrived r s refused admitted =
    let rl = (allow (client_key r) arrived s.rate_limiter).0 in
    if_elim P (allow (client_key r) arrived s.rate_limiter).1
      (if_elim P (not s.request_limiter.enabled) (admitted rl r) (
        if_elim P
          (ltb_ℤ s.request_limiter.max_header_size (pos (RequestLimiter.header_size 0 r.header)))
          (refused rl 431 _)
          (if_elim P (ltb_ℤ s.request_limiter.max_body_size r.content_length) (refused rl 413 _)
            (admitted rl _))))
      (refused rl 429 _)
