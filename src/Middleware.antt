-- ===== src/Middleware.antt =====
-- middleware/: what stands before the balancer's handler.
pub mod RateLimiter
pub mod RequestLimiter
pub mod Tls
