-- ===== src/RateLimit.antt =====
-- The rate limiter: src/quantum_api/security.py. `Redis` is the interface of the store, `Script` the
-- Lua script that it runs, `Windows` the keys and lifetimes of the counters, `Limiter` the methods of
-- RedisRateLimiter.
pub mod Redis
pub mod Script
pub mod Counters
pub mod Windows
pub mod Limiter
pub mod Separate
pub mod Enforced
pub mod Message
