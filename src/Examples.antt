-- ===== src/Examples.antt =====
-- The theorems at concrete inputs: the settings, the Unicode tables, the Redis store and the
-- databases that the examples use, and the examples of each part.
mod Samples
mod Keys
mod RateLimit
mod Random
mod Jobs
mod Auth
mod Config
mod Profiles
mod Middleware
mod Backends
mod Qasm
mod StateVector
