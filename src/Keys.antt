-- ===== src/Keys.antt =====
-- API keys: src/quantum_api/key_management.py. `Format` is the text of a key, `Table` the rows and
-- their queries, `Session` a transaction,
-- `Retire` and `Create` the operations of ApiKeyLifecycleService.
pub mod Format
pub mod Table
pub mod Session
pub mod Retire
pub mod Create
pub mod Requests
pub mod Rows
pub mod Created
pub mod Rotated
pub mod Capacity
pub mod Granted
pub mod Invariant
pub mod Replaced
pub mod Preserved
pub mod Isolation
pub mod RoundTrip
pub mod Access
