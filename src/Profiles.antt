-- ===== src/Profiles.antt =====
-- The stored IBM credentials of users: src/quantum_api/ibm_credentials.py. `Table` has the rows and
-- the queries, `Service` the methods of IbmCredentialProfileService, `Requests` the calls of the
-- profile routes.
pub mod Table
pub mod Service
pub mod Requests
pub mod Rows
pub mod Invariant
pub mod Preserved
pub mod Resolved
