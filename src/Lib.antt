-- ===== src/Lib.antt =====
-- Quantum API
--
-- The service hands out API keys to users, authenticates and limits calls by key and by address in
-- Redis, and offers quantum computations, among them random numbers drawn by hardware jobs.
--
-- Parts and files
--   * Config: the settings of src/quantum_api/config.py that the other parts read (`Settings`), the
--     lists of origins and the tests on paths, as functions of the same names; Config/Validate the
--     validation at start.
--   * Keys: src/quantum_api/key_management.py. Keys/Table has the two tables as lists of records and
--     the queries, Keys/Session the transaction of a method as a state and error monad that drops the
--     state on an error, Keys/Format the text of a key, Keys/Retire and Keys/Create the methods of
--     ApiKeyLifecycleService, Keys/Requests the calls of src/quantum_api/api/auth_routes.py as one
--     step function. The other files of Keys hold lemmas and theorems: Created, Rotated and Capacity
--     describe what a call that returns has done; Invariant and Preserved have the invariant of the
--     table, Isolation, Access, Granted and RoundTrip what their names say.
--   * Auth: ApiKeyAuthService of src/quantum_api/security.py, with the cache of key metadata as a list
--     of entries; Auth/Cached has its theorems.
--   * RateLimit: RedisRateLimiter of src/quantum_api/security.py. RateLimit/Redis is the interface
--     of the store, RateLimit/Script the Lua script, RateLimit/Windows `_build_window_values`,
--     RateLimit/Limiter the methods of RedisRateLimiter and the small methods of
--     src/quantum_api/middleware.py about limits and addresses. RateLimit/Counters,
--     RateLimit/Windows, RateLimit/Enforced and RateLimit/Message have the theorems,
--     RateLimit/Separate the lemmas on the names of counters.
--   * Random: src/quantum_api/services/randomness.py, and the validation of a request for a random
--     number in src/quantum_api/models/core.py. Random/Range and Random/Supply have the theorems.
--   * Jobs: src/quantum_api/execution_jobs.py in Jobs/Table, `refresh_job` and `cancel_job` of
--     src/quantum_api/services/hardware_jobs.py and the reading of a provider's status in
--     src/quantum_api/services/ibm_provider.py in Jobs/Hardware, the calls of the job routes of
--     src/quantum_api/api/jobs.py in Jobs/Requests, `submit_random_job` and its like in Jobs/Submit.
--     Jobs/Settled, Jobs/Payloads and Jobs/Submitted have the theorems.
--   * Profiles: src/quantum_api/ibm_credentials.py. Profiles/Table has the rows and queries,
--     Profiles/Service the methods of IbmCredentialProfileService, Profiles/Requests the calls of
--     src/quantum_api/api/auth_routes.py. Profiles/Rows, Profiles/Invariant, Profiles/Preserved and
--     Profiles/Resolved have the lemmas and theorems.
--   * Provider: `resolve_request_ibm_credentials` and the cache of provider clients of
--     src/quantum_api/services/ibm_provider.py; Provider/Chosen and Provider/Cached have the theorems.
--   * Backends: src/quantum_api/services/backend_catalog.py, the look-up of one backend in
--     Backends/Lookup; Backends/Listed has its theorem.
--   * Qasm: the reading and writing of OpenQASM in
--     src/quantum_api/services/circuit_conversion.py; Qasm/Parsed has its theorem.
--   * StateVector: `_apply_x` of src/quantum_api/services/quantum_core.py; StateVector/Flipped has its
--     theorem.
--   * Jwt: SupabaseJwtVerifier of src/quantum_api/supabase_auth.py; Jwt/Verified and Jwt/Rotated have
--     the theorems.
--   * Middleware: src/quantum_api/middleware.py. Middleware/Cors is RouteAwareCORSMiddleware,
--     Middleware/Dispatch SecurityObservabilityMiddleware with its `dispatch` cut into the checks that
--     it runs in turn, an early return being an error of a state and error monad that keeps the state.
--     Middleware/Admission is what it promises; Middleware/Admitted, Middleware/Callers and
--     Middleware/Refined have the proofs about it, Middleware/Guarded those about origins.
--   * Examples: the theorems at concrete inputs. Base: shared names, lists, integers, bits and texts.
--
-- How the parts meet: a limit of RateLimit/Limiter comes from the policy of a key of Keys/Table, the
-- format of a key and the limits of a user from Config, and the number of a random job from Random. The
-- middleware asks Jwt or Auth for the caller and RateLimit for its limits, Provider asks Profiles.
--
-- Conventions
--   * A text is the list of its code points. The Unicode tables, the digest, the drawing of random
--     bytes and identifiers, decimal printing, Redis, the cipher, PyJWT, Qiskit's backends
--     and parsers, and Starlette's responses are parameters, with what the code relies on as laws of
--     their records.
--   * Identifiers, owners and digests are numbers, since they are only compared. An instant is the
--     number of microseconds since the epoch.
--   * The draw's loop runs on fuel, one more than there are measurements: each round takes a
--     measurement at least. The attempts to create a key are the source's six.
--   * A method of the key service is one transaction that no other call interrupts. The script of the
--     limiter is one step, as Redis runs it, and no counter expires within it.
--   * A call of a job route is one step: it reads the job, asks the provider and writes the job. What
--     the provider answers, and whether it raises, is an argument.
--
-- Not modelled: failures of the database, which the source lets through as an internal error, in the
-- middleware's look-up of a key too; the making of a circuit, the expiry of cached keys, the rest of the quantum services
-- and most request models, which are separate parts; two transactions that interleave; logging,
-- metrics, context variables and the HTTP layer, which are input and output.
pub mod Base
pub mod Random
pub mod Config
pub mod Keys
pub mod RateLimit
pub mod Jobs
pub mod Auth
pub mod Profiles
pub mod Provider
pub mod Backends
pub mod Qasm
pub mod StateVector
pub mod Jwt
pub mod Middleware
pub mod Examples
