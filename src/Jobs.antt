-- ===== src/Jobs.antt =====
-- Hardware jobs. `Table` is src/quantum_api/execution_jobs.py, `Hardware` the refreshing and
-- cancelling of src/quantum_api/services/hardware_jobs.py, `Submit` its submissions, `Requests` the
-- calls of the job routes.
pub mod Table
pub mod Hardware
pub mod Requests
pub mod Submit
pub mod Submitted
pub mod Settled
pub mod Payloads
