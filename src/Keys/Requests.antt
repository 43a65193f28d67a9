-- ===== src/Keys/Requests.antt =====
-- The calls that the key routes of src/quantum_api/api/auth_routes.py make, as one type, and the
-- table after a sequence of them. A call that raises leaves the table as it was: its transaction is
-- rolled back.
use quantum_api.Base.{ℕ, Option, String, List, [], ◌∷◌}
use quantum_api.Base.Text.{Text}
use quantum_api.Config.{Settings}
use quantum_api.Keys.Table.{Database, Metadata}
use quantum_api.Keys.Session.{Result, ok, err}
use quantum_api.Keys.Retire.{revoke_key, delete_revoked_key, delete_all_revoked_keys, mark_key_used}
use quantum_api.Keys.Create.{Entropy, create_key, rotate_key}

-- The first argument of each is the owner, who is also the actor; `use_key` has none.
pub data KeyRequest : Type 0 where
  create : ℕ → Option String → Metadata → Entropy → KeyRequest
  revoke : ℕ → ℕ → Metadata → ℕ → KeyRequest
  rotate : ℕ → ℕ → Metadata → Entropy → KeyRequest
  delete : ℕ → ℕ → KeyRequest
  delete_all : ℕ → KeyRequest
  use_key : ℕ → ℕ → KeyRequest

abbrev pub after {ℓ} : {A : Type ℓ} → Database → Result (A × Database) → Database
after db (ok (_, db')) = db'
after db (err _) = db

module _ (s : Settings) (hmac : Text → Text → ℕ) where
  unfoldable pub run_request : KeyRequest → Database → Database
  run_request (create o name m e) db = after db (create_key s hmac o o name m e db)
  run_request (revoke o k m now) db = after db (revoke_key s o o k m now db)
  run_request (rotate o k m e) db = after db (rotate_key s hmac o o k m e db)
  run_request (delete o k) db = after db (delete_revoked_key o k db)
  run_request (delete_all o) db = after db (delete_all_revoked_keys o db)
  run_request (use_key k now) db = after db (mark_key_used k now db)

  unfoldable pub run_requests : List KeyRequest → Database → Database
  unfolding run_request
  run_requests [] db = db
  run_requests (q ∷ qs) db = run_requests qs (run_request q db)

abbrev pub empty_database : Database
empty_database = record { keys = []; events = [] }
