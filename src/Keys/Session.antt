-- ===== src/Keys/Session.antt =====
-- One database transaction: `async with self._database.session()`. What is pending is written by the
-- commit at its end; an exception rolls all of it back, so an error carries no database.
use quantum_api.Base.{Bool, ◌∷◌, ◌||◌, any, if◌then◌else◌}
use quantum_api.Keys.Table.{ApiKeyRecord, AuditEvent, Database, has_id, has_prefix}

-- The exceptions: `value_error` is the ValueError of `rotate_key`, `runtime_error` the RuntimeError
-- of the six attempts, `integrity_error` a violated primary key or unique column.
pub data KeyError : Type 0 where
  not_found limit_exceeded delete_conflict value_error runtime_error integrity_error : KeyError

pub data Result {ℓ} (A : Type ℓ) : Type ℓ where
  ok : A → Result A
  err : KeyError → Result A

abbrev pub Session : Type 0 → Type 0
Session A = Database → Result (A × Database)

infixl 5 ◌>>=◌ ◌>>◌
abbrev pub ◌>>=◌ : {A B : Type 0} → Session A → (A → Session B) → Session B
◌>>=◌ m f db = elim (m db) [ ok (a, db') ↦ f a db' | err e ↦ err e ]

abbrev pub ◌>>◌ : {A B : Type 0} → Session A → Session B → Session B
m >> k = m >>= λ _. k

abbrev pub pure : {A : Type 0} → A → Session A
pure a db = ok (a, db)

abbrev pub raise : {A : Type 0} → KeyError → Session A
raise e db = err e

abbrev pub gets : {A : Type 0} → (Database → A) → Session A
gets f db = ok (f db, db)

abbrev pub raise_if : Bool → KeyError → Session (Unit {0})
raise_if b e db = if b then err e else ok (tt, db)

abbrev pub modify : (Database → Database) → Session (Unit {0})
modify f db = ok (tt, f db)

-- `session.add(model)` and a flush, under the table's constraints
unfoldable pub insert_key : ApiKeyRecord → Session (Unit {0})
insert_key r db =
    if any (λ x. has_id r.id x || has_prefix r.key_prefix x) db.keys
    then err integrity_error
    else ok (tt, record db { keys = r ∷ db.keys })

-- `session.add(ApiKeyAuditEventModel(…))`
abbrev pub add_event : AuditEvent → Session (Unit {0})
add_event e db = ok (tt, record db { events = e ∷ db.events })
