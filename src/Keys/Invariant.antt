-- ===== src/Keys/Invariant.antt =====
-- The invariant of the key table, and what the kinds of writes do to it.
use quantum_api.Base.{
  ℕ, ◌≡◌, inl, inr, true, Option, none, some, List, [], ◌∷◌, ◌∙◌, sym, ap, arith, ◌==◌, find, any,
  is_some, All, Bool-cases,
}
use mathlib.Core.Path.{subst}
use quantum_api.Base.Text.{Text, text_eq}
use quantum_api.Config.{Settings}
use quantum_api.Keys.Table.{
  ApiKeyRecord, KeyStatus, active, revoked, rotated, is_active, Database, AuditEvent, modify_key,
  has_id,
}
use quantum_api.Keys.Rows.{
  Update, same_id, same_prefix, DistinctIds, DistinctPrefixes, Distinct-modify, any-modify,
  All-modify, found_here,
}
use quantum_api.Keys.Capacity.{WithinCapacity, modify-WithinCapacity}

-- The time of revocation is set exactly on keys that are not active, and the successor exactly on
-- rotated ones.
abbrev pub StatusFits : KeyStatus → Option ℕ → Option ℕ → Type 0
StatusFits active at to = (at ≡ none) × (to ≡ none)
StatusFits revoked at to = (is_some at ≡ true) × (to ≡ none)
StatusFits rotated at to = (is_some at ≡ true) × (is_some to ≡ true)

abbrev pub RowFits : ApiKeyRecord → Type 0
RowFits r = StatusFits r.status r.revoked_at r.rotated_to_id

-- An audit event names a key that is there.
abbrev pub Audits : List ApiKeyRecord → AuditEvent → Type 0
Audits keys v = any (has_id v.api_key_id) keys ≡ true

pub record IsSound (db : Database) : Type 0 where
  pub distinct : DistinctIds db.keys
  pub prefixes : DistinctPrefixes db.keys
  pub rows : All RowFits db.keys
  pub audited : All (Audits db.keys) db.events

pub record IsValid (s : Settings) (db : Database) : Type 0 where
  pub within : WithinCapacity s db.keys
  pub sound : IsSound db

pub All-map {ℓ κ μ} :
    {A : Type ℓ} (P : A → Type κ) (Q : A → Type μ) (xs : List A)
    → ((x : A) → P x → Q x)
    → All P xs
    → All Q xs
All-map P Q [] f h = tt
All-map P Q (x ∷ xs) f h = (f x h.0, All-map P Q xs f h.1)

-- A write that keeps identifier, prefix and owner, and does not make a row active.
pub record Retires (f : Update) : Type 0 where
  pub keeps_id : (r : ApiKeyRecord) → (f r).id ≡ r.id
  pub keeps_prefix : (r : ApiKeyRecord) → (f r).key_prefix ≡ r.key_prefix
  pub keeps_owner : (r : ApiKeyRecord) → (f r).owner_user_id ≡ r.owner_user_id
  pub retires : (r : ApiKeyRecord) → is_active (f r).status ≡ true → is_active r.status ≡ true

pub modify-IsSound :
    (k : ℕ) (f : Update) (db : Database) {r : ApiKeyRecord}
    → Retires f
    → find (has_id k) db.keys ≡ some r
    → RowFits (f r)
    → IsSound db
    → IsSound (record db { keys = modify_key k f db.keys })
modify-IsSound k f db w found fits v = record {
  distinct =
      Distinct-modify same_id k f db.keys (λ r x. ap (λ (i : ℕ). x.id == i) (w.keeps_id r))
        (λ r x. ap (λ (i : ℕ). i == r.id) (w.keeps_id x)) v.distinct;
  prefixes =
      Distinct-modify same_prefix k f db.keys (λ r x. ap (text_eq x.key_prefix) (w.keeps_prefix r))
        (λ r x. ap (λ (t : Text). text_eq t r.key_prefix) (w.keeps_prefix x)) v.prefixes;
  rows = All-modify RowFits k f db.keys found fits v.rows;
  audited =
      All-map (Audits db.keys) (Audits (modify_key k f db.keys)) db.events
        (λ a h.
          any-modify (has_id a.api_key_id) k f db.keys
            (λ r. ap (λ (i : ℕ). i == a.api_key_id) (w.keeps_id r))
          ∙ h)
        v.audited;
}

pub modify-IsValid :
    (s : Settings) (k : ℕ) (f : Update) (db : Database) {r : ApiKeyRecord}
    → Retires f
    → find (has_id k) db.keys ≡ some r
    → RowFits (f r)
    → IsValid s db
    → IsValid s (record db { keys = modify_key k f db.keys })
modify-IsValid s k f db w found fits v = record {
  within = modify-WithinCapacity s k f db.keys w.keeps_owner w.retires v.within;
  sound = modify-IsSound k f db w found fits v.sound;
}

pub event-IsSound :
    (a : AuditEvent) (db : Database)
    → Audits db.keys a
    → IsSound db
    → IsSound (record db { events = a ∷ db.events })
event-IsSound a db h v = record {
  distinct = v.distinct;
  prefixes = v.prefixes;
  rows = v.rows;
  audited = (h, v.audited);
}

-- A row of the table fits its status.
pub found_fits :
    (k : ℕ) (keys : List ApiKeyRecord) {r : ApiKeyRecord}
    → find (has_id k) keys ≡ some r
    → All RowFits keys
    → RowFits r
found_fits k [] e h = cc
found_fits k (x ∷ xs) e h = elim (Bool-cases (x.id == k)) [
  | inl here ↦ subst RowFits (found_here k x xs e here) h.0
  | inr there ↦ found_fits k xs (rw there at e) h.1
]

pub found_id :
    (k : ℕ) (keys : List ApiKeyRecord) {r : ApiKeyRecord} → find (has_id k) keys ≡ some r → r.id ≡ k
found_id k [] e = cc
found_id k (x ∷ xs) {r} e = elim (Bool-cases (x.id == k)) [
  | inl here ↦ let same : x ≡ r = found_here k x xs e here in ground (arith, same)
  | inr there ↦ found_id k xs (rw there at e)
]

pub found_any :
    (k : ℕ) (keys : List ApiKeyRecord) {r : ApiKeyRecord}
    → find (has_id k) keys ≡ some r
    → any (has_id k) keys ≡ true
found_any k [] e = cc
found_any k (x ∷ xs) e = elim (Bool-cases (x.id == k)) [
  | inl here ↦ rw here
  | inr there ↦ rw there (found_any k xs (rw there at e))
]

pub found_self :
    (k : ℕ) (keys : List ApiKeyRecord) {r : ApiKeyRecord}
    → find (has_id k) keys ≡ some r
    → find (has_id r.id) keys ≡ some r
found_self k keys {r} e = subst (λ j. find (has_id j) keys ≡ some r) (sym (found_id k keys e)) e
