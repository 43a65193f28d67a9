-- ===== src/Keys/Preserved/Making.antt =====
-- A new key keeps the invariant.
use quantum_api.Base.{ℕ, ◌≡◌, false, ◌∷◌, arith, any}
use quantum_api.Base.Text.{Text}
use quantum_api.Config.{Settings}
use quantum_api.Keys.Table.{ApiKeyRecord, Database, AuditEvent, has_id, has_prefix}
use quantum_api.Keys.Rows.{any_of_find}
use quantum_api.Keys.Session.{Result, ok, err}
use quantum_api.Keys.Create.{CreatedApiKey, Entropy}
use quantum_api.Keys.Created.{Made}
use quantum_api.Keys.Capacity.{cons-WithinCapacity, Creates}
use quantum_api.Keys.Invariant.{RowFits, Audits, IsSound, All-map}
use quantum_api.Keys.Preserved.Retiring.{Keeps}

pub cons-IsSound :
    (r : ApiKeyRecord) (a : AuditEvent) (db : Database)
    → any (has_id r.id) db.keys ≡ false
    → any (has_prefix r.key_prefix) db.keys ≡ false
    → a.api_key_id ≡ r.id
    → RowFits r
    → IsSound db
    → IsSound (record { keys = r ∷ db.keys; events = a ∷ db.events })
cons-IsSound r a db fresh free named fits v = record {
  distinct = (fresh, v.distinct);
  prefixes = (free, v.prefixes);
  rows = (fits, v.rows);
  audited = (
    ground (arith, named),
    All-map (Audits db.keys) (Audits (r ∷ db.keys)) db.events (λ x h. ground (arith, h)) v.audited,
  );
}

module _ (s : Settings) (hmac : Text → Text → ℕ) (owner : ℕ) (e : Entropy) (db db' : Database)
    (c : CreatedApiKey) (m : Made s hmac owner e db db' c) where
  -- The table after, written out.
  made_after : db' ≡ record { keys = m.row ∷ db.keys; events = m.event ∷ db.events }
  made_after = λ i. record { keys = m.keys_after i; events = m.events_after i }

  pub made_fits : RowFits m.row
  made_fits = rw (m.usable) (m.unrevoked, m.unrotated)

  Made-IsSound : IsSound db → IsSound db'
  Made-IsSound v = rw made_after (
      cons-IsSound m.row m.event db m.fresh_id
        (any_of_find (has_prefix m.row.key_prefix) db.keys m.fresh_prefix) m.event_id made_fits v)

module _ (s : Settings) (hmac : Text → Text → ℕ) (owner : ℕ) (e : Entropy) (db : Database) where
  pub Creates-IsValid :
      (r : Result (CreatedApiKey × Database)) → Creates s hmac owner e db r → Keeps s db r
  Creates-IsValid (err _) h v = v
  Creates-IsValid (ok (c, db')) (m, t, a) v = record {
    within =
        rw (made_after s hmac owner e db db' c m)
          (cons-WithinCapacity s m.row db.keys v.within (rw m.owned a) (rw m.owned t));
    sound = Made-IsSound s hmac owner e db db' c m v.sound;
  }
