-- ===== src/Keys/Replaced.antt =====
-- The table after a rotation: the new row in front, the old row marked in its place.
use mathlib.Core.Bool.{false≢true}
use quantum_api.Base.{
  ℕ, ◌≡◌, sym, ap, ◌∙◌, inl, inr, true, false, some, List, ◌∷◌, ◌==◌, ==_iff, Bool-cases, ==_refl,
}
use quantum_api.Base.Text.{Text}
use quantum_api.Config.{Settings}
use quantum_api.Keys.Table.{ApiKeyRecord, Database, modify_key, get_key}
use quantum_api.Keys.Create.{RotatedApiKey, Entropy, mark_rotated, mark_rotated_from}
use quantum_api.Keys.Rotated.{Rotation}
use quantum_api.Keys.Invariant.{found_any, found_self}

module _ (s : Settings) (hmac : Text → Text → ℕ) (owner : ℕ) (e : Entropy) (db : Database) where
  module _ (key_id : ℕ) (db' : Database) (result : RotatedApiKey)
      (t : Rotation s hmac owner key_id e db db' result) where
    abbrev pub rotated_keys : List ApiKeyRecord
    rotated_keys =
        modify_key t.current.id (mark_rotated e.rotated_at result.new_key.metadata.key_id) db.keys

    abbrev pub new_row : ApiKeyRecord
    new_row = mark_rotated_from t.current.id t.made.row

    pub here : get_key t.current.id db ≡ some t.current
    here = found_self key_id db.keys t.found

    pub ids_differ : (t.made.row.id == t.current.id) ≡ false
    ids_differ = elim (Bool-cases (t.made.row.id == t.current.id)) [
      | inr differ ↦ differ
      | inl same ↦
          let e : t.made.row.id ≡ t.current.id = (==_iff _ _).0 same in
          absurd (false≢true (sym (rw e at t.made.fresh_id) ∙ found_any t.current.id db.keys here))
    ]

    pub keys_after_rotation : db'.keys ≡ new_row ∷ rotated_keys
    keys_after_rotation =
        let same : (t.made.row.id == result.new_key.metadata.key_id) ≡ true =
          rw t.made.key_id (==_refl t.made.row.id) in
        t.keys_after ∙ rw (t.made.keys_after, ids_differ, same)

    events_after_rotation : db'.events ≡ t.event ∷ t.made.event ∷ db.events
    events_after_rotation = t.events_after ∙ ap (◌∷◌ t.event) t.made.events_after

    pub rotation_after :
        db' ≡ record { keys = new_row ∷ rotated_keys; events = t.event ∷ t.made.event ∷ db.events }
    rotation_after = λ i. record { keys = keys_after_rotation i; events = events_after_rotation i }
