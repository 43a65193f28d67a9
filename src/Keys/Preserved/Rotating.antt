-- ===== src/Keys/Preserved/Rotating.antt =====
-- A rotation keeps the invariant: the new key takes the old one's place.
use mathlib.Core.Path.{subst}
use quantum_api.Base.{
  ℕ, ◌≤◌, ◌≡◌, refl, sym, ◌∙◌, inl, inr, Bool, true, not, ◌&&◌, none, some, ◌∷◌, arith, ◌==◌,
  ==_iff, any, Bool-cases,
}
use quantum_api.Base.Text.{Text}
use quantum_api.Config.{Settings}
use quantum_api.Keys.Table.{
  has_prefix, ApiKeyRecord, Database, is_active_of, is_owned_by, is_excluded, active_count, has_id,
  get_key,
}
use quantum_api.Keys.Session.{Result, ok, err}
use quantum_api.Keys.Create.{RotatedApiKey, Entropy, mark_rotated}
use quantum_api.Keys.Rows.{
  active_count-excluding, count-modify_retire, any-modify, any_of_find, count-modify-le,
}
use quantum_api.Keys.Rotated.{Rotation, Rotates}
use quantum_api.Keys.Capacity.{WithinCapacity}
use quantum_api.Keys.Invariant.{Retires, IsSound, modify-IsSound, event-IsSound, found_any}
use quantum_api.Keys.Preserved.Retiring.{Keeps}
use quantum_api.Keys.Preserved.Making.{cons-IsSound, made_fits}
use quantum_api.Keys.Replaced.{rotated_keys, new_row, here, keys_after_rotation, rotation_after}

module _ (s : Settings) (hmac : Text → Text → ℕ) (owner : ℕ) (e : Entropy) (db : Database) where
  module _ (key_id : ℕ) (db' : Database) (result : RotatedApiKey)
      (t : Rotation s hmac owner key_id e db db' result) where
    old_here : get_key t.current.id db ≡ some t.current
    old_here = here s hmac owner e db key_id db' result t

    rotation-IsSound : IsSound db → IsSound db'
    rotation-IsSound v =
        let old_rotated : Database = record db {
          keys = (rotated_keys s hmac owner e db key_id db' result t);
        } in
        let retired : Retires (mark_rotated e.rotated_at result.new_key.metadata.key_id) = record {
          keeps_id = λ r. refl;
          keeps_prefix = λ r. refl;
          keeps_owner = λ r. refl;
          retires = λ r h. cc;
        } in
        let kept = λ (j : ℕ).
          any-modify (has_id j) t.current.id
            (mark_rotated e.rotated_at result.new_key.metadata.key_id) db.keys (λ r. refl) in
        let v' =
          modify-IsSound t.current.id (mark_rotated e.rotated_at result.new_key.metadata.key_id) db
            retired old_here (refl, refl) v in
        let free =
          any-modify (has_prefix t.made.row.key_prefix) t.current.id
            (mark_rotated e.rotated_at result.new_key.metadata.key_id) db.keys (λ r. refl)
          ∙ any_of_find (has_prefix t.made.row.key_prefix) db.keys t.made.fresh_prefix in
        let v'' =
          cons-IsSound (new_row s hmac owner e db key_id db' result t) t.made.event old_rotated
            (kept t.made.row.id ∙ t.made.fresh_id) free t.made.event_id
            (made_fits s hmac owner e db t.middle result.new_key t.made) v' in
        rw (rotation_after s hmac owner e db key_id db' result t) (
          event-IsSound t.event
            (record {
              keys =
                  (new_row s hmac owner e db key_id db' result t)
                  ∷ (rotated_keys s hmac owner e db key_id db' result t);
              events = t.made.event ∷ db.events;
            })
            (subst
              (λ j.
                any (has_id j) (
                  (new_row s hmac owner e db key_id db' result t)
                  ∷ (rotated_keys s hmac owner e db key_id db' result t))
                ≡ true)
              (sym t.event_id)
              (ground (arith, kept t.current.id ∙ found_any t.current.id db.keys old_here)))
            v'')

    -- The old key's place in the count of active keys goes to the new one.
    rotation_active :
        (o : ℕ)
        → IsSound db
        → WithinCapacity s db.keys
        → active_count o none (
            (new_row s hmac owner e db key_id db' result t)
            ∷ (rotated_keys s hmac owner e db key_id db' result t))
          ≤ s.max_active_api_keys_per_user
    rotation_active o v w =
        let p : ApiKeyRecord → Bool = λ r. is_active_of o r && not (is_excluded none r) in
        let f = mark_rotated e.rotated_at result.new_key.metadata.key_id in
        elim (Bool-cases (owner == o)) [
          | inl same ↦
              let e : owner ≡ o = (==_iff owner o).0 same in
              let counted : p t.current ≡ true = ground (arith, t.mine, t.was_active, e) in
              let drop =
                count-modify_retire p t.current.id f db.keys old_here counted (ground arith) in
              let room = rw e at t.active_room in
              ground (arith, drop, room, active_count-excluding o t.current.id db.keys v.distinct)
          | inr other ↦ ground (
            arith,
            other,
            t.made.owned,
            w.active o,
            count-modify-le p t.current.id f db.keys (λ r h. ground arith),
          )
        ]

    rotation_within : IsSound db → WithinCapacity s db.keys → WithinCapacity s db'.keys
    rotation_within v w = rw (keys_after_rotation s hmac owner e db key_id db' result t) (record {
      active = λ o. rotation_active o v w;
      total = λ o. ground (
        arith,
        w.total o,
        t.total_room,
        t.made.owned,
        count-modify-le (is_owned_by o) t.current.id
            (mark_rotated e.rotated_at result.new_key.metadata.key_id) db.keys (λ r h. h),
      );
    })

module _ (s : Settings) (hmac : Text → Text → ℕ) where
  pub Rotates-IsValid :
      (owner key_id : ℕ) (e : Entropy) (db : Database) (r : Result (RotatedApiKey × Database))
      → Rotates s hmac owner key_id e db r
      → Keeps s db r
  Rotates-IsValid owner key_id e db (err _) t v = v
  Rotates-IsValid owner key_id e db (ok (result, db')) t v = record {
    within = rotation_within s hmac owner e db key_id db' result t v.sound v.within;
    sound = rotation-IsSound s hmac owner e db key_id db' result t v.sound;
  }
