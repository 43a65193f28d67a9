-- ===== src/Profiles/Invariant.antt =====
-- The invariant of the profile table, and that each write keeps it.
use quantum_api.Base.{
  ℕ, ◌⊎◌, ◌≡◌, refl, inl, inr, true, false, not, ◌&&◌, ◌||◌, some, [], ◌∷◌, arith, ==_iff, find,
  select, update, any, map, Bool-cases, Option-cases,
}
use quantum_api.Base.Text.{Text, text_eq_iff}
use quantum_api.Base.Transaction.{ok, err}
use quantum_api.Profiles.Table.{
  Profile, ProfileError, not_found, Profiles, has_id, is_owned_by, is_named, is_default_of,
  same_name, undefault, insert_profile, save_profile, put_profile, owned_profile_by_id, query,
  profile_by_name, default_profile,
}
use quantum_api.Profiles.Rows.{
  Apart, same_id, both_default, others, Keeps, same_id-IsSymmetric, same_name-IsSymmetric,
  both_default-IsSymmetric, Apart-select, Apart-update, Apart-put, select-one,
}

-- Identifiers are distinct, an owner's names are distinct, and an owner has one default at most.
pub record IsSound (rows : Profiles) : Type 0 where
  pub ids : Apart same_id rows
  pub names : Apart same_name rows
  pub defaults : Apart both_default rows

-- The query by name and the one for the default find one row at most, so neither raises.
pub query-named :
    (o : ℕ) (name : Text) (rows : Profiles)
    → IsSound rows
    → profile_by_name o name rows ≡ ok (find (is_named o name) rows, rows)
unfolding profile_by_name query
query-named o name rows v =
    rw (select-one same_name (is_named o name) rows one_name v.names, profile_by_name, query)
  where
    one_name :
        (x y : Profile)
        → is_named o name x ≡ true
        → same_name x y ≡ false
        → is_named o name y ≡ false
    one_name x y h e =
        let owner : x.owner_user_id ≡ o = ground (arith, h) in
        let named : x.profile_name ≡ name =
          (text_eq_iff x.profile_name name).0 (ground (arith, h)) in
        rw (owner, named) at e

pub query-default :
    (o : ℕ) (rows : Profiles)
    → IsSound rows
    → default_profile o rows ≡ ok (find (is_default_of o) rows, rows)
unfolding default_profile query
query-default o rows v =
    rw (
      select-one both_default (is_default_of o) rows one_default v.defaults,
      default_profile,
      query,
    )
  where
    one_default :
        (x y : Profile)
        → is_default_of o x ≡ true
        → both_default x y ≡ false
        → is_default_of o y ≡ false
    one_default x y h e = ground (arith, h, e)

-- Clearing the default of an owner.
undefault-Keeps_id : (now : ℕ) → Keeps same_id (undefault now)
undefault-Keeps_id now x y h = (h, h, h)

undefault-Keeps_name : (now : ℕ) → Keeps same_name (undefault now)
undefault-Keeps_name now x y h = (h, h, h)

undefault-Keeps_default : (now : ℕ) → Keeps both_default (undefault now)
undefault-Keeps_default now x y h = (ground arith, ground arith, ground arith)

unfoldable pub cleared : ℕ → ℕ → Profiles → Profiles
cleared o now rows = update (is_default_of o) (undefault now) rows

pub cleared-IsSound : (o now : ℕ) (rows : Profiles) → IsSound rows → IsSound (cleared o now rows)
unfolding cleared
cleared-IsSound o now rows v = record {
  ids = Apart-update same_id (is_default_of o) (undefault now) rows (undefault-Keeps_id now) v.ids;
  names =
      Apart-update same_name (is_default_of o) (undefault now) rows (undefault-Keeps_name now)
        v.names;
  defaults =
      Apart-update both_default (is_default_of o) (undefault now) rows (undefault-Keeps_default now)
        v.defaults;
}

pub cleared-none :
    (o now : ℕ) (rows : Profiles) → any (is_default_of o) (cleared o now rows) ≡ false
unfolding cleared
cleared-none o now [] = refl
cleared-none o now (x ∷ xs) = ground (arith, cleared-none o now xs)

-- A row that is added or saved must leave its owner one default.
pub insert_profile-IsSound :
    (p : Profile) (rows : Profiles)
    → IsSound rows
    → (p.is_default && any (is_default_of p.owner_user_id) rows) ≡ false
    → (insert_profile p rows ≡ err ProfileError.integrity_error)
      ⊎ (insert_profile p rows ≡ ok (tt, p ∷ rows)) × IsSound (p ∷ rows)
unfolding insert_profile
insert_profile-IsSound p rows v d =
    elim (Bool-cases (any (λ x. has_id p.id x || same_name p x) rows)) [
      | inl taken ↦ inl (rw taken)
      | inr free ↦ inr (
        rw free,
        record {
          ids = (any_left rows free, v.ids);
          names = (any_right rows free, v.names);
          defaults = (any_both rows d, v.defaults);
        },
      )
    ]
  where
    any_left :
        (rows : Profiles)
        → any (λ x. has_id p.id x || same_name p x) rows ≡ false
        → any (same_id p) rows ≡ false
    any_left [] h = refl
    any_left (x ∷ xs) h = ground (arith, any_left xs)

    any_right :
        (rows : Profiles)
        → any (λ x. has_id p.id x || same_name p x) rows ≡ false
        → any (same_name p) rows ≡ false
    any_right [] h = refl
    any_right (x ∷ xs) h = ground (arith, any_right xs)

    any_both :
        (rows : Profiles)
        → (p.is_default && any (is_default_of p.owner_user_id) rows) ≡ false
        → any (both_default p) rows ≡ false
    any_both [] h = refl
    any_both (x ∷ xs) h = ground (arith, any_both xs)

pub save_profile-IsSound :
    (p : Profile) (rows : Profiles)
    → IsSound rows
    → any (others both_default p) rows ≡ false
    → (save_profile p rows ≡ err ProfileError.integrity_error)
      ⊎ (save_profile p rows ≡ ok (tt, map (put_profile p) rows))
        × IsSound (map (put_profile p) rows)
unfolding save_profile
save_profile-IsSound p rows v d = elim (Bool-cases (any (others same_name p) rows)) [
  | inl taken ↦ inl (rw taken)
  | inr free ↦ inr (
    rw free,
    record {
      ids = Apart-put same_id p rows same_id-IsSymmetric v.ids (no_other_id rows) v.ids;
      names = Apart-put same_name p rows same_name-IsSymmetric v.ids free v.names;
      defaults = Apart-put both_default p rows both_default-IsSymmetric v.ids d v.defaults;
    },
  )
]
  where
    no_other_id : (rows : Profiles) → any (others same_id p) rows ≡ false
    no_other_id [] = refl
    no_other_id (x ∷ xs) = ground (arith, no_other_id xs)

pub remove_profile-IsSound :
    (p : Profile) (rows : Profiles)
    → IsSound rows
    → IsSound (select (λ x. not (has_id p.id x)) rows)
remove_profile-IsSound p rows v = record {
  ids = Apart-select same_id (λ x. not (has_id p.id x)) rows v.ids;
  names = Apart-select same_name (λ x. not (has_id p.id x)) rows v.names;
  defaults = Apart-select both_default (λ x. not (has_id p.id x)) rows v.defaults;
}

pub owned_profile-cases :
    (o k : ℕ) (rows : Profiles)
    → (owned_profile_by_id o k rows ≡ err not_found)
      ⊎ ((p : Profile) × (find (has_id k) rows ≡ some p)
          × (p.owner_user_id ≡ o)
          × (owned_profile_by_id o k rows ≡ ok (p, rows)))
unfolding owned_profile_by_id
owned_profile-cases o k rows = elim (Option-cases (find (has_id k) rows)) [
  | inl missing ↦ inl (rw (missing, owned_profile_by_id))
  | inr (p, found) ↦ elim (Bool-cases (is_owned_by o p)) [
    | inl mine ↦
        inr (p, found, (==_iff p.owner_user_id o).0 mine, rw (found, owned_profile_by_id, mine))
    | inr other ↦ inl (rw (found, owned_profile_by_id, other))
  ]
]
