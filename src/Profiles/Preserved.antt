-- ===== src/Profiles/Preserved.antt =====
-- Every call of a profile route keeps the invariant, and none meets two rows where one is asked for.
use quantum_api.Base.{
  ℕ, ◌≡◌, ◌≢◌, refl, ◌⊎◌, inl, inr, Bool, true, false, not, ◌&&◌, ◌||◌, Option, none, some, List,
  [], ◌∷◌, arith, if◌then◌else◌, find, any, Bool-cases, Option-cases, is_some,
}
use quantum_api.Base.Text.{Text, strip, is_empty}
use quantum_api.Base.Transaction.{Result, ok, err, after, ◌>>=◌, ◌>>◌, raise_if}
use quantum_api.Config.{Settings}
use quantum_api.Profiles.Table.{
  Profile, ProfileError, not_found, default_missing, conflict, encryption_unavailable,
  multiple_results, Profiles, Cipher, has_id, is_named, is_default_of, clear_default_profile,
  save_profile, remove_profile,
}
use quantum_api.Profiles.Service.{
  NewProfile, Changes, cipher_secret, new_profile, clear_if, create_profile, check_name, renames,
  or_old, holds_another, secret_if, changed, update_profile, delete_profile,
  set_verification_status, credentials_of, decrypt, expect, resolve_runtime_credentials,
}
use quantum_api.Profiles.Requests.{
  ProfileRequest, create, change, delete, verify, error_of, request_error, run_profile_request,
  run_profile_requests,
}
use quantum_api.Profiles.Rows.{both_default, others, both_default-IsSymmetric, others-Apart}
use quantum_api.Profiles.Invariant.{
  IsSound, query-named, query-default, cleared, cleared-IsSound, cleared-none,
  insert_profile-IsSound, save_profile-IsSound, remove_profile-IsSound, owned_profile-cases,
}

-- A call that returns leaves the invariant; one that raises does not meet two rows for one.
abbrev pub Behaves : {A : Type 0} → Result ProfileError (A × Profiles) → Type 0
Behaves (ok (_, rows)) = IsSound rows
Behaves (err e) = e ≢ multiple_results

kept :
    {A : Type 0} {rows : Profiles} (r : Result ProfileError (A × Profiles))
    → IsSound rows
    → Behaves r
    → IsSound (after rows r) × (error_of r ≢ some multiple_results)
kept (ok (a, rows')) v b = (b, λ e. cc e)
kept (err e) v b = (v, λ q. b (cc q))

abbrev pub after_clear : Bool → ℕ → ℕ → Profiles → Profiles
after_clear b o now rows = if b then cleared o now rows else rows

module _ (c : Cipher) (s : Settings) where
  pub clear_if-eq :
      (b : Bool) (o now : ℕ) (rows : Profiles)
      → clear_if c s b o now rows ≡ ok (tt, after_clear b o now rows)
  unfolding clear_if clear_default_profile cleared
  clear_if-eq true o now rows = refl
  clear_if-eq false o now rows = refl

  pub after_clear-IsSound :
      (b : Bool) (o now : ℕ) (rows : Profiles) → IsSound rows → IsSound (after_clear b o now rows)
  after_clear-IsSound true o now rows v = cleared-IsSound o now rows v
  after_clear-IsSound false o now rows v = v

  pub after_clear-none :
      (b : Bool) (o now : ℕ) (rows : Profiles)
      → (b && any (is_default_of o) (after_clear b o now rows)) ≡ false
  after_clear-none true o now rows = cleared-none o now rows
  after_clear-none false o now rows = refl

  pub cipher_secret-cases :
      (rows : Profiles)
      → (cipher_secret c s rows ≡ err encryption_unavailable)
        ⊎ (cipher_secret c s rows ≡ ok (strip s.ibm_credential_encryption_key, rows))
  unfolding cipher_secret
  cipher_secret-cases rows = elim (Bool-cases (is_empty (strip s.ibm_credential_encryption_key))) [
    | inl blank ↦ inl (rw blank)
    | inr set ↦ inr (rw set)
  ]

  create_profile-Behaves :
      (o : ℕ) (p : NewProfile) (bytes uuid now : ℕ) (rows : Profiles)
      → IsSound rows
      → Behaves (create_profile c s o p bytes uuid now rows)
  unfolding create_profile new_profile
  create_profile-Behaves o p bytes uuid now rows v = elim (cipher_secret-cases rows) [
    | inl shut ↦ rw (shut, create_profile, ◌>>◌, ◌>>=◌) (λ e. cc e)
    | inr secret ↦ elim (Bool-cases (is_some (find (is_named o p.profile_name) rows))) [
      | inl taken ↦
          rw
            (
              secret,
              query-named o p.profile_name rows v,
              taken,
              create_profile,
              ◌>>◌,
              ◌>>=◌,
              raise_if,
            )
            (λ e. cc e)
      | inr free ↦
          let should = p.is_default || not (is_some (find (is_default_of o) rows)) in
          let rows' = after_clear should o now rows in
          let key = strip s.ibm_credential_encryption_key in
          elim (insert_profile-IsSound (new_profile c s o p should key bytes uuid now) rows'
            (after_clear-IsSound should o now rows v) (after_clear-none should o now rows)) [
              | inl clash ↦
                  rw
                    (
                      secret,
                      query-named o p.profile_name rows v,
                      free,
                      query-default o rows v,
                      clear_if-eq should o now rows,
                      clash,
                      create_profile,
                      ◌>>◌,
                      ◌>>=◌,
                      raise_if,
                    )
                    (λ e. cc e)
              | inr (put, sound) ↦
                  rw
                    (
                      secret,
                      query-named o p.profile_name rows v,
                      free,
                      query-default o rows v,
                      clear_if-eq should o now rows,
                      put,
                      create_profile,
                      ◌>>◌,
                      ◌>>=◌,
                      raise_if,
                    )
                    sound
            ]
    ]
  ]

  -- What saving leaves, where the row keeps its owner at one default.
  save-Behaves :
      {A : Type 0} (a : A) (p : Profile) (rows : Profiles)
      → IsSound rows
      → any (others both_default p) rows ≡ false
      → Behaves ((save_profile p >>= λ _. λ rows'. ok (a, rows')) rows)
  save-Behaves a p rows v d = elim (save_profile-IsSound p rows v d) [
    | inl clash ↦ rw (clash, ◌>>=◌) (λ e. cc e)
    | inr (put, sound) ↦ rw (put, ◌>>=◌) sound
  ]

  set_verification_status-Behaves :
      (o k : ℕ) (status : Text) (at : Option ℕ) (now : ℕ) (rows : Profiles)
      → IsSound rows
      → Behaves (set_verification_status c s o k status at now rows)
  unfolding set_verification_status
  set_verification_status-Behaves o k status at now rows v = elim (owned_profile-cases o k rows) [
    | inl missing ↦ rw (missing, set_verification_status, ◌>>=◌) (λ e. cc e)
    | inr (p, found, mine, got) ↦
        let p' = record p {
          verification_status = status;
          last_verified_at = at;
          updated_at = now;
        } in
        rw (got, set_verification_status, ◌>>=◌)
          (save-Behaves p' p' rows v
            (others-Apart both_default k rows both_default-IsSymmetric v.defaults found))
  ]

  delete_profile-Behaves :
      (o k : ℕ) (rows : Profiles) → IsSound rows → Behaves (delete_profile c s o k rows)
  unfolding delete_profile remove_profile
  delete_profile-Behaves o k rows v = elim (owned_profile-cases o k rows) [
    | inl missing ↦ rw (missing, delete_profile, ◌>>=◌) (λ e. cc e)
    | inr (p, found, mine, got) ↦
        rw (got, delete_profile, remove_profile, ◌>>◌, ◌>>=◌) (remove_profile-IsSound p rows v)
  ]

  secret_if-cases :
      (t : Option Text) (rows : Profiles)
      → (secret_if c s t rows ≡ err encryption_unavailable)
        ⊎ ((secret : Text) × (secret_if c s t rows ≡ ok (secret, rows)))
  unfolding secret_if
  secret_if-cases none rows = inr ([], refl)
  secret_if-cases (some t) rows = elim (cipher_secret-cases rows) [
    | inl shut ↦ inl shut
    | inr open_ ↦ inr (strip s.ibm_credential_encryption_key, open_)
  ]

  check_name-cases :
      (o : ℕ) (name : Option Text) (p : Profile) (rows : Profiles)
      → IsSound rows
      → (check_name c s o name p rows ≡ err conflict)
        ⊎ (check_name c s o name p rows ≡ ok (tt, rows))
  unfolding check_name
  check_name-cases o name p rows v = elim (Bool-cases (renames name p)) [
    | inr keeps ↦ inr (rw keeps)
    | inl anew ↦
        let found = find (is_named o (or_old name p.profile_name)) rows in
        let got = query-named o (or_old name p.profile_name) rows v in
        elim (Bool-cases (holds_another found p)) [
          | inl taken ↦ inl (rw (anew, got, taken, ◌>>=◌))
          | inr free ↦ inr (rw (anew, got, free, ◌>>=◌))
        ]
  ]

  -- The changed row leaves its owner one default: the others' were cleared, or it is as before.
  changed-apart :
      (o k : ℕ) (ch : Changes) (secret : Text) (bytes now : ℕ) (rows : Profiles) (p : Profile)
      → IsSound rows
      → find (has_id k) rows ≡ some p
      → p.owner_user_id ≡ o
      → (d : Option Bool) → ch.is_default ≡ d
      → any
          (others both_default (changed c s ch secret bytes now p))
          (after_clear (or_old d false) o now rows)
        ≡ false
  unfolding changed
  changed-apart o k ch secret bytes now rows p v found mine none e =
      rw e (others-Apart both_default k rows both_default-IsSymmetric v.defaults found)
  changed-apart o k ch secret bytes now rows p v found mine (some false) e = rw e (no_default rows)
    where
      no_default : (xs : Profiles) → any (λ x. not (has_id p.id x) && false) xs ≡ false
      no_default [] = refl
      no_default (x ∷ xs) = ground (arith, no_default xs)
  changed-apart o k ch secret bytes now rows p v found mine (some true) e =
      rw (e, mine) (unless (cleared o now rows) (cleared-none o now rows))
    where
      unless :
          (xs : Profiles)
          → any (is_default_of o) xs ≡ false
          → any (λ x. not (has_id p.id x) && is_default_of o x) xs ≡ false
      unless [] h = refl
      unless (x ∷ xs) h = ground (arith, unless xs)

  update_profile-Behaves :
      (o k : ℕ) (ch : Changes) (bytes now : ℕ) (rows : Profiles)
      → IsSound rows
      → Behaves (update_profile c s o k ch bytes now rows)
  unfolding update_profile
  update_profile-Behaves o k ch bytes now rows v = elim (secret_if-cases ch.token rows) [
    | inl shut ↦ rw (shut, update_profile, ◌>>=◌) (λ e. cc e)
    | inr (secret, key) ↦ elim (owned_profile-cases o k rows) [
      | inl missing ↦ rw (key, missing, update_profile, ◌>>=◌) (λ e. cc e)
      | inr (p, found, mine, got) ↦ elim (check_name-cases o ch.profile_name p rows v) [
        | inl taken ↦ rw (key, got, taken, update_profile, ◌>>◌, ◌>>=◌) (λ e. cc e)
        | inr free ↦
            let b = or_old ch.is_default false in
            let p' = changed c s ch secret bytes now p in
            rw (key, got, free, clear_if-eq b o now rows, update_profile, ◌>>◌, ◌>>=◌)
              (save-Behaves p' p' (after_clear b o now rows) (after_clear-IsSound b o now rows v)
                (changed-apart o k ch secret bytes now rows p v found mine ch.is_default refl))
      ]
    ]
  ]

  -- Reading out a row raises nothing but the error of the cipher.
  credentials_of-single :
      (p : Profile) (rows : Profiles) → credentials_of c s p rows ≢ err multiple_results
  unfolding credentials_of decrypt
  credentials_of-single p rows = elim (cipher_secret-cases rows) [
    | inl shut ↦ rw (shut, credentials_of, ◌>>=◌) (λ e. cc e)
    | inr secret ↦
        elim (Option-cases (c.decrypt (strip s.ibm_credential_encryption_key) p.token_ciphertext)) [
          | inl bad ↦ rw (secret, credentials_of, ◌>>=◌, decrypt, bad) (λ e. cc e)
          | inr (token, good) ↦ rw (secret, credentials_of, ◌>>=◌, decrypt, good) (λ e. cc e)
        ]
  ]

  expected-single :
      (e : ProfileError) (found : Option Profile) (rows : Profiles)
      → e ≢ multiple_results
      → (expect c s e found >>= λ p. credentials_of c s p) rows ≢ err multiple_results
  unfolding expect
  expected-single e none rows h = λ q. h (cc q)
  expected-single e (some p) rows h = credentials_of-single p rows

  resolve-single :
      (o : ℕ) (name : Option Text) (rows : Profiles)
      → IsSound rows
      → resolve_runtime_credentials c s o name rows ≢ err multiple_results
  unfolding resolve_runtime_credentials
  resolve-single o none rows v =
      rw (query-default o rows v, resolve_runtime_credentials, ◌>>=◌)
        (expected-single default_missing (find (is_default_of o) rows) rows (λ e. cc e))
  resolve-single o (some name) rows v =
      rw (query-named o name rows v, resolve_runtime_credentials, ◌>>=◌)
        (expected-single not_found (find (is_named o name) rows) rows (λ e. cc e))

  request-Behaves :
      (q : ProfileRequest) (rows : Profiles)
      → IsSound rows
      → IsSound (run_profile_request c s q rows)
        × (request_error c s q rows ≢ some multiple_results)
  unfolding run_profile_request request_error
  request-Behaves (create o p bytes uuid now) rows v =
      kept (create_profile c s o p bytes uuid now rows) v
        (create_profile-Behaves o p bytes uuid now rows v)
  request-Behaves (change o k ch bytes now) rows v =
      kept (update_profile c s o k ch bytes now rows) v
        (update_profile-Behaves o k ch bytes now rows v)
  request-Behaves (delete o k) rows v =
      kept (delete_profile c s o k rows) v (delete_profile-Behaves o k rows v)
  request-Behaves (verify o k status at now) rows v =
      kept (set_verification_status c s o k status at now rows) v
        (set_verification_status-Behaves o k status at now rows v)

  requests-Behave :
      (qs : List ProfileRequest) (rows : Profiles)
      → IsSound rows
      → IsSound (run_profile_requests c s qs rows)
  unfolding run_profile_requests
  requests-Behave [] rows v = v
  requests-Behave (q ∷ qs) rows v =
      requests-Behave qs (run_profile_request c s q rows) (request-Behaves q rows v).0

  -- After any calls of the profile routes on an empty table, identifiers are distinct, so are the
  -- names of one owner, and no owner has two default profiles; and the next call, or a resolution of
  -- credentials by a name or by default, never fails because a query found more than one row.
  pub reachable_profiles-IsSound :
      (qs : List ProfileRequest) (q : ProfileRequest) (o : ℕ) (name : Option Text)
      → let rows = run_profile_requests c s qs [] in
        IsSound rows
        × (request_error c s q rows ≢ some multiple_results)
        × (resolve_runtime_credentials c s o name rows ≢ err multiple_results)
  reachable_profiles-IsSound qs q o name =
      let rows = run_profile_requests c s qs [] in
      let v = requests-Behave qs [] (record { ids = tt; names = tt; defaults = tt }) in
      (v, (request-Behaves q rows v).1, resolve-single o name rows v)
