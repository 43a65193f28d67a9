-- ===== src/Examples/Keys.antt =====
-- A user who creates, rotates and revokes keys.
use quantum_api.Base.{◌+◌, ◌≡◌, inl, refl, none, some, false, [], ◌∷◌, arith}
use quantum_api.Base.Text.{Lacks, codes, text_eq}
use quantum_api.Keys.Format.{format_raw_key, parse_api_key_prefix, random_token, alphabet_at}
use quantum_api.Keys.Table.{ApiKeyRecord, active, Database, KeyMetadata, is_active}
use quantum_api.Keys.Session.{ok, err, limit_exceeded}
use quantum_api.Keys.Retire.{revoke_key, find_active_runtime_key_by_prefix}
use quantum_api.Keys.Create.{CreatedApiKey, Entropy, create_key, rotate_key}
use quantum_api.Keys.Requests.{
  create, rotate, revoke, delete_all, run_request, run_requests, empty_database,
}
use quantum_api.Keys.Invariant.{IsSound, IsValid}
use quantum_api.Keys.Preserved.{empty_database-IsValid, run_request-IsValid, reachable-IsValid}
use quantum_api.Keys.Isolation.{owned_rows, run_request-spares_others}
use quantum_api.Keys.Access.{
  UsableAfter, Replaces, create_key-Usable, revoke_key-revokes, rotate_key-Replaces,
}
use quantum_api.Keys.Granted.{create_key-returns, create_key-refuses}
use quantum_api.Keys.RoundTrip.{parse-format, parse_underscore}
use quantum_api.Examples.Samples.{settings, ascii, weigh}

abbrev first : Entropy
first = record {
  prefix_source = λ n i. n + i;
  secret_source = λ n i. i;
  uuid = 10;
  now = 100;
  rotated_at = 100;
}

abbrev second : Entropy
second = record {
  prefix_source = λ n i. n + i + 7;
  secret_source = λ n i. i;
  uuid = 11;
  now = 200;
  rotated_at = 201;
}

abbrev key : ApiKeyRecord
key = record {
  id = 10;
  owner_user_id = 1;
  name = none;
  key_prefix = codes "abcd";
  key_hash_sha256 = 5;
  status = active;
  policy = record { rate_limit_per_second = 1; rate_limit_per_minute = 5; daily_quota = 50 };
  created_at = 100;
  revoked_at = none;
  rotated_from_id = none;
  rotated_to_id = none;
  last_used_at = none;
}

abbrev one_key : Database
one_key = record { keys = key ∷ []; events = [] }

one_key-IsSound : IsSound one_key
one_key-IsSound = record {
  distinct = (refl, tt);
  prefixes = (refl, tt);
  rows = ((refl, refl), tt);
  audited = tt;
}

reachable-IsValid_example : IsValid settings (
    run_requests settings weigh
      (create 1 none [] first ∷ rotate 1 10 [] second ∷ revoke 1 11 [] 300 ∷ delete_all 1 ∷ [])
      empty_database)
reachable-IsValid_example =
    reachable-IsValid settings weigh
      (create 1 none [] first ∷ rotate 1 10 [] second ∷ revoke 1 11 [] 300 ∷ delete_all 1 ∷ [])

run_request-IsValid_example :
    IsValid settings (run_request settings weigh (create 1 none [] first) empty_database)
run_request-IsValid_example =
    run_request-IsValid settings weigh (create 1 none [] first) empty_database
      (empty_database-IsValid settings weigh)

run_request-spares_others_example :
    owned_rows 2 (run_request settings weigh (create 1 none [] first) empty_database).keys
    ≡ owned_rows 2 empty_database.keys
run_request-spares_others_example =
    run_request-spares_others settings weigh (create 1 none [] first) empty_database 1 2
      (empty_database-IsValid settings weigh) refl (λ h. omega (arith, h))

plain : Lacks b'_' settings.api_key_format_prefix
plain = (refl, (refl, (refl, (refl, tt))))

create_key-Usable_example :
    UsableAfter ascii settings weigh 1 (create_key settings weigh 1 1 none [] second one_key)
create_key-Usable_example =
    create_key-Usable ascii settings weigh plain (omega arith) (omega arith) 1 1 none [] second
      one_key

rotate_key-Replaces_example :
    Replaces ascii settings weigh plain
      (omega arith)
      (omega arith)
      1
      10
      one_key
      (rotate_key settings weigh 1 1 10 [] second one_key)
rotate_key-Replaces_example =
    rotate_key-Replaces ascii settings weigh plain (omega arith) (omega arith) 1 1 10 [] second
      one_key one_key-IsSound

revoke_key-revokes_example :
    (m : KeyMetadata) × (db' : Database) × (revoke_key settings 1 1 10 [] 300 one_key ≡ ok (m, db'))
    × (is_active m.status ≡ false)
    × (find_active_runtime_key_by_prefix key.key_prefix db' ≡ none)
revoke_key-revokes_example =
    revoke_key-revokes settings 1 1 10 [] 300 one_key one_key-IsSound refl refl

create_key-returns_example :
    (c : CreatedApiKey) × (db' : Database) × (create_key settings weigh 1 1 none [] second one_key
      ≡ ok (c, db'))
    × (c.metadata.key_id ≡ 11)
unfolding text_eq random_token alphabet_at
create_key-returns_example =
    create_key-returns settings weigh 1 1 none [] second one_key (omega arith) (omega arith) refl
      refl

create_key-refuses_example :
    create_key
      (record settings { max_total_api_keys_per_user = 1 })
      weigh
      1
      1
      none
      []
      second
      one_key
    ≡ err limit_exceeded
create_key-refuses_example =
    create_key-refuses (record settings { max_total_api_keys_per_user = 1 }) weigh 1 1 none []
      second one_key (inl (omega arith))

parse-format_example :
    parse_api_key_prefix ascii settings.api_key_format_prefix
      (some (format_raw_key settings (codes "ab12") (codes "abcdefghijkl")))
    ≡ some (codes "ab12")
parse-format_example =
    parse-format ascii settings (codes "ab12") (codes "abcdefghijkl") plain
      (refl, (refl, (refl, (refl, tt)))) (omega arith) (omega arith)

parse_underscore_example :
    parse_api_key_prefix ascii (codes "my_app") (some (codes "my_app_ab12_abcdefghijkl")) ≡ none
parse_underscore_example =
    parse_underscore ascii (codes "my_app") (some (codes "my_app_ab12_abcdefghijkl")) refl
