-- ===== src/Tests/Servers.antt =====
-- A start of the server with a small SDK.
use komodo_accounts_api.Api.Health.Probes.{health_check_mode-Healthy, Healthy}
use komodo_accounts_api.Clients.{new_authenticated_client}
use komodo_accounts_api.Api.Service.{new_service, second}
use komodo_accounts_api.Api.Health.{port_of, health_probe, health_check_mode}
use komodo_accounts_api.Clients.Events.{new_publisher, EventSdk}
use komodo_accounts_api.Server.Main.Configured.{main_program-configured}
use komodo_accounts_api.Server.Setup.{
  init_outbound_clients, init_clients, with_secrets, set_bootstrap_secrets, bootstrap, missing_keys,
  Sdk,
}
use komodo_accounts_api.Server.Main.{serving, main_program, Running}
use komodo_accounts_api.Prelude.{
  trim_prefix, some, List, trim_right_slashes, trim_space, ◌*◌, refl, [], ◌∷◌, ◌≡◌, ◌≢◌, ◌<◌, ℕ,
  String, true, none, Option,
}
use komodo_accounts_api.Exec.{ok}
use komodo_accounts_api.TtlCache.{new}
use komodo_accounts_api.Prelude.Int.{ℤ}

abbrev small_events : EventSdk
small_events = record {
  Sink = String;
  Publisher = String;
  new_http_sink = λ url. ok url;
  new_publisher = λ sink. ok sink;
}

abbrev small : Sdk
small = record {
  names = record {
    jwt_public_key = "JWT_PUBLIC_KEY";
    jwt_issuer = "JWT_ISSUER";
    idempotency_ttl_sec = "IDEMPOTENCY_TTL_SEC";
    rate_limit_rps = "RATE_LIMIT_RPS";
    rate_limit_burst = "RATE_LIMIT_BURST";
  };
  Rate = ℕ;
  Limiter = ℕ × ℕ;
  Jwt = String;
  Dynamo = String;
  S3 = String;
  events = small_events;
  init_logger = λ level. ok tt;
  new_secrets = λ region endpoint path keys. ok tt;
  get_secrets = λ keys. ok (λ key. key);
  parse_int = λ s. none;
  parse_float = λ s. none;
  positive = λ r. true;
  rate_of = λ n. n;
  new_limiter = λ rps burst. (rps, burst);
  new_jwt = λ public_key issuer audience. ok audience;
  new_dynamo = λ region endpoint. ok region;
  new_s3 = λ region endpoint. ok region;
}

abbrev no_number : String → Option ℤ
no_number s = none

abbrev own_name : String → String
own_name key = key

abbrev no_answer : String → Option ℕ
no_answer url = none

abbrev expected : Running
expected = record {
  public_addr = "PORT";
  private_addr = "PORT_PRIVATE";
  ddb_table = "DYNAMODB_TABLE";
  service = record {
    has_s3 = true;
    export_bucket = "S3_EXPORT_BUCKET";
    unsubscribe_key = "UNSUBSCRIBE_TOKEN_SECRET";
    avatar_bucket = "S3_AVATAR_BUCKET";
    presign_ttl = 15 * 60 * second;
    unsub_token_ttl = 30 * 24 * 3600 * second;
    cache_ttl = 60 * second;
    has_publisher = true;
  };
  profile_cache = new 100_000;
  credentials_cache = new 100_000;
  timeouts = record {
    read = 5 * second;
    write = 10 * second;
    idle = 60 * second;
    header = 2 * second;
    shutdown = 30 * second;
  };
}

serving-ok :
    main_program small no_number no_number own_name no_answer ("accounts-api" ∷ [])
    ≡ serving expected
unfolding main_program health_check_mode missing_keys bootstrap set_bootstrap_secrets with_secrets
    init_clients init_outbound_clients new_authenticated_client new_publisher new_service trim_space
    trim_right_slashes
serving-ok = refl

main_program-configured_example :
    (expected.service.unsubscribe_key ≢ "")
    × (expected.ddb_table ≢ "")
    × (expected.public_addr ≢ "")
    × (expected.private_addr ≢ "")
    × (expected.service.export_bucket ≢ "")
    × (expected.service.avatar_bucket ≢ "")
    × (0 < expected.service.cache_ttl)
    × (0 < expected.service.presign_ttl)
    × (0 < expected.service.unsub_token_ttl)
main_program-configured_example =
    main_program-configured small no_number no_number own_name no_answer ("accounts-api" ∷ [])
      expected serving-ok

abbrev answers : String → Option ℕ
answers url = some 204

abbrev probing : List String
probing = "accounts-api" ∷ "-healthcheck" ∷ []

healthy-ok : health_check_mode answers probing ":7031" "7032" ≡ (0, true)
unfolding health_check_mode health_probe port_of trim_prefix trim_space
healthy-ok = refl

health_check_mode-Healthy_example :
    ((program : String) × (rest : List String) × (probing ≡ program ∷ "-healthcheck" ∷ rest))
    × Healthy answers ":7031"
    × Healthy answers "7032"
health_check_mode-Healthy_example =
    health_check_mode-Healthy answers probing ":7031" "7032" healthy-ok
