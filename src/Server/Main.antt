-- ===== src/Server/Main.antt =====
-- cmd/server/main.go, up to the start of the two listeners, which are the SDK's.
pub mod Configured
use komodo_accounts_api.Api.Health.{health_check_mode}
use komodo_accounts_api.Models.{CredentialsResponse, Account}
use komodo_accounts_api.TtlCache.{TtlCache}
use komodo_accounts_api.Api.Service.{new_service, ServiceExtraConfig, second, Service}
use komodo_accounts_api.Server.Setup.{
  env_int, started, fatal, bootstrap, Boot, env_duration, BootstrapResult, missing_keys, Sdk, Fatal,
}
use komodo_accounts_api.Prelude.{[], ◌∷◌, ◌*◌}
use komodo_accounts_api.Prelude.{ℕ, String, List, Bool, true, false, Option}
use komodo_accounts_api.Prelude.Int.{ℤ}

pub record Timeouts : Type 0 where
  pub read : ℕ
  pub write : ℕ
  pub idle : ℕ
  pub header : ℕ
  pub shutdown : ℕ

pub record Running : Type 0 where
  pub public_addr : String
  pub private_addr : String
  pub ddb_table : String
  pub service : Service
  pub profile_cache : TtlCache Account
  pub credentials_cache : TtlCache CredentialsResponse
  pub timeouts : Timeouts

-- How the program ends, or what it serves.
pub data Outcome : Type 0 where
  exited : (code : ℕ) → Outcome
  stopped : Fatal → Outcome
  serving : Running → Outcome

abbrev pub required : (getenv : String → String) → List (String × String)
required getenv =
    ("PORT", getenv "PORT")
    ∷ ("PORT_PRIVATE", getenv "PORT_PRIVATE")
    ∷ ("DYNAMODB_TABLE", getenv "DYNAMODB_TABLE")
    ∷ ("S3_EXPORT_BUCKET", getenv "S3_EXPORT_BUCKET")
    ∷ ("S3_AVATAR_BUCKET", getenv "S3_AVATAR_BUCKET")
    ∷ []

module _ (sdk : Sdk) (parse_duration atoi : String → Option ℤ) (getenv : String → String) where
  abbrev duration : String → ℕ → ℕ
  duration key default = env_duration parse_duration getenv key default

  abbrev timeouts_from : Timeouts
  timeouts_from = record {
    read = duration "SERVER_READ_TIMEOUT" (5 * second);
    write = duration "SERVER_WRITE_TIMEOUT" (10 * second);
    idle = duration "SERVER_IDLE_TIMEOUT" (60 * second);
    header = duration "SERVER_READ_HEADER_TIMEOUT" (2 * second);
    shutdown = duration "SERVER_SHUTDOWN_TIMEOUT" (30 * second);
  }

  abbrev pub service_config : BootstrapResult sdk → ServiceExtraConfig
  service_config svr = record {
    has_s3 = true;
    export_bucket = getenv "S3_EXPORT_BUCKET";
    unsubscribe_key = svr.unsubscribe_key;
    avatar_bucket = getenv "S3_AVATAR_BUCKET";
    presign_ttl = duration "S3_PRESIGN_TTL" (15 * 60 * second);
    unsub_token_ttl = duration "UNSUBSCRIBE_TOKEN_TTL" (30 * 24 * 3600 * second);
    cache_ttl = duration "PROFILE_CACHE_TTL" (60 * second);
    cache_max_size = env_int atoi getenv "PROFILE_CACHE_MAX_ENTRIES" 100_000;
    has_publisher = true;
  }

  abbrev pub running : Service × TtlCache Account × TtlCache CredentialsResponse → Running
  running (service, profile_cache, credentials_cache) = record {
    public_addr = getenv "PORT";
    private_addr = getenv "PORT_PRIVATE";
    ddb_table = getenv "DYNAMODB_TABLE";
    service = service;
    profile_cache = profile_cache;
    credentials_cache = credentials_cache;
    timeouts = timeouts_from;
  }

  abbrev pub served : Boot (BootstrapResult sdk) → Outcome
  served (fatal e) = stopped e
  served (started svr) = serving (running (new_service (service_config svr)))

  abbrev pub configured : List String → Outcome
  configured [] = served (bootstrap sdk getenv)
  configured (key ∷ keys) = exited 1

  abbrev pub unless_probed : ℕ × Bool → Outcome
  unless_probed (code, true) = exited code
  unless_probed (code, false) = configured (missing_keys (required getenv))

  -- `get_status` is the HTTP client of the health check.
  unfoldable pub main_program : (get_status : String → Option ℕ) (args : List String) → Outcome
  unfolding bootstrap new_service missing_keys health_check_mode
  main_program get_status args =
      unless_probed (health_check_mode get_status args (getenv "PORT") (getenv "PORT_PRIVATE"))
