-- ===== src/Server/Setup.antt =====
-- cmd/server/setup.go. The SDK's constructors, the parsers of numbers and the environment are
-- parameters; `logger.Fatal`, which ends the program, is a result.
use komodo_accounts_api.Clients.{Config, new_authenticated_client}
use komodo_accounts_api.Clients.Events.{new_publisher, EventSdk}
use komodo_accounts_api.Prelude.{eqb, trim_space, ◌==◌, [], ◌∷◌}
use komodo_accounts_api.Prelude.{ℕ, String, List, Bool, true, Option, none, some, if◌then◌else◌}
use komodo_accounts_api.Prelude.Int.{ℤ, pos}
use komodo_accounts_api.Exec.{ok, err, Result}

pub data Fatal : Type 0 where
  logger_failed secrets_manager_failed secrets_fetch_failed : Fatal
  secrets_missing : List String → Fatal
  user_jwt_failed service_jwt_failed dynamodb_failed s3_failed : Fatal
  outbound_missing : List String → Fatal
  authenticated_client_failed publisher_failed : Fatal

pub data Boot (A : Type 0) : Type 0 where
  started : A → Boot A
  fatal : Fatal → Boot A

infixl 5 ◌>>=◌
abbrev pub ◌>>=◌ : {A B : Type 0} → Boot A → (A → Boot B) → Boot B
started a >>= f = f a
fatal e >>= f = fatal e

infixl 5 ◌>>◌
abbrev pub ◌>>◌ : {A B : Type 0} → Boot A → Boot B → Boot B
m >> n = m >>= λ a. n

abbrev pub or_fatal : {A : Type 0} → Fatal → Result A → Boot A
or_fatal e (ok a) = started a
or_fatal e (err x) = fatal e

abbrev pub none_missing : (List String → Fatal) → List String → Boot (Unit {0})
none_missing e [] = started tt
none_missing e (k ∷ ks) = fatal (e (k ∷ ks))

-- The names that the SDK gives to four secrets, and to the lifetime of an idempotency key.
pub record SecretNames : Type 0 where
  pub jwt_public_key : String
  pub jwt_issuer : String
  pub idempotency_ttl_sec : String
  pub rate_limit_rps : String
  pub rate_limit_burst : String

abbrev pub unsubscribe_token_secret : String
unsubscribe_token_secret = "UNSUBSCRIBE_TOKEN_SECRET"

abbrev pub accounts_api_client_secret : String
accounts_api_client_secret = "ACCOUNTS_API_CLIENT_SECRET"

abbrev pub secret_keys : SecretNames → List String
secret_keys names =
    names.jwt_public_key ∷ names.jwt_issuer ∷ names.idempotency_ttl_sec ∷ names.rate_limit_rps
    ∷ names.rate_limit_burst ∷ unsubscribe_token_secret ∷ accounts_api_client_secret ∷ []

-- The keys whose value is empty, of pairs of a key and its value.
unfoldable pub missing_keys : List (String × String) → List String
missing_keys [] = []
missing_keys ((key, value) ∷ vars) =
    let missing = missing_keys vars in if value == "" then key ∷ missing else missing

-- A number that was read and is positive, or else the default.
abbrev pub parsed_or : (default : ℕ) → Option ℤ → ℕ
parsed_or default (some (pos n)) = if eqb n 0 then default else n
parsed_or default _ = default

pub record BootstrapSecrets : Type 0 where
  pub jwt_public_key : String
  pub jwt_issuer : String
  pub unsubscribe_key : String
  pub idempotency_ttl_sec : ℕ
  pub client_secret : String

abbrev pub default_idempotency_ttl_sec : ℕ
default_idempotency_ttl_sec = 300

-- `vals` gives `""` for a key that it does not hold. `parse_int` is `strconv.ParseInt`.
unfoldable pub set_bootstrap_secrets :
    SecretNames → (parse_int : String → Option ℤ) → (vals : String → String) → Boot BootstrapSecrets
unfolding missing_keys
set_bootstrap_secrets names parse_int vals =
    let secrets : BootstrapSecrets = record {
      jwt_public_key = vals names.jwt_public_key;
      jwt_issuer = vals names.jwt_issuer;
      unsubscribe_key = vals unsubscribe_token_secret;
      idempotency_ttl_sec =
          parsed_or default_idempotency_ttl_sec (parse_int (vals names.idempotency_ttl_sec));
      client_secret = vals accounts_api_client_secret;
    } in
    none_missing secrets_missing (
      missing_keys (
        (names.jwt_public_key, secrets.jwt_public_key)
        ∷ (names.jwt_issuer, secrets.jwt_issuer)
        ∷ (unsubscribe_token_secret, secrets.unsubscribe_key)
        ∷ (accounts_api_client_secret, secrets.client_secret)
        ∷ []))
    >>= λ done. started secrets

-- `envDuration` in nanoseconds, with `time.ParseDuration`, and `envInt`, with `strconv.Atoi`.
abbrev pub env_duration :
    (parse_duration : String → Option ℤ) (getenv : String → String) (key : String) → ℕ → ℕ
env_duration parse_duration getenv key default = parsed_or default (parse_duration (getenv key))

abbrev pub env_int : (atoi : String → Option ℤ) (getenv : String → String) (key : String) → ℕ → ℕ
env_int atoi getenv key default = parsed_or default (atoi (getenv key))

-- An environment variable, or else the default.
abbrev pub env_or : (default value : String) → String
env_or default value = if value == "" then default else value

pub record Sdk : Type 1 where
  pub names : SecretNames
  pub Rate : Type 0
  pub Limiter : Type 0
  pub Jwt : Type 0
  pub Dynamo : Type 0
  pub S3 : Type 0
  pub events : EventSdk
  pub init_logger : (level : String) → Result (Unit {0})
  pub new_secrets : (region endpoint path : String) → List String → Result (Unit {0})
  pub get_secrets : List String → Result (String → String)
  pub parse_int : String → Option ℤ
  -- `strconv.ParseFloat`, and `v > 0`
  pub parse_float : String → Option Rate
  pub positive : Rate → Bool
  pub rate_of : ℕ → Rate
  pub new_limiter : (rps burst : Rate) → Limiter
  pub new_jwt : (public_key issuer audience : String) → Result Jwt
  pub new_dynamo : (region endpoint : String) → Result Dynamo
  pub new_s3 : (region endpoint : String) → Result S3

module _ (sdk : Sdk) where
  pub record Connected : Type 0 where
    pub user : sdk.Jwt
    pub service : sdk.Jwt
    pub ddb : sdk.Dynamo
    pub s3_client : sdk.S3

  pub record BootstrapResult : Type 0 where
    pub connected : Connected
    pub unsubscribe_key : String
    pub general_limiter : sdk.Limiter
    pub idempotency_ttl_sec : ℕ
    pub event_publisher : sdk.events.Publisher

  -- The four constructors run beside each other, and the first error in this order is reported.
  unfoldable pub init_clients :
      (region endpoint public_key issuer user_audience service_audience : String) → Boot Connected
  init_clients region endpoint public_key issuer user_audience service_audience = do
    user ← or_fatal user_jwt_failed (sdk.new_jwt public_key issuer user_audience)
    service ← or_fatal service_jwt_failed (sdk.new_jwt public_key issuer service_audience)
    ddb ← or_fatal dynamodb_failed (sdk.new_dynamo region endpoint)
    s3_client ← or_fatal s3_failed (sdk.new_s3 region endpoint)
    started (record { user = user; service = service; ddb = ddb; s3_client = s3_client })

  unfoldable pub init_outbound_clients :
      (auth_url events_url client_id client_secret : String) → Boot sdk.events.Publisher
  unfolding missing_keys new_authenticated_client new_publisher
  init_outbound_clients auth_url events_url client_id client_secret =
      let config : Config = record {
        auth_api_base_url = auth_url;
        events_api_base_url = events_url;
        client_id = client_id;
        client_secret = client_secret;
        scope = "";
      } in
      do
        none_missing outbound_missing (
            missing_keys (
              ("AUTH_API_BASE_URL", auth_url)
              ∷ ("EVENTS_API_BASE_URL", events_url)
              ∷ ("ACCOUNTS_API_CLIENT_ID", client_id)
              ∷ []))
        or_fatal authenticated_client_failed (new_authenticated_client config)
        or_fatal publisher_failed (new_publisher sdk.events events_url true)

  abbrev rate_or : (default : ℕ) → Option sdk.Rate → sdk.Rate
  rate_or default none = sdk.rate_of default
  rate_or default (some v) = if sdk.positive v then v else sdk.rate_of default

  -- What is left to do once the secrets are loaded.
  unfoldable pub with_secrets :
      (getenv fetched : String → String) → BootstrapSecrets → Boot BootstrapResult
  unfolding init_clients init_outbound_clients trim_space
  with_secrets getenv fetched secrets =
      let rps = rate_or 10 (sdk.parse_float (trim_space (fetched sdk.names.rate_limit_rps))) in
      let burst = rate_or 20 (sdk.parse_float (trim_space (fetched sdk.names.rate_limit_burst))) in
      do
        connected ←
            init_clients (getenv "AWS_REGION") (getenv "AWS_ENDPOINT") secrets.jwt_public_key
              secrets.jwt_issuer (env_or "komodo-apis:user" (getenv "JWT_AUDIENCE_USER"))
              (env_or "komodo-apis:service" (getenv "JWT_AUDIENCE_SERVICE"))
        event_publisher ←
            init_outbound_clients (getenv "AUTH_API_BASE_URL") (getenv "EVENTS_API_BASE_URL")
              (getenv "ACCOUNTS_API_CLIENT_ID") secrets.client_secret
        started (record {
          connected = connected;
          unsubscribe_key = secrets.unsubscribe_key;
          general_limiter = sdk.new_limiter rps burst;
          idempotency_ttl_sec = secrets.idempotency_ttl_sec;
          event_publisher = event_publisher;
        })

  unfoldable pub bootstrap : (getenv : String → String) → Boot BootstrapResult
  unfolding set_bootstrap_secrets with_secrets
  bootstrap getenv =
      let region = getenv "AWS_REGION" in
      let endpoint = getenv "AWS_ENDPOINT" in
      let keys = secret_keys sdk.names in
      do
        or_fatal logger_failed (sdk.init_logger (getenv "LOG_LEVEL"))
        or_fatal secrets_manager_failed
            (sdk.new_secrets region endpoint (getenv "AWS_SECRET_PATH") keys)
        fetched ← or_fatal secrets_fetch_failed (sdk.get_secrets keys)
        secrets ← set_bootstrap_secrets sdk.names sdk.parse_int fetched
        with_secrets getenv fetched secrets
