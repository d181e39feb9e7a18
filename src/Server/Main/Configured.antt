-- ===== src/Server/Main/Configured.antt =====
-- What holds of a server that serves (cmd/server/main.go and setup.go).
use komodo_accounts_api.Api.Health.{health_check_mode}
use komodo_accounts_api.Api.Service.{second, positive_or, new_service}
use komodo_accounts_api.Server.Main.{
  running, service_config, required, unless_probed, served, health_check_mode, serving, new_service,
  configured, Running, main_program,
}
use komodo_accounts_api.Server.Setup.{
  init_outbound_clients, env_or, init_clients, none_missing, with_secrets, ◌>>=◌, secret_keys,
  secrets_missing, default_idempotency_ttl_sec, BootstrapResult, fatal, bootstrap,
  accounts_api_client_secret, Fatal, Boot, unsubscribe_token_secret, Sdk, started, BootstrapSecrets,
  SecretNames, parsed_or, missing_keys, set_bootstrap_secrets,
}
use komodo_accounts_api.Prelude.{
  ◌*◌, ap, ◌∙◌, eq_iff, Bool-cases, arith, All, ◌==◌, refl, [], ◌∷◌, ◌≡◌, ◌≢◌, ◌⊎◌, inl, inr,
}
use komodo_accounts_api.Exec.{Result-cases}
use komodo_accounts_api.Prelude.{ℕ, String, List, Bool, true, false, Option, none, some}
use komodo_accounts_api.Prelude.{◌<◌}
use komodo_accounts_api.Prelude.Int.{ℤ, pos}

-- No key is missing: every value is written.
missing_keys-nil :
    (vars : List (String × String)) → missing_keys vars ≡ [] → All (λ v. v.1 ≢ "") vars
unfolding missing_keys
missing_keys-nil [] h = tt
missing_keys-nil ((key, value) ∷ vars) h = elim (Bool-cases (value == "")) [
  | inl blank ↦ cc (rw blank at h)
  | inr written ↦
      (λ empty. cc ((eq_iff value "").1 empty, written), missing_keys-nil vars (rw written at h))
]

parsed_or-positive : (default : ℕ) (o : Option ℤ) → 0 < default → 0 < parsed_or default o
parsed_or-positive default (some (pos n)) h = ground arith
parsed_or-positive default (some _) h = h
parsed_or-positive default none h = h

none_missing-started :
    {A : Type 0} (e : List String → Fatal) (keys : List String) (f : Unit {0} → Boot A) (a : A)
    → (none_missing e keys >>= f) ≡ started a
    → (keys ≡ []) × (f tt ≡ started a)
none_missing-started e [] f a h = (refl, h)
none_missing-started e (key ∷ keys) f a h = cc

Boot-cases : {A : Type 0} (m : Boot A) → ((a : A) × (m ≡ started a)) ⊎ ((e : Fatal) × (m ≡ fatal e))
Boot-cases (started a) = inl (a, refl)
Boot-cases (fatal e) = inr (e, refl)

pub set_bootstrap_secrets-written :
    (names : SecretNames) (parse_int : String → Option ℤ) (vals : String → String)
    (secrets : BootstrapSecrets)
    → set_bootstrap_secrets names parse_int vals ≡ started secrets
    → (secrets.jwt_public_key ≢ "")
      × (secrets.jwt_issuer ≢ "")
      × (secrets.unsubscribe_key ≢ "")
      × (secrets.client_secret ≢ "")
      × (0 < secrets.idempotency_ttl_sec)
unfolding set_bootstrap_secrets
set_bootstrap_secrets-written names parse_int vals secrets h =
    let vars : List (String × String) =
      (names.jwt_public_key, vals names.jwt_public_key)
      ∷ (names.jwt_issuer, vals names.jwt_issuer)
      ∷ (unsubscribe_token_secret, vals unsubscribe_token_secret)
      ∷ (accounts_api_client_secret, vals accounts_api_client_secret)
      ∷ [] in
    let read : BootstrapSecrets = record {
      jwt_public_key = vals names.jwt_public_key;
      jwt_issuer = vals names.jwt_issuer;
      unsubscribe_key = vals unsubscribe_token_secret;
      idempotency_ttl_sec =
          parsed_or default_idempotency_ttl_sec (parse_int (vals names.idempotency_ttl_sec));
      client_secret = vals accounts_api_client_secret;
    } in
    let (complete, last) =
      none_missing-started secrets_missing (missing_keys vars) (λ done. started read) secrets h in
    let same : read ≡ secrets = cc (last) in
    let written = missing_keys-nil vars complete in
    let ttl =
      parsed_or-positive default_idempotency_ttl_sec (parse_int (vals names.idempotency_ttl_sec))
        (omega arith) in
    rw (← same) (written.0, written.1.0, written.1.1.0, written.1.1.1.0, ttl)

module _ (sdk : Sdk) (getenv : String → String) where
  abbrev key_or_none : Boot (BootstrapResult sdk) → String
  key_or_none (started svr) = svr.unsubscribe_key
  key_or_none (fatal e) = ""

  with_secrets-key :
      (fetched : String → String) (secrets : BootstrapSecrets) (svr : BootstrapResult sdk)
      → with_secrets sdk getenv fetched secrets ≡ started svr
      → secrets.unsubscribe_key ≡ svr.unsubscribe_key
  unfolding with_secrets
  with_secrets-key fetched secrets svr h =
      let clients =
        init_clients sdk (getenv "AWS_REGION") (getenv "AWS_ENDPOINT") secrets.jwt_public_key
          secrets.jwt_issuer (env_or "komodo-apis:user" (getenv "JWT_AUDIENCE_USER"))
          (env_or "komodo-apis:service" (getenv "JWT_AUDIENCE_SERVICE")) in
      let outbound =
        init_outbound_clients sdk (getenv "AUTH_API_BASE_URL") (getenv "EVENTS_API_BASE_URL")
          (getenv "ACCOUNTS_API_CLIENT_ID") secrets.client_secret in
      elim (Boot-cases clients) [
        | inr (e, failed) ↦ cc (rw failed at h)
        | inl (connected, e₁) ↦ elim (Boot-cases outbound) [
          | inr (e, failed) ↦ cc (rw (e₁, failed) at h)
          | inl (publisher, e₂) ↦ ap key_or_none (rw (e₁, e₂) at h)
        ]
      ]

  bootstrap-unsubscribe_key :
      (svr : BootstrapResult sdk) → bootstrap sdk getenv ≡ started svr → svr.unsubscribe_key ≢ ""
  unfolding bootstrap
  bootstrap-unsubscribe_key svr h =
      let region = getenv "AWS_REGION" in
      let endpoint = getenv "AWS_ENDPOINT" in
      let keys = secret_keys sdk.names in
      elim (Result-cases (sdk.init_logger (getenv "LOG_LEVEL"))) [
        | inr (e, failed) ↦ cc (rw failed at h)
        | inl (logger, e₁) ↦
            elim (Result-cases (sdk.new_secrets region endpoint (getenv "AWS_SECRET_PATH") keys)) [
              | inr (e, failed) ↦ cc (rw (e₁, failed) at h)
              | inl (manager, e₂) ↦ elim (Result-cases (sdk.get_secrets keys)) [
                | inr (e, failed) ↦ cc (rw (e₁, e₂, failed) at h)
                | inl (fetched, e₃) ↦
                    elim (Boot-cases (set_bootstrap_secrets sdk.names sdk.parse_int fetched)) [
                      | inr (e, failed) ↦ cc (rw (e₁, e₂, e₃, failed) at h)
                      | inl (secrets, e₄) ↦
                          let (_, _, written, _, _) =
                            set_bootstrap_secrets-written sdk.names sdk.parse_int fetched secrets
                              e₄ in
                          let kept =
                            with_secrets-key fetched secrets svr (rw (e₁, e₂, e₃, e₄) at h) in
                          λ empty. written (kept ∙ empty)
                    ]
              ]
            ]
      ]

positive_or-positive : (default value : ℕ) → 0 < default → 0 < positive_or default value
positive_or-positive default value h = ground arith

unless_probed-serving :
    (sdk : Sdk) (parse_duration atoi : String → Option ℤ) (getenv : String → String)
    (probed : ℕ × Bool) (r : Running)
    → unless_probed sdk parse_duration atoi getenv probed ≡ serving r
    → configured sdk parse_duration atoi getenv (missing_keys (required getenv)) ≡ serving r
unless_probed-serving sdk parse_duration atoi getenv (code, true) r h = cc
unless_probed-serving sdk parse_duration atoi getenv (code, false) r h = h

configured-serving :
    (sdk : Sdk) (parse_duration atoi : String → Option ℤ) (getenv : String → String)
    (keys : List String) (r : Running)
    → configured sdk parse_duration atoi getenv keys ≡ serving r
    → (keys ≡ []) × (served sdk parse_duration atoi getenv (bootstrap sdk getenv) ≡ serving r)
configured-serving sdk parse_duration atoi getenv [] r h = (refl, h)
configured-serving sdk parse_duration atoi getenv (key ∷ keys) r h = cc

-- A server that serves has a signing key, a table, two ports and two buckets that are named, and
-- caches whose entries live for a positive time.
pub main_program-configured :
    (sdk : Sdk) (parse_duration atoi : String → Option ℤ) (getenv : String → String)
    (get_status : String → Option ℕ) (args : List String) (r : Running)
    → main_program sdk parse_duration atoi getenv get_status args ≡ serving r
    → (r.service.unsubscribe_key ≢ "")
      × (r.ddb_table ≢ "")
      × (r.public_addr ≢ "")
      × (r.private_addr ≢ "")
      × (r.service.export_bucket ≢ "")
      × (r.service.avatar_bucket ≢ "")
      × (0 < r.service.cache_ttl)
      × (0 < r.service.presign_ttl)
      × (0 < r.service.unsub_token_ttl)
unfolding main_program new_service
main_program-configured sdk parse_duration atoi getenv get_status args r h =
    let probed = health_check_mode get_status args (getenv "PORT") (getenv "PORT_PRIVATE") in
    let vars = required getenv in
    let (complete, rest) =
      configured-serving sdk parse_duration atoi getenv (missing_keys vars) r
        (unless_probed-serving sdk parse_duration atoi getenv probed r h) in
    let named = missing_keys-nil vars complete in
    elim (Boot-cases (bootstrap sdk getenv)) [
      | inr (e, failed) ↦ cc (rw failed at rest)
      | inl (svr, up) ↦
          let config = service_config sdk parse_duration atoi getenv svr in
          let same : running sdk parse_duration atoi getenv (new_service config) ≡ r =
            cc (rw up at rest) in
          rw (← same) (
            bootstrap-unsubscribe_key sdk getenv svr up,
            named.1.1.0,
            named.0,
            named.1.0,
            named.1.1.1.0,
            named.1.1.1.1.0,
            positive_or-positive (60 * second) config.cache_ttl (omega arith),
            positive_or-positive (15 * 60 * second) config.presign_ttl (omega arith),
            positive_or-positive (30 * 24 * 3600 * second) config.unsub_token_ttl (omega arith),
          )
    ]
