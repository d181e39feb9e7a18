-- ===== src/Api/Credentials.antt =====
-- internal/api/credentials.go: the lookup by email with its cache, the update, and the handlers.
pub mod Caches
use komodo_accounts_api.Api.{
  status_ok, status_no_content, respond, with_body, global_bad_request, require, Reply, Request,
}
use komodo_accounts_api.Clients.Events.{NewInput}
use komodo_accounts_api.Api.Account.{check_account_exists}
use komodo_accounts_api.Errors.{invalid_input}
use komodo_accounts_api.Api.Settings.{missing_error}
use komodo_accounts_api.Api.Service.{on_table, World, Service, ObjectStore}
use komodo_accounts_api.Dynamo.{DynamoDb}
use komodo_accounts_api.Models.{CredentialsResponse, Account, UpdateCredentialsRequest}
use komodo_accounts_api.Prelude.{
  trim_space, ◌||◌, if◌then◌else◌, to_lower, none, String, false, ℕ, some, ◌&&◌, true, Bool, Option,
  ◌==◌,
}
use komodo_accounts_api.Exec.{attempt, ◌>>◌, raise, err, rethrow, pure, Exec, Result, ◌>>=◌, ok}
use komodo_accounts_api.TtlCache.{get, set, delete}
use komodo_accounts_api.Db.Account.{
  get_account_credentials_by_email, get_account, update_account_credentials,
}

abbrev unset : {A : Type 0} → Option A → Bool
unset none = true
unset (some v) = false

abbrev pub both_missing : UpdateCredentialsRequest → Bool
both_missing req = unset req.password_hash && unset req.auth_methods

module _ (d : DynamoDb) (o : ObjectStore) (svc : Service) where
  abbrev credentials_cached :
      (now : ℕ) (cache_key : String) → Exec (World d o) (Option CredentialsResponse)
  credentials_cached now cache_key w =
      let p = get now cache_key w.credentials_cache in
      (ok p.0, record w { credentials_cache = p.1 })

  abbrev cache_credentials :
      (now : ℕ) (cache_key : String) → CredentialsResponse → Exec (World d o) (Unit {0})
  cache_credentials now cache_key creds w = (
    ok tt,
    record w { credentials_cache = set now cache_key creds svc.cache_ttl w.credentials_cache },
  )

  abbrev credentials_found :
      (now : ℕ) (email : String) → Option CredentialsResponse → Exec (World d o) CredentialsResponse
  credentials_found now email (some creds) = pure creds
  credentials_found now email none = do
    creds ← rethrow missing_error (on_table (get_account_credentials_by_email d email))
    cache_credentials now (to_lower email) creds
    pure creds

  unfoldable pub get_credentials : (now : ℕ) (email : String) → Exec (World d o) CredentialsResponse
  get_credentials now email = do
    cached ← credentials_cached now (to_lower email)
    credentials_found now email cached

  abbrev pub forget : Result Account → Exec (World d o) (Unit {0})
  forget (ok account) w =
      (ok tt, record w { credentials_cache = delete (to_lower account.email) w.credentials_cache })
  forget (err e) w = (ok tt, w)

  unfoldable pub update_credentials :
      (now : ℕ) (account_id : String) → UpdateCredentialsRequest → Exec (World d o) (Unit {0})
  update_credentials now account_id req =
      if account_id == "" || both_missing req then raise invalid_input else (do
        rethrow missing_error (on_table (update_account_credentials d now account_id req))
        account ← attempt (on_table (get_account d account_id))
        forget account)

  unfoldable pub get_credentials_handler :
      (now : ℕ) → Request (Unit {0}) → World d o → Reply CredentialsResponse × World d o
  unfolding trim_space
  get_credentials_handler now req =
      let email = trim_space req.query_email in
      require email global_bad_request (respond status_ok (get_credentials now email))

  unfoldable pub update_credentials_handler :
      (now : ℕ) → Request UpdateCredentialsRequest → World d o → Reply (Unit {0}) × World d o
  update_credentials_handler now req = require req.path_id global_bad_request (
      with_body req.body
        (λ input. respond (λ done. status_no_content) (update_credentials now req.path_id input)))

module _ (d : DynamoDb) (o : ObjectStore) (builds : NewInput → Bool) (svc : Service) where
  unfoldable pub get_account_exists_handler :
      Request (Unit {0}) → World d o → Reply Bool × World d o
  unfolding trim_space
  get_account_exists_handler req =
      let email = trim_space req.query_email in
      require email global_bad_request
        (respond status_ok (check_account_exists d o builds svc email))
