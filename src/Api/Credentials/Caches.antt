-- ===== src/Api/Credentials/Caches.antt =====
-- The cache of credentials after a change of them (internal/api/credentials.go).
use komodo_accounts_api.Db.Account.{get_account, update_account_credentials}
use komodo_accounts_api.Models.{Account, UpdateCredentialsRequest}
use komodo_accounts_api.Api.Service.{World, Service, ObjectStore}
use komodo_accounts_api.Dynamo.{DynamoDb}
use komodo_accounts_api.TtlCache.{get}
use komodo_accounts_api.Api.Credentials.{
  both_missing, to_lower, get_account, update_account_credentials, World, Account,
  UpdateCredentialsRequest, Service, ObjectStore, DynamoDb, update_credentials,
}
use komodo_accounts_api.Prelude.{Bool-cases, to_lower, ◌==◌, ◌≡◌, inl, inr, ◌||◌}
use komodo_accounts_api.Exec.{Result-cases, ok}
use komodo_accounts_api.Prelude.{ℕ, String, none}
use komodo_accounts_api.TtlCache.Lookup.{get-delete}

-- After a change of the credentials that succeeds, if the account can then be read, the cache holds
-- no answer for signing in under its email in lower case.
pub update_credentials-invalidates :
    (d : DynamoDb) (o : ObjectStore) (svc : Service) (now : ℕ) (account_id : String)
    (req : UpdateCredentialsRequest) (account : Account) (w : World d o)
    → (update_credentials d o svc now account_id req w).0 ≡ ok tt
    → (let s = (update_account_credentials d now account_id req w.table).1 in
        (get_account d account_id s).0 ≡ ok account)
    → (later : ℕ)
    → (get later
        (to_lower account.email)
        (update_credentials d o svc now account_id req w).1.credentials_cache).0
      ≡ none
unfolding update_credentials
update_credentials-invalidates d o svc now account_id req account w h readable later =
    elim (Bool-cases (account_id == "" || both_missing req)) [
      | inl lacking ↦ cc (rw lacking at h)
      | inr given ↦
          elim (Result-cases (update_account_credentials d now account_id req w.table).0) [
            | inr (e, failed) ↦ cc (rw (given, failed) at h)
            | inl (_, done) ↦
                rw (given, done, readable)
                  (get-delete later (to_lower account.email) w.credentials_cache)
          ]
    ]
