-- ===== src/Api/Passkey.antt =====
-- internal/api/passkey.go. The list response is the list that it wraps.
use komodo_accounts_api.Db.Passkeys.{
  delete_passkey, get_account_passkeys, create_passkey, update_passkey,
}
use komodo_accounts_api.Api.Settings.{missing_error}
use komodo_accounts_api.Api.{
  status_created, status_ok, status_no_content, respond, with_body, global_bad_request,
  passkey_already_exists, global_unauthorized, sign_count_regression, require, Reply, Request,
}
use komodo_accounts_api.Models.{PasskeyCredential}
use komodo_accounts_api.Errors.{
  sign_count_regression, passkey_already_exists, repo_sign_count_regression,
  repo_passkey_already_exists, is, Err,
}
use komodo_accounts_api.Dynamo.{DynamoDb}
use komodo_accounts_api.Prelude.{if◌then◌else◌}
use komodo_accounts_api.Exec.{rethrow, Exec}
use komodo_accounts_api.Prelude.{ℕ, String, List}

abbrev pub add_passkey_error : Err → Err
add_passkey_error e = if is e repo_passkey_already_exists then passkey_already_exists else e

abbrev pub update_passkey_error : Err → Err
update_passkey_error e =
    if is e repo_sign_count_regression then sign_count_regression else missing_error e

module _ (d : DynamoDb) where
  unfoldable pub get_passkeys : (account_id : String) → Exec d.State (List PasskeyCredential)
  get_passkeys account_id = rethrow missing_error (get_account_passkeys d account_id)

  -- The caller's credential is stamped in place: the operation returns it.
  unfoldable pub add_passkey :
      (now : ℕ) (account_id : String) → PasskeyCredential → Exec d.State PasskeyCredential
  add_passkey now account_id cred = rethrow add_passkey_error (create_passkey d now account_id cred)

  unfoldable pub service_update_passkey :
      (account_id credential_id : String) → PasskeyCredential → Exec d.State PasskeyCredential
  service_update_passkey account_id credential_id update =
      rethrow update_passkey_error (update_passkey d account_id credential_id update)

  unfoldable pub service_delete_passkey :
      (account_id credential_id : String) → Exec d.State (Unit {0})
  service_delete_passkey account_id credential_id =
      rethrow missing_error (delete_passkey d account_id credential_id)

  unfoldable pub get_passkeys_handler :
      Request (Unit {0}) → d.State → Reply (List PasskeyCredential) × d.State
  get_passkeys_handler req =
      require req.path_id global_unauthorized (respond status_ok (get_passkeys req.path_id))

  unfoldable pub add_passkey_handler :
      (now : ℕ) → Request PasskeyCredential → d.State → Reply PasskeyCredential × d.State
  add_passkey_handler now req = require req.path_id global_unauthorized (
      with_body req.body (λ input.
        require input.credential_id global_bad_request
          (respond status_created (add_passkey now req.path_id input))))

  unfoldable pub update_passkey_handler :
      Request PasskeyCredential → d.State → Reply PasskeyCredential × d.State
  update_passkey_handler req = require req.path_id global_unauthorized (
      require req.path_credential_id global_bad_request (
        with_body req.body (λ input.
          respond status_ok (service_update_passkey req.path_id req.path_credential_id input))))

  unfoldable pub delete_passkey_handler : Request (Unit {0}) → d.State → Reply (Unit {0}) × d.State
  delete_passkey_handler req = require req.path_id global_unauthorized (
      require req.path_credential_id global_bad_request (
        respond (λ done. status_no_content)
          (service_delete_passkey req.path_id req.path_credential_id)))
