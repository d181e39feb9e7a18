-- ===== src/Api.antt =====
-- internal/api: the requests, the answers, and the errors that become answers (errors.go).
pub mod Service
pub mod Settings
pub mod Account
pub mod Credentials
pub mod Address
pub mod Payments
pub mod Passkey
pub mod Preferences
pub mod Profile
pub mod Export
pub mod Health
pub mod Unsubscribe
use komodo_accounts_api.Errors.{
  version_conflict, invalid_input, invalid_communication_channel, invalid_unsubscribe_channel,
  invalid_unsubscribe_token, forbidden_namespace, already_exists, email_already_exists,
  passkey_already_exists, sign_count_regression, not_found, Err,
}
use komodo_accounts_api.Prelude.{none, if◌then◌else◌, some, Option, List, String, ◌==◌}
use komodo_accounts_api.Exec.{Exec, err, ok, Result}

-- What a handler reads of a request. The identity and the scopes are what the SDK's middleware left
-- in the context, `""` and `[]` where it left none; the path's identifiers and the query's email are
-- `""` where there are none; the body is what the strict decoder accepted, if it did.
pub record Request (T : Type 0) : Type 0 where
  pub path_id : String
  pub path_credential_id : String
  pub query_email : String
  pub client_key : String
  pub user_agent : String
  pub user_id : String
  pub scopes : List String
  pub body : Option T

-- The codes of `httpErr.Global`, and those of internal/models/errors.go.
pub data ErrorCode : Type 0 where
  global_unauthorized global_bad_request global_not_implemented global_not_found : ErrorCode
  global_internal : ErrorCode
  user_already_exists user_email_already_exists user_passkey_already_exists : ErrorCode
  user_sign_count_regression user_forbidden_namespace user_invalid_unsubscribe_token : ErrorCode
  user_invalid_unsubscribe_channel user_invalid_communication_channel user_invalid_input : ErrorCode
  user_version_conflict : ErrorCode

-- An answer: 200, 201 and 204, or the code of an error.
pub data Reply (A : Type 0) : Type 0 where
  status_ok : A → Reply A
  status_created : A → Reply A
  status_no_content : Reply A
  failure : ErrorCode → Reply A

unfoldable pub send_account_error : Err → ErrorCode
send_account_error not_found = global_not_found
send_account_error sign_count_regression = user_sign_count_regression
send_account_error passkey_already_exists = user_passkey_already_exists
send_account_error email_already_exists = user_email_already_exists
send_account_error already_exists = user_already_exists
send_account_error forbidden_namespace = user_forbidden_namespace
send_account_error invalid_unsubscribe_token = user_invalid_unsubscribe_token
send_account_error invalid_unsubscribe_channel = user_invalid_unsubscribe_channel
send_account_error invalid_communication_channel = user_invalid_communication_channel
send_account_error invalid_input = user_invalid_input
send_account_error version_conflict = user_version_conflict
send_account_error _ = global_internal

module _ {S A B : Type 0} where
  -- `sendAccountError`, or the answer made of the result
  abbrev pub answer : (A → Reply B) → Result A × S → Reply B × S
  answer reply (ok a, s) = (reply a, s)
  answer reply (err e, s) = (failure (send_account_error e), s)

  abbrev pub respond : (A → Reply B) → Exec S A → S → Reply B × S
  respond reply m s = answer reply (m s)

module _ {S B : Type 0} where
  -- An answer without a call of the service.
  abbrev pub refuse : ErrorCode → S → Reply B × S
  refuse code s = (failure code, s)

  -- `if id == "" { send the error; return }`
  abbrev pub require : String → ErrorCode → (S → Reply B × S) → S → Reply B × S
  require id code handle = if id == "" then refuse code else handle

  -- `decodeStrict`, and the answer to a body that it refuses
  abbrev pub with_body : {T : Type 0} → Option T → (T → S → Reply B × S) → S → Reply B × S
  with_body none handle = refuse global_bad_request
  with_body (some input) handle = handle input

-- The account of the path, or else the one of the token.
abbrev pub requested_id : {T : Type 0} → Request T → String
requested_id req = if req.path_id == "" then req.user_id else req.path_id
