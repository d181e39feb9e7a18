-- ===== src/Api/Payments.antt =====
-- internal/api/payments.go
pub mod Default
use komodo_accounts_api.Api.Settings.{missing_error}
use komodo_accounts_api.Db.Payments.{list_payments, delete_payment, upsert_payment}
use komodo_accounts_api.Db.Defaults.{set_payment_default}
use komodo_accounts_api.Models.{PaymentMethod}
use komodo_accounts_api.Api.{
  global_not_implemented, refuse, status_ok, status_no_content, respond, with_body,
  global_bad_request, already_exists, requested_id, global_unauthorized, require, Reply, Request,
}
use komodo_accounts_api.Errors.{already_exists, repo_already_exists, is, Err}
use komodo_accounts_api.Dynamo.{DynamoDb}
use komodo_accounts_api.Prelude.{if◌then◌else◌}
use komodo_accounts_api.Exec.{pure, rethrow, Exec, ◌>>=◌, ◌>>◌}
use komodo_accounts_api.Prelude.{ℕ, String, List, Bool, true, false}

abbrev pub upsert_payment_error : Err → Err
upsert_payment_error e = if is e repo_already_exists then already_exists else missing_error e

module _ (d : DynamoDb) where
  abbrev pub enforce_payment_default :
      (now : ℕ) (account_id payment_id : String) → Bool → Exec d.State (Unit {0})
  enforce_payment_default now account_id payment_id true =
      set_payment_default d now account_id payment_id
  enforce_payment_default now account_id payment_id false = pure tt

  unfoldable pub get_payments : (account_id : String) → Exec d.State (List PaymentMethod)
  get_payments account_id = rethrow missing_error (list_payments d account_id)

  -- The caller's method is updated in place: the operation returns it.
  unfoldable pub service_upsert_payment :
      (now : ℕ) (fresh account_id : String) → PaymentMethod → Exec d.State PaymentMethod
  service_upsert_payment now fresh account_id pm = do
    stored ← rethrow upsert_payment_error (upsert_payment d fresh account_id pm)
    enforce_payment_default now account_id stored.payment_id stored.is_default
    pure stored

  unfoldable pub service_delete_payment : (account_id payment_id : String) → Exec d.State (Unit {0})
  service_delete_payment account_id payment_id =
      rethrow missing_error (delete_payment d account_id payment_id)

  unfoldable pub get_payments_handler :
      Request (Unit {0}) → d.State → Reply (List PaymentMethod) × d.State
  get_payments_handler req =
      require (requested_id req) global_unauthorized
        (respond status_ok (get_payments (requested_id req)))

  unfoldable pub get_payment_handler : Request (Unit {0}) → d.State → Reply PaymentMethod × d.State
  get_payment_handler req =
      require req.user_id global_unauthorized
        (require req.path_id global_bad_request (refuse global_not_implemented))

  unfoldable pub upsert_payment_handler :
      (now : ℕ) (fresh : String) → Request PaymentMethod → d.State → Reply PaymentMethod × d.State
  upsert_payment_handler now fresh req = require req.user_id global_unauthorized (
      with_body req.body
        (λ input. respond status_ok (service_upsert_payment now fresh req.user_id input)))

  unfoldable pub delete_payment_handler : Request (Unit {0}) → d.State → Reply (Unit {0}) × d.State
  delete_payment_handler req = require req.user_id global_unauthorized (
      require req.path_id global_bad_request
        (respond (λ done. status_no_content) (service_delete_payment req.user_id req.path_id)))
