-- ===== src/Api/Address.antt =====
-- internal/api/address.go
pub mod Default
use komodo_accounts_api.Db.Address.{
  get_account_addresses, update_address, delete_address, create_address,
}
use komodo_accounts_api.Api.Settings.{missing_error}
use komodo_accounts_api.Db.Defaults.{set_address_default}
use komodo_accounts_api.Api.{
  global_not_implemented, status_created, refuse, status_ok, status_no_content, respond, with_body,
  global_bad_request, already_exists, requested_id, global_unauthorized, require, Reply, Request,
}
use komodo_accounts_api.Models.{Address, UpdateAddressRequest}
use komodo_accounts_api.Errors.{already_exists, repo_already_exists, is, Err}
use komodo_accounts_api.Dynamo.{DynamoDb}
use komodo_accounts_api.Prelude.{if◌then◌else◌}
use komodo_accounts_api.Exec.{pure, rethrow, Exec, ◌>>=◌, ◌>>◌}
use komodo_accounts_api.Prelude.{ℕ, String, List, Bool, true, false, Option, none, some}

abbrev pub add_address_error : Err → Err
add_address_error e = if is e repo_already_exists then already_exists else e

abbrev pub asks_default : Option Bool → Bool
asks_default none = false
asks_default (some b) = b

module _ (d : DynamoDb) where
  -- The second step of both changes of an address.
  abbrev pub enforce_default :
      (now : ℕ) (account_id address_id : String) → Bool → Exec d.State (Unit {0})
  enforce_default now account_id address_id true = set_address_default d now account_id address_id
  enforce_default now account_id address_id false = pure tt

  unfoldable pub get_addresses : (account_id : String) → Exec d.State (List Address)
  get_addresses account_id = rethrow missing_error (get_account_addresses d account_id)

  -- The caller's address is updated in place: the operation returns it.
  unfoldable pub add_address :
      (now : ℕ) (fresh account_id : String) → Address → Exec d.State Address
  add_address now fresh account_id addr = do
    created ← rethrow add_address_error (create_address d fresh account_id addr)
    enforce_default now account_id created.address_id created.is_default
    pure created

  unfoldable pub service_update_address :
      (now : ℕ) (account_id address_id : String) → UpdateAddressRequest → Exec d.State (Unit {0})
  service_update_address now account_id address_id req = do
    rethrow missing_error (update_address d account_id address_id req)
    enforce_default now account_id address_id (asks_default req.is_default)

  unfoldable pub service_delete_address : (account_id address_id : String) → Exec d.State (Unit {0})
  service_delete_address account_id address_id =
      rethrow missing_error (delete_address d account_id address_id)

  unfoldable pub get_addresses_handler :
      Request (Unit {0}) → d.State → Reply (List Address) × d.State
  get_addresses_handler req =
      require (requested_id req) global_unauthorized
        (respond status_ok (get_addresses (requested_id req)))

  unfoldable pub get_address_handler : Request (Unit {0}) → d.State → Reply Address × d.State
  get_address_handler req =
      require req.user_id global_unauthorized
        (require req.path_id global_bad_request (refuse global_not_implemented))

  unfoldable pub add_address_handler :
      (now : ℕ) (fresh : String) → Request Address → d.State → Reply Address × d.State
  add_address_handler now fresh req = require req.user_id global_unauthorized (
      with_body req.body
        (λ input. respond status_created (add_address now fresh req.user_id input)))

  unfoldable pub update_address_handler :
      (now : ℕ) → Request UpdateAddressRequest → d.State → Reply (Unit {0}) × d.State
  update_address_handler now req = require req.user_id global_unauthorized (
      require req.path_id global_bad_request (
        with_body req.body
          (λ input. respond status_ok (service_update_address now req.user_id req.path_id input))))

  unfoldable pub delete_address_handler : Request (Unit {0}) → d.State → Reply (Unit {0}) × d.State
  delete_address_handler req = require req.user_id global_unauthorized (
      require req.path_id global_bad_request
        (respond (λ done. status_no_content) (service_delete_address req.user_id req.path_id)))
