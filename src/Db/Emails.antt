-- ===== src/Db/Emails.antt =====
-- The steps of the repository that touch an account (internal/db/account.go) beside those that write
-- elsewhere, and what it means that the emails of a table are reserved by their owners.
pub mod Apart
pub mod Kept
pub mod Erased
pub mod Elsewhere
pub mod Owned
use komodo_accounts_api.Db.Consent.{append_consent_log}
use komodo_accounts_api.Db.Passkeys.{delete_passkey, create_passkey}
use komodo_accounts_api.Db.Payments.{delete_payment, upsert_payment}
use komodo_accounts_api.Db.Address.{delete_address, update_address, create_address}
use komodo_accounts_api.Prelude.Int.{ℤ}
use komodo_accounts_api.Db.Erasure.{delete_account}
use komodo_accounts_api.Dynamo.Items.{Key, get_string, Item}
use komodo_accounts_api.Models.{
  ConsentLog, PasskeyCredential, PaymentMethod, UpdateAddressRequest, Address,
  UpdateSettingsRequest, UpdateCredentialsRequest, UpdateAccountRequest, Account,
  CreateAccountRequest,
}
use komodo_accounts_api.Dynamo.{DynamoDb}
use komodo_accounts_api.Dynamo.Laws.{Table}
use komodo_accounts_api.Prelude.{◌==◌, refl, [], ◌∷◌, ◌++◌, ◌≡◌, ◌≢◌, ◌⊎◌, inl, inr, ◌∙◌}
use komodo_accounts_api.Exec.{ok}
use komodo_accounts_api.Prelude.{ℕ, String, List, Bool, true, false, Option, none, some, not}
use komodo_accounts_api.Db.Account.{
  profile_key, create_account, update_account, update_account_credentials,
}
use komodo_accounts_api.Db.Account.Registered.{reservation_key}
use komodo_accounts_api.Db.Settings.{update_settings_partial}

-- The email of every profile, in lower case, is reserved, by the account of the profile.
abbrev pub Owned : Table → Type 0
Owned t =
    (account_id : String) (p : Item)
    → t (profile_key account_id) ≡ some p
    → (r : Item) × (t (reservation_key (get_string "email" p)) ≡ some r)
      × (get_string "account_id" r ≡ account_id)

-- These calls of the repository, where they succeed, and any that leaves the table as it is.
pub data Step (d : DynamoDb) : d.State → d.State → Type 0 where
  registered :
      (now : ℕ) (account_id : String) (req : CreateAccountRequest) (s : d.State) (a : Account)
      → (create_account d now account_id req s).0 ≡ ok a
      → Step d s (create_account d now account_id req s).1
  updated :
      (now : ℕ) (account_id : String) (req : UpdateAccountRequest) (s : d.State) (a : Account)
      → (update_account d now account_id req s).0 ≡ ok a
      → Step d s (update_account d now account_id req s).1
  signed_in_by :
      (now : ℕ) (account_id : String) (req : UpdateCredentialsRequest) (s : d.State)
      → (update_account_credentials d now account_id req s).0 ≡ ok tt
      → Step d s (update_account_credentials d now account_id req s).1
  erased :
      (account_id : String) (s : d.State)
      → (delete_account d account_id s).0 ≡ ok tt
      → Step d s (delete_account d account_id s).1
  settings_updated :
      (now : ℕ) (account_id : String) (req : UpdateSettingsRequest) (version : ℤ) (s : d.State)
      → (update_settings_partial d now account_id req version s).0 ≡ ok tt
      → Step d s (update_settings_partial d now account_id req version s).1
  address_created :
      (fresh account_id : String) (addr a : Address) (s : d.State)
      → (create_address d fresh account_id addr s).0 ≡ ok a
      → Step d s (create_address d fresh account_id addr s).1
  address_updated :
      (account_id address_id : String) (req : UpdateAddressRequest) (s : d.State)
      → (update_address d account_id address_id req s).0 ≡ ok tt
      → Step d s (update_address d account_id address_id req s).1
  address_deleted :
      (account_id address_id : String) (s : d.State)
      → (delete_address d account_id address_id s).0 ≡ ok tt
      → Step d s (delete_address d account_id address_id s).1
  payment_upserted :
      (fresh account_id : String) (method stored : PaymentMethod) (s : d.State)
      → (upsert_payment d fresh account_id method s).0 ≡ ok stored
      → Step d s (upsert_payment d fresh account_id method s).1
  payment_deleted :
      (account_id payment_id : String) (s : d.State)
      → (delete_payment d account_id payment_id s).0 ≡ ok tt
      → Step d s (delete_payment d account_id payment_id s).1
  passkey_created :
      (now : ℕ) (account_id : String) (cred stored : PasskeyCredential) (s : d.State)
      → (create_passkey d now account_id cred s).0 ≡ ok stored
      → Step d s (create_passkey d now account_id cred s).1
  passkey_deleted :
      (account_id credential_id : String) (s : d.State)
      → (delete_passkey d account_id credential_id s).0 ≡ ok tt
      → Step d s (delete_passkey d account_id credential_id s).1
  consent_appended :
      (stamp : ℕ → String) (now : ℕ) (account_id : String) (entry : ConsentLog) (s : d.State)
      → (append_consent_log d stamp now account_id entry s).0 ≡ ok tt
      → Step d s (append_consent_log d stamp now account_id entry s).1
  unchanged : (s s' : d.State) → ((j : Key) → d.table s' j ≡ d.table s j) → Step d s s'

-- The states that a sequence of steps leads to.
pub data Reach (d : DynamoDb) (start : d.State) : d.State → Type 0 where
  here : Reach d start start
  step : (s s' : d.State) → Reach d start s → Step d s s' → Reach d start s'
