-- ===== src/Api/Export.antt =====
-- internal/api/export.go. A list that could not be found is empty; the object written holds the
-- export itself, in place of its JSON.
pub mod ReadOnly
use komodo_accounts_api.Db.Account.{get_account}
use komodo_accounts_api.Api.Settings.{missing_error}
use komodo_accounts_api.Db.Passkeys.{get_account_passkeys}
use komodo_accounts_api.Db.Consent.{list_consent_history}
use komodo_accounts_api.Db.Payments.{list_payments}
use komodo_accounts_api.Api.{status_created, respond, global_unauthorized, require, Reply, Request}
use komodo_accounts_api.Db.Address.{get_account_addresses}
use komodo_accounts_api.Errors.{other, is_not_found}
use komodo_accounts_api.Db.Keys.{deref, deref_slice}
use komodo_accounts_api.Db.Preferences.{get_account_preferences}
use komodo_accounts_api.Db.Settings.{get_settings}
use komodo_accounts_api.Api.Service.{on_table, on_objects, World, Service, ObjectStore}
use komodo_accounts_api.Models.{
  ExportProfileResponse, ConsentLog, PaymentMethod, Address, Preferences, ProfileExport,
  PasskeyExport, PasskeyCredential, Account, AccountSettings,
}
use komodo_accounts_api.Dynamo.{DynamoDb}
use komodo_accounts_api.Prelude.{◌+◌, not, map, ◌++ₛ◌, prefixed, []}
use komodo_accounts_api.Exec.{rethrow, raise, err, pure, attempt, Result, Exec, ok, ◌>>=◌, ◌>>◌}
use komodo_accounts_api.Prelude.{ℕ, String, List, Option, none, some, if◌then◌else◌}

pub record ProfileExportData : Type 0 where
  pub settings : Option AccountSettings
  pub prefs : Option Preferences
  pub addrs : List Address
  pub payments : List PaymentMethod
  pub consent_history : List ConsentLog
  pub passkeys : List PasskeyCredential

abbrev pub passkey_export : PasskeyCredential → PasskeyExport
passkey_export pk = record {
  credential_id = pk.credential_id;
  sign_count = pk.sign_count;
  transports = deref_slice pk.transports;
  aaguid = deref pk.aaguid;
  backup_eligible = pk.backup_eligible;
  backup_state = pk.backup_state;
  created_at = pk.created_at;
  last_used_at = pk.last_used_at;
}

abbrev pub export_of : Account → ProfileExportData → ProfileExport
export_of profile gathered = record {
  profile = profile;
  settings = gathered.settings;
  preferences = gathered.prefs;
  addresses = gathered.addrs;
  payments = gathered.payments;
  consent_history = gathered.consent_history;
  passkeys = map passkey_export gathered.passkeys;
}

abbrev pub export_key : (account_id export_id : String) → String
export_key account_id export_id =
    prefixed "exports/" (account_id ++ₛ prefixed "/" (export_id ++ₛ ".json"))

module _ {S A : Type 0} where
  -- What is not there is left out; any other error ends the export.
  abbrev unless_missing : A → Result A → Exec S A
  unless_missing absent (ok a) = pure a
  unless_missing absent (err e) = if is_not_found e then pure absent else raise e

  abbrev pub tolerate : A → Exec S A → Exec S A
  tolerate absent m = do found ← attempt m; unless_missing absent found

abbrev pub optional : {S A : Type 0} → Exec S A → Exec S (Option A)
optional m = m >>= λ a. pure (some a)

module _ (d : DynamoDb) where
  unfoldable pub gather_profile_export_data : (account_id : String) → Exec d.State ProfileExportData
  gather_profile_export_data account_id = do
    settings ← tolerate none (optional (get_settings d account_id))
    prefs ← tolerate none (optional (get_account_preferences d account_id))
    addrs ← tolerate [] (get_account_addresses d account_id)
    payments ← tolerate [] (list_payments d account_id)
    consent_history ← tolerate [] (list_consent_history d account_id)
    passkeys ← tolerate [] (get_account_passkeys d account_id)
    pure (record {
      settings = settings;
      prefs = prefs;
      addrs = addrs;
      payments = payments;
      consent_history = consent_history;
      passkeys = passkeys;
    })

module _ (d : DynamoDb) (o : ObjectStore) (svc : Service) where
  abbrev pub store_export :
      (now : ℕ) (export_id account_id : String)
      → ProfileExport
      → Exec (World d o) ExportProfileResponse
  store_export now export_id account_id export =
      let key = export_key account_id export_id in
      do
        on_objects (o.put_object svc.export_bucket key export)
        download_url ← on_objects (o.presign_get svc.export_bucket key svc.presign_ttl)
        pure (record {
          download_url = some download_url;
          expires_at = some (now + svc.presign_ttl);
          export_id = some export_id;
        })

  -- `export_id` is the identifier that `ksuid.New()` draws.
  unfoldable pub export_profile :
      (now : ℕ) (export_id account_id : String) → Exec (World d o) ExportProfileResponse
  unfolding gather_profile_export_data
  export_profile now export_id account_id = if not svc.has_s3 then raise other else (do
    profile ← rethrow missing_error (on_table (get_account d account_id))
    gathered ← on_table (gather_profile_export_data d account_id)
    store_export now export_id account_id (export_of profile gathered))

  unfoldable pub export_profile_handler :
      (now : ℕ) (export_id : String)
      → Request (Unit {0})
      → World d o
      → Reply ExportProfileResponse × World d o
  export_profile_handler now export_id req =
      require req.user_id global_unauthorized
        (respond status_created (export_profile now export_id req.user_id))
