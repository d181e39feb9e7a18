-- ===== src/Clients/Events.antt =====
-- internal/clients/events.go and internal/models/events/events.go: what the domain events are built from.
-- `domain.New`, which builds an event from it, and the publisher are the SDK's.
use komodo_accounts_api.Errors.{other}
use komodo_accounts_api.Prelude.{
  ◌++ₛ◌, not, none, [], ℕ, if◌then◌else◌, some, Bool, List, Option, String, trim_right_slashes,
  ◌==◌,
}
use komodo_accounts_api.Exec.{err, ok, Result}

-- The payloads, a constructor for each struct. An instant stands for its text.
pub data Payload : Type 0 where
  account_registered :
      (account_id email username first_name last_name : String)
      → (auth_methods : List String) → (created_at : ℕ) → Payload
  account_deleted : (account_id : String) → Payload
  account_profile_updated :
      (account_id : String) → (changed_fields : List String) → (updated_at : ℕ) → Payload
  account_email_changed : (account_id old_email new_email : String) → Payload
  account_phone_changed : (account_id old_phone new_phone : String) → Payload
  account_consent_changed :
      (account_id channel action source source_ref : String) → (recorded_at : ℕ) → Payload
  account_preferences_updated :
      (account_id language timezone : String)
      → (communication : List (String × Bool)) → (updated_at : ℕ) → Payload
  account_status_changed :
      (account_id old_status new_status status_reason : String) → (status_changed_at : ℕ) → Payload
  account_tags_changed : (account_id : String) → (added removed : Option (List String)) → Payload
  account_passkey_added :
      (account_id credential_id aaguid : String)
      → (transports : List String) → (created_at : ℕ) → Payload
  account_passkey_removed : (account_id credential_id : String) → Payload

-- `domain.NewInput`
pub record NewInput : Type 0 where
  pub event_type : String
  pub source : String
  pub entity_id : String
  pub entity_type : String
  pub version : String
  pub payload : Payload

unfoldable pub new_account_event : (event_type account_id : String) → Payload → NewInput
new_account_event event_type account_id payload = record {
  event_type = event_type;
  source = "komodo-accounts-api";
  entity_id = account_id;
  entity_type = "account";
  version = "1";
  payload = payload;
}

-- `nil` becomes the empty list.
abbrev or_empty : Option (List String) → Option (List String)
or_empty none = some []
or_empty (some tags) = some tags

abbrev completed : Payload → Payload
completed (account_tags_changed account_id added removed) =
    account_tags_changed account_id (or_empty added) (or_empty removed)
completed payload = payload

abbrev event_type_of : Payload → String
event_type_of (account_registered _ _ _ _ _ _ _) = "account.registered"
event_type_of (account_deleted _) = "account.deleted"
event_type_of (account_profile_updated _ _ _) = "account.profile_updated"
event_type_of (account_email_changed _ _ _) = "account.email_changed"
event_type_of (account_phone_changed _ _ _) = "account.phone_changed"
event_type_of (account_consent_changed _ _ _ _ _ _) = "account.consent_changed"
event_type_of (account_preferences_updated _ _ _ _ _) = "account.preferences_updated"
event_type_of (account_status_changed _ _ _ _ _) = "account.status_changed"
event_type_of (account_tags_changed _ _ _) = "account.tags_changed"
event_type_of (account_passkey_added _ _ _ _ _) = "account.passkey_added"
event_type_of (account_passkey_removed _ _) = "account.passkey_removed"

-- The eleven functions `NewAccount…Event`, by the payload that each is for.
unfoldable pub new_event_for : (account_id : String) → Payload → NewInput
unfolding new_account_event
new_event_for account_id payload =
    new_account_event (event_type_of payload) account_id (completed payload)

-- `domain.NewHTTPSink` and `domain.NewPublisher`
pub record EventSdk : Type 1 where
  pub Sink : Type 0
  pub Publisher : Type 0
  pub new_http_sink : (url : String) → Result Sink
  pub new_publisher : Sink → Result Publisher

abbrev pub opened : (sdk : EventSdk) → Result sdk.Sink → Result sdk.Publisher
opened sdk (ok sink) = sdk.new_publisher sink
opened sdk (err e) = err e

unfoldable pub new_publisher :
    (sdk : EventSdk) → (events_api_base_url : String) → (has_client : Bool) → Result sdk.Publisher
unfolding trim_right_slashes
new_publisher sdk events_api_base_url has_client =
    if events_api_base_url == ""
    then err other
    else if not has_client
    then err other
    else opened sdk (sdk.new_http_sink (trim_right_slashes events_api_base_url ++ₛ "/publish"))
