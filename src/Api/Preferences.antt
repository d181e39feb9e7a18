-- ===== src/Api/Preferences.antt =====
-- internal/api/preferences.go
pub mod Channels
use komodo_accounts_api.Errors.{invalid_communication_channel}
use komodo_accounts_api.Db.Preferences.{update_account_preferences, get_account_preferences}
use komodo_accounts_api.Api.Settings.{missing_error}
use komodo_accounts_api.Api.{
  global_not_implemented, status_ok, respond, with_body, invalid_communication_channel, refuse,
  requested_id, global_unauthorized, require, Reply, Request,
}
use komodo_accounts_api.Models.{ConsentLog, Preferences, valid_communication_channels}
use komodo_accounts_api.Dynamo.{DynamoDb}
use komodo_accounts_api.Prelude.{not, if◌then◌else◌, ◌&&◌, ◌∷◌, []}
use komodo_accounts_api.Exec.{raise, rethrow, Exec}
use komodo_accounts_api.Prelude.{String, List, Bool, true, Option, none, some}

-- Whether every channel that the request names is known.
abbrev pub all_known : List (String × Bool) → Bool
all_known [] = true
all_known (entry ∷ entries) = valid_communication_channels entry.0 && all_known entries

abbrev pub known_channels : Option (List (String × Bool)) → Bool
known_channels none = true
known_channels (some entries) = all_known entries

module _ (d : DynamoDb) where
  unfoldable pub get_preferences : (account_id : String) → Exec d.State Preferences
  get_preferences account_id = rethrow missing_error (get_account_preferences d account_id)

  unfoldable pub update_preferences : (account_id : String) → Preferences → Exec d.State (Unit {0})
  update_preferences account_id req =
      if not (known_channels req.communication)
      then raise invalid_communication_channel
      else rethrow missing_error (update_account_preferences d account_id req)

  unfoldable pub get_preferences_handler :
      Request (Unit {0}) → d.State → Reply Preferences × d.State
  get_preferences_handler req =
      require (requested_id req) global_unauthorized
        (respond status_ok (get_preferences (requested_id req)))

  unfoldable pub update_preferences_handler :
      Request Preferences → d.State → Reply Preferences × d.State
  update_preferences_handler req = require req.user_id global_unauthorized (
      with_body req.body
        (λ input. respond (λ done. status_ok input) (update_preferences req.user_id input)))

  -- internal/api/consent.go
  unfoldable pub get_consents_handler :
      Request (Unit {0}) → d.State → Reply (List ConsentLog) × d.State
  get_consents_handler req = require req.user_id global_unauthorized (refuse global_not_implemented)

  unfoldable pub record_consent_handler : Request (Unit {0}) → d.State → Reply ConsentLog × d.State
  record_consent_handler req =
      require req.user_id global_unauthorized (refuse global_not_implemented)
