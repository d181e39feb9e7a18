-- ===== src/Api/Settings/Committed.antt =====
-- What UpdateSettings of internal/api/settings.go leaves, and what it answers.
use komodo_accounts_api.Dynamo.Items.{Item}
use komodo_accounts_api.Models.{UpdateSettingsRequest, AccountSettings}
use komodo_accounts_api.Dynamo.{DynamoDb}
use komodo_accounts_api.Prelude.{List, Option, some, none}
use komodo_accounts_api.Exec.{Result, ok, err}
use komodo_accounts_api.Api.Settings.{
  List, Result, UpdateSettingsRequest, AccountSettings, DynamoDb,
}

abbrev settings_or : AccountSettings → Result AccountSettings → AccountSettings
settings_or other (ok settings) = settings
settings_or other (err _) = other

abbrev item_or : Item → Option Item → Item
item_or other none = other
item_or other (some it) = it
