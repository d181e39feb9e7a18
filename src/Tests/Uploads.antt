-- ===== src/Tests/Uploads.antt =====
-- Uploads of an avatar, and the channels of preferences, on concrete data.
use komodo_accounts_api.Db.Passkeys.{get_account_passkeys}
use komodo_accounts_api.Db.Consent.{list_consent_history}
use komodo_accounts_api.Db.Payments.{list_payments}
use komodo_accounts_api.Db.Address.{get_account_addresses}
use komodo_accounts_api.Db.Preferences.{get_account_preferences}
use komodo_accounts_api.Db.Settings.{get_settings}
use komodo_accounts_api.Dynamo.Memory.Keeps.{memory-Lawful}
use komodo_accounts_api.Api.Export.{gather_profile_export_data, export_profile}
use komodo_accounts_api.Api.Export.ReadOnly.{export_profile-read_only, Untouched}
use komodo_accounts_api.Db.Account.{get_account, marshal, profile_record}
use komodo_accounts_api.Api.Preferences.Channels.{update_preferences-unknown_channel}
use komodo_accounts_api.Errors.{invalid_communication_channel}
use komodo_accounts_api.Api.Profile.Bounds.{get_avatar_upload_url-bounds}
use komodo_accounts_api.Models.Agreement.{valid_communication_channels_lem}
use komodo_accounts_api.Models.{CreateAccountRequest, valid_communication_channels, Preferences}
use komodo_accounts_api.Clients.Events.{NewInput}
use komodo_accounts_api.Api.Service.{World, ObjectStore, Service}
use komodo_accounts_api.Dynamo.Memory.{stored, empty, memory}
use komodo_accounts_api.Models.Enums.{consent_log_channel_valid, avatar_content_type_valid}
use mathlib.Core.List.{Memᴰ}
use komodo_accounts_api.TtlCache.{new}
use komodo_accounts_api.Prelude.{◌*◌, refl, [], ◌∷◌, ◌≡◌, ◌≤◌, ℕ, Bool, true, false, some, none}
use komodo_accounts_api.Exec.{ok, err}
use komodo_accounts_api.Api.Profile.{get_avatar_upload_url}
use komodo_accounts_api.Api.Preferences.{update_preferences}
use komodo_accounts_api.Prelude.Int.{pos}

abbrev uploads : ObjectStore
uploads = record {
  State = Unit {0};
  object = λ s bucket key. none;
  put_object = λ bucket key e s. (ok tt, s);
  list_objects = λ bucket prefix s. (ok [], s);
  delete_objects = λ bucket keys s. (ok tt, s);
  delete_object = λ bucket key s. (ok tt, s);
  presign_get = λ bucket key ttl s. (ok key, s);
  presign_put = λ bucket key ttl content_type content_length s. (ok key, s);
}

abbrev no_event_builds : NewInput → Bool
no_event_builds event = false

abbrev upload_service : Service
upload_service = record {
  has_s3 = true;
  export_bucket = "exports";
  unsubscribe_key = "k";
  avatar_bucket = "avatars";
  presign_ttl = 900;
  unsub_token_ttl = 3600;
  cache_ttl = 60;
  has_publisher = false;
}

abbrev blank : World memory uploads
blank = record {
  table = empty;
  objects = tt;
  profile_cache = new 10;
  credentials_cache = new 10;
  events = [];
}

upload-ok :
    (get_avatar_upload_url memory uploads no_event_builds upload_service "a1" "image/png"
      (pos 2_097_152)
      blank).0
    ≡ ok "avatars/a1/avatar"
unfolding get_avatar_upload_url
upload-ok = refl

get_avatar_upload_url-bounds_example :
    (true ≡ true)
    × (avatar_content_type_valid "image/png" ≡ true)
    × ((m : ℕ) × (pos 2_097_152 ≡ pos m) × (1 ≤ m) × (m ≤ 2 * 1024 * 1024))
get_avatar_upload_url-bounds_example =
    get_avatar_upload_url-bounds memory uploads no_event_builds upload_service "a1" "image/png"
      (pos 2_097_152) blank "avatars/a1/avatar" upload-ok

abbrev lin : CreateAccountRequest
lin = record {
  avatar_url = none;
  email = "lin@example.com";
  first_name = "Lin";
  last_name = "Chen";
  phone = none;
  username = "lin";
}

abbrev with_lin : World memory uploads
with_lin = record blank {
  table = stored (marshal (profile_record 5 "a1" "lin@example.com" lin)) empty;
}

exported-ok :
    (export_profile memory uploads upload_service 7 "e1" "a1" with_lin).0
    ≡ ok (record {
      download_url = some "exports/a1/e1.json";
      expires_at = some 907;
      export_id = some "e1";
    })
unfolding export_profile gather_profile_export_data get_account get_settings get_account_preferences
    get_account_addresses list_payments list_consent_history get_account_passkeys
exported-ok = refl

export_profile-read_only_example :
    Untouched memory uploads with_lin
      (export_profile memory uploads upload_service 7 "e1" "a1" with_lin).1
export_profile-read_only_example =
    export_profile-read_only memory uploads memory-Lawful upload_service 7 "e1" "a1" with_lin

abbrev by_fax : Preferences
by_fax = record {
  communication = some (("email", true) ∷ ("fax", true) ∷ []);
  language = none;
  timezone = none;
}

fax-unknown : consent_log_channel_valid "fax" ≡ false
unfolding consent_log_channel_valid
fax-unknown = refl

update_preferences-unknown_channel_example :
    update_preferences memory "a1" by_fax empty ≡ (err invalid_communication_channel, empty)
update_preferences-unknown_channel_example =
    update_preferences-unknown_channel memory "a1" by_fax (("email", true) ∷ ("fax", true) ∷ [])
      ("fax", true) empty refl (Memᴰ.tail (Memᴰ.head refl)) fax-unknown

valid_communication_channels_lem_example :
    valid_communication_channels "push" ≡ consent_log_channel_valid "push"
valid_communication_channels_lem_example = valid_communication_channels_lem "push"
