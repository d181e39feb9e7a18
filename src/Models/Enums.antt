-- ===== src/Models/Enums.antt =====
-- The enumerations of internal/models/models.gen.go: texts, with the test that they are a known member.
use komodo_accounts_api.Prelude.{false, true, if◌then◌else◌, Bool, String, ◌==◌}

-- `AccountSettingsStatus`; those of the settings seen by their owner, of the credentials and of the
-- update have the same members.
unfoldable pub account_settings_status_valid : String → Bool
account_settings_status_valid e =
    if e == "active"
    then true
    else if e == "closed"
    then true
    else if e == "suspended"
    then true
    else false

unfoldable pub avatar_content_type_valid : String → Bool
avatar_content_type_valid e =
    if e == "image/jpeg"
    then true
    else if e == "image/png"
    then true
    else if e == "image/webp"
    then true
    else false

unfoldable pub consent_log_action_valid : String → Bool
consent_log_action_valid e = if e == "opt_in" then true else if e == "opt_out" then true else false

unfoldable pub consent_log_channel_valid : String → Bool
consent_log_channel_valid e =
    if e == "email"
    then true
    else if e == "postal"
    then true
    else if e == "push"
    then true
    else if e == "sms"
    then true
    else false

unfoldable pub auth_method_valid : String → Bool
auth_method_valid e =
    if e == "apple"
    then true
    else if e == "google"
    then true
    else if e == "otp"
    then true
    else if e == "passkey"
    then true
    else if e == "password"
    then true
    else false
