-- ===== src/Api/Settings.antt =====
-- internal/api/settings.go
pub mod Confined
pub mod Caller
pub mod Committed
pub mod Handlers
use komodo_accounts_api.Db.Keys.{deref_slice}
use komodo_accounts_api.Db.Settings.{
  mutate_settings_tags, update_settings_partial, update_settings, get_settings,
}
use komodo_accounts_api.Dynamo.Items.{get_strings, contains}
use komodo_accounts_api.Prelude.Int.{pos, ℤ}
use komodo_accounts_api.Models.{UpdateSettingsRequest, UpdateSettingsTagsRequest, AccountSettings}
use komodo_accounts_api.Dynamo.{DynamoDb}
use komodo_accounts_api.Errors.{
  forbidden_namespace, version_conflict, invalid_input, not_found, repo_version_conflict,
  is_not_found, is, Err,
}
use komodo_accounts_api.Prelude.{
  eqb, ltb, not, has_prefix, ◌+◌, ◌&&◌, leb, Bool, ◌++◌, ◌∷◌, some, text_length, [], ◌||◌, none,
  String, trim_prefix, all_chars, ℕ, List, to_lower, Option, if◌then◌else◌, ◌==◌,
}
use komodo_accounts_api.Exec.{
  attempt, lift, raise, pure, rethrow, err, ◌>>◌, Exec, ok, Result, ◌>>=◌,
}
use komodo_accounts_api.Api.{
  invalid_input, forbidden_namespace, version_conflict, err, not_found, ok, Option, String, List,
  Reply,
}

abbrev tag_char : ℕ → Bool
tag_char c = leb 97 c && leb c 122 || (leb 48 c && leb c 57 || (eqb c 46 || eqb c 95))

-- `^[a-z0-9._]{1,32}$`
unfoldable pub tag_re : String → Bool
tag_re tag = all_chars tag_char tag && (leb 1 (text_length tag) && leb (text_length tag) 32)

unfoldable pub tag_namespace_map : String → Option String
tag_namespace_map service =
    if service == "loyalty-api"
    then some "loyalty."
    else if service == "marketing-api"
    then some "marketing."
    else if service == "promotions-api"
    then some "marketing."
    else if service == "customer-servicing-api"
    then some "support."
    else if service == "accounts-api"
    then some "system."
    else none

-- The service named by the first scope `svc:…`.
unfoldable pub caller_service_from_scopes : List String → String
unfolding trim_prefix
caller_service_from_scopes [] = ""
caller_service_from_scopes (s ∷ scopes) =
    let rest = caller_service_from_scopes scopes in
    if has_prefix s "svc:" then trim_prefix s "svc:" else rest

unfoldable pub validate_tags : (prefix : String) → List String → Result (Unit {0})
unfolding tag_re
validate_tags prefix [] = ok tt
validate_tags prefix (tag ∷ tags) =
    let rest = validate_tags prefix tags in
    if not (tag_re tag)
    then err forbidden_namespace
    else if not (has_prefix tag prefix)
    then err forbidden_namespace
    else rest

abbrev pub validate_tag_namespace :
    (prefix : String) → (add remove : List String) → Result (Unit {0})
validate_tag_namespace prefix add remove = validate_tags prefix (add ++ remove)

-- The loop over the keys of a map that is built from a list: each text once.
abbrev count_kept : (removed seen : List String) → List String → ℕ
count_kept removed seen [] = 0
count_kept removed seen (t ∷ ts) =
    let rest = count_kept removed (t ∷ seen) ts in
    if contains seen t || contains removed t then rest else rest + 1

abbrev count_added : (existing : List String) → List String → ℕ
count_added existing [] = 0
count_added existing (t ∷ ts) =
    let rest = count_added existing ts in if contains existing t then rest else rest + 1

unfoldable pub expected_tag_count : (current add remove : List String) → ℕ
expected_tag_count current add remove = count_kept remove [] current + count_added current add

unfoldable pub validate_status : String → Result (Unit {0})
unfolding to_lower
validate_status s =
    let lower = to_lower s in
    if lower == "active" || (lower == "suspended" || lower == "closed")
    then ok tt
    else err invalid_input

abbrev pub version_or_zero : Option ℤ → ℤ
version_or_zero none = pos 0
version_or_zero (some v) = v

-- `""` and no tags in every other field
abbrev pub default_settings : AccountSettings
default_settings = record {
  email_verified = none;
  email_verified_at = none;
  phone_verified = none;
  phone_verified_at = none;
  status = "active";
  status_changed_at = none;
  status_reason = none;
  tags = none;
  version = pos 0;
}

abbrev pub missing_error : Err → Err
missing_error e = if is_not_found e then not_found else e

abbrev pub write_error : Err → Err
write_error e = if is e repo_version_conflict then version_conflict else missing_error e

abbrev pub validate_optional_status : Option String → Result (Unit {0})
validate_optional_status none = ok tt
validate_optional_status (some status) = validate_status status

module _ (d : DynamoDb) where
  unfoldable pub service_get_settings : (account_id : String) → Exec d.State AccountSettings
  service_get_settings account_id = rethrow missing_error (get_settings d account_id)

  unfoldable pub service_update_settings :
      (now : ℕ) (account_id : String) → UpdateSettingsRequest → Exec d.State AccountSettings
  service_update_settings now account_id req = do
    lift (validate_optional_status req.status)
    rethrow write_error (update_settings_partial d now account_id req (version_or_zero req.version))
    get_settings d account_id

  -- The settings, which are written with their defaults if there are none yet.
  abbrev pub current_settings :
      (account_id : String) → Result AccountSettings → Exec d.State AccountSettings
  current_settings account_id (ok settings) = pure settings
  current_settings account_id (err e) =
      if not (is_not_found e)
      then raise e
      else (do update_settings d account_id default_settings; pure default_settings)

  abbrev pub mutate_within :
      (account_id : String)
      → UpdateSettingsTagsRequest
      → AccountSettings
      → Exec d.State AccountSettings
  mutate_within account_id req current =
      if ltb 20 (
        expected_tag_count (deref_slice current.tags) (deref_slice req.add)
          (deref_slice req.remove))
      then raise forbidden_namespace
      else (do
        rethrow write_error (mutate_settings_tags d account_id req (version_or_zero req.version))
        get_settings d account_id)

  abbrev pub update_in_namespace :
      (account_id : String)
      → UpdateSettingsTagsRequest
      → Option String
      → Exec d.State AccountSettings
  update_in_namespace account_id req none = raise forbidden_namespace
  update_in_namespace account_id req (some prefix) = do
    lift (validate_tag_namespace prefix (deref_slice req.add) (deref_slice req.remove))
    found ← attempt (get_settings d account_id)
    current ← current_settings account_id found
    mutate_within account_id req current

  unfoldable pub update_settings_tags :
      (account_id caller_service : String)
      → UpdateSettingsTagsRequest
      → Exec d.State AccountSettings
  update_settings_tags account_id caller_service req =
      update_in_namespace account_id req (tag_namespace_map caller_service)
