-- ===== src/Api/Account.antt =====
-- internal/api/account.go: the profile operations of the service, with the two caches, the object
-- store and the published events beside the repository. `builds` says which events the SDK can
-- build. The clock is read once per operation.
pub mod Confirmed
pub mod Erased
pub mod Caches
use komodo_accounts_api.Db.Erasure.{delete_account}
use komodo_accounts_api.Api.Settings.{missing_error}
use komodo_accounts_api.Db.Keys.{deref}
use komodo_accounts_api.Clients.Events.{
  account_registered, account_deleted, account_profile_updated, account_phone_changed,
  new_event_for, NewInput,
}
use komodo_accounts_api.Api.Service.{on_objects, on_table, World, Service, ObjectStore}
use komodo_accounts_api.Errors.{
  invalid_input, already_exists, repo_already_exists, email_already_exists,
  repo_email_already_exists, is, Err,
}
use komodo_accounts_api.Models.{CreateAccountRequest, Account, UpdateAccountRequest}
use komodo_accounts_api.Dynamo.{DynamoDb}
use komodo_accounts_api.Prelude.{
  equal_fold, trim_space, to_lower, ◌&&◌, ◌||◌, not, ℕ, none, Bool, ◌++◌, some, ◌++ₛ◌, Option,
  prefixed, if◌then◌else◌, List, String, ◌==◌, [], ◌∷◌,
}
use komodo_accounts_api.Exec.{raise, attempt, rethrow, pure, ◌>>◌, Exec, Result, err, ◌>>=◌, ok}
use komodo_accounts_api.TtlCache.{get, set, delete}
use komodo_accounts_api.Db.Account.{
  get_account_exists_by_email, get_account, create_account, update_account,
}

abbrev present : String → Option String → List String
present name none = []
present name (some v) = name ∷ []

unfoldable pub update_profile_changed_fields : UpdateAccountRequest → List String
update_profile_changed_fields req =
    present "avatar_url" req.avatar_url
    ++ present "first_name" req.first_name
    ++ present "last_name" req.last_name
    ++ present "phone" req.phone

abbrev pub avatar_key : String → String
avatar_key account_id = prefixed "avatars/" (account_id ++ₛ "/avatar")

abbrev create_account_error : Err → Err
create_account_error e =
    if is e repo_email_already_exists
    then email_already_exists
    else if is e repo_already_exists
    then already_exists
    else e

module _ (d : DynamoDb) (o : ObjectStore) (builds : NewInput → Bool) (svc : Service) where
  -- An event that cannot be built or published is logged only.
  unfoldable pub publish_account_event : NewInput → Exec (World d o) (Unit {0})
  publish_account_event event w =
      if builds event && svc.has_publisher
      then (ok tt, record w { events = w.events ++ event ∷ [] })
      else (ok tt, w)

  abbrev profile_cached : (now : ℕ) (account_id : String) → Exec (World d o) (Option Account)
  profile_cached now account_id w =
      let p = get now account_id w.profile_cache in (ok p.0, record w { profile_cache = p.1 })

  abbrev cache_profile : (now : ℕ) (account_id : String) → Account → Exec (World d o) (Unit {0})
  cache_profile now account_id account w =
      (ok tt, record w { profile_cache = set now account_id account svc.cache_ttl w.profile_cache })

  abbrev drop_profile : (account_id : String) → Exec (World d o) (Unit {0})
  drop_profile account_id w =
      (ok tt, record w { profile_cache = delete account_id w.profile_cache })

  abbrev pub drop_credentials : (email : String) → Exec (World d o) (Unit {0})
  drop_credentials email w =
      if email == ""
      then (ok tt, w)
      else (ok tt, record w { credentials_cache = delete email w.credentials_cache })

  abbrev profile_from : (now : ℕ) (account_id : String) → Option Account → Exec (World d o) Account
  profile_from now account_id (some account) = pure account
  profile_from now account_id none = do
    account ← rethrow missing_error (on_table (get_account d account_id))
    cache_profile now account_id account
    pure account

  unfoldable pub get_profile : (now : ℕ) (account_id : String) → Exec (World d o) Account
  get_profile now account_id = do
    cached ← profile_cached now account_id
    profile_from now account_id cached

  unfoldable pub service_create_account :
      (now : ℕ) (account_id : String) → CreateAccountRequest → Exec (World d o) Account
  unfolding publish_account_event
  service_create_account now account_id req =
      if account_id == "" || (req.email == "" || (req.first_name == "" || req.last_name == ""))
      then raise invalid_input
      else (do
        created ← rethrow create_account_error (on_table (create_account d now account_id req))
        publish_account_event (
            new_event_for created.account_id (
              account_registered created.account_id created.email created.username
                created.first_name created.last_name [] now))
        pure created)

  -- The phone before the update: none where it is not asked for, or not known.
  abbrev old_phone : Result Account → Option String
  old_phone (ok before) = some (deref before.phone)
  old_phone (err e) = none

  abbrev prior_phone :
      (now : ℕ) (account_id : String) → Option String → Exec (World d o) (Option String)
  prior_phone now account_id none = pure none
  prior_phone now account_id (some phone) = do
    before ← attempt (get_profile now account_id)
    pure (old_phone before)

  abbrev publish_changed :
      (now : ℕ) (account_id : String) → List String → Exec (World d o) (Unit {0})
  publish_changed now account_id [] = pure tt
  publish_changed now account_id (f ∷ fs) =
      publish_account_event
        (new_event_for account_id (account_profile_updated account_id (f ∷ fs) now))

  abbrev publish_phone :
      (account_id : String) (phone before : Option String) → Exec (World d o) (Unit {0})
  publish_phone account_id (some new_phone) (some old) =
      if old == new_phone
      then pure tt
      else publish_account_event
          (new_event_for account_id (account_phone_changed account_id old new_phone))
  publish_phone account_id _ _ = pure tt

  unfoldable pub update_profile :
      (now : ℕ) (account_id : String) → UpdateAccountRequest → Exec (World d o) Account
  unfolding get_profile publish_account_event update_profile_changed_fields
  update_profile now account_id req = do
    before ← prior_phone now account_id req.phone
    updated ← rethrow missing_error (on_table (update_account d now account_id req))
    drop_profile account_id
    publish_changed now account_id (update_profile_changed_fields req)
    publish_phone account_id req.phone before
    pure updated

  abbrev pub delete_keys : List String → Exec (World d o) (Unit {0})
  delete_keys [] = pure tt
  delete_keys (k ∷ ks) = on_objects (o.delete_objects svc.export_bucket (k ∷ ks))

  unfoldable pub delete_s3_exports : (account_id : String) → Exec (World d o) (Unit {0})
  delete_s3_exports account_id = if not svc.has_s3 then pure tt else (do
    keys ← on_objects (o.list_objects svc.export_bucket (prefixed "exports/" (account_id ++ₛ "/")))
    delete_keys keys)

  unfoldable pub delete_avatar_object : (account_id : String) → Exec (World d o) (Unit {0})
  delete_avatar_object account_id =
      if not svc.has_s3
      then pure tt
      else on_objects (o.delete_object svc.avatar_bucket (avatar_key account_id))

  -- What is left to do once the confirmation agrees with the email.
  unfoldable pub erase_profile : (account_id email : String) → Exec (World d o) (Unit {0})
  unfolding delete_s3_exports delete_avatar_object publish_account_event
  erase_profile account_id email = do
    delete_s3_exports account_id
    delete_avatar_object account_id
    rethrow missing_error (on_table (delete_account d account_id))
    drop_profile account_id
    drop_credentials email
    publish_account_event (new_event_for account_id (account_deleted account_id))

  abbrev pub erase_confirmed :
      (account_id confirmation : String) → Account → Exec (World d o) (Unit {0})
  erase_confirmed account_id confirmation profile =
      let email = to_lower (trim_space profile.email) in
      if not (equal_fold confirmation email)
      then raise invalid_input
      else erase_profile account_id email

  unfoldable pub delete_profile :
      (now : ℕ) (account_id confirm_email : String) → Exec (World d o) (Unit {0})
  delete_profile now account_id confirm_email =
      let confirmation = trim_space confirm_email in
      if confirmation == "" then raise invalid_input else (do
        profile ← get_profile now account_id
        erase_confirmed account_id confirmation profile)

  unfoldable pub check_account_exists : (email : String) → Exec (World d o) Bool
  check_account_exists email = on_table (get_account_exists_by_email d email)
