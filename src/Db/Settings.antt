-- ===== src/Db/Settings.antt =====
-- internal/db/settings.go
pub mod OneWriter
pub mod Versions
pub mod Locking
pub mod Tags
use komodo_accounts_api.Errors.{repo_version_conflict, repo_not_found, conditional_check_failed, is}
use komodo_accounts_api.Db.Draft.{clause, clause_if, Draft}
use komodo_accounts_api.Db.Keys.{ptr_slice, deref, opt_str, deref_slice, create_pk, deref_bool}
use komodo_accounts_api.Models.{UpdateSettingsTagsRequest, UpdateSettingsRequest, AccountSettings}
use komodo_accounts_api.Dynamo.{DynamoDb}
use komodo_accounts_api.Dynamo.Items.{
  get_number, omit_empty, get_strings, omit_nil, equals, insert, boolean, string_set,
  get_time_pointer, time, number, UpdateRequest, Attr, always, item_exists, get_bool, get_string,
  and, string, Condition, Item, Key,
}
use komodo_accounts_api.Prelude.Int.{add_one, ℤ}
use komodo_accounts_api.Prelude.{
  none, if◌then◌else◌, ◌++◌, [], ◌∷◌, some, List, Bool, Option, ℕ, String, ◌==◌,
}
use komodo_accounts_api.Exec.{
  raise, err, attempt, rethrow, pure, lift, ◌>>◌, ok, Result, Exec, ◌>>=◌,
}

pub record SettingsRecord : Type 0 where
  pub pk : String
  pub sk : String
  pub email_verified : Bool
  pub email_verified_at : Option ℕ
  pub phone_verified : Bool
  pub phone_verified_at : Option ℕ
  pub status : String
  pub status_reason : String
  pub status_changed_at : Option ℕ
  pub tags : List String
  pub version : ℤ

abbrev omit_set : String → List String → Item → Item
omit_set name [] rest = rest
omit_set name (x ∷ xs) rest = (name, string_set (x ∷ xs)) ∷ rest

-- What the tags of the struct make of a record, and of an item.
abbrev pub marshal : SettingsRecord → Item
marshal r =
    ("PK", string r.pk)
    ∷ ("SK", string r.sk)
    ∷ ("email_verified", boolean r.email_verified)
    ∷ ("phone_verified", boolean r.phone_verified)
    ∷ ("status", string r.status)
    ∷ ("version", number r.version)
    ∷ omit_nil "email_verified_at" r.email_verified_at (
        omit_nil "phone_verified_at" r.phone_verified_at (
          omit_empty "status_reason" r.status_reason
            (omit_nil "status_changed_at" r.status_changed_at (omit_set "tags" r.tags []))))

abbrev pub unmarshal : Item → SettingsRecord
unmarshal it = record {
  pk = get_string "PK" it;
  sk = get_string "SK" it;
  email_verified = get_bool "email_verified" it;
  email_verified_at = get_time_pointer "email_verified_at" it;
  phone_verified = get_bool "phone_verified" it;
  phone_verified_at = get_time_pointer "phone_verified_at" it;
  status = get_string "status" it;
  status_reason = get_string "status_reason" it;
  status_changed_at = get_time_pointer "status_changed_at" it;
  tags = get_strings "tags" it;
  version = get_number "version" it;
}

abbrev pub to_model : SettingsRecord → AccountSettings
to_model r = record {
  email_verified = some r.email_verified;
  email_verified_at = r.email_verified_at;
  phone_verified = some r.phone_verified;
  phone_verified_at = r.phone_verified_at;
  status = r.status;
  status_changed_at = r.status_changed_at;
  status_reason = opt_str r.status_reason;
  tags = ptr_slice r.tags;
  version = r.version;
}

abbrev pub settings_record_from : (pk sk : String) → AccountSettings → SettingsRecord
settings_record_from pk sk s = record {
  pk = pk;
  sk = sk;
  email_verified = deref_bool s.email_verified;
  email_verified_at = s.email_verified_at;
  phone_verified = deref_bool s.phone_verified;
  phone_verified_at = s.phone_verified_at;
  status = s.status;
  status_reason = deref s.status_reason;
  status_changed_at = s.status_changed_at;
  tags = deref_slice s.tags;
  version = s.version;
}

abbrev pub version_draft : ℤ → Draft
version_draft version = record {
  set = [];
  values = (":expected", number version) ∷ (":newV", number (add_one version)) ∷ [];
  names = ("#v", "version") ∷ [];
}

-- a new status is stamped with the time of the change
abbrev pub status_clauses : (now : ℕ) → Option String → Draft → Draft
status_clauses now none draft = draft
status_clauses now (some status) draft =
    clause "#scat" ":scat" "status_changed_at" (time now)
      (clause "#st" ":st" "status" (string status) draft)

-- The last two clauses of the update; the placeholders of the version are there from the start.
abbrev pub touch_clauses : (now : ℕ) → Draft → Draft
touch_clauses now draft = record {
  set = draft.set ++ ("#ua", ":ua") ∷ ("#v", ":newV") ∷ [];
  values = insert ":ua" (time now) draft.values;
  names = insert "#ua" "updated_at" draft.names;
}

unfoldable pub settings_draft : (now : ℕ) → UpdateSettingsRequest → ℤ → Draft
settings_draft now req version = touch_clauses now (
    clause_if "#sr" ":sr" "status_reason" string req.status_reason (
      status_clauses now req.status (
        clause_if "#pvat" ":pvat" "phone_verified_at" time req.phone_verified_at (
          clause_if "#pv" ":pv" "phone_verified" boolean req.phone_verified (
            clause_if "#evat" ":evat" "email_verified_at" time req.email_verified_at (
              clause_if "#ev" ":ev" "email_verified" boolean req.email_verified
                (version_draft version)))))))

abbrev pub expected_version : Condition
expected_version = and item_exists (equals "#v" ":expected")

abbrev pub settings_update : Key → Draft → UpdateRequest
settings_update key draft = record {
  key = key;
  set = draft.set;
  add = [];
  delete = [];
  values = draft.values;
  names = draft.names;
  condition = expected_version;
}

abbrev tag_clause : (name value : String) → List String → List (String × String)
tag_clause name value [] = []
tag_clause name value (x ∷ xs) = (name, value) ∷ []

abbrev tag_value : String → List String → List (String × Attr) → List (String × Attr)
tag_value value [] rest = rest
tag_value value (x ∷ xs) rest = insert value (string_set (x ∷ xs)) rest

-- `SET #v = :newV`, with `ADD #tags :addSet` and `DELETE #tags :removeSet` where there are any.
unfoldable pub tags_update : Key → (add remove : List String) → ℤ → UpdateRequest
tags_update key add remove version = record {
  key = key;
  set = ("#v", ":newV") ∷ [];
  add = tag_clause "#tags" ":addSet" add;
  delete = tag_clause "#tags" ":removeSet" remove;
  values = tag_value ":removeSet" remove (
      tag_value ":addSet" add
        ((":expected", number version) ∷ (":newV", number (add_one version)) ∷ []));
  names = ("#tags", "tags") ∷ ("#v", "version") ∷ [];
  condition = expected_version;
}

abbrev pub settings_key : String → Key
settings_key account_id = record { pk = create_pk account_id; sk = "SETTINGS" }

module _ (d : DynamoDb) where
  unfoldable pub get_settings : (account_id : String) → Exec d.State AccountSettings
  get_settings account_id = do
    key ← lift (d.build_key (create_pk account_id) "SETTINGS")
    it ← d.get_item key
    pure (to_model (unmarshal it))

  -- Why a condition on the settings failed: they are missing, or the version moved on.
  abbrev pub settings_condition_failure_error : Key → Exec d.State (Unit {0})
  settings_condition_failure_error key = do
    rethrow (λ e. if is e repo_not_found then repo_not_found else e) (d.get_item key)
    raise repo_version_conflict

  abbrev pub settings_answer : Key → Result Item → Exec d.State (Unit {0})
  settings_answer key (ok it) = pure tt
  settings_answer key (err e) =
      if is e conditional_check_failed then settings_condition_failure_error key else raise e

  unfoldable pub update_settings_partial :
      (now : ℕ) (account_id : String) → UpdateSettingsRequest → ℤ → Exec d.State (Unit {0})
  unfolding settings_draft
  update_settings_partial now account_id req version = do
    key ← lift (d.build_key (create_pk account_id) "SETTINGS")
    updated ← attempt (d.update_item (settings_update key (settings_draft now req version)))
    settings_answer key updated

  unfoldable pub update_settings : (account_id : String) → AccountSettings → Exec d.State (Unit {0})
  update_settings account_id s =
      d.write_item (marshal (settings_record_from (create_pk account_id) "SETTINGS" s)) always

  abbrev mutate : (account_id : String) → (add remove : List String) → ℤ → Exec d.State (Unit {0})
  mutate account_id add remove version = do
    key ← lift (d.build_key (create_pk account_id) "SETTINGS")
    updated ← attempt (d.update_item (tags_update key add remove version))
    settings_answer key updated

  -- nothing to add or remove: nothing is done, whatever the version
  abbrev mutate_any :
      (account_id : String) → (add remove : List String) → ℤ → Exec d.State (Unit {0})
  mutate_any account_id [] [] version = pure tt
  mutate_any account_id [] (r ∷ rs) version = mutate account_id [] (r ∷ rs) version
  mutate_any account_id (a ∷ as') remove version = mutate account_id (a ∷ as') remove version

  unfoldable pub mutate_settings_tags :
      (account_id : String) → UpdateSettingsTagsRequest → ℤ → Exec d.State (Unit {0})
  unfolding tags_update
  mutate_settings_tags account_id req version =
      mutate_any account_id (deref_slice req.add) (deref_slice req.remove) version
