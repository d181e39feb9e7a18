-- ===== src/Tests/Settings.antt =====
-- Settings and their tags, run on a table in memory.
use komodo_accounts_api.Api.Settings.Caller.{Caller}
use komodo_accounts_api.Db.Settings.OneWriter.{update_settings_partial-one_writer}
use komodo_accounts_api.Db.Keys.{deref_slice}
use komodo_accounts_api.Errors.{repo_version_conflict}
use komodo_accounts_api.Db.Settings.Locking.{update_settings_partial-conflict}
use komodo_accounts_api.Dynamo.Memory.Keeps.{memory-Lawful}
use komodo_accounts_api.Api.Settings.Confined.{update_settings_tags-confined}
use komodo_accounts_api.Prelude.Int.{pos, add_one}
use komodo_accounts_api.Db.Settings.Tags.{mutate_settings_tags-members, stored_tags}
use komodo_accounts_api.Api.Settings.Handlers.{
  update_settings_handler-status_guarded, update_settings_handler,
}
use komodo_accounts_api.Dynamo.Items.{Key, string_set, lookup, number, contains, string, Item}
use komodo_accounts_api.Dynamo.Memory.{empty, memory, stored, Memory}
use komodo_accounts_api.Api.{user_forbidden_namespace, failure, Request}
use komodo_accounts_api.Api.Settings.{
  expected_tag_count, tag_re, validate_tags, tag_namespace_map, update_settings_tags,
}
use komodo_accounts_api.Models.{UpdateSettingsTagsRequest, AccountSettings, UpdateSettingsRequest}
use komodo_accounts_api.Prelude.{
  ◌⊎◌, ◌||◌, not, ◌&&◌, has_prefix, ◌≢◌, ◌≡◌, false, true, none, some, String, refl, [], ◌∷◌,
}
use komodo_accounts_api.Exec.{err, ok}
use komodo_accounts_api.Db.Settings.{
  get_settings, settings_draft, tags_update, mutate_settings_tags, update_settings_partial,
  settings_key,
}

abbrev stored_settings : Item
stored_settings =
    ("PK", string "ACCOUNT#a1")
    ∷ ("SK", string "SETTINGS")
    ∷ ("status", string "active")
    ∷ ("version", number (pos 3))
    ∷ ("tags", string_set ("support.vip" ∷ []))
    ∷ []

abbrev with_settings : Memory
with_settings = stored stored_settings empty

abbrev verified : UpdateSettingsRequest
verified = record {
  email_verified = some true;
  email_verified_at = none;
  phone_verified = none;
  phone_verified_at = none;
  status = none;
  status_changed_at = none;
  status_reason = none;
  tags = none;
  version = some (pos 3);
}

abbrev closing : UpdateSettingsRequest
closing = record verified { status = some "closed" }

abbrev loyal : UpdateSettingsTagsRequest
loyal = record { add = some ("loyalty.gold" ∷ []); remove = none; version = some (pos 3) }

abbrev loyal_settings : AccountSettings
loyal_settings = record {
  email_verified = some false;
  email_verified_at = none;
  phone_verified = some false;
  phone_verified_at = none;
  status = "active";
  status_changed_at = none;
  status_reason = none;
  tags = some ("support.vip" ∷ "loyalty.gold" ∷ []);
  version = pos 4;
}

committed-ok : (update_settings_partial memory 7 "a1" verified (pos 3) with_settings).0 ≡ ok tt
unfolding update_settings_partial settings_draft add_one
committed-ok = refl

stale-conflict :
    (update_settings_partial memory 7 "a1" verified (pos 2) with_settings).0
    ≡ err repo_version_conflict
unfolding update_settings_partial settings_draft add_one
stale-conflict = refl

update_settings_partial-conflict_example :
    ((old : Item) × (memory.table with_settings (settings_key "a1") ≡ some old)
      × (lookup "version" old ≢ some (number (pos 2))))
    × ((j : Key)
        → memory.table (update_settings_partial memory 7 "a1" verified (pos 2) with_settings).1 j
          ≡ memory.table with_settings j)
update_settings_partial-conflict_example =
    update_settings_partial-conflict memory memory-Lawful 7 "a1" verified (pos 2) with_settings
      stale-conflict

added-ok : (mutate_settings_tags memory "a1" loyal (pos 3) with_settings).0 ≡ ok tt
unfolding mutate_settings_tags tags_update add_one
added-ok = refl

abbrev last_tag : UpdateSettingsTagsRequest
last_tag = record { add = none; remove = some ("support.vip" ∷ []); version = some (pos 3) }

-- With its last tag an account loses the attribute.
abbrev without_tags : Item
without_tags =
    ("PK", string "ACCOUNT#a1")
    ∷ ("SK", string "SETTINGS")
    ∷ ("status", string "active")
    ∷ ("version", number (pos 4))
    ∷ []

last_tag-removed :
    memory.table
      (mutate_settings_tags memory "a1" last_tag (pos 3) with_settings).1
      (settings_key "a1")
    ≡ some without_tags
unfolding mutate_settings_tags tags_update add_one
last_tag-removed = refl

mutate_settings_tags-members_example :
    ((x : String)
      → contains
          (stored_tags (
            memory.table
              (mutate_settings_tags memory "a1" loyal (pos 3) with_settings).1
              (settings_key "a1")))
          x
        ≡ (contains ("support.vip" ∷ []) x && not (contains [] x)
            || contains ("loyalty.gold" ∷ []) x))
    × ((deref_slice loyal.add ≡ []) ⊎ (deref_slice loyal.remove ≡ []))
mutate_settings_tags-members_example =
    mutate_settings_tags-members memory memory-Lawful "a1" (pos 3) with_settings loyal added-ok

tagged-ok :
    (update_settings_tags memory "a1" "loyalty-api" loyal with_settings).0 ≡ ok loyal_settings
unfolding update_settings_tags tag_namespace_map validate_tags tag_re get_settings
    expected_tag_count mutate_settings_tags tags_update add_one
tagged-ok = refl

update_settings_tags-confined_example :
    (prefix : String) × (tag_namespace_map "loyalty-api" ≡ some prefix)
    × ((x : String)
        → has_prefix x prefix ≡ false
        → contains
            (stored_tags (
              memory.table
                (update_settings_tags memory "a1" "loyalty-api" loyal with_settings).1
                (settings_key "a1")))
            x
          ≡ contains (stored_tags (memory.table with_settings (settings_key "a1"))) x)
update_settings_tags-confined_example =
    update_settings_tags-confined memory memory-Lawful "a1" loyal "loyalty-api" with_settings
      loyal_settings tagged-ok

abbrev close_request : Request UpdateSettingsRequest
close_request = record {
  path_id = "a1";
  path_credential_id = "";
  query_email = "";
  client_key = "";
  user_agent = "";
  user_id = "";
  scopes = "accounts:write" ∷ "svc:loyalty-api" ∷ "svc:accounts-api" ∷ [];
  body = some closing;
}

update_settings_handler-status_guarded_example :
    update_settings_handler memory 7 close_request with_settings
    ≡ (failure user_forbidden_namespace, with_settings)
update_settings_handler-status_guarded_example =
    update_settings_handler-status_guarded memory 7 close_request closing "loyalty-api"
      with_settings
      (Caller.later "accounts:write" "loyalty-api" ("svc:loyalty-api" ∷ "svc:accounts-api" ∷ [])
        refl (Caller.first "loyalty-api" ("svc:accounts-api" ∷ [])))
      refl refl

update_settings_partial-one_writer_example :
    (update_settings_partial memory 9 "a1" closing
      (pos 3)
      (update_settings_partial memory 7 "a1" verified (pos 3) with_settings).1).0
    ≢ ok tt
update_settings_partial-one_writer_example =
    update_settings_partial-one_writer memory memory-Lawful 7 9 "a1" verified closing (pos 3)
      with_settings committed-ok

abbrev closed_settings : AccountSettings
closed_settings = record {
  email_verified = some true;
  email_verified_at = none;
  phone_verified = some false;
  phone_verified_at = none;
  status = "CLOSED";
  status_changed_at = some 7;
  status_reason = none;
  tags = some ("support.vip" ∷ []);
  version = pos 4;
}

abbrev closing_loudly : UpdateSettingsRequest
closing_loudly = record verified { status = some "CLOSED" }
