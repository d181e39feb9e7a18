-- ===== src/Tests/Profiles.antt =====
-- The profile operations of the service, run on concrete data.
use komodo_accounts_api.Api.Credentials.Caches.{update_credentials-invalidates}
use komodo_accounts_api.Api.Credentials.{update_credentials}
use komodo_accounts_api.Db.Keys.{email_reservation_pk}
use komodo_accounts_api.Api.Account.Erased.{delete_profile-erases}
use komodo_accounts_api.Db.Erasure.{delete_chunks, plan_loop, build_erasure_plan, delete_account}
use komodo_accounts_api.Dynamo.Memory.Keeps.{memory-Lawful}
use komodo_accounts_api.Api.Account.Confirmed.{delete_profile-unconfirmed}
use komodo_accounts_api.Dynamo.Items.{Key}
use komodo_accounts_api.Errors.{invalid_input}
use komodo_accounts_api.Api.Account.Caches.{update_profile-invalidates}
use komodo_accounts_api.Dynamo.Memory.{empty, stored, memory}
use komodo_accounts_api.Models.{
  UpdateCredentialsRequest, CreateAccountRequest, Account, UpdateAccountRequest,
}
use komodo_accounts_api.Clients.Events.{NewInput}
use komodo_accounts_api.Api.Service.{World, ObjectStore, Service}
use komodo_accounts_api.Api.Account.{
  delete_avatar_object, delete_s3_exports, erase_profile, delete_profile,
  update_profile_changed_fields, publish_account_event, get_profile, update_profile,
}
use komodo_accounts_api.Prelude.{
  ℕ, some, true, ◌≡◌, to_lower, equal_fold, none, Bool, false, trim_space, refl, [],
}
use komodo_accounts_api.Exec.{err, ok}
use komodo_accounts_api.Db.Account.{
  update_account_credentials, profile_record, update_account, get_account, marshal,
}
use komodo_accounts_api.TtlCache.{get, new}
use komodo_accounts_api.Exec.{ok}
use komodo_accounts_api.Prelude.{refl, []}

abbrev no_objects : ObjectStore
no_objects = record {
  State = Unit {0};
  object = λ s bucket key. none;
  put_object = λ bucket key e s. (ok tt, s);
  list_objects = λ bucket prefix s. (ok [], s);
  delete_objects = λ bucket keys s. (ok tt, s);
  delete_object = λ bucket key s. (ok tt, s);
  presign_get = λ bucket key ttl s. (ok "url", s);
  presign_put = λ bucket key ttl content_type content_length s. (ok "url", s);
}

abbrev all_build : NewInput → Bool
all_build event = true

abbrev service : Service
service = record {
  has_s3 = false;
  export_bucket = "exports";
  unsubscribe_key = "";
  avatar_bucket = "avatars";
  presign_ttl = 900;
  unsub_token_ttl = 3600;
  cache_ttl = 60;
  has_publisher = true;
}

abbrev grace : CreateAccountRequest
grace = record {
  avatar_url = none;
  email = "grace@example.com";
  first_name = "Grace";
  last_name = "Hopper";
  phone = none;
  username = "grace";
}

abbrev grace_account : Account
grace_account = record {
  account_id = "a1";
  avatar_url = none;
  email = "grace@example.com";
  first_name = "Grace";
  last_name = "Hopper";
  phone = none;
  username = "grace";
}

abbrev world : World memory no_objects
world = record {
  table = stored (marshal (profile_record 5 "a1" "grace@example.com" grace)) empty;
  objects = tt;
  profile_cache = new 10;
  credentials_cache = new 10;
  events = [];
}

abbrev renamed : UpdateAccountRequest
renamed = record { avatar_url = none; first_name = some "Amazing"; last_name = none; phone = none }

abbrev renamed_account : Account
renamed_account = record grace_account { first_name = "Amazing" }

read-ok : (get_profile memory no_objects all_build service 7 "a1" world).0 ≡ ok grace_account
unfolding get_profile get_account get
read-ok = refl

renamed-ok :
    (update_profile memory no_objects all_build service 7 "a1" renamed world).0 ≡ ok renamed_account
unfolding update_profile update_account publish_account_event update_profile_changed_fields
renamed-ok = refl

delete_profile-unconfirmed_example :
    ((delete_profile memory no_objects all_build service 7 "a1" "ada@example.com" world).0
      ≡ err invalid_input)
    × ((j : Key)
        → memory.table
            (delete_profile memory no_objects all_build service 7 "a1" "ada@example.com"
              world).1.table
            j
          ≡ memory.table world.table j)
    × ((delete_profile memory no_objects all_build service 7 "a1" "ada@example.com" world).1.objects
        ≡ world.objects)
    × ((delete_profile memory no_objects all_build service 7 "a1" "ada@example.com" world).1.events
        ≡ world.events)
unfolding trim_space equal_fold to_lower
delete_profile-unconfirmed_example =
    delete_profile-unconfirmed memory memory-Lawful no_objects all_build service 7 "a1"
      "ada@example.com" world grace_account read-ok refl

update_profile-invalidates_example :
    (get 9 "a1"
      (update_profile memory no_objects all_build service 7 "a1" renamed world).1.profile_cache).0
    ≡ none
update_profile-invalidates_example =
    update_profile-invalidates memory no_objects all_build service 7 "a1" renamed world
      renamed_account renamed-ok 9

erased-ok :
    (delete_profile memory no_objects all_build service 7 "a1" "Grace@Example.com" world).0 ≡ ok tt
unfolding delete_profile get_profile get_account get trim_space to_lower equal_fold erase_profile
    delete_s3_exports delete_avatar_object delete_account build_erasure_plan plan_loop delete_chunks
    publish_account_event email_reservation_pk
erased-ok = refl

delete_profile-erases_example :
    (let w₀ = (get_profile memory no_objects all_build service 7 "a1" world).1 in
      let w' =
        (delete_profile memory no_objects all_build service 7 "a1" "Grace@Example.com" world).1 in
      (profile : Account) × ((get_profile memory no_objects all_build service 7 "a1" world).0
        ≡ ok profile)
      × (equal_fold (trim_space "Grace@Example.com") (to_lower (trim_space profile.email)) ≡ true)
      × ((delete_account memory "a1" w₀.table).0 ≡ ok tt)
      × (w'.table ≡ (delete_account memory "a1" w₀.table).1)
      × ((later : ℕ) → (get later "a1" w'.profile_cache).0 ≡ none)
      × ((later : ℕ)
          → (get later (to_lower (trim_space profile.email)) w'.credentials_cache).0 ≡ none))
delete_profile-erases_example =
    delete_profile-erases memory no_objects all_build service 7 "a1" "Grace@Example.com" world
      erased-ok

abbrev new_hash : UpdateCredentialsRequest
new_hash = record { auth_methods = none; password_hash = some "hash" }

credentials-ok : (update_credentials memory no_objects service 7 "a1" new_hash world).0 ≡ ok tt
unfolding update_credentials update_account_credentials get_account
credentials-ok = refl

readable-ok :
    (get_account memory "a1" (update_account_credentials memory 7 "a1" new_hash world.table).1).0
    ≡ ok grace_account
unfolding update_account_credentials get_account
readable-ok = refl

update_credentials-invalidates_example :
    (get 9
      (to_lower "grace@example.com")
      (update_credentials memory no_objects service 7 "a1" new_hash world).1.credentials_cache).0
    ≡ none
update_credentials-invalidates_example =
    update_credentials-invalidates memory no_objects service 7 "a1" new_hash grace_account world
      credentials-ok readable-ok 9
