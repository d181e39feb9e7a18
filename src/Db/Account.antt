-- ===== src/Db/Account.antt =====
-- internal/db/account.go, less the erasure (Db/Erasure.antt)
pub mod Registered
use komodo_accounts_api.Prelude.Int.{pos}
use komodo_accounts_api.Db.Keys.{deref, email_reservation_pk, create_pk, opt_str}
use komodo_accounts_api.Db.Draft.{no_clauses, update_of, clause_if, conditional, clause, Draft}
use komodo_accounts_api.Errors.{
  repo_already_exists, is, repo_email_already_exists, condition_failure, repo_not_found, Err,
}
use komodo_accounts_api.Models.{
  CredentialsResponse, CreateAccountRequest, UpdateCredentialsRequest, UpdateAccountRequest,
  Account,
}
use komodo_accounts_api.Dynamo.{put, TransactItem, gsi1, QueryInput, DynamoDb}
use komodo_accounts_api.Dynamo.Items.{
  item_not_exists, number, time, get_bool, get_time, strings, get_strings, boolean, string,
  get_string, Key, Item,
}
use komodo_accounts_api.Prelude.{
  none, eqb, to_lower, prefixed, true, false, if◌then◌else◌, some, Bool, [], ◌∷◌, String, Option,
  List, ℕ, ◌==◌,
}
use komodo_accounts_api.Exec.{pure, rethrow, ◌>>◌, lift, attempt, ok, Exec, err, Result, ◌>>=◌}

pub record AccountRecord : Type 0 where
  pub pk : String
  pub sk : String
  pub account_id : String
  pub username : String
  pub email : String
  pub phone : String
  pub first_name : String
  pub last_name : String
  pub avatar_url : String
  pub password_hash : String
  pub auth_methods : List String
  pub gsi1_pk : String
  pub gsi1_sk : String
  pub created_at : ℕ
  pub updated_at : ℕ

abbrev pub marshal : AccountRecord → Item
marshal r =
    ("PK", string r.pk)
    ∷ ("SK", string r.sk)
    ∷ ("account_id", string r.account_id)
    ∷ ("username", string r.username)
    ∷ ("email", string r.email)
    ∷ ("phone", string r.phone)
    ∷ ("first_name", string r.first_name)
    ∷ ("last_name", string r.last_name)
    ∷ ("avatar_url", string r.avatar_url)
    ∷ ("password_hash", string r.password_hash)
    ∷ ("auth_methods", strings r.auth_methods)
    ∷ ("GSI1PK", string r.gsi1_pk)
    ∷ ("GSI1SK", string r.gsi1_sk)
    ∷ ("created_at", time r.created_at)
    ∷ ("updated_at", time r.updated_at)
    ∷ []

abbrev pub unmarshal : Item → AccountRecord
unmarshal it = record {
  pk = get_string "PK" it;
  sk = get_string "SK" it;
  account_id = get_string "account_id" it;
  username = get_string "username" it;
  email = get_string "email" it;
  phone = get_string "phone" it;
  first_name = get_string "first_name" it;
  last_name = get_string "last_name" it;
  avatar_url = get_string "avatar_url" it;
  password_hash = get_string "password_hash" it;
  auth_methods = get_strings "auth_methods" it;
  gsi1_pk = get_string "GSI1PK" it;
  gsi1_sk = get_string "GSI1SK" it;
  created_at = get_time "created_at" it;
  updated_at = get_time "updated_at" it;
}

abbrev pub to_model : AccountRecord → Account
to_model r = record {
  account_id = r.account_id;
  avatar_url = opt_str r.avatar_url;
  email = r.email;
  first_name = r.first_name;
  last_name = r.last_name;
  phone = opt_str r.phone;
  username = r.username;
}

-- settingsDefaultRecord and emailReservationRecord, as the items that they marshal to
abbrev pub settings_default : (pk : String) (now : ℕ) → Item
settings_default pk now =
    ("PK", string pk)
    ∷ ("SK", string "SETTINGS")
    ∷ ("status", string "active")
    ∷ ("email_verified", boolean false)
    ∷ ("phone_verified", boolean false)
    ∷ ("version", number (pos 0))
    ∷ ("created_at", time now)
    ∷ ("updated_at", time now)
    ∷ []

abbrev pub email_reservation : (account_id email : String) → Item
email_reservation account_id email =
    ("PK", string (email_reservation_pk email))
    ∷ ("SK", string "EMAIL")
    ∷ ("account_id", string account_id)
    ∷ ("email", string email)
    ∷ []

abbrev pub profile_record :
    (now : ℕ) (account_id email : String) → CreateAccountRequest → AccountRecord
profile_record now account_id email req = record {
  pk = create_pk account_id;
  sk = "PROFILE";
  account_id = account_id;
  username = req.username;
  email = email;
  phone = deref req.phone;
  first_name = req.first_name;
  last_name = req.last_name;
  avatar_url = deref req.avatar_url;
  password_hash = "";
  auth_methods = [];
  gsi1_pk = prefixed "EMAIL#" email;
  gsi1_sk = "PROFILE";
  created_at = now;
  updated_at = now;
}

-- The third part of the transaction reserves the email.
abbrev pub create_error : Err → Err
create_error (condition_failure i) =
    if eqb i 2 then repo_email_already_exists else repo_already_exists
create_error e = e

abbrev pub credentials_draft : (now : ℕ) → Option String → Option (List String) → Draft
credentials_draft now password_hash auth_methods = clause "#ua" ":ua" "updated_at" (time now) (
    clause_if "#am" ":am" "auth_methods" strings auth_methods
      (clause_if "#ph" ":ph" "password_hash" string password_hash no_clauses))

abbrev pub account_draft : (now : ℕ) → UpdateAccountRequest → Draft
account_draft now update = clause "#ua" ":ua" "updated_at" (time now) (
    clause_if "#av" ":av" "avatar_url" string update.avatar_url (
      clause_if "#ln" ":ln" "last_name" string update.last_name (
        clause_if "#fn" ":fn" "first_name" string update.first_name
          (clause_if "#ph" ":ph" "phone" string update.phone no_clauses))))

-- The entries of the index for one email, read as the account's identifier.
abbrev pub only_account : List Item → Result String
only_account [] = err repo_not_found
only_account (it ∷ []) = ok (get_string "account_id" it)
only_account (it ∷ jt ∷ its) = err repo_email_already_exists

abbrev pub email_query : String → QueryInput
email_query email = record {
  key_condition = gsi1 (prefixed "EMAIL#" (to_lower email)) "PROFILE";
  limit = none;
  scan_forward = true;
}

-- The loop over the batch: the last item with each sort key.
abbrev pub with_sk : String → List Item → Option Item → Option Item
with_sk sk [] found = found
with_sk sk (it ∷ its) found = with_sk sk its (if get_string "SK" it == sk then some it else found)

abbrev zero_if_missing : Option Item → Item
zero_if_missing none = []
zero_if_missing (some it) = it

abbrev pub credentials_from : Option Item → Option Item → Result CredentialsResponse
credentials_from none settings = err repo_not_found
credentials_from (some profile) settings =
    let status = get_string "status" (zero_if_missing settings) in
    ok (record {
      account_id = get_string "account_id" profile;
      auth_methods = get_strings "auth_methods" profile;
      email_verified = get_bool "email_verified" (zero_if_missing settings);
      password_hash = opt_str (get_string "password_hash" profile);
      status = if status == "" then "active" else status;
    })

abbrev pub exists_answer : Result String → Result Bool
exists_answer (ok id) = ok true
exists_answer (err e) = if is e repo_not_found then ok false else err e

abbrev pub profile_key : String → Key
profile_key account_id = record { pk = create_pk account_id; sk = "PROFILE" }

abbrev pub registration : (now : ℕ) (account_id : String) → CreateAccountRequest → List TransactItem
registration now account_id req =
    let email = to_lower req.email in
    put (marshal (profile_record now account_id email req)) item_not_exists
    ∷ put (settings_default (create_pk account_id) now) item_not_exists
    ∷ put (email_reservation account_id email) item_not_exists
    ∷ []

module _ (d : DynamoDb) where
  unfoldable pub get_account : (account_id : String) → Exec d.State Account
  get_account account_id = do
    key ← lift (d.build_key (prefixed "ACCOUNT#" account_id) "PROFILE")
    it ← d.get_item key
    pure (to_model (unmarshal it))

  unfoldable pub resolve_account_id_by_email : (email : String) → Exec d.State String
  resolve_account_id_by_email email = do
    its ← d.query_all (email_query email)
    lift (only_account its)

  unfoldable pub get_account_credentials_by_email :
      (email : String) → Exec d.State CredentialsResponse
  unfolding resolve_account_id_by_email
  get_account_credentials_by_email email = do
    account_id ← resolve_account_id_by_email email
    its ←
        d.batch_get
          (profile_key account_id ∷ record { pk = create_pk account_id; sk = "SETTINGS" } ∷ [])
    lift (credentials_from (with_sk "PROFILE" its none) (with_sk "SETTINGS" its none))

  unfoldable pub update_account_credentials :
      (now : ℕ) (account_id : String) → UpdateCredentialsRequest → Exec d.State (Unit {0})
  update_account_credentials now account_id req = do
    key ← lift (d.build_key (create_pk account_id) "PROFILE")
    it ←
        rethrow (conditional repo_not_found)
          (d.update_item (update_of key (credentials_draft now req.password_hash req.auth_methods)))
    pure tt

  unfoldable pub get_account_exists_by_email : (email : String) → Exec d.State Bool
  unfolding resolve_account_id_by_email
  get_account_exists_by_email email = do
    found ← attempt (resolve_account_id_by_email email)
    lift (exists_answer found)

  unfoldable pub create_account :
      (now : ℕ) (account_id : String) → CreateAccountRequest → Exec d.State Account
  create_account now account_id req = do
    rethrow create_error (d.transact_write (registration now account_id req))
    pure (to_model (profile_record now account_id (to_lower req.email) req))

  unfoldable pub update_account :
      (now : ℕ) (account_id : String) → UpdateAccountRequest → Exec d.State Account
  update_account now account_id update = do
    key ← lift (d.build_key (create_pk account_id) "PROFILE")
    it ←
        rethrow (conditional repo_not_found)
          (d.update_item (update_of key (account_draft now update)))
    pure (to_model (unmarshal it))
