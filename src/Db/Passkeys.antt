-- ===== src/Db/Passkeys.antt =====
-- internal/db/passkeys.go
pub mod SignCount
use komodo_accounts_api.Errors.{
  repo_not_found, repo_sign_count_regression, repo_passkey_already_exists, conditional_check_failed,
  is, other,
}
use komodo_accounts_api.Db.Draft.{conditional, clause_if, Draft}
use komodo_accounts_api.Db.Keys.{passkey_sk, create_pk, ptr_slice, deref, deref_slice, opt_str}
use komodo_accounts_api.Dynamo.{begins_with, DynamoDb}
use komodo_accounts_api.Dynamo.Items.{
  item_not_exists, omit_nil, get_time_pointer, omit_empty, at_most, time, get_time, get_bool,
  boolean, item_exists, get_strings, number, strings, and, get_number, get_string, UpdateRequest,
  string, Item, Key,
}
use komodo_accounts_api.Models.{PasskeyCredential}
use komodo_accounts_api.Prelude.Int.{ℤ}
use komodo_accounts_api.Prelude.{
  map, true, some, none, Option, if◌then◌else◌, [], ◌∷◌, Bool, List, ℕ, String, ◌==◌,
}
use komodo_accounts_api.Exec.{
  attempt, lift, ◌>>=◌, rethrow, err, pure, raise, ok, Result, Exec, ◌>>◌,
}

pub record PasskeyRecord : Type 0 where
  pub pk : String
  pub sk : String
  pub credential_id : String
  pub public_key : String
  pub sign_count : ℤ
  pub transports : List String
  pub aaguid : String
  pub backup_eligible : Bool
  pub backup_state : Bool
  pub created_at : ℕ
  pub last_used_at : Option ℕ

abbrev omit_list : String → List String → Item → Item
omit_list name [] rest = rest
omit_list name (x ∷ xs) rest = (name, strings (x ∷ xs)) ∷ rest

-- What the tags of the struct make of a record, and of an item.
abbrev pub marshal : PasskeyRecord → Item
marshal r =
    ("PK", string r.pk)
    ∷ ("SK", string r.sk)
    ∷ ("credential_id", string r.credential_id)
    ∷ ("public_key", string r.public_key)
    ∷ ("sign_count", number r.sign_count)
    ∷ ("backup_eligible", boolean r.backup_eligible)
    ∷ ("backup_state", boolean r.backup_state)
    ∷ ("created_at", time r.created_at)
    ∷ omit_list "transports" r.transports
        (omit_empty "aaguid" r.aaguid (omit_nil "last_used_at" r.last_used_at []))

abbrev pub unmarshal : Item → PasskeyRecord
unmarshal it = record {
  pk = get_string "PK" it;
  sk = get_string "SK" it;
  credential_id = get_string "credential_id" it;
  public_key = get_string "public_key" it;
  sign_count = get_number "sign_count" it;
  transports = get_strings "transports" it;
  aaguid = get_string "aaguid" it;
  backup_eligible = get_bool "backup_eligible" it;
  backup_state = get_bool "backup_state" it;
  created_at = get_time "created_at" it;
  last_used_at = get_time_pointer "last_used_at" it;
}

abbrev pub to_model : PasskeyRecord → PasskeyCredential
to_model r = record {
  aaguid = opt_str r.aaguid;
  backup_eligible = r.backup_eligible;
  backup_state = r.backup_state;
  created_at = r.created_at;
  credential_id = r.credential_id;
  last_used_at = r.last_used_at;
  public_key = r.public_key;
  sign_count = r.sign_count;
  transports = ptr_slice r.transports;
}

abbrev pub passkey_record_from : (pk sk : String) → PasskeyCredential → PasskeyRecord
passkey_record_from pk sk c = record {
  pk = pk;
  sk = sk;
  credential_id = c.credential_id;
  public_key = c.public_key;
  sign_count = c.sign_count;
  transports = deref_slice c.transports;
  aaguid = deref c.aaguid;
  backup_eligible = c.backup_eligible;
  backup_state = c.backup_state;
  created_at = c.created_at;
  last_used_at = c.last_used_at;
}

abbrev pub passkey_draft : ℤ → Bool → Option ℕ → Draft
passkey_draft sign_count backup_state last_used_at =
    clause_if "#lua" ":lua" "last_used_at" time last_used_at (record {
      set = ("#sc", ":new") ∷ ("#bs", ":bs") ∷ [];
      values = (":new", number sign_count) ∷ (":bs", boolean backup_state) ∷ [];
      names = ("#sc", "sign_count") ∷ ("#bs", "backup_state") ∷ [];
    })

abbrev pub passkey_update : Key → PasskeyCredential → UpdateRequest
passkey_update key update =
    let draft = passkey_draft update.sign_count update.backup_state update.last_used_at in
    record {
      key = key;
      set = draft.set;
      add = [];
      delete = [];
      values = draft.values;
      names = draft.names;
      condition = and item_exists (at_most "#sc" ":new");
    }

module _ (d : DynamoDb) where
  -- The credential is stamped in place, so the operation returns it.
  unfoldable pub create_passkey :
      (now : ℕ) (account_id : String) → PasskeyCredential → Exec d.State PasskeyCredential
  create_passkey now account_id cred =
      if cred.credential_id == ""
      then raise other
      else (let cred' = record cred { created_at = now; last_used_at = none } in
          do
            rethrow (conditional repo_passkey_already_exists) (
                d.write_item
                  (marshal (
                    passkey_record_from (create_pk account_id) (passkey_sk cred'.credential_id)
                      cred'))
                  item_not_exists)
            pure cred')

  unfoldable pub get_account_passkeys :
      (account_id : String) → Exec d.State (List PasskeyCredential)
  get_account_passkeys account_id = do
    its ← d.query (record {
      key_condition = begins_with (create_pk account_id) "PASSKEY#";
      limit = some 100;
      scan_forward = true;
    })
    pure (map (λ it. to_model (unmarshal it)) its)

  -- After a failed condition: is the passkey there at all?
  abbrev pub passkey_answer : Key → Result Item → Exec d.State PasskeyCredential
  passkey_answer key (ok it) = pure (to_model (unmarshal it))
  passkey_answer key (err e) =
      if is e conditional_check_failed
      then (do
        check ← attempt (d.get_item key)
        elim check [ ok it ↦ raise repo_sign_count_regression | err x ↦ raise repo_not_found ])
      else raise e

  unfoldable pub update_passkey :
      (account_id credential_id : String) → PasskeyCredential → Exec d.State PasskeyCredential
  update_passkey account_id credential_id update = do
    key ← lift (d.build_key (create_pk account_id) (passkey_sk credential_id))
    updated ← attempt (d.update_item (passkey_update key update))
    passkey_answer key updated

  unfoldable pub delete_passkey : (account_id credential_id : String) → Exec d.State (Unit {0})
  delete_passkey account_id credential_id = do
    key ← lift (d.build_key (create_pk account_id) (passkey_sk credential_id))
    d.delete_item key
