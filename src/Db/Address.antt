-- ===== src/Db/Address.antt =====
-- internal/db/address.go
pub mod Created
pub mod Update
use komodo_accounts_api.Prelude.{
  String, Bool, ◌==◌, Option, none, some, List, [], ◌∷◌, map, if◌then◌else◌, prefixed,
}
use komodo_accounts_api.Errors.{
  Err, is, conditional_check_failed, repo_already_exists, repo_not_found,
}
use komodo_accounts_api.Exec.{Exec, pure, lift, rethrow, ◌>>=◌, ◌>>◌}
use komodo_accounts_api.Models.{Address, UpdateAddressRequest}
use komodo_accounts_api.Dynamo.{DynamoDb, begins_with}
use komodo_accounts_api.Dynamo.Items.{
  Item, Key, string, boolean, get_string, get_bool, omit_empty, item_exists, item_not_exists,
  UpdateRequest,
}
use komodo_accounts_api.Db.Keys.{create_pk, addr_sk, deref, opt_str}
use komodo_accounts_api.Db.Draft.{update_of, conditional, Draft, no_clauses, clause_if}

pub record AddressRecord : Type 0 where
  pub pk : String
  pub sk : String
  pub address_id : String
  pub alias : String
  pub line1 : String
  pub line2 : String
  pub city : String
  pub state : String
  pub zip_code : String
  pub country : String
  pub is_default : Bool

-- What the tags of the struct make of a record, and of an item.
abbrev pub marshal : AddressRecord → Item
marshal r =
    ("PK", string r.pk)
    ∷ ("SK", string r.sk)
    ∷ ("address_id", string r.address_id)
    ∷ omit_empty "alias" r.alias (
        ("line1", string r.line1)
        ∷ omit_empty "line2" r.line2 (
            ("city", string r.city)
            ∷ ("state", string r.state)
            ∷ ("zip_code", string r.zip_code)
            ∷ ("country", string r.country)
            ∷ ("is_default", boolean r.is_default)
            ∷ []))

abbrev pub unmarshal : Item → AddressRecord
unmarshal it = record {
  pk = get_string "PK" it;
  sk = get_string "SK" it;
  address_id = get_string "address_id" it;
  alias = get_string "alias" it;
  line1 = get_string "line1" it;
  line2 = get_string "line2" it;
  city = get_string "city" it;
  state = get_string "state" it;
  zip_code = get_string "zip_code" it;
  country = get_string "country" it;
  is_default = get_bool "is_default" it;
}

abbrev pub to_model : AddressRecord → Address
to_model r = record {
  address_id = r.address_id;
  alias = opt_str r.alias;
  city = r.city;
  country = r.country;
  is_default = r.is_default;
  line1 = r.line1;
  line2 = opt_str r.line2;
  state = r.state;
  zip_code = r.zip_code;
}

abbrev pub address_record_from : (pk sk : String) → Address → AddressRecord
address_record_from pk sk a = record {
  pk = pk;
  sk = sk;
  address_id = a.address_id;
  alias = deref a.alias;
  line1 = a.line1;
  line2 = deref a.line2;
  city = a.city;
  state = a.state;
  zip_code = a.zip_code;
  country = a.country;
  is_default = a.is_default;
}

abbrev pub draft_address :
    (alias line1 line2 city state zip_code country : Option String) → Option Bool → Draft
draft_address alias line1 line2 city state zip_code country is_default =
    clause_if "#isd" ":isd" "is_default" boolean is_default (
      clause_if "#country" ":country" "country" string country (
        clause_if "#zc" ":zc" "zip_code" string zip_code (
          clause_if "#state" ":state" "state" string state (
            clause_if "#city" ":city" "city" string city (
              clause_if "#l2" ":l2" "line2" string line2 (
                clause_if "#l1" ":l1" "line1" string line1
                  (clause_if "#alias" ":alias" "alias" string alias no_clauses)))))))

unfoldable pub address_draft : UpdateAddressRequest → Draft
address_draft req =
    draft_address req.alias req.line1 req.line2 req.city req.state req.zip_code req.country
      req.is_default

module _ (d : DynamoDb) where
  -- `fresh` is the identifier that `ksuid.New()` draws. The caller's address is updated in place:
  -- the operation returns it.
  unfoldable pub create_address : (fresh account_id : String) → Address → Exec d.State Address
  create_address fresh account_id addr =
      let addr' =
        (if addr.address_id == ""
          then record addr { address_id = prefixed "addr_" fresh }
          else addr) in
      do
        rethrow (conditional repo_already_exists) (
            d.write_item
              (marshal
                (address_record_from (create_pk account_id) (addr_sk addr'.address_id) addr'))
              item_not_exists)
        pure addr'

  unfoldable pub get_address : (account_id address_id : String) → Exec d.State Address
  get_address account_id address_id = do
    key ← lift (d.build_key (create_pk account_id) (addr_sk address_id))
    it ← d.get_item key
    pure (to_model (unmarshal it))

  unfoldable pub get_account_addresses : (account_id : String) → Exec d.State (List Address)
  get_account_addresses account_id = do
    its ← d.query (record {
      key_condition = begins_with (create_pk account_id) "ADDR#";
      limit = some 100;
      scan_forward = Bool.true;
    })
    pure (map (λ it. to_model (unmarshal it)) its)

  -- `if len(setClauses) == 0 { return nil }`, else the update
  abbrev pub send_update : Key → Draft → List (String × String) → Exec d.State (Unit {0})
  send_update key draft [] = pure tt
  send_update key draft (c ∷ cs) = do
    it ← rethrow (conditional repo_not_found) (d.update_item (update_of key draft))
    pure tt

  unfoldable pub update_address :
      (account_id address_id : String) → UpdateAddressRequest → Exec d.State (Unit {0})
  unfolding address_draft
  update_address account_id address_id req = do
    key ← lift (d.build_key (create_pk account_id) (addr_sk address_id))
    let draft = address_draft req
    send_update key draft draft.set

  unfoldable pub delete_address : (account_id address_id : String) → Exec d.State (Unit {0})
  delete_address account_id address_id = do
    key ← lift (d.build_key (create_pk account_id) (addr_sk address_id))
    d.delete_item key
