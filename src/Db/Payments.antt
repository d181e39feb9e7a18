-- ===== src/Db/Payments.antt =====
-- internal/db/payments.go, less the change of the default
pub mod Stored
use komodo_accounts_api.Db.Keys.{pay_sk, create_pk}
use komodo_accounts_api.Errors.{repo_not_found, repo_already_exists}
use komodo_accounts_api.Db.Draft.{conditional}
use komodo_accounts_api.Prelude.Int.{ℤ}
use komodo_accounts_api.Models.{PaymentMethod}
use komodo_accounts_api.Dynamo.Items.{
  item_exists, item_not_exists, Condition, boolean, number, get_bool, get_number, string,
  get_string, Item,
}
use komodo_accounts_api.Dynamo.{begins_with, DynamoDb}
use komodo_accounts_api.Prelude.{
  map, true, some, [], prefixed, List, Bool, if◌then◌else◌, ◌∷◌, String, ◌==◌,
}
use komodo_accounts_api.Exec.{lift, ◌>>=◌, pure, rethrow, Exec, ◌>>◌}

pub record PaymentRecord : Type 0 where
  pub pk : String
  pub sk : String
  pub payment_id : String
  pub provider : String
  pub last4 : String
  pub brand : String
  pub expiry_month : ℤ
  pub expiry_year : ℤ
  pub is_default : Bool

-- What the tags of the struct make of a record, and of an item.
abbrev pub marshal : PaymentRecord → Item
marshal r =
    ("PK", string r.pk)
    ∷ ("SK", string r.sk)
    ∷ ("payment_id", string r.payment_id)
    ∷ ("provider", string r.provider)
    ∷ ("last4", string r.last4)
    ∷ ("brand", string r.brand)
    ∷ ("expiry_month", number r.expiry_month)
    ∷ ("expiry_year", number r.expiry_year)
    ∷ ("is_default", boolean r.is_default)
    ∷ []

abbrev pub unmarshal : Item → PaymentRecord
unmarshal it = record {
  pk = get_string "PK" it;
  sk = get_string "SK" it;
  payment_id = get_string "payment_id" it;
  provider = get_string "provider" it;
  last4 = get_string "last4" it;
  brand = get_string "brand" it;
  expiry_month = get_number "expiry_month" it;
  expiry_year = get_number "expiry_year" it;
  is_default = get_bool "is_default" it;
}

abbrev pub to_model : PaymentRecord → PaymentMethod
to_model r = record {
  brand = r.brand;
  expiry_month = r.expiry_month;
  expiry_year = r.expiry_year;
  is_default = r.is_default;
  last4 = r.last4;
  payment_id = r.payment_id;
  provider = r.provider;
}

abbrev pub payment_record_from : (pk sk : String) → PaymentMethod → PaymentRecord
payment_record_from pk sk m = record {
  pk = pk;
  sk = sk;
  payment_id = m.payment_id;
  provider = m.provider;
  last4 = m.last4;
  brand = m.brand;
  expiry_month = m.expiry_month;
  expiry_year = m.expiry_year;
  is_default = m.is_default;
}

module _ (d : DynamoDb) where
  unfoldable pub get_payment : (account_id payment_id : String) → Exec d.State PaymentMethod
  get_payment account_id payment_id = do
    key ← lift (d.build_key (create_pk account_id) (pay_sk payment_id))
    it ← d.get_item key
    pure (to_model (unmarshal it))

  -- `fresh` is the identifier that `ksuid.New()` draws; the method is updated in place, so the
  -- operation returns it.
  unfoldable pub upsert_payment :
      (fresh account_id : String) → PaymentMethod → Exec d.State PaymentMethod
  upsert_payment fresh account_id method =
      let is_create = method.payment_id == "" in
      let method' =
        (if is_create then record method { payment_id = prefixed "pay_" fresh } else method) in
      do
        rethrow (conditional (if is_create then repo_already_exists else repo_not_found)) (
            d.write_item
              (marshal
                (payment_record_from (create_pk account_id) (pay_sk method'.payment_id) method'))
              (if is_create then item_not_exists else item_exists))
        pure method'

  unfoldable pub list_payments : (account_id : String) → Exec d.State (List PaymentMethod)
  list_payments account_id = do
    its ← d.query (record {
      key_condition = begins_with (create_pk account_id) "PAY#";
      limit = some 100;
      scan_forward = true;
    })
    pure (map (λ it. to_model (unmarshal it)) its)

  unfoldable pub delete_payment : (account_id payment_id : String) → Exec d.State (Unit {0})
  delete_payment account_id payment_id = do
    key ← lift (d.build_key (create_pk account_id) (pay_sk payment_id))
    d.delete_item key
